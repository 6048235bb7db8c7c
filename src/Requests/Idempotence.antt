-- ===== src/Requests/Idempotence.antt =====
-- A client submission that reaches create more than once.
use moeen.Base.{
  ◌++◌, ◌==◌, ◌∙◌, ◌∷◌, ◌≡◌, ==_refl, List, Option, Option-cases, [], ap, arith, err, find_first,
  holds, if◌then◌else◌, inl, inr, none, ok, some, true, ℕ,
}
use moeen.Store.{Db, Point, ServiceRequest, Tables, submission_conflict, submission_replay}
use moeen.Outbox.Writer.{Config}
use moeen.Requests.Create.{Submission, arbitrate, create, is_submission_of, new_request}
use moeen.Requests.Inversion.{create_inv}

find_first-append_new :
    (cid key : ℕ) (rs : List ServiceRequest) (r : ServiceRequest)
    → find_first (is_submission_of cid key) rs ≡ none
    → is_submission_of cid key r ≡ true
    → find_first (is_submission_of cid key) (rs ++ (r ∷ [])) ≡ some r
find_first-append_new cid key [] r e own = ground arith
find_first-append_new cid key (x ∷ rs) r e own = ground (arith, find_first-append_new cid key rs r)

free-arbitrate :
    (cid : ℕ) (s : Submission) (t : Tables)
    → arbitrate cid (some s) t ≡ ok tt
    → find_first (is_submission_of cid s.client_submission_id) t.requests ≡ none
unfolding arbitrate
free-arbitrate cid s t e =
    elim (Option-cases (find_first (is_submission_of cid s.client_submission_id) t.requests)) [
      | inl free ↦ free
      | inr (r, taken) ↦ absurd (ground arith)
    ]

taken-create :
    (cfg : Config) (now service cid : ℕ) (location : Option Point) (s : Submission) (db : Db)
    (r : ServiceRequest)
    → find_first (is_submission_of cid s.client_submission_id) db.requests ≡ some r
    → create cfg now service cid location (some s) db
      ≡ err (
          if holds r.submission_fingerprint s.submission_fingerprint
          then submission_replay
          else submission_conflict)
unfolding create arbitrate
taken-create cfg now service cid location s db r taken = ground arith

-- Once a submission has created a request, the customer's next submission under the same key, for
-- whatever service and place, creates none: it is a replay if its fingerprint is the same, and a
-- conflict if not.
pub create-create :
    (cfg : Config) (now service cid : ℕ) (location : Option Point) (s : Submission) (db db' : Db)
    (row : ServiceRequest)
    → create cfg now service cid location (some s) db ≡ ok (db', row)
    → (later other : ℕ) (place : Option Point) (print : ℕ)
    → create cfg later other cid place
        (some (record {
          client_submission_id = s.client_submission_id;
          submission_fingerprint = print;
        }))
        db'
      ≡ err (if s.submission_fingerprint == print then submission_replay else submission_conflict)
create-create cfg now service cid location s db db' row done later other place print =
    let (fresh, same, os, left) =
      create_inv cfg now db db' service cid location (some s) row done in
    let new = new_request service cid location (some s) db.tables in
    let taken : find_first (is_submission_of cid s.client_submission_id) db'.requests ≡ some new =
      ap (λ (t : Tables). find_first (is_submission_of cid s.client_submission_id) t.requests) left
      ∙ find_first-append_new cid s.client_submission_id db.requests new
          (free-arbitrate cid s db.tables fresh)
          (ground (arith, ==_refl cid, ==_refl s.client_submission_id)) in
    taken-create cfg later other cid place _ db' new taken
