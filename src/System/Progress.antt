-- ===== src/System/Progress.antt =====
-- A request at two times of a history of transactions.
use moeen.Base.{
  ◌==◌, ◌||◌, ◌∙◌, ◌∷◌, ◌≡◌, Bool, Bool-cases, List, [], arith, false, find_by, find_by-update_by,
  find_first-append, inl, inr, refl, some, subst, sym, true, ℕ,
}
use moeen.Store.{Db, Point, RequestStatus, ServiceRequest, find_request, status_eq}
use moeen.Outbox.Writer.{Config}
use moeen.System.{Command, run, step}
use moeen.System.Moves.{
  Change, Edge, Move, added, advanced, begins, calls_off, departs, dispatched, drops, finishes,
  kept, moved, rated, turns_back,
}
use moeen.System.Refinement.{step-Change}

-- A way of the status through the machine of System/Moves.
pub data Route : RequestStatus → RequestStatus → Type 0 where
  stays : {a : RequestStatus} → Route a a
  dispatches :
      {c : RequestStatus} → Route RequestStatus.assigned c → Route RequestStatus.pending_dispatch c
  follows : {a b c : RequestStatus} → Edge a b → Route b c → Route a c

Route-trans : {a b c : RequestStatus} → Route a b → Route b c → Route a c
Route-trans stays q = q
Route-trans (dispatches p) q = dispatches (Route-trans p q)
Route-trans (follows e p) q = follows e (Route-trans p q)

abbrev is_pending : RequestStatus → Bool
is_pending s = status_eq s RequestStatus.pending_dispatch

Edge-leaves : {a b : RequestStatus} → Edge a b → is_pending b ≡ false
Edge-leaves departs = refl
Edge-leaves begins = refl
Edge-leaves finishes = refl
Edge-leaves drops = refl
Edge-leaves calls_off = refl
Edge-leaves turns_back = refl

-- Nothing returns to pending dispatch.
Route-leaves : {a b : RequestStatus} → Route a b → is_pending a ≡ false → is_pending b ≡ false
Route-leaves stays h = h
Route-leaves (dispatches p) h = absurd (ground arith)
Route-leaves (follows e p) h = Route-leaves p (Edge-leaves e)

-- A completed or cancelled request has no way out.
abbrev pub is_final : RequestStatus → Bool
is_final s = status_eq s RequestStatus.completed || status_eq s RequestStatus.cancelled

Edge-starts : {a b : RequestStatus} → Edge a b → is_final a ≡ false
Edge-starts departs = refl
Edge-starts begins = refl
Edge-starts finishes = refl
Edge-starts drops = refl
Edge-starts calls_off = refl
Edge-starts turns_back = refl

Route-final : {a b : RequestStatus} → Route a b → is_final a ≡ true → b ≡ a
Route-final stays h = refl
Route-final (dispatches p) h = absurd (ground arith)
Route-final (follows e p) h = absurd (ground (arith, Edge-starts e))

-- The later form of a request, against the earlier one.
pub record Grows (r r' : ServiceRequest) : Type 0 where
  pub customer : r'.customer_id ≡ r.customer_id
  pub service : r'.service_id ≡ r.service_id
  pub place : r'.location ≡ r.location
  pub route : Route r.status r'.status
  pub owner : is_pending r.status ≡ false → r'.assigned_provider_id ≡ r.assigned_provider_id
  pub stars : (n : ℕ) → r.rating ≡ some n → r'.rating ≡ some n

Grows-refl : (r : ServiceRequest) → Grows r r
Grows-refl r = record {
  customer = refl;
  service = refl;
  place = refl;
  route = stays;
  owner = λ h. refl;
  stars = λ n h. h;
}

Grows-trans : {a b c : ServiceRequest} → Grows a b → Grows b c → Grows a c
Grows-trans p q = record {
  customer = q.customer ∙ p.customer;
  service = q.service ∙ p.service;
  place = q.place ∙ p.place;
  route = Route-trans p.route q.route;
  owner = λ h. q.owner (Route-leaves p.route h) ∙ p.owner h;
  stars = λ n h. q.stars n (p.stars n h);
}

Move-Grows : {r r' : ServiceRequest} → Move r r' → Grows r r'
Move-Grows (dispatched r pid waits) = record {
  customer = refl;
  service = refl;
  place = refl;
  route = subst (λ s. Route s RequestStatus.assigned) (sym waits) (dispatches stays);
  owner = λ h. absurd (ground arith);
  stars = λ n h. h;
}
Move-Grows (advanced r status edge) = record {
  customer = refl;
  service = refl;
  place = refl;
  route = follows edge stays;
  owner = λ h. refl;
  stars = λ n h. h;
}
Move-Grows (rated r stars comment done unrated) = record {
  customer = refl;
  service = refl;
  place = refl;
  route = stays;
  owner = λ h. refl;
  stars = λ n h. absurd (ground arith);
}

abbrev pub by_id : ServiceRequest → ℕ
by_id r = r.id

-- The request `rid` is still there after a change, grown.
abbrev Kept : ℕ → ServiceRequest → List ServiceRequest → Type 0
Kept rid r rs = (r' : ServiceRequest) × (find_by by_id rid rs ≡ some r') × Grows r r'

Change-Grows :
    (next rid : ℕ) (before after : List ServiceRequest) (r : ServiceRequest)
    → Change next before after
    → find_by by_id rid before ≡ some r
    → Kept rid r after
Change-Grows next rid before after r (kept same) found = (r, rw same found, Grows-refl r)
Change-Grows next rid before after r (added new fresh waits free unrated left) found =
    (r, rw left (find_first-append (λ x. x.id == rid) before (new ∷ []) r found), Grows-refl r)
Change-Grows next rid before after r (moved k x f hit keeps move left) found =
    elim (Bool-cases (k == rid)) [
      | inl e ↦
          let same : x ≡ r = ground arith in
          (
            f r,
            ground (arith, find_by-update_by by_id k rid f before keeps),
            subst (λ y. Grows y (f y)) same (Move-Grows move),
          )
      | inr e ↦ (r, ground (arith, find_by-update_by by_id k rid f before keeps), Grows-refl r)
    ]

module _ (distance : Point → Point → ℕ) (cfg : Config) where
  -- After any history of transactions, whatever the database it began with, a request that was
  -- there is still there: for the same customer, service and place; with a status that the life of
  -- a request leads to from the old one; with the provider it had, unless it was pending dispatch;
  -- and with the rating it had, if any.
  pub run-Grows :
      (cs : List (ℕ × Command)) (db : Db) (rid : ℕ) (r : ServiceRequest)
      → find_request rid db.tables ≡ some r
      → (r' : ServiceRequest) × (find_request rid (run distance cfg cs db).tables ≡ some r')
        × Grows r r'
  unfolding run
  run-Grows [] db rid r found = (r, found, Grows-refl r)
  run-Grows (c ∷ cs) db rid r found =
      let (x, alive, first) =
        Change-Grows db.next_request_id rid db.requests _ r (step-Change distance cfg c db) found in
      let (r', left, later) = run-Grows cs (step distance cfg c db) rid x alive in
      (r', left, Grows-trans first later)

  -- After any history, a request that was completed or cancelled has the status it had.
  pub run-final :
      (cs : List (ℕ × Command)) (db : Db) (rid : ℕ) (r : ServiceRequest)
      → find_request rid db.tables ≡ some r
      → is_final r.status ≡ true
      → (r' : ServiceRequest) × (find_request rid (run distance cfg cs db).tables ≡ some r')
        × (r'.status ≡ r.status)
  run-final cs db rid r found final =
      let (r', left, grown) = run-Grows cs db rid r found in
      (r', left, Route-final grown.route final)
