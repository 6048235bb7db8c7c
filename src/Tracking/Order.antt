-- ===== src/Tracking/Order.antt =====
-- The order of the samples of a session: what submitProviderLocationSample accepts, and repeats.
use moeen.Base.{
  ◌<◌, ◌==◌, ◌∙◌, ◌∷◌, ◌≡◌, ◌≤◌, Bool, List, [], ap, arith, false, find_by, find_first,
  found-update_first, guard-eq-ok, holds, inl, inr, int_eq, int_eq_iff, is_some, length,
  length-append, ok, refl, some, suc, true, update_by, ℕ, ℤ,
}
use moeen.Store.{
  CurrentPosition, Db, Point, ServiceRequest, Tables, TrackingSession, find_request, find_session,
  is_active_session, tracking_disabled,
}
use moeen.Outbox.Writer.{Config}
use moeen.Tracking.Arrival.{record_evidence, record_qualifying}
use moeen.Tracking.Inversion.{conclude_inv, submit_provider_location_sample_inv}
use moeen.Tracking.Sample.{
  Sample, SubmissionResult, accept, accept_tables, conclude, distance_to, is_position_of,
  is_trackable, judge, judge_against, judge_older, new_position, qualifies, repeat, same_values,
  submit_provider_location_sample, upsert_position,
}

-- What lets a sample through: there is no current position of the provider, or an older one.
judge-accept :
    (rid pid : ℕ) (s : Sample) (t : Tables)
    → judge rid pid s t ≡ accept
    → (p : CurrentPosition) → find_first (is_position_of rid pid) t.positions ≡ some p
    → p.captured_at < s.captured_at
unfolding judge judge_against judge_older
judge-accept rid pid s t e p found = ground arith

find_first-upsert_position :
    (received rid pid : ℕ) (s : Sample) (ps : List CurrentPosition)
    → find_first (is_position_of rid pid) (upsert_position (new_position received rid pid s) ps)
      ≡ some (new_position received rid pid s)
find_first-upsert_position received rid pid s [] = ground arith
find_first-upsert_position received rid pid s (p ∷ ps) =
    ground (arith, find_first-upsert_position received rid pid s ps)

int_eq_refl : (a : ℤ) → int_eq a a ≡ true
int_eq_refl a = (int_eq_iff a a).1 refl

record_evidence-key :
    (qualifying : Bool) (captured received : ℕ) (s : TrackingSession)
    → ((record_evidence qualifying captured received s).request_id ≡ s.request_id)
      × ((record_evidence qualifying captured received s).provider_id ≡ s.provider_id)
      × ((record_evidence qualifying captured received s).state ≡ s.state)
      × ((record_evidence qualifying captured received s).started_at ≡ s.started_at)
unfolding record_evidence record_qualifying
record_evidence-key true captured received s = (refl, refl, refl, refl)
record_evidence-key false captured received s = (refl, refl, refl, refl)

repeat-submit :
    (distance : Point → Point → ℕ) (cfg : Config) (later rid pid : ℕ) (s : Sample) (db : Db)
    (r : ServiceRequest) (y : TrackingSession) (current : CurrentPosition)
    → cfg.tracking_enabled ≡ true
    → find_request rid db.tables ≡ some r
    → holds r.assigned_provider_id pid ≡ true
    → is_trackable r.status ≡ true
    → find_session rid db.tables ≡ some y
    → y.provider_id ≡ pid
    → is_active_session y.state ≡ true
    → y.started_at ≤ s.captured_at
    → judge rid pid s db.tables ≡ repeat current
    → submit_provider_location_sample distance cfg later rid pid s db
      ≡ ok (
        db,
        record {
          position = current;
          arrival_observed = is_some y.arrival_observed_at;
          duplicate = true;
        },
      )
unfolding submit_provider_location_sample conclude
repeat-submit distance cfg later rid pid s db r y current on found own tracked session mine active
      late verdict =
    ground arith

submit-enabled :
    (distance : Point → Point → ℕ) (cfg : Config) (received rid pid : ℕ) (s : Sample) (db db' : Db)
    (out : SubmissionResult)
    → submit_provider_location_sample distance cfg received rid pid s db ≡ ok (db', out)
    → cfg.tracking_enabled ≡ true
unfolding submit_provider_location_sample
submit-enabled distance cfg received rid pid s db db' out e =
    (guard-eq-ok cfg.tracking_enabled tracking_disabled _ e).0

module _ (distance : Point → Point → ℕ) (cfg : Config) (received rid pid : ℕ) (s : Sample)
    (db db' : Db) (out : SubmissionResult)
    (accepted : submit_provider_location_sample distance cfg received rid pid s db ≡ ok (db', out))
    (fresh : out.duplicate ≡ false) where
  -- An accepted sample was taken while the session ran, and after the current position of the
  -- provider, if there is one; it becomes the current position, one more sample is stored, and the
  -- journal does not change.
  pub submit-order :
      (x : TrackingSession) × (find_session rid db.tables ≡ some x)
      × (is_active_session x.state ≡ true)
      × (x.provider_id ≡ pid)
      × (x.started_at ≤ s.captured_at)
      × ((p : CurrentPosition)
          → find_first (is_position_of rid pid) db.positions ≡ some p
          → p.captured_at < s.captured_at)
      × (find_first (is_position_of rid pid) db'.positions ≡ some (new_position received rid pid s))
      × (length db'.samples ≡ suc (length db.samples))
      × (db'.journal ≡ db.journal)
  unfolding accept_tables
  submit-order =
      let (r, found, own, on, x, live, mine, active, late, e) =
        submit_provider_location_sample_inv distance cfg received db db' rid pid s out accepted in
      elim (conclude_inv distance cfg received db db' r x rid pid s (judge rid pid s db.tables) out
        e) [
          | inr (dup, same) ↦ absurd (ground arith)
          | inl (acc, left, dup, pos, seen, log) ↦ (
            x,
            live,
            active,
            mine,
            late,
            judge-accept rid pid s db.tables acc,
            rw left (find_first-upsert_position received rid pid s db.positions),
            rw left (omega (arith, length-append db.samples (_ ∷ []))),
            log,
          )
        ]

  same_values_self : same_values s.point.latitude s.point.longitude s.accuracy_millimeters s ≡ true
  same_values_self = ground (arith, int_eq_refl s.point.latitude, int_eq_refl s.point.longitude)

  judge-again : judge rid pid s db'.tables ≡ repeat (new_position received rid pid s)
  unfolding judge judge_against
  judge-again =
      let (x, live, active, mine, late, older, now_current, stored, log) = submit-order in
      ground (arith, now_current, same_values_self)

  -- The same sample again, at any later time, is a repeat: it reports the position and the arrival
  -- that the first submission reported, and changes nothing.
  pub submit-submit :
      (later : ℕ)
      → submit_provider_location_sample distance cfg later rid pid s db'
        ≡ ok (db', record out { duplicate = true })
  unfolding accept_tables
  submit-submit later =
      let (r, found, own, on, x, live, mine, active, late, e) =
        submit_provider_location_sample_inv distance cfg received db db' rid pid s out accepted in
      elim (conclude_inv distance cfg received db db' r x rid pid s (judge rid pid s db.tables) out
        e) [
          | inr (dup, same) ↦ absurd (ground arith)
          | inl (acc, left, dup, pos, seen, log) ↦
              let q = qualifies distance (distance_to distance r.location s) s in
              let f = record_evidence q s.captured_at received in
              let (request, provider, state, start) =
                record_evidence-key q s.captured_at received x in
              let same : db'.requests ≡ db.requests = ap (λ (t : Tables). t.requests) left in
              let sessions : db'.sessions
                  ≡ update_by (λ (y : TrackingSession). y.request_id) rid f db.sessions =
                ap (λ (t : Tables). t.sessions) left in
              let still : find_request rid db'.tables ≡ some r =
                ap (find_by (λ (y : ServiceRequest). y.id) rid) same ∙ found in
              let session : find_session rid db'.tables ≡ some (f x) =
                ap (find_by (λ (y : TrackingSession). y.request_id) rid) sessions
                ∙ found-update_first (λ (y : TrackingSession). y.request_id == rid) f db.sessions x
                    (λ y own. ground (arith, record_evidence-key q s.captured_at received y))
                    live in
              let again =
                repeat-submit distance cfg later rid pid s db' r (f x)
                  (new_position received rid pid s)
                  (submit-enabled distance cfg received rid pid s db db' out accepted) still own on
                  session (provider ∙ mine) (ap is_active_session state ∙ active)
                  (omega (arith, late, start)) judge-again in
              again ∙ ground arith
        ]
