-- ===== src/System/Tracked.antt =====
-- Histories of transactions, against the invariant of Tracking/Carried.
use moeen.Base.{◌∷◌, ◌≡◌, All, Bool-cases, List, [], all, any, arith, inl, inr, subst, true, ℕ}
use moeen.Store.{CurrentPosition, Db, Point, Provider, Tables, TrackingSession, find_request}
use moeen.Outbox.Writer.{Config}
use moeen.System.{
  Command, assigns, closes, collects, creates, decides, invites, opening, proposes, prunes, rates,
  refunds, run, sets_availability, step, stops_tracking, submits, submits_sample, updates_status,
  updates_status_for_provider, verifies, withdraws,
}
use moeen.System.TrackedSteps.{
  assigns-Carried, closes-Carried, collects-Carried, creates-Carried, decides-Carried,
  invites-Carried, proposes-Carried, prunes-Carried, rates-Carried, refunds-Carried,
  sets_availability-Carried, stops_tracking-Carried, submits-Carried, submits_sample-Carried,
  updates_status-Carried, updates_status_for_provider-Carried, verifies-Carried, withdraws-Carried,
}
use moeen.Tracking.Carried.{Carried, is_carried_by, is_rightful, is_source}

module _ (distance : Point → Point → ℕ) (cfg : Config) where
  step-Carried :
      (c : ℕ × Command) (db : Db) → Carried db.tables → Carried (step distance cfg c db).tables
  unfolding step
  step-Carried (now, creates service cid location submission) db h =
      creates-Carried cfg now db h service cid location submission
  step-Carried (now, rates rid cid rating comment) db h =
      rates-Carried cfg now db h rid cid rating comment
  step-Carried (now, assigns rid pid audit) db h = assigns-Carried cfg now db h rid pid audit
  step-Carried (now, updates_status rid status audit) db h =
      updates_status-Carried cfg now db h rid status audit
  step-Carried (now, updates_status_for_provider rid pid target) db h =
      updates_status_for_provider-Carried cfg now db h rid pid target
  step-Carried (now, proposes rid amount scope audit) db h =
      proposes-Carried cfg now db h rid amount scope audit
  step-Carried (now, submits rid pid amount scope) db h =
      submits-Carried cfg now db h rid pid amount scope
  step-Carried (now, decides rid cid qid decision) db h =
      decides-Carried cfg now db h rid cid qid decision
  step-Carried (now, invites rid pids audit) db h = invites-Carried cfg now db h rid pids audit
  step-Carried (now, withdraws qid pid) db h = withdraws-Carried cfg now db h qid pid
  step-Carried (now, closes rid pid audit) db h = closes-Carried cfg now db h rid pid audit
  step-Carried (now, collects rid audit) db h = collects-Carried cfg now db h rid audit
  step-Carried (now, refunds rid audit) db h = refunds-Carried cfg now db h rid audit
  step-Carried (now, verifies pid status audit expected) db h =
      verifies-Carried cfg now db h pid status audit expected
  step-Carried (now, sets_availability pid available) db h =
      sets_availability-Carried cfg now db h pid available
  step-Carried (now, submits_sample rid pid s) db h =
      submits_sample-Carried cfg now db h distance rid pid s
  step-Carried (now, stops_tracking rid) db h = stops_tracking-Carried cfg now db h rid
  step-Carried (now, prunes raw derived batch) db h = prunes-Carried cfg now db h raw derived batch

  run-Carried :
      (cs : List (ℕ × Command)) (db : Db)
      → Carried db.tables
      → Carried (run distance cfg cs db).tables
  unfolding run
  run-Carried [] db h = h
  run-Carried (c ∷ cs) db h = run-Carried cs (step distance cfg c db) (step-Carried c db h)

  opening-Carried :
      (providers : List Provider) (staff : List ℕ) → Carried (opening providers staff).tables
  unfolding opening
  opening-Carried providers staff = record { rightful = tt; sourced = tt }

  -- After any history of transactions on a database that holds providers and staff only: every
  -- active tracking session is that of the provider assigned to its request, which is on the way
  -- or in progress, and every stored current position has such a session.
  pub run-opening-Carried :
      (providers : List Provider) (staff : List ℕ) (cs : List (ℕ × Command))
      → Carried (run distance cfg cs (opening providers staff)).tables
  run-opening-Carried providers staff cs =
      run-Carried cs (opening providers staff) (opening-Carried providers staff)

-- Where the invariant holds, a stored position of a request is of the provider assigned to it.
pub any-carried :
    (t : Tables) (p : CurrentPosition) (ss : List TrackingSession)
    → All (λ s. is_rightful t.requests s ≡ true) ss
    → any (is_source p) ss ≡ true
    → is_carried_by p.provider_id (find_request p.request_id t) ≡ true
any-carried t p [] all e = absurd (ground arith)
any-carried t p (s ∷ ss) all e = elim (Bool-cases (is_source p s)) [
  | inl from ↦
      let request : s.request_id ≡ p.request_id = ground arith in
      let provider : s.provider_id ≡ p.provider_id = ground arith in
      subst (λ j. is_carried_by j (find_request p.request_id t) ≡ true) provider
        (subst (λ j. is_carried_by s.provider_id (find_request j t) ≡ true) request
          (ground (arith, all.0)))
  | inr other ↦ any-carried t p ss all.1 (ground arith)
]
