-- ===== src/System/TrackedSteps.antt =====
-- The transactions one by one, against the invariant of Tracking/Carried.
use Prim.Native.String.{String}
use moeen.Base.{
  ◌∷◌, ◌≡◌, Bool, List, Option, Outcome, [], committed, committed_cases, inl, inr, ok, refl, ℕ,
}
use moeen.Store.{
  AuditSpec, Db, Error, Point, ProviderStatus, RequestStatus, StopReason, VerificationStatus,
}
use moeen.Market.Decide.{Decision, decide_quote}
use moeen.Market.Inversion.{
  close_provider_opportunity_inv, decide_quote_inv, invite_providers_to_request_inv,
  propose_quote_inv, submit_provider_quote_inv, withdraw_provider_quote_inv,
}
use moeen.Market.Marketplace.{
  close_provider_opportunity, invite_providers_to_request, withdraw_provider_quote, withdraw_tables,
}
use moeen.Market.Propose.{insert_quote, propose_quote, submit_provider_quote, submit_tables}
use moeen.Outbox.Writer.{Config}
use moeen.Payments.Collect.{collect_cash_payment, refund_cash_payment, set_payment}
use moeen.Payments.Inversion.{collect_cash_payment_inv, refund_cash_payment_inv}
use moeen.Providers.Inversion.{
  update_pilot_provider_verification_inv, update_provider_availability_inv,
}
use moeen.Providers.Verify.{
  set_provider, update_pilot_provider_verification, update_provider_availability,
}
use moeen.Requests.Assign.{assign_provider, assign_row, assign_tables}
use moeen.Requests.Create.{Submission, create, new_request, rate_request, rate_row}
use moeen.Requests.Inversion.{
  assign_provider_inv, create_inv, rate_request_inv, update_status_for_provider_inv,
  update_status_inv,
}
use moeen.Requests.Transition.{update_status, update_status_for_provider}
use moeen.System.Moves.{staff-Edge}
use moeen.System.TrackedTables.{
  SameTracking, claim-Carried, decision-Carried, provider_step-Carried, same-Carried,
  transition-Carried, verification-Carried,
}
use moeen.Tracking.Carried.{Carried, append-Carried, update-Carried}
use moeen.Tracking.Inversion.{
  conclude_inv, prune_provider_tracking_data_inv, stop_provider_tracking_for_operations_inv,
  submit_provider_location_sample_inv,
}
use moeen.Tracking.Live.{accept-Carried, halt-Carried, prune-Carried}
use moeen.Tracking.Operations.{stop_provider_tracking_for_operations}
use moeen.Tracking.Retention.{prune_provider_tracking_data}
use moeen.Tracking.Sample.{Sample, judge, submit_provider_location_sample}

module _ (cfg : Config) (now : ℕ) (db : Db) (h : Carried db.tables) where
  abbrev Keeps {ℓ} : {A : Type ℓ} → Outcome Error (Db × A) → Type 0
  Keeps o = Carried (committed db o).tables

  abbrev keep {ℓ} :
      {A : Type ℓ} (o : Outcome Error (Db × A))
      → ((s : Db) (a : A) → o ≡ ok (s, a) → Carried s.tables)
      → Keeps o
  keep o = committed_cases (λ s. Carried s.tables) db o h

  pub creates-Carried :
      (service cid : ℕ) (location : Option Point) (submission : Option Submission)
      → Keeps (create cfg now service cid location submission db)
  creates-Carried service cid location submission = keep _ λ s a e.
      let (fresh, row, os, left) = create_inv cfg now db s service cid location submission a e in
      rw left (
        append-Carried db.requests (new_request service cid location submission db.tables ∷ [])
          db.sessions db.positions h)

  pub rates-Carried :
      (rid cid rating : ℕ) (comment : Option String)
      → Keeps (rate_request rid cid rating comment db)
  rates-Carried rid cid rating comment = keep _ λ s a e.
      let (r, found, own, done, unrated, left) =
        rate_request_inv cfg now db s rid cid rating comment a e in
      rw left (
        update-Carried rid (rate_row rating comment) db.requests (λ x. refl) r db.sessions
          db.positions found (λ on. (on, refl)) h)

  pub assigns-Carried :
      (rid pid : ℕ) (audit : Option AuditSpec) → Keeps (assign_provider cfg now rid pid audit db)
  unfolding assign_tables
  assigns-Carried rid pid audit = keep _ λ s a e.
      let (r, found, waits, p, known, able, left) =
        assign_provider_inv cfg now db s rid pid audit a e in
      rw left (claim-Carried rid (assign_row pid) r db.tables (λ x. refl) found waits h)

  pub updates_status-Carried :
      (rid : ℕ) (status : RequestStatus) (audit : Option AuditSpec)
      → Keeps (update_status cfg now rid status audit db)
  updates_status-Carried rid status audit = keep _ λ s a e.
      let (previous, allowed, r, found, next, staff, left) =
        update_status_inv cfg now db s rid status audit a e in
      rw left (
        transition-Carried now rid status r db.tables found
          (staff-Edge status r.status previous allowed next) h)

  pub updates_status_for_provider-Carried :
      (rid pid : ℕ) (target : ProviderStatus)
      → Keeps (update_status_for_provider cfg now rid pid target db)
  updates_status_for_provider-Carried rid pid target = keep _ λ s a e.
      let (r, found, own, next, left) =
        update_status_for_provider_inv cfg now db s rid pid target a e in
      provider_step-Carried cfg now rid pid target r db.tables s.tables found own left h

  pub decides-Carried :
      (rid cid qid : ℕ) (decision : Decision) → Keeps (decide_quote cfg now rid cid qid decision db)
  decides-Carried rid cid qid decision = keep _ λ s a e.
      let (q, r, quote, request, own, customer, is_open, timely, left) =
        decide_quote_inv cfg now db s rid cid qid decision a e in
      rw left (decision-Carried now rid q r decision db.tables request timely h)

  pub verifies-Carried :
      (pid : ℕ) (status : VerificationStatus) (audit : Option AuditSpec)
      (expected : Option VerificationStatus)
      → Keeps (update_pilot_provider_verification cfg now pid status audit expected db)
  verifies-Carried pid status audit expected = keep _ λ s a e.
      let (p, found, met, left) =
        update_pilot_provider_verification_inv db s cfg now pid status audit expected a e in
      rw left (verification-Carried cfg now pid status db.tables h)

  pub submits_sample-Carried :
      (distance : Point → Point → ℕ) (rid pid : ℕ) (sample : Sample)
      → Keeps (submit_provider_location_sample distance cfg now rid pid sample db)
  submits_sample-Carried distance rid pid sample = keep _ λ s a e.
      let (r, found, own, active, x, live, mine, on, late, e1) =
        submit_provider_location_sample_inv distance cfg now db s rid pid sample a e in
      elim (conclude_inv distance cfg now db s r x rid pid sample (judge rid pid sample db.tables) a
        e1) [
          | inl (acc, left, dup, pos, seen, log) ↦
              rw left
                (accept-Carried distance now rid pid r.location sample x db.tables live mine on h)
          | inr (dup, same) ↦ rw same h
        ]

  pub stops_tracking-Carried :
      (rid : ℕ) → Keeps (stop_provider_tracking_for_operations cfg now rid db)
  stops_tracking-Carried rid = keep _ λ s a e.
      let (r, found, left) = stop_provider_tracking_for_operations_inv cfg now db s rid a e in
      rw left (halt-Carried now rid StopReason.operations_emergency db.tables h)

  pub prunes-Carried :
      (raw derived batch : ℕ) → Keeps (prune_provider_tracking_data raw derived batch db)
  prunes-Carried raw derived batch = keep _ λ s a e.
      rw (prune_provider_tracking_data_inv db s raw derived batch a e).1
        (prune-Carried raw derived batch db.tables h)

  -- The other transactions leave requests, sessions and positions alone.
  pub others-Carried {ℓ} :
      {A : Type ℓ} (o : Outcome Error (Db × A))
      → ((s : Db) (a : A) → o ≡ ok (s, a) → SameTracking db.tables s.tables)
      → Keeps o
  others-Carried o same = keep o λ s a e. same-Carried db.tables s.tables (same s a e) h

  pub proposes-Carried :
      (rid amount : ℕ) (scope : String) (audit : Option AuditSpec)
      → Keeps (propose_quote cfg now rid amount scope audit db)
  unfolding insert_quote
  proposes-Carried rid amount scope audit = others-Carried _ λ s a e.
      let (r, found, early, free, direct, left) =
        propose_quote_inv cfg now db s rid amount scope audit a e in
      rw left (refl, refl, refl)

  pub submits-Carried :
      (rid pid amount : ℕ) (scope : String)
      → Keeps (submit_provider_quote cfg now rid pid amount scope db)
  unfolding submit_tables insert_quote
  submits-Carried rid pid amount scope = others-Carried _ λ s a e.
      let (r, found, waits, first, left) =
        submit_provider_quote_inv cfg now db s rid pid amount scope a e in
      rw left (refl, refl, refl)

  pub invites-Carried :
      (rid : ℕ) (pids : List ℕ) (audit : Option AuditSpec)
      → Keeps (invite_providers_to_request cfg now rid pids audit db)
  invites-Carried rid pids audit = others-Carried _ λ s a e.
      let (os, left) = invite_providers_to_request_inv cfg now db s rid pids audit a e in
      rw left (refl, refl, refl)

  pub withdraws-Carried : (qid pid : ℕ) → Keeps (withdraw_provider_quote cfg now qid pid db)
  unfolding withdraw_tables
  withdraws-Carried qid pid = others-Carried _ λ s a e.
      let (q, quote, own, is_open, left) = withdraw_provider_quote_inv cfg now db s qid pid a e in
      rw left (refl, refl, refl)

  pub closes-Carried :
      (rid pid : ℕ) (audit : Option AuditSpec)
      → Keeps (close_provider_opportunity cfg now rid pid audit db)
  closes-Carried rid pid audit =
      others-Carried _ λ s a e.
        rw (close_provider_opportunity_inv cfg now db s rid pid audit a e) (refl, refl, refl)

  pub collects-Carried :
      (rid : ℕ) (audit : Option AuditSpec) → Keeps (collect_cash_payment now rid audit db)
  unfolding set_payment
  collects-Carried rid audit = others-Carried _ λ s a e.
      let (p, paid, r, found, due, done, left, row) =
        collect_cash_payment_inv now db s rid audit a e in
      rw left (refl, refl, refl)

  pub refunds-Carried :
      (rid : ℕ) (audit : Option AuditSpec) → Keeps (refund_cash_payment now rid audit db)
  unfolding set_payment
  refunds-Carried rid audit = others-Carried _ λ s a e.
      let (p, paid, collected, left, row) = refund_cash_payment_inv now db s rid audit a e in
      rw left (refl, refl, refl)

  pub sets_availability-Carried :
      (pid : ℕ) (available : Bool) → Keeps (update_provider_availability pid available db)
  unfolding set_provider
  sets_availability-Carried pid available = others-Carried _ λ s a e.
      let (p, found, verified, left) = update_provider_availability_inv db s pid available a e in
      rw left (refl, refl, refl)
