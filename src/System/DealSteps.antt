-- ===== src/System/DealSteps.antt =====
-- The transactions one by one, against the invariant of Deals.
use Prim.Native.String.{String}
use moeen.Base.{
  ◌&&◌, ◌≡◌, Bool, Bool-cases, List, Option, Outcome, arith, committed, committed_cases,
  find_by-key, inl, inr, not, ok, refl, some, ℕ,
}
use moeen.Store.{
  AuditSpec, Db, Error, Point, ProviderStatus, Quote, RequestStatus, Tables, VerificationStatus,
  find_quote, is_verified,
}
use moeen.Deals.{Deals}
use moeen.Deals.Decision.{create-Deals, decision_tables-Deals}
use moeen.Deals.Tables.{
  assign_tables-Deals, insert_staff_quote-Deals, rate-Deals, set_payment-Deals, status_tables-Deals,
  submit_tables-Deals, withdraw_tables-Deals,
}
use moeen.Market.Decide.{Decision, decide_quote}
use moeen.Market.Inversion.{
  close_provider_opportunity_inv, decide_quote_inv, invite_providers_to_request_inv,
  propose_quote_inv, submit_provider_quote_inv, withdraw_provider_quote_inv,
}
use moeen.Market.Marketplace.{
  close_provider_opportunity, invite_providers_to_request, withdraw_provider_quote,
}
use moeen.Market.Propose.{propose_quote, submit_provider_quote}
use moeen.Outbox.Writer.{Config}
use moeen.Payments.Collect.{collect_cash_payment, collect_row, refund_cash_payment, refund_row}
use moeen.Payments.Inversion.{collect_cash_payment_inv, refund_cash_payment_inv}
use moeen.Providers.Inversion.{
  update_pilot_provider_verification_inv, update_provider_availability_inv,
}
use moeen.Providers.Verify.{
  set_provider, update_pilot_provider_verification, update_provider_availability,
  verification_tables,
}
use moeen.Requests.Assign.{assign_provider}
use moeen.Requests.Create.{Submission, create, rate_request}
use moeen.Requests.Inversion.{
  assign_provider_inv, create_inv, rate_request_inv, update_status_for_provider_inv,
  update_status_inv,
}
use moeen.Requests.Transition.{
  provider_tracking_step, stop_if_terminal, to_status, update_status, update_status_for_provider,
}
use moeen.Tracking.Inversion.{
  conclude_inv, prune_provider_tracking_data_inv, stop_provider_tracking_for_operations_inv,
  submit_provider_location_sample_inv,
}
use moeen.Tracking.Operations.{stop_provider_tracking_for_operations}
use moeen.Tracking.Retention.{prune_provider_tracking_data}
use moeen.Tracking.Sample.{Sample, accept_tables, judge, submit_provider_location_sample}
use moeen.Tracking.Session.{start_provider_tracking, stop_provider_tracking}

-- The tracking of a request is no part of its deal.
stop_if_terminal-Deals :
    (now rid : ℕ) (status : RequestStatus) (t : Tables)
    → Deals t
    → Deals (stop_if_terminal now rid status t)
unfolding stop_if_terminal
stop_if_terminal-Deals now rid RequestStatus.completed t h = h
stop_if_terminal-Deals now rid RequestStatus.cancelled t h = h
stop_if_terminal-Deals now rid _ t h = h

provider_tracking_step-Deals :
    (cfg : Config) (now rid pid : ℕ) (target : ProviderStatus) (t t' : Tables)
    → provider_tracking_step cfg now rid pid target t ≡ ok t'
    → Deals t
    → Deals t'
unfolding provider_tracking_step start_provider_tracking
provider_tracking_step-Deals cfg now rid pid target t t' e h =
    let same : (t'.requests ≡ t.requests)
        × (t'.quotes ≡ t.quotes)
        × (t'.payments ≡ t.payments)
        × (t'.next_request_id ≡ t.next_request_id) =
      ground arith in
    let (r, q, p, n) = same in rw (r, q, p, n) h

verification_tables-Deals :
    (cfg : Config) (now pid : ℕ) (status : VerificationStatus) (t : Tables)
    → Deals t
    → Deals (verification_tables cfg now pid status t)
unfolding verification_tables
verification_tables-Deals cfg now pid status t h =
    elim (Bool-cases (not (is_verified status) && cfg.tracking_enabled)) [
      | inl e ↦ rw e h
      | inr e ↦ rw e h
    ]

module _ (cfg : Config) (now : ℕ) (db : Db) (h : Deals db.tables) where
  abbrev Keeps {ℓ} : {A : Type ℓ} → Outcome Error (Db × A) → Type 0
  Keeps o = Deals (committed db o).tables

  abbrev keep {ℓ} :
      {A : Type ℓ} (o : Outcome Error (Db × A))
      → ((s : Db) (a : A) → o ≡ ok (s, a) → Deals s.tables)
      → Keeps o
  keep o = committed_cases (λ s. Deals s.tables) db o h

  pub creates-Deals :
      (service cid : ℕ) (location : Option Point) (submission : Option Submission)
      → Keeps (create cfg now service cid location submission db)
  creates-Deals service cid location submission = keep _ λ s a e.
      let (fresh, row, os, left) = create_inv cfg now db s service cid location submission a e in
      rw left (create-Deals service cid location submission os db.tables h)

  pub rates-Deals :
      (rid cid rating : ℕ) (comment : Option String)
      → Keeps (rate_request rid cid rating comment db)
  rates-Deals rid cid rating comment = keep _ λ s a e.
      let (r, found, own, done, unrated, left) =
        rate_request_inv cfg now db s rid cid rating comment a e in
      rw left (rate-Deals rid rating comment db.tables h)

  pub assigns-Deals :
      (rid pid : ℕ) (audit : Option AuditSpec) → Keeps (assign_provider cfg now rid pid audit db)
  assigns-Deals rid pid audit = keep _ λ s a e.
      let (r, found, waits, p, known, able, left) =
        assign_provider_inv cfg now db s rid pid audit a e in
      rw left (assign_tables-Deals now rid pid db.tables h)

  pub updates_status-Deals :
      (rid : ℕ) (status : RequestStatus) (audit : Option AuditSpec)
      → Keeps (update_status cfg now rid status audit db)
  updates_status-Deals rid status audit = keep _ λ s a e.
      let (previous, allowed, r, found, next, staff, left) =
        update_status_inv cfg now db s rid status audit a e in
      rw left (
        stop_if_terminal-Deals now rid status _
          (status_tables-Deals rid status db.tables (ground arith) h))

  pub updates_status_for_provider-Deals :
      (rid pid : ℕ) (target : ProviderStatus)
      → Keeps (update_status_for_provider cfg now rid pid target db)
  updates_status_for_provider-Deals rid pid target = keep _ λ s a e.
      let (r, found, own, next, left) =
        update_status_for_provider_inv cfg now db s rid pid target a e in
      provider_tracking_step-Deals cfg now rid pid target _ s.tables left
        (status_tables-Deals rid (to_status target) db.tables (ground arith) h)

  pub proposes-Deals :
      (rid amount : ℕ) (scope : String) (audit : Option AuditSpec)
      → Keeps (propose_quote cfg now rid amount scope audit db)
  proposes-Deals rid amount scope audit = keep _ λ s a e.
      let (r, found, early, free, direct, left) =
        propose_quote_inv cfg now db s rid amount scope audit a e in
      rw left (insert_staff_quote-Deals rid amount scope db.tables r found (ground arith) free h)

  pub submits-Deals :
      (rid pid amount : ℕ) (scope : String)
      → Keeps (submit_provider_quote cfg now rid pid amount scope db)
  submits-Deals rid pid amount scope = keep _ λ s a e.
      let (r, found, waits, first, left) =
        submit_provider_quote_inv cfg now db s rid pid amount scope a e in
      rw left (submit_tables-Deals rid pid amount scope db.tables h)

  pub decides-Deals :
      (rid cid qid : ℕ) (decision : Decision) → Keeps (decide_quote cfg now rid cid qid decision db)
  decides-Deals rid cid qid decision = keep _ λ s a e.
      let (q, r, quote, request, own, customer, is_open, timely, left) =
        decide_quote_inv cfg now db s rid cid qid decision a e in
      let same : find_quote q.id db.tables ≡ some q =
        rw (find_by-key (λ (x : Quote). x.id) qid db.quotes q quote) quote in
      rw left
        (decision_tables-Deals now rid q r db.tables same is_open own request h decision timely)

  pub invites-Deals :
      (rid : ℕ) (pids : List ℕ) (audit : Option AuditSpec)
      → Keeps (invite_providers_to_request cfg now rid pids audit db)
  invites-Deals rid pids audit = keep _ λ s a e.
      let (os, left) = invite_providers_to_request_inv cfg now db s rid pids audit a e in rw left h

  pub withdraws-Deals : (qid pid : ℕ) → Keeps (withdraw_provider_quote cfg now qid pid db)
  withdraws-Deals qid pid = keep _ λ s a e.
      let (q, quote, own, is_open, left) = withdraw_provider_quote_inv cfg now db s qid pid a e in
      let same : find_quote q.id db.tables ≡ some q =
        rw (find_by-key (λ (x : Quote). x.id) qid db.quotes q quote) quote in
      rw left (withdraw_tables-Deals now pid q db.tables same is_open h)

  pub closes-Deals :
      (rid pid : ℕ) (audit : Option AuditSpec)
      → Keeps (close_provider_opportunity cfg now rid pid audit db)
  closes-Deals rid pid audit =
      keep _ λ s a e. rw (close_provider_opportunity_inv cfg now db s rid pid audit a e) h

  pub collects-Deals :
      (rid : ℕ) (audit : Option AuditSpec) → Keeps (collect_cash_payment now rid audit db)
  collects-Deals rid audit = keep _ λ s a e.
      let (p, paid, r, found, due, done, left, row) =
        collect_cash_payment_inv now db s rid audit a e in
      rw left (set_payment-Deals p.id (collect_row now) db.tables (λ x. refl) h)

  pub refunds-Deals :
      (rid : ℕ) (audit : Option AuditSpec) → Keeps (refund_cash_payment now rid audit db)
  refunds-Deals rid audit = keep _ λ s a e.
      let (p, paid, collected, left, row) = refund_cash_payment_inv now db s rid audit a e in
      rw left (set_payment-Deals p.id (refund_row now) db.tables (λ x. refl) h)

  pub verifies-Deals :
      (pid : ℕ) (status : VerificationStatus) (audit : Option AuditSpec)
      (expected : Option VerificationStatus)
      → Keeps (update_pilot_provider_verification cfg now pid status audit expected db)
  verifies-Deals pid status audit expected = keep _ λ s a e.
      let (p, found, met, left) =
        update_pilot_provider_verification_inv db s cfg now pid status audit expected a e in
      rw left (verification_tables-Deals cfg now pid status db.tables h)

  pub sets_availability-Deals :
      (pid : ℕ) (available : Bool) → Keeps (update_provider_availability pid available db)
  unfolding set_provider
  sets_availability-Deals pid available = keep _ λ s a e.
      let (p, found, verified, left) = update_provider_availability_inv db s pid available a e in
      rw left h

  pub submits_sample-Deals :
      (distance : Point → Point → ℕ) (rid pid : ℕ) (s : Sample)
      → Keeps (submit_provider_location_sample distance cfg now rid pid s db)
  unfolding accept_tables
  submits_sample-Deals distance rid pid x = keep _ λ s a e.
      let (r, found, own, active, y, live, mine, on, late, e1) =
        submit_provider_location_sample_inv distance cfg now db s rid pid x a e in
      elim (conclude_inv distance cfg now db s r y rid pid x (judge rid pid x db.tables) a e1) [
        | inl (acc, left, dup, pos, seen, log) ↦ rw left h
        | inr (dup, same) ↦ rw same h
      ]

  pub stops_tracking-Deals :
      (rid : ℕ) → Keeps (stop_provider_tracking_for_operations cfg now rid db)
  unfolding stop_provider_tracking
  stops_tracking-Deals rid =
      keep _ λ s a e. rw (stop_provider_tracking_for_operations_inv cfg now db s rid a e).2 h

  pub prunes-Deals :
      (raw derived batch : ℕ) → Keeps (prune_provider_tracking_data raw derived batch db)
  prunes-Deals raw derived batch =
      keep _ λ s a e. rw (prune_provider_tracking_data_inv db s raw derived batch a e).1 h
