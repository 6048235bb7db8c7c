-- ===== src/System/MoveSteps.antt =====
-- What each transaction does to the requests, as a change of System/Moves.
use Prim.Native.String.{String}
use moeen.Base.{
  ◌&&◌, ◌≡◌, Bool, List, Option, Outcome, arith, committed, committed_cases, false, inl, inr,
  is_some, none, not, ok, refl, some, subst, sym, ℕ,
}
use moeen.Store.{
  AuditSpec, Db, Error, Point, ProviderStatus, Quote, QuoteStatus, RequestStatus, ServiceRequest,
  Tables, VerificationStatus, find_request, status_eq,
}
use moeen.Market.Decide.{
  Decision, decide_quote, decide_tables, decision_tables, insert_payment, is_approve, mark_rejected,
  settle, win_row, win_tables,
}
use moeen.Market.Inversion.{
  close_provider_opportunity_inv, decide_quote_inv, invite_providers_to_request_inv,
  propose_quote_inv, submit_provider_quote_inv, withdraw_provider_quote_inv,
}
use moeen.Market.Marketplace.{
  close_provider_opportunity, invite_providers_to_request, withdraw_provider_quote, withdraw_tables,
}
use moeen.Market.Propose.{insert_quote, propose_quote, submit_provider_quote, submit_tables}
use moeen.Outbox.Writer.{Config}
use moeen.Payments.Collect.{collect_cash_payment, refund_cash_payment, set_payment}
use moeen.Payments.Inversion.{collect_cash_payment_inv, refund_cash_payment_inv}
use moeen.Providers.Inversion.{
  update_pilot_provider_verification_inv, update_provider_availability_inv,
}
use moeen.Providers.Verify.{
  set_provider, update_pilot_provider_verification, update_provider_availability,
  verification_tables,
}
use moeen.Requests.Assign.{assign_provider, assign_row, assign_tables}
use moeen.Requests.Create.{Submission, create, new_request, rate_request, rate_row}
use moeen.Requests.Inversion.{
  assign_provider_inv, create_inv, rate_request_inv, update_status_for_provider_inv,
  update_status_inv,
}
use moeen.Requests.Transition.{
  provider_tracking_step, set_status, status_tables, stop_if_terminal, to_status, update_status,
  update_status_for_provider,
}
use moeen.System.Moves.{
  Changes, Move, added, advanced, dispatched, kept, moved, provider-Edge, rated, staff-Edge,
}
use moeen.Tracking.Inversion.{
  conclude_inv, prune_provider_tracking_data_inv, stop_provider_tracking_for_operations_inv,
  submit_provider_location_sample_inv,
}
use moeen.Tracking.Operations.{stop_provider_tracking_for_operations}
use moeen.Tracking.Retention.{prune_provider_tracking_data}
use moeen.Tracking.Sample.{Sample, accept_tables, judge, submit_provider_location_sample}
use moeen.Tracking.Session.{start_provider_tracking, stop_provider_tracking}

-- The tracking of a request changes no request.
pub stop_if_terminal-requests :
    (now rid : ℕ) (status : RequestStatus) (t : Tables)
    → (stop_if_terminal now rid status t).requests ≡ t.requests
unfolding stop_if_terminal stop_provider_tracking
stop_if_terminal-requests now rid RequestStatus.completed t = refl
stop_if_terminal-requests now rid RequestStatus.cancelled t = refl
stop_if_terminal-requests now rid _ t = refl

pub provider_tracking_step-requests :
    (cfg : Config) (now rid pid : ℕ) (target : ProviderStatus) (t t' : Tables)
    → provider_tracking_step cfg now rid pid target t ≡ ok t'
    → t'.requests ≡ t.requests
unfolding provider_tracking_step start_provider_tracking
provider_tracking_step-requests cfg now rid pid target t t' e = ground arith

-- An approved provider quote assigns its provider; a staff quote and a rejection assign nobody.
settle-Change :
    (now rid : ℕ) (q : Quote) (r : ServiceRequest) (t : Tables) (owner : Option ℕ)
    → find_request rid t ≡ some r
    → (is_some owner && not (status_eq r.status RequestStatus.pending_dispatch)) ≡ false
    → Changes t (settle now rid q.id owner t)
unfolding settle win_tables
settle-Change now rid q r t none found timely = kept refl
settle-Change now rid q r t (some pid) found timely =
    let waits : r.status ≡ RequestStatus.pending_dispatch = ground arith in
    moved rid r (win_row pid) found (λ x. refl)
      (subst (Move r) (ground arith) (dispatched r pid waits)) refl

pub decision_tables-Change :
    (now rid : ℕ) (q : Quote) (r : ServiceRequest) (decision : Decision) (t : Tables)
    → find_request rid t ≡ some r
    → (is_approve decision
        && (is_some q.provider_id && not (status_eq r.status RequestStatus.pending_dispatch)))
      ≡ false
    → Changes t (decision_tables now rid q decision t)
unfolding decision_tables decide_tables insert_payment mark_rejected
decision_tables-Change now rid q r Decision.approve t found timely =
    settle-Change now rid q r (insert_payment rid q (decide_tables now q.id QuoteStatus.approved t))
      q.provider_id found timely
decision_tables-Change now rid q r Decision.reject t found timely = kept (ground arith)

module _ (now : ℕ) (db : Db) where
  abbrev Moves {ℓ} : {A : Type ℓ} → Outcome Error (Db × A) → Type 0
  Moves o = Changes db.tables (committed db o).tables

  abbrev each {ℓ} :
      {A : Type ℓ} (o : Outcome Error (Db × A))
      → ((s : Db) (a : A) → o ≡ ok (s, a) → Changes db.tables s.tables)
      → Moves o
  each o = committed_cases (λ s. Changes db.tables s.tables) db o (kept refl)

  module _ (cfg : Config) where
    pub creates-Moves :
        (service cid : ℕ) (location : Option Point) (submission : Option Submission)
        → Moves (create cfg now service cid location submission db)
    creates-Moves service cid location submission = each _ λ s a e.
        let (fresh, row, os, left) = create_inv cfg now db s service cid location submission a e in
        added (new_request service cid location submission db.tables) refl refl refl refl
          (ground arith)

    pub assigns-Moves :
        (rid pid : ℕ) (audit : Option AuditSpec) → Moves (assign_provider cfg now rid pid audit db)
    unfolding assign_tables
    assigns-Moves rid pid audit = each _ λ s a e.
        let (r, found, waits, p, known, able, left) =
          assign_provider_inv cfg now db s rid pid audit a e in
        moved rid r (assign_row pid) found (λ x. refl) (dispatched r pid waits) (rw left refl)

    pub updates_status-Moves :
        (rid : ℕ) (status : RequestStatus) (audit : Option AuditSpec)
        → Moves (update_status cfg now rid status audit db)
    unfolding status_tables
    updates_status-Moves rid status audit = each _ λ s a e.
        let (previous, allowed, r, found, next, staff, left) =
          update_status_inv cfg now db s rid status audit a e in
        moved rid r (set_status status) found (λ x. refl)
          (advanced r status (staff-Edge status r.status previous allowed next))
          (rw left (stop_if_terminal-requests now rid status _))

    pub updates_status_for_provider-Moves :
        (rid pid : ℕ) (target : ProviderStatus)
        → Moves (update_status_for_provider cfg now rid pid target db)
    unfolding status_tables
    updates_status_for_provider-Moves rid pid target = each _ λ s a e.
        let (r, found, own, next, left) =
          update_status_for_provider_inv cfg now db s rid pid target a e in
        moved rid r (set_status (to_status target)) found (λ x. refl)
          (advanced r (to_status target) (provider-Edge target r.status next))
          (provider_tracking_step-requests cfg now rid pid target _ s.tables left)

    pub decides-Moves :
        (rid cid qid : ℕ) (decision : Decision)
        → Moves (decide_quote cfg now rid cid qid decision db)
    decides-Moves rid cid qid decision = each _ λ s a e.
        let (q, r, quote, request, own, customer, is_open, timely, left) =
          decide_quote_inv cfg now db s rid cid qid decision a e in
        subst (Changes db.tables) (sym left)
          (decision_tables-Change now rid q r decision db.tables request timely)

    pub rates-Moves :
        (rid cid rating : ℕ) (comment : Option String)
        → Moves (rate_request rid cid rating comment db)
    rates-Moves rid cid rating comment = each _ λ s a e.
        let (r, found, own, done, unrated, left) =
          rate_request_inv cfg now db s rid cid rating comment a e in
        moved rid r (rate_row rating comment) found (λ x. refl)
          (rated r rating comment done unrated) (rw left refl)

    pub proposes-Moves :
        (rid amount : ℕ) (scope : String) (audit : Option AuditSpec)
        → Moves (propose_quote cfg now rid amount scope audit db)
    unfolding insert_quote
    proposes-Moves rid amount scope audit = each _ λ s a e.
        let (r, found, early, free, direct, left) =
          propose_quote_inv cfg now db s rid amount scope audit a e in
        kept (rw left refl)

    pub submits-Moves :
        (rid pid amount : ℕ) (scope : String)
        → Moves (submit_provider_quote cfg now rid pid amount scope db)
    unfolding submit_tables
    submits-Moves rid pid amount scope = each _ λ s a e.
        let (r, found, waits, first, left) =
          submit_provider_quote_inv cfg now db s rid pid amount scope a e in
        kept (rw left refl)

    pub invites-Moves :
        (rid : ℕ) (pids : List ℕ) (audit : Option AuditSpec)
        → Moves (invite_providers_to_request cfg now rid pids audit db)
    invites-Moves rid pids audit = each _ λ s a e.
        let (os, left) = invite_providers_to_request_inv cfg now db s rid pids audit a e in
        kept (rw left refl)

    pub withdraws-Moves : (qid pid : ℕ) → Moves (withdraw_provider_quote cfg now qid pid db)
    unfolding withdraw_tables
    withdraws-Moves qid pid = each _ λ s a e.
        let (q, quote, own, is_open, left) = withdraw_provider_quote_inv cfg now db s qid pid a e in
        kept (rw left refl)

    pub closes-Moves :
        (rid pid : ℕ) (audit : Option AuditSpec)
        → Moves (close_provider_opportunity cfg now rid pid audit db)
    closes-Moves rid pid audit =
        each _
          λ s a e. kept (rw (close_provider_opportunity_inv cfg now db s rid pid audit a e) refl)

    pub verifies-Moves :
        (pid : ℕ) (status : VerificationStatus) (audit : Option AuditSpec)
        (expected : Option VerificationStatus)
        → Moves (update_pilot_provider_verification cfg now pid status audit expected db)
    unfolding verification_tables
    verifies-Moves pid status audit expected = each _ λ s a e.
        let (p, found, met, left) =
          update_pilot_provider_verification_inv db s cfg now pid status audit expected a e in
        kept (ground arith)

    pub stops_tracking-Moves :
        (rid : ℕ) → Moves (stop_provider_tracking_for_operations cfg now rid db)
    unfolding stop_provider_tracking
    stops_tracking-Moves rid = each _ λ s a e.
        let (r, found, left) = stop_provider_tracking_for_operations_inv cfg now db s rid a e in
        kept (rw left refl)

    pub submits_sample-Moves :
        (distance : Point → Point → ℕ) (rid pid : ℕ) (sample : Sample)
        → Moves (submit_provider_location_sample distance cfg now rid pid sample db)
    unfolding accept_tables
    submits_sample-Moves distance rid pid sample = each _ λ s a e.
        let (r, found, own, active, x, live, mine, on, late, e1) =
          submit_provider_location_sample_inv distance cfg now db s rid pid sample a e in
        elim (conclude_inv distance cfg now db s r x rid pid sample (judge rid pid sample db.tables)
          a e1) [
            | inl (acc, left, dup, pos, seen, log) ↦ kept (rw left refl)
            | inr (dup, same) ↦ kept (rw same refl)
          ]

  pub collects-Moves :
      (rid : ℕ) (audit : Option AuditSpec) → Moves (collect_cash_payment now rid audit db)
  unfolding set_payment
  collects-Moves rid audit = each _ λ s a e.
      let (p, paid, r, found, due, done, left, row) =
        collect_cash_payment_inv now db s rid audit a e in
      kept (rw left refl)

  pub refunds-Moves :
      (rid : ℕ) (audit : Option AuditSpec) → Moves (refund_cash_payment now rid audit db)
  unfolding set_payment
  refunds-Moves rid audit = each _ λ s a e.
      let (p, paid, collected, left, row) = refund_cash_payment_inv now db s rid audit a e in
      kept (rw left refl)

  pub sets_availability-Moves :
      (pid : ℕ) (available : Bool) → Moves (update_provider_availability pid available db)
  unfolding set_provider
  sets_availability-Moves pid available = each _ λ s a e.
      let (p, found, verified, left) = update_provider_availability_inv db s pid available a e in
      kept (rw left refl)

  pub prunes-Moves :
      (raw derived batch : ℕ) → Moves (prune_provider_tracking_data raw derived batch db)
  prunes-Moves raw derived batch =
      each _ λ s a e. kept (rw (prune_provider_tracking_data_inv db s raw derived batch a e).1 refl)
