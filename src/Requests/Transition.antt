-- ===== src/Requests/Transition.antt =====
-- updateStatus (staff) and updateStatusForProvider: the transitions of an assigned request.
use moeen.Base.{
  ◌&&◌, ◌==◌, ◌>>=◌, ◌>>◌, ◌∷◌, Bool, List, Option, Outcome, [], count, false, guard, holds,
  if◌then◌else◌, is_some, ltb, none, not, ok, or_fail, some, true, update_by, ℕ,
}
use moeen.Store.{
  AuditSpec, AuditState, Db, DedupeKey, Error, EventType, Journal, ProviderStatus, Quote,
  RequestStatus, ServiceRequest, StopReason, Tables, Tx, assigned, assigned_request_not_found,
  find_provider, find_request, includes, insert_event, insert_staff_audit_event, invalid_transition,
  is_approved, is_verified, pending_dispatch, provider_must_start_tracking, provider_not_eligible,
  quote_approval_required, status_eq, unsupported_transition,
}
use moeen.Outbox.Writer.{
  Config, customer_status_notification_type, enqueue_customer_notification, required,
}
use moeen.Tracking.Session.{start_provider_tracking, stop_provider_tracking}

-- allowedPreviousStatuses[status] of updateStatus; `none` is `undefined`.
abbrev pub allowed_previous_statuses : RequestStatus → Option (List RequestStatus)
allowed_previous_statuses RequestStatus.on_the_way = some (assigned ∷ [])
allowed_previous_statuses RequestStatus.in_progress = some (RequestStatus.on_the_way ∷ [])
allowed_previous_statuses RequestStatus.completed = some (RequestStatus.in_progress ∷ [])
allowed_previous_statuses RequestStatus.cancelled =
    some (pending_dispatch ∷ assigned ∷ RequestStatus.on_the_way ∷ [])
allowed_previous_statuses _ = none

abbrev pub to_status : ProviderStatus → RequestStatus
to_status ProviderStatus.on_the_way = RequestStatus.on_the_way
to_status ProviderStatus.in_progress = RequestStatus.in_progress
to_status ProviderStatus.completed = RequestStatus.completed

abbrev pub provider_previous_statuses : ProviderStatus → List RequestStatus
provider_previous_statuses ProviderStatus.on_the_way = assigned ∷ []
provider_previous_statuses ProviderStatus.in_progress = RequestStatus.on_the_way ∷ []
provider_previous_statuses ProviderStatus.completed = RequestStatus.in_progress ∷ []

abbrev pub is_staff_quote_of : ℕ → Quote → Bool
is_staff_quote_of rid q = q.request_id == rid && not (is_some q.provider_id)

-- assertServiceMayStart: total_count is 0, or approved_count is not.
unfoldable pub assert_service_may_start : ℕ → Tables → Outcome Error (Unit {0})
assert_service_may_start rid t =
    let total_count = count (is_staff_quote_of rid) t.quotes in
    let approved_count = count (λ q. is_staff_quote_of rid q && is_approved q.status) t.quotes in
    guard (not (ltb 0 total_count && approved_count == 0)) quote_approval_required

abbrev pub when : Bool → Outcome Error (Unit {0}) → Outcome Error (Unit {0})
when true m = m
when false m = ok tt

abbrev pub set_status : RequestStatus → ServiceRequest → ServiceRequest
set_status status r = record r { status = status }

-- UPDATE service_requests SET status = $1 WHERE id = $2.
unfoldable pub status_tables : ℕ → RequestStatus → Tables → Tables
status_tables rid status t = record t {
  requests = update_by (λ (r : ServiceRequest). r.id) rid (set_status status) t.requests;
}

-- `if (status === 'completed' || status === 'cancelled') await this.stopProviderTracking(…)`.
unfoldable pub stop_if_terminal : ℕ → ℕ → RequestStatus → Tables → Tables
unfolding stop_provider_tracking
stop_if_terminal now rid RequestStatus.completed t =
    stop_provider_tracking now rid StopReason.completed t
stop_if_terminal now rid RequestStatus.cancelled t =
    stop_provider_tracking now rid StopReason.cancelled t
stop_if_terminal now rid _ t = t

module _ (cfg : Config) (now : ℕ) where
  -- `if (notificationType) await this.enqueueCustomerNotification(…)`.
  unfoldable pub notify_status : ℕ → RequestStatus → Option ℕ → Journal → Journal
  unfolding enqueue_customer_notification
  notify_status rid status customer j = elim (customer_status_notification_type status) [
    | none ↦ j
    | some type ↦
        enqueue_customer_notification cfg now type rid customer
          (DedupeKey.status_updated rid status) required j
  ]

  unfoldable pub update_status : ℕ → RequestStatus → Option AuditSpec → Db → Tx (Unit {0})
  unfolding assert_service_may_start status_tables stop_if_terminal notify_status insert_event
      insert_staff_audit_event
  update_status rid status audit db = do
    previous_statuses ← or_fail (allowed_previous_statuses status) unsupported_transition
    request ← or_fail (find_request rid db.tables) invalid_transition
    guard (includes previous_statuses request.status) invalid_transition
    guard (not (status_eq status RequestStatus.on_the_way && cfg.tracking_enabled))
        provider_must_start_tracking
    when (status_eq status RequestStatus.in_progress) (assert_service_may_start rid db.tables)
    journal ←
        insert_staff_audit_event audit (some (AuditState.status_state request.status))
          (some (AuditState.status_state status))
          (notify_status rid status request.customer_id
            (insert_event rid EventType.status_updated status db.journal))
    ok (
      record {
        tables = stop_if_terminal now rid status (status_tables rid status db.tables);
        journal = journal;
      },
      tt,
    )

  -- `on_the_way` with tracking: the provider must be verified and available, and a session starts.
  unfoldable pub begin_tracking : ℕ → ℕ → Tables → Outcome Error Tables
  unfolding start_provider_tracking
  begin_tracking rid pid t =
      if cfg.tracking_enabled then start_provider_tracking now rid pid t else ok t

  unfoldable pub assert_provider_eligible : ℕ → Tables → Outcome Error (Unit {0})
  assert_provider_eligible pid t = do
    provider ← or_fail (find_provider pid t) provider_not_eligible
    guard (is_verified provider.verification_status && provider.available) provider_not_eligible

  -- What follows the UPDATE of the status in updateStatusForProvider.
  unfoldable pub provider_tracking_step : ℕ → ℕ → ProviderStatus → Tables → Outcome Error Tables
  unfolding begin_tracking stop_if_terminal
  provider_tracking_step rid pid ProviderStatus.on_the_way t = begin_tracking rid pid t
  provider_tracking_step rid pid ProviderStatus.in_progress t = ok t
  provider_tracking_step rid pid ProviderStatus.completed t =
      ok (stop_if_terminal now rid RequestStatus.completed t)

  unfoldable pub update_status_for_provider : ℕ → ℕ → ProviderStatus → Db → Tx (Unit {0})
  unfolding assert_service_may_start assert_provider_eligible status_tables provider_tracking_step
      notify_status insert_event
  update_status_for_provider rid pid target db = do
    let status = to_status target
    request ← or_fail (find_request rid db.tables) assigned_request_not_found
    guard (holds request.assigned_provider_id pid) assigned_request_not_found
    guard (includes (provider_previous_statuses target) request.status) invalid_transition
    when (status_eq status RequestStatus.on_the_way && cfg.tracking_enabled)
        (assert_provider_eligible pid db.tables)
    when (status_eq status RequestStatus.in_progress) (assert_service_may_start rid db.tables)
    tables ← provider_tracking_step rid pid target (status_tables rid status db.tables)
    let journal =
        notify_status rid status request.customer_id
          (insert_event rid EventType.status_updated status db.journal)
    ok (record { tables = tables; journal = journal }, tt)
