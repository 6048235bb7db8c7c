-- ===== src/Requests/Assign.antt =====
-- assignProvider: the manual assignment of a request that is pending dispatch.
use moeen.Base.{◌>>=◌, ◌>>◌, Option, guard, ok, or_fail, select, some, update_by, update_where, ℕ}
use moeen.Store.{
  AuditSpec, AuditState, Db, DedupeKey, EventType, Journal, NotificationType, ServiceRequest,
  Tables, Tx, assigned, find_provider, find_request, insert_event, insert_events,
  insert_staff_audit_event, not_pending_dispatch, pending_dispatch, provider_not_found,
  request_not_found, status_eq,
}
use moeen.Outbox.Writer.{
  Config, enqueue_customer_notification, enqueue_provider_notification, required,
}
use moeen.Requests.Opportunities.{
  close_opportunity, is_eligible, is_open_for, is_open_provider_quote, notify_losers, reject_quote,
}

abbrev pub assign_row : ℕ → ServiceRequest → ServiceRequest
assign_row pid r = record r { assigned_provider_id = some pid; status = assigned }

-- The three UPDATE statements: the request, its proposed provider quotes, its open opportunities.
unfoldable pub assign_tables : ℕ → ℕ → ℕ → Tables → Tables
assign_tables now rid pid t = record t {
  requests = update_by (λ (r : ServiceRequest). r.id) rid (assign_row pid) t.requests;
  quotes = update_where (is_open_provider_quote rid) (reject_quote now) t.quotes;
  opportunities = update_where (is_open_for rid) close_opportunity t.opportunities;
}

module _ (cfg : Config) (now : ℕ) where
  -- The events and the notifications, in their order.
  assign_journal : ℕ → ℕ → Option ℕ → Tables → Journal → Journal
  unfolding insert_event insert_events enqueue_customer_notification enqueue_provider_notification
      notify_losers
  assign_journal rid pid customer t j =
      let closed = select (is_open_for rid) t.opportunities in
      let j1 =
        insert_events (select (is_open_provider_quote rid) t.quotes) rid EventType.quote_rejected
          assigned j in
      let j2 = insert_events closed rid EventType.opportunity_closed assigned j1 in
      let j3 = insert_event rid EventType.provider_assigned assigned j2 in
      let j4 =
        enqueue_provider_notification cfg now NotificationType.provider_assigned rid pid
          (DedupeKey.provider_assigned rid pid) j3 in
      let j5 =
        enqueue_customer_notification cfg now NotificationType.assignment_confirmed rid customer
          (DedupeKey.assignment_confirmed rid) required j4 in
      notify_losers cfg now rid pid closed j5

  unfoldable pub assign_provider : ℕ → ℕ → Option AuditSpec → Db → Tx ServiceRequest
  unfolding assign_tables assign_journal insert_staff_audit_event
  assign_provider rid pid audit db = do
    request ← or_fail (find_request rid db.tables) request_not_found
    guard (status_eq request.status pending_dispatch) not_pending_dispatch
    provider ← or_fail (find_provider pid db.tables) provider_not_found
    guard (is_eligible request.service_id provider) provider_not_found
    journal ←
        insert_staff_audit_event audit
          (some (AuditState.request_state request.status request.assigned_provider_id))
          (some (AuditState.request_state assigned (some pid)))
          (assign_journal rid pid request.customer_id db.tables db.journal)
    ok (
      record { tables = assign_tables now rid pid db.tables; journal = journal },
      assign_row pid request,
    )
