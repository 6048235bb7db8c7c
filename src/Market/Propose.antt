-- ===== src/Market/Propose.antt =====
-- proposeQuote (staff) and submitProviderQuote: how a quote comes to be.
use Prim.Native.String.{String}
use moeen.Base.{
  ◌&&◌, ◌++◌, ◌==◌, ◌>>=◌, ◌>>◌, ◌∷◌, Bool, Option, [], any, find_first, guard, holds, is_some,
  none, not, ok, or_fail, some, suc, update_where, ℕ,
}
use moeen.Store.{
  AuditSpec, AuditState, Db, DedupeKey, Error, EventType, NotificationType, Opportunity,
  OpportunityStatus, Quote, QuoteStatus, RequestStatus, Tables, Tx, active_quote_exists, assigned,
  find_request, includes, insert_event, insert_staff_audit_event, is_active_quote,
  is_open_opportunity, not_pending_dispatch, pending_dispatch, quote_conflict, quote_too_late,
  request_not_found, staff_quote_in_marketplace, status_eq,
}
use moeen.Outbox.Writer.{Config, enqueue_customer_notification, required}
use moeen.Requests.Opportunities.{is_opportunity_of}

-- `status IN ('proposed', 'approved')` on the request's rows.
abbrev pub is_active_quote_of : ℕ → Quote → Bool
is_active_quote_of rid q = q.request_id == rid && is_active_quote q.status

-- The same, of the staff (`provider_id IS NULL`) and of one provider.
abbrev pub is_active_staff_quote_of : ℕ → Quote → Bool
is_active_staff_quote_of rid q = is_active_quote_of rid q && not (is_some q.provider_id)

abbrev pub is_active_quote_by : ℕ → ℕ → Quote → Bool
is_active_quote_by rid pid q = is_active_quote_of rid q && holds q.provider_id pid

-- INSERT INTO service_quotes … RETURNING.
abbrev pub new_quote : ℕ → Option ℕ → ℕ → String → Tables → Quote
new_quote rid pid amount scope t = record {
  id = t.next_quote_id;
  request_id = rid;
  provider_id = pid;
  amount_halalas = amount;
  scope = scope;
  status = QuoteStatus.proposed;
  decided_at = none;
}

unfoldable pub insert_quote : ℕ → Option ℕ → ℕ → String → Tables → Tables
insert_quote rid pid amount scope t = record t {
  quotes = t.quotes ++ (new_quote rid pid amount scope t ∷ []);
  next_quote_id = suc t.next_quote_id;
}

abbrev set_opportunity : OpportunityStatus → Opportunity → Opportunity
set_opportunity status o = record o { status = status }

-- The opportunity of the provider becomes quoted with the insertion of the quote.
unfoldable pub submit_tables : ℕ → ℕ → ℕ → String → Tables → Tables
unfolding insert_quote
submit_tables rid pid amount scope t =
    let t' = insert_quote rid (some pid) amount scope t in
    record t' {
      opportunities =
          update_where (is_opportunity_of rid pid) (set_opportunity OpportunityStatus.quoted)
            t'.opportunities;
    }

module _ (cfg : Config) (now : ℕ) where
  unfoldable pub propose_quote : ℕ → ℕ → String → Option AuditSpec → Db → Tx Quote
  unfolding insert_quote insert_event enqueue_customer_notification insert_staff_audit_event
  propose_quote rid amount scope audit db = do
    request ← or_fail (find_request rid db.tables) quote_too_late
    guard (includes (assigned ∷ RequestStatus.on_the_way ∷ []) request.status) quote_too_late
    guard (not (is_some (find_first (is_active_quote_of rid) db.quotes))) active_quote_exists
    guard (not (any (λ (o : Opportunity). o.request_id == rid) db.opportunities))
        staff_quote_in_marketplace
    let quote = new_quote rid none amount scope db.tables
    journal ←
        insert_staff_audit_event audit none
          (some (AuditState.quote_state QuoteStatus.proposed amount))
          (enqueue_customer_notification cfg now NotificationType.quote_received rid
            request.customer_id (DedupeKey.quote_received rid quote.id) required
            (insert_event rid EventType.quote_proposed request.status db.journal))
    ok (record { tables = insert_quote rid none amount scope db.tables; journal = journal }, quote)

  -- The catch of the unique violation throws the same error as the check before it.
  unfoldable pub submit_provider_quote : ℕ → ℕ → ℕ → String → Db → Tx Quote
  unfolding submit_tables insert_event enqueue_customer_notification
  submit_provider_quote rid pid amount scope db = do
    request ← or_fail (find_request rid db.tables) request_not_found
    guard (status_eq request.status pending_dispatch) not_pending_dispatch
    opportunity ←
        or_fail (find_first (is_opportunity_of rid pid) db.opportunities) Error.opportunity_closed
    guard (is_open_opportunity opportunity.status) Error.opportunity_closed
    guard (not (is_some (find_first (is_active_staff_quote_of rid) db.quotes)))
        staff_quote_in_marketplace
    guard (not (is_some (find_first (is_active_quote_by rid pid) db.quotes))) quote_conflict
    let quote = new_quote rid (some pid) amount scope db.tables
    ok (
      record {
        tables = submit_tables rid pid amount scope db.tables;
        journal =
            enqueue_customer_notification cfg now NotificationType.quote_received rid
              request.customer_id (DedupeKey.quote_received rid quote.id) required
              (insert_event rid EventType.provider_quote_submitted pending_dispatch db.journal);
      },
      quote,
    )
