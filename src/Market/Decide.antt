-- ===== src/Market/Decide.antt =====
-- decideQuote: the customer approves or rejects a proposed quote.
use moeen.Base.{
  ◌&&◌, ◌++◌, ◌==◌, ◌>>=◌, ◌>>◌, ◌∷◌, Bool, Option, Outcome, [], any, false, guard, holds,
  if◌then◌else◌, is_some, none, not, ok, or_fail, select, some, suc, true, update_by, update_where,
  ℕ,
}
use moeen.Store.{
  Db, DedupeKey, Error, EventType, Journal, NotificationType, Opportunity, OpportunityStatus,
  Payment, PaymentStatus, Quote, QuoteStatus, ServiceRequest, Tables, Tx, assigned,
  cash_on_completion, find_provider, find_quote, find_request, insert_event, insert_events,
  is_proposed, is_quoted, is_verified, no_longer_pending, pending_dispatch, provider_unavailable,
  quote_not_found, status_eq,
}
use moeen.Outbox.Writer.{
  Config, enqueue_customer_notification, enqueue_provider_notification, required,
}
use moeen.Requests.Opportunities.{
  close_opportunity, is_open_for, is_open_provider_quote, is_opportunity_of, notify_losers,
  reject_quote,
}

-- The decisions that the service layer lets through.
pub data Decision : Type 0 where
  approve reject : Decision

abbrev pub decision_status : Decision → QuoteStatus
decision_status approve = QuoteStatus.approved
decision_status reject = QuoteStatus.rejected

abbrev pub is_approve : Decision → Bool
is_approve approve = true
is_approve reject = false

-- The join of the quote with the request of the customer.
unfoldable pub joined_quote : ℕ → ℕ → ℕ → Tables → Option (Quote × ServiceRequest)
joined_quote rid cid qid t = elim (find_quote qid t) [
  | none ↦ none
  | some q ↦ elim (find_request rid t) [
    | none ↦ none
    | some r ↦ if q.request_id == rid && holds r.customer_id cid then some (q, r) else none
  ]
]

-- A provider's quote wants a verified and available provider.
unfoldable pub assert_provider_available : Option ℕ → Tables → Outcome Error (Unit {0})
assert_provider_available none t = ok tt
assert_provider_available (some pid) t = do
  provider ← or_fail (find_provider pid t) provider_unavailable
  guard (is_verified provider.verification_status && provider.available) provider_unavailable

abbrev pub decide_row : ℕ → QuoteStatus → Quote → Quote
decide_row now status q = record q { status = status; decided_at = some now }

-- UPDATE service_quotes SET status, decided_at WHERE id.
unfoldable pub decide_tables : ℕ → ℕ → QuoteStatus → Tables → Tables
decide_tables now qid status t = record t {
  quotes = update_by (λ (q : Quote). q.id) qid (decide_row now status) t.quotes;
}

abbrev pub new_payment : ℕ → Quote → Tables → Payment
new_payment rid q t = record {
  id = t.next_payment_id;
  request_id = rid;
  quote_id = q.id;
  amount_halalas = q.amount_halalas;
  method = cash_on_completion;
  status = PaymentStatus.cash_due;
  collected_at = none;
  refunded_at = none;
}

-- INSERT INTO service_payments … ON CONFLICT (quote_id) DO NOTHING. The sequence moves either way.
unfoldable pub insert_payment : ℕ → Quote → Tables → Tables
insert_payment rid q t = record t {
  payments =
      if any (λ (p : Payment). p.quote_id == q.id) t.payments
      then t.payments
      else t.payments ++ (new_payment rid q t ∷ []);
  next_payment_id = suc t.next_payment_id;
}

abbrev pub win_row : ℕ → ServiceRequest → ServiceRequest
win_row pid r = record r {
  assigned_provider_id = some pid;
  status = if status_eq r.status pending_dispatch then assigned else r.status;
}

-- The statements that close the competitors of an approved provider quote and assign its provider.
unfoldable pub win_tables : ℕ → ℕ → ℕ → ℕ → Tables → Tables
win_tables now rid qid pid t = record t {
  quotes =
      update_where (λ q. is_open_provider_quote rid q && not (q.id == qid)) (reject_quote now)
        t.quotes;
  opportunities = update_where (is_open_for rid) close_opportunity t.opportunities;
  requests = update_by (λ (r : ServiceRequest). r.id) rid (win_row pid) t.requests;
}

abbrev set_rejected : Opportunity → Opportunity
set_rejected o = record o { status = OpportunityStatus.rejected }

-- `if (updatedQuote.provider_id)`: only a provider's quote wins the request.
unfoldable pub settle : ℕ → ℕ → ℕ → Option ℕ → Tables → Tables
unfolding win_tables
settle now rid qid none t = t
settle now rid qid (some pid) t = win_tables now rid qid pid t

-- The opportunity of a rejected provider quote.
unfoldable pub mark_rejected : ℕ → Option ℕ → Tables → Tables
mark_rejected rid none t = t
mark_rejected rid (some pid) t = record t {
  opportunities =
      update_where (λ o. is_opportunity_of rid pid o && is_quoted o.status) set_rejected
        t.opportunities;
}

-- The tables after the decision on the quote `q`.
unfoldable pub decision_tables : ℕ → ℕ → Quote → Decision → Tables → Tables
unfolding decide_tables insert_payment settle mark_rejected
decision_tables now rid q approve t =
    settle now rid q.id q.provider_id
      (insert_payment rid q (decide_tables now q.id QuoteStatus.approved t))
decision_tables now rid q reject t =
    mark_rejected rid q.provider_id (decide_tables now q.id QuoteStatus.rejected t)

module _ (cfg : Config) (now : ℕ) where
  -- The events and notifications of an approved provider quote.
  unfoldable pub win_journal : ℕ → ℕ → ℕ → ℕ → Tables → Journal → Journal
  unfolding insert_events insert_event enqueue_customer_notification enqueue_provider_notification
      notify_losers
  win_journal rid cid qid pid t j =
      let closed_quotes =
        select (λ q. is_open_provider_quote rid q && not (q.id == qid)) t.quotes in
      let open_opportunities = select (is_open_for rid) t.opportunities in
      let j1 = insert_events closed_quotes rid EventType.quote_rejected assigned j in
      let j2 = insert_events open_opportunities rid EventType.opportunity_closed assigned j1 in
      let j3 = insert_event rid EventType.provider_assigned assigned j2 in
      let j4 =
        enqueue_customer_notification cfg now NotificationType.assignment_confirmed rid (some cid)
          (DedupeKey.assignment_confirmed rid) required j3 in
      let j5 =
        enqueue_provider_notification cfg now NotificationType.provider_assigned rid pid
          (DedupeKey.provider_assigned rid pid) j4 in
      notify_losers cfg now rid pid open_opportunities j5

  unfoldable pub settle_journal : ℕ → ℕ → ℕ → Option ℕ → Tables → Journal → Journal
  unfolding win_journal
  settle_journal rid cid qid none t j = j
  settle_journal rid cid qid (some pid) t j = win_journal rid cid qid pid t j

  unfoldable pub decision_journal : ℕ → ℕ → Quote → Decision → Tables → Journal → Journal
  unfolding settle_journal
  decision_journal rid cid q approve t j = settle_journal rid cid q.id q.provider_id t j
  decision_journal rid cid q reject t j = j

  abbrev pub decision_event : Decision → EventType
  decision_event approve = EventType.quote_approved
  decision_event reject = EventType.quote_rejected

  unfoldable pub decide_quote : ℕ → ℕ → ℕ → Decision → Db → Tx Quote
  unfolding joined_quote assert_provider_available decision_tables decision_journal insert_event
  decide_quote rid cid qid decision db = do
    found ← or_fail (joined_quote rid cid qid db.tables) quote_not_found
    let (quote, request) = found
    guard
        (not (
          is_approve decision
          && (is_some quote.provider_id && not (status_eq request.status pending_dispatch))))
        no_longer_pending
    guard (is_proposed quote.status) quote_not_found
    assert_provider_available quote.provider_id db.tables
    ok (
      record {
        tables = decision_tables now rid quote decision db.tables;
        journal =
            insert_event rid (decision_event decision) request.status
              (decision_journal rid cid quote decision db.tables db.journal);
      },
      decide_row now (decision_status decision) quote,
    )
