-- ===== src/Service/Offers.antt =====
-- Quotes, payments, ratings and support tickets in apps/api/src/app.service.ts. A number of the
-- body is none where it is no integer.
use Prim.Native.String.{String}
use moeen.Base.{
  ◌>>=◌, ◌>>◌, Bool, Option, Outcome, Text, codes, err, guard, if◌then◌else◌, is_empty, is_some,
  leb, length, none, ok, or_fail, some, suc, text_eq, trim, ℕ, ℤ,
}
use moeen.Store.{
  AuditSpec, Db, Payment, Quote, QuoteStatus, SupportCategory, SupportTicketStatus,
  ticket_not_found,
}
use moeen.Auth.CodeExamples.{desk}
use moeen.Ids.Public.{
  after_prefix, all_digits, maximum_safe_integer, to_quote_database_id,
  to_support_ticket_database_id,
}
use moeen.Market.Decide.{Decision, decide_quote}
use moeen.Market.Propose.{propose_quote, submit_provider_quote}
use moeen.Otp.Service.{CustomerStore}
use moeen.Outbox.Writer.{Config}
use moeen.Payments.Collect.{collect_cash_payment, refund_cash_payment}
use moeen.Requests.Create.{rate_request}
use moeen.Service.Accounts.{ServiceError, get_customer_for_token, request_database_id, stored}
use moeen.Support.Tickets.{Desk, SupportTicket, create_support_ticket, update_support_ticket_status}
use mathlib.Core.Option

abbrev pub select_if : (ℕ → Bool) → Option ℕ → Option ℕ
select_if p none = none
select_if p (some n) = if p n then some n else none

-- `Number.isInteger(amount) && amount > 0`.
abbrev pub positive : Option ℤ → Option ℕ
positive (some (ℤ.pos (suc n))) = some (suc n)
positive _ = none

-- `Number.isSafeInteger(amount) && amount > 0`.
abbrev pub safe_positive : Option ℤ → Option ℕ
safe_positive amount = select_if (λ n. leb n maximum_safe_integer) (positive amount)

abbrev pub is_rating : Option ℤ → Option ℕ
is_rating rating = select_if (λ n. leb n 5) (positive rating)

-- `text?.trim() || undefined`.
abbrev pub non_empty : Option Text → Option Text
unfolding trim
non_empty none = none
non_empty (some t) = if is_empty (trim t) then none else some (trim t)

abbrev pub category_of : Text → Option SupportCategory
unfolding text_eq
category_of t =
    if text_eq t (codes "no_show")
    then some SupportCategory.no_show
    else if text_eq t (codes "price")
    then some SupportCategory.price
    else if text_eq t (codes "quality")
    then some SupportCategory.quality
    else if text_eq t (codes "payment")
    then some SupportCategory.payment
    else if text_eq t (codes "other")
    then some SupportCategory.other
    else none

abbrev pub ticket_status_of : Text → Option SupportTicketStatus
unfolding text_eq
ticket_status_of t =
    if text_eq t (codes "in_progress")
    then some SupportTicketStatus.ticket_in_progress
    else if text_eq t (codes "resolved")
    then some SupportTicketStatus.resolved
    else none

abbrev pub decision_of : Text → Option Decision
unfolding text_eq
decision_of t =
    if text_eq t (codes "approved")
    then some Decision.approve
    else if text_eq t (codes "rejected")
    then some Decision.reject
    else none

-- What a customer sees of a decided quote.
pub record QuoteView : Type 0 where
  pub id : ℕ
  pub amount_halalas : ℕ
  pub scope : String
  pub status : QuoteStatus
  pub decided_at : Option ℕ

abbrev pub to_view : Quote → QuoteView
to_view q = record {
  id = q.id;
  amount_halalas = q.amount_halalas;
  scope = q.scope;
  status = q.status;
  decided_at = q.decided_at;
}

-- `/^MOE-\d+$/`.
abbrev pub is_request_id : Text → Bool
unfolding after_prefix all_digits
is_request_id id = is_some (all_digits (after_prefix (codes "MOE-") id))

module _ (written : Text → String) (cfg : Config) (now : ℕ) where
  unfoldable pub propose_service_quote :
      Text → Option ℤ → Text → Option AuditSpec → Db → Outcome ServiceError (Db × Quote)
  unfolding trim propose_quote
  propose_service_quote id amount scope audit db = do
    halalas ← or_fail (positive amount) ServiceError.invalid_quote
    guard (leb 3 (length (trim scope))) ServiceError.invalid_quote
    rid ← request_database_id id
    stored (propose_quote cfg now rid halalas (written (trim scope)) audit db)

  unfoldable pub submit_service_quote :
      ℕ → Text → Option ℤ → Text → Db → Outcome ServiceError (Db × Quote)
  unfolding trim submit_provider_quote
  submit_service_quote pid id amount scope db = do
    halalas ← or_fail (safe_positive amount) ServiceError.invalid_quote
    guard (leb 3 (length (trim scope))) ServiceError.invalid_quote
    rid ← request_database_id id
    stored (submit_provider_quote cfg now rid pid halalas (written (trim scope)) db)

  unfoldable pub decide_my_quote :
      ℕ → Text → Text → Text → CustomerStore → Db → Outcome ServiceError (Db × QuoteView)
  unfolding get_customer_for_token decide_quote to_quote_database_id
  decide_my_quote token id quote_id decision customers db = do
    decided ← or_fail (decision_of decision) ServiceError.invalid_decision
    customer ← get_customer_for_token now token customers
    rid ← request_database_id id
    qid ← or_fail (to_quote_database_id quote_id) ServiceError.invalid_quote_id
    found ← stored (decide_quote cfg now rid customer.id qid decided db)
    ok (found.0, to_view found.1)

  -- The store reads the number of the request off its identifier with `Number`.
  unfoldable pub rate_my_service_request :
      ℕ → ℕ → Option ℤ → Option Text → CustomerStore → Db → Outcome ServiceError (Db × Unit {0})
  unfolding get_customer_for_token rate_request
  rate_my_service_request token rid rating comment customers db = do
    stars ← or_fail (is_rating rating) ServiceError.invalid_rating
    customer ← get_customer_for_token now token customers
    stored (rate_request rid customer.id stars (Option.map written (non_empty comment)) db)

-- collectCashPayment and refundCashPayment.
module _ (now : ℕ) (id : Text) (audit : Option AuditSpec) (db : Db) where
  unfoldable pub collect_service_payment : Outcome ServiceError (Db × Payment)
  unfolding collect_cash_payment
  collect_service_payment = do
    guard (is_request_id id) ServiceError.invalid_service_request
    rid ← request_database_id id
    stored (collect_cash_payment now rid audit db)

  unfoldable pub refund_service_payment : Outcome ServiceError (Db × Payment)
  unfolding refund_cash_payment
  refund_service_payment = do
    guard (is_request_id id) ServiceError.invalid_service_request
    rid ← request_database_id id
    stored (refund_cash_payment now rid audit db)

unfoldable pub create_my_support_ticket :
    (Text → ℕ)
    → ℕ
    → ℕ
    → Text
    → Text
    → Text
    → CustomerStore
    → Desk
    → Outcome ServiceError (Desk × SupportTicket)
unfolding trim get_customer_for_token create_support_ticket
create_my_support_ticket key now token id category comment customers desk = do
  chosen ← or_fail (category_of category) ServiceError.invalid_support_ticket
  guard (leb 3 (length (trim comment))) ServiceError.invalid_support_ticket
  customer ← get_customer_for_token now token customers
  rid ← request_database_id id
  stored (create_support_ticket rid customer.id chosen (key (trim comment)) desk)

-- toSupportTicketDatabaseId; no row has a number below zero.
abbrev pub ticket_row : Option ℤ → Outcome ServiceError ℕ
ticket_row none = err ServiceError.invalid_ticket_id
ticket_row (some (ℤ.pos n)) = ok n
ticket_row (some (ℤ.negsuc n)) = err (ServiceError.thrown ticket_not_found)

unfoldable pub update_ticket_status :
    Text → Text → Option AuditSpec → Desk → Outcome ServiceError (Desk × SupportTicket)
unfolding to_support_ticket_database_id update_support_ticket_status
update_ticket_status id status audit desk = do
  chosen ← or_fail (ticket_status_of status) ServiceError.unsupported_ticket_status
  row ← ticket_row (to_support_ticket_database_id id)
  stored (update_support_ticket_status row chosen audit desk)
