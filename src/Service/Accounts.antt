-- ===== src/Service/Accounts.antt =====
-- What the operations of the service share: their errors, and the customer of a token.
use moeen.Base.{Outcome, Text, err, ok, or_fail, ℕ}
use moeen.Store.{Error}
use moeen.Ids.Public.{request_database_id_or_undefined}
use moeen.Otp.Service.{Customer, CustomerStore, find_customer_by_session}

pub data ServiceError : Type 0 where
  invalid_support_ticket unsupported_ticket_status invalid_pilot_provider : ServiceError
  invalid_provider_access_code invalid_rating invalid_quote invalid_decision : ServiceError
  invalid_service_request not_signed_in invitations_not_array invitations_not_ids : ServiceError
  invitations_empty invalid_request_id invalid_quote_id invalid_ticket_id : ServiceError
  thrown : Error → ServiceError

-- An error of the store is passed on.
abbrev pub stored : {A : Type 0} → Outcome Error A → Outcome ServiceError A
stored (ok a) = ok a
stored (err e) = err (ServiceError.thrown e)

-- toRequestDatabaseId.
abbrev pub request_database_id : Text → Outcome ServiceError ℕ
unfolding request_database_id_or_undefined
request_database_id id =
    or_fail (request_database_id_or_undefined id) ServiceError.invalid_request_id

unfoldable pub get_customer_for_token : ℕ → ℕ → CustomerStore → Outcome ServiceError Customer
unfolding find_customer_by_session
get_customer_for_token now token s =
    or_fail (find_customer_by_session now token s) ServiceError.not_signed_in
