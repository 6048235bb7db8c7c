-- ===== src/Store/Status.antt =====
-- The enumerated columns (unions of string literals in apps/api/src/app.service.ts and CHECK
-- constraints in service-request.repository.ts), and the tests that the code makes on them.
use moeen.Base.{ℕ, ◌==◌, Bool, true, false, Option, some, List, any}

pub data RequestStatus : Type 0 where
  pending_dispatch assigned on_the_way in_progress completed cancelled : RequestStatus

-- The statuses that the type of updateStatusForProvider admits.
pub data ProviderStatus : Type 0 where
  on_the_way in_progress completed : ProviderStatus

pub data EventType : Type 0 where
  request_created provider_assigned status_updated quote_proposed quote_approved : EventType
  quote_rejected opportunity_invited opportunity_closed : EventType
  provider_quote_submitted provider_quote_withdrawn : EventType

pub data QuoteStatus : Type 0 where
  proposed approved rejected withdrawn : QuoteStatus

pub data OpportunityStatus : Type 0 where
  invited quoted withdrawn closed rejected : OpportunityStatus

pub data VerificationStatus : Type 0 where
  pending verified suspended : VerificationStatus

pub data PaymentMethod : Type 0 where
  cash_on_completion paymob : PaymentMethod

pub data PaymentStatus : Type 0 where
  cash_due cash_collected checkout_created paid failed refund_pending refunded : PaymentStatus

pub data SessionState : Type 0 where
  active stopped : SessionState

pub data StopReason : Type 0 where
  completed cancelled provider_suspended operations_emergency : StopReason

pub data NotificationType : Type 0 where
  request_created quote_received assignment_confirmed provider_on_the_way : NotificationType
  service_in_progress request_completed request_cancelled opportunity_invited : NotificationType
  provider_assigned opportunity_closed : NotificationType

pub data OutboxStatus : Type 0 where
  pending sending delivered dead : OutboxStatus

pub data OutboxErrorKind : Type 0 where
  no_active_device invalid_token unregistered_token network_error throttled config_error unknown :
      OutboxErrorKind

-- `===` between two statuses.
abbrev pub request_code : RequestStatus → ℕ
request_code pending_dispatch = 0
request_code assigned = 1
request_code RequestStatus.on_the_way = 2
request_code RequestStatus.in_progress = 3
request_code RequestStatus.completed = 4
request_code RequestStatus.cancelled = 5

abbrev pub status_eq : RequestStatus → RequestStatus → Bool
status_eq a b = request_code a == request_code b

-- `statuses.includes(status)`.
abbrev pub includes : List RequestStatus → RequestStatus → Bool
includes statuses status = any (status_eq status) statuses

-- `status IN ('proposed', 'approved')`.
abbrev pub is_active_quote : QuoteStatus → Bool
is_active_quote proposed = true
is_active_quote approved = true
is_active_quote _ = false

abbrev pub is_proposed : QuoteStatus → Bool
is_proposed proposed = true
is_proposed _ = false

abbrev pub is_approved : QuoteStatus → Bool
is_approved approved = true
is_approved _ = false

-- `status IN ('invited', 'quoted')`.
abbrev pub is_open_opportunity : OpportunityStatus → Bool
is_open_opportunity invited = true
is_open_opportunity quoted = true
is_open_opportunity _ = false

abbrev pub is_quoted : OpportunityStatus → Bool
is_quoted quoted = true
is_quoted _ = false

abbrev pub is_verified : VerificationStatus → Bool
is_verified verified = true
is_verified _ = false

abbrev pub verification_eq : VerificationStatus → VerificationStatus → Bool
verification_eq pending pending = true
verification_eq verified verified = true
verification_eq suspended suspended = true
verification_eq _ _ = false

abbrev pub is_cash : PaymentMethod → Bool
is_cash cash_on_completion = true
is_cash paymob = false

abbrev pub is_cash_due : PaymentStatus → Bool
is_cash_due cash_due = true
is_cash_due _ = false

abbrev pub is_cash_collected : PaymentStatus → Bool
is_cash_collected cash_collected = true
is_cash_collected _ = false

abbrev pub is_active_session : SessionState → Bool
is_active_session active = true
is_active_session stopped = false

-- `$2 IN ('completed', 'cancelled')`, and the reasons that such a stop may overwrite.
abbrev pub is_terminal_reason : StopReason → Bool
is_terminal_reason completed = true
is_terminal_reason cancelled = true
is_terminal_reason _ = false

abbrev pub is_interruption : Option StopReason → Bool
is_interruption (some provider_suspended) = true
is_interruption (some operations_emergency) = true
is_interruption _ = false

pub data SupportCategory : Type 0 where
  no_show price quality payment other : SupportCategory

pub data SupportTicketStatus : Type 0 where
  open_ticket ticket_in_progress resolved : SupportTicketStatus
