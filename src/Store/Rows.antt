-- ===== src/Store/Rows.antt =====
-- The rows of the tables. Identifiers and the ids of providers, which are opaque text keys that
-- the code only compares, are numbers; a time is a number of milliseconds; a coordinate is the
-- number that the parameters of the tracking functions read.
use Prim.Native.String.{String}
use moeen.Base.{ℤ, ℕ, Bool, Option, List}
use moeen.Store.Status.{
  RequestStatus, EventType, QuoteStatus, OpportunityStatus, VerificationStatus, PaymentMethod,
  PaymentStatus, SessionState, StopReason, NotificationType, OutboxStatus, OutboxErrorKind,
  SupportTicketStatus,
}

-- A confirmed point, in millionths of a degree (the columns have six decimals).
pub record Point : Type 0 where
  pub latitude : ℤ
  pub longitude : ℤ

pub record Provider : Type 0 where
  pub id : ℕ
  pub specialties : List ℕ
  pub available : Bool
  pub verification_status : VerificationStatus

pub record ServiceRequest : Type 0 where
  pub id : ℕ
  pub service_id : ℕ
  pub customer_id : Option ℕ
  pub client_submission_id : Option ℕ
  pub submission_fingerprint : Option ℕ
  pub location : Option Point
  pub status : RequestStatus
  pub assigned_provider_id : Option ℕ
  pub rating : Option ℕ
  pub rating_comment : Option String

pub record Quote : Type 0 where
  pub id : ℕ
  pub request_id : ℕ
  pub provider_id : Option ℕ
  pub amount_halalas : ℕ
  pub scope : String
  pub status : QuoteStatus
  pub decided_at : Option ℕ

pub record Opportunity : Type 0 where
  pub request_id : ℕ
  pub provider_id : ℕ
  pub status : OpportunityStatus

pub record Payment : Type 0 where
  pub id : ℕ
  pub request_id : ℕ
  pub quote_id : ℕ
  pub amount_halalas : ℕ
  pub method : PaymentMethod
  pub status : PaymentStatus
  pub collected_at : Option ℕ
  pub refunded_at : Option ℕ

pub record Event : Type 0 where
  pub request_id : ℕ
  pub type : EventType
  pub status : RequestStatus

pub record TrackingSession : Type 0 where
  pub request_id : ℕ
  pub provider_id : ℕ
  pub state : SessionState
  pub started_at : ℕ
  pub stopped_at : Option ℕ
  pub stop_reason : Option StopReason
  pub arrival_qualifying_sample_count : ℕ
  pub arrival_first_qualifying_at : Option ℕ
  pub arrival_last_qualifying_at : Option ℕ
  pub arrival_observed_at : Option ℕ

pub record CurrentPosition : Type 0 where
  pub request_id : ℕ
  pub provider_id : ℕ
  pub latitude : ℤ
  pub longitude : ℤ
  pub accuracy_millimeters : ℕ
  pub captured_at : ℕ
  pub received_at : ℕ

pub record LocationSample : Type 0 where
  pub request_id : ℕ
  pub provider_id : ℕ
  pub latitude : ℤ
  pub longitude : ℤ
  pub accuracy_millimeters : ℕ
  pub captured_at : ℕ
  pub received_at : ℕ
  pub distance_meters : Option ℕ
  pub arrival_qualifying : Bool

-- The dedupe keys are templates such as `status_updated:${id}:${status}`: one constructor for each
-- prefix, with the parts that are filled in.
pub data DedupeKey : Type 0 where
  request_created : ℕ → DedupeKey
  opportunity_invited : ℕ → ℕ → DedupeKey
  provider_assigned : ℕ → ℕ → DedupeKey
  assignment_confirmed : ℕ → DedupeKey
  opportunity_closed : ℕ → ℕ → DedupeKey
  status_updated : ℕ → RequestStatus → DedupeKey
  quote_received : ℕ → ℕ → DedupeKey

pub data Recipient : Type 0 where
  customer : ℕ → Recipient
  provider : ℕ → Recipient

pub record Notification : Type 0 where
  pub dedupe_key : DedupeKey
  pub recipient : Recipient
  pub notification_type : NotificationType
  pub id : ℕ
  pub request_id : ℕ
  pub status : OutboxStatus
  pub attempts : ℕ
  pub available_at : ℕ
  pub next_attempt_at : Option ℕ
  pub lease_claimed_at : Option ℕ
  pub lease_claimed_by : Option ℕ
  pub last_error_kind : Option OutboxErrorKind
  pub delivered_at : Option ℕ

-- The old and new states that a staff audit event records.
pub data AuditState : Type 0 where
  request_state : RequestStatus → Option ℕ → AuditState
  status_state : RequestStatus → AuditState
  quote_state : QuoteStatus → ℕ → AuditState
  invited_state : List ℕ → AuditState
  closed_state : ℕ → Bool → AuditState
  payment_state : PaymentStatus → ℕ → AuditState
  provider_state : VerificationStatus → Bool → AuditState
  created_state : VerificationStatus → AuditState
  access_code_state : AuditState
  ticket_state : SupportTicketStatus → AuditState

-- What the caller knows of the staff member and the action.
pub record AuditSpec : Type 0 where
  pub staff_id : ℕ
  pub action : String
  pub subject_id : ℕ

pub record AuditEvent : Type 0 where
  pub staff_user_id : ℕ
  pub action : String
  pub subject_id : ℕ
  pub old_state : Option AuditState
  pub new_state : Option AuditState
