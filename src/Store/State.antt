-- ===== src/Store/State.antt =====
-- The state of the database that the transactions of apps/api/src/service-request.repository.ts
-- read and write: the tables that their decisions rest on, and the journal that they only append
-- to (events, notification outbox, staff audit).
use moeen.Base.{
  ℕ, ◌==◌, if◌then◌else◌, Option, none, some, List, [], ◌∷◌, ◌++◌, find_by, Outcome, ok, err, any,
}
use moeen.Store.Status.{RequestStatus, EventType}
use moeen.Store.Rows.{
  Provider, ServiceRequest, Quote, Opportunity, Payment, Event, TrackingSession, CurrentPosition,
  LocationSample, Notification, AuditSpec, AuditState, AuditEvent,
}

pub record Tables : Type 0 where
  pub providers : List Provider
  pub requests : List ServiceRequest
  pub quotes : List Quote
  pub opportunities : List Opportunity
  pub payments : List Payment
  pub sessions : List TrackingSession
  pub positions : List CurrentPosition
  pub samples : List LocationSample
  pub next_request_id : ℕ
  pub next_quote_id : ℕ
  pub next_payment_id : ℕ

pub record Journal : Type 0 where
  pub events : List Event
  pub outbox : List Notification
  pub audit : List AuditEvent
  pub staff_users : List ℕ
  pub next_outbox_id : ℕ

pub record Db : Type 0 where
  pub tables : Tables
  pub open tables use *
  pub journal : Journal
  pub open journal use *

-- The errors that the transactions throw, by their messages.
pub data Error : Type 0 where
  request_not_found not_pending_dispatch provider_not_found : Error
  quote_approval_required tracking_not_started unsupported_transition invalid_transition : Error
  provider_must_start_tracking assigned_request_not_found provider_not_eligible : Error
  quote_too_late active_quote_exists staff_quote_in_marketplace quote_not_found : Error
  no_longer_pending provider_unavailable empty_invitation not_open_for_invitations : Error
  opportunity_closed quote_conflict provider_quote_not_found cash_not_found cash_not_due : Error
  cash_before_completion cash_not_refundable unrated_not_found foreign_key_violation : Error
  submission_replay submission_conflict verification_precondition : Error
  verified_provider_not_found tracking_disabled tracking_not_found sample_predates_tracking : Error
  sample_conflict sample_out_of_order invalid_batch_size : Error
  access_code_in_use customer_request_not_found ticket_not_found unique_violation : Error

-- A transaction: the database after COMMIT and the value returned, or the error thrown.
abbrev pub Tx : Type 0 → Type 0
Tx A = Outcome Error (Db × A)

abbrev pub find_request : ℕ → Tables → Option ServiceRequest
find_request rid t = find_by (λ (r : ServiceRequest). r.id) rid t.requests

abbrev pub find_provider : ℕ → Tables → Option Provider
find_provider pid t = find_by (λ (p : Provider). p.id) pid t.providers

abbrev pub find_quote : ℕ → Tables → Option Quote
find_quote qid t = find_by (λ (q : Quote). q.id) qid t.quotes

abbrev pub find_session : ℕ → Tables → Option TrackingSession
find_session rid t = find_by (λ (s : TrackingSession). s.request_id) rid t.sessions

-- INSERT INTO service_request_events.
unfoldable pub insert_event : ℕ → EventType → RequestStatus → Journal → Journal
insert_event rid type status j = record j {
  events = j.events ++ (record { request_id = rid; type = type; status = status } ∷ []);
}

-- The loops that insert one event for each row of a list.
unfoldable pub insert_events {ℓ} :
    {A : Type ℓ} → List A → ℕ → EventType → RequestStatus → Journal → Journal
unfolding insert_event
insert_events [] rid type status j = j
insert_events (x ∷ xs) rid type status j =
    insert_events xs rid type status (insert_event rid type status j)

-- `if (audit) await this.insertStaffAuditEvent(…)`. The states that the repository passes hold no
-- location key, so the guard against those never fires; an unknown staff user violates a foreign
-- key.
unfoldable pub insert_staff_audit_event :
    Option AuditSpec → Option AuditState → Option AuditState → Journal → Outcome Error Journal
insert_staff_audit_event none old new j = ok j
insert_staff_audit_event (some spec) old new j =
    if any (λ id. id == spec.staff_id) j.staff_users
    then ok (record j {
      audit =
          j.audit
          ++ (record {
            staff_user_id = spec.staff_id;
            action = spec.action;
            subject_id = spec.subject_id;
            old_state = old;
            new_state = new;
          }
              ∷ []);
    })
    else err foreign_key_violation
