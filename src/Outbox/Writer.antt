-- ===== src/Outbox/Writer.antt =====
-- apps/api/src/notification-outbox.writer.ts: one row for each semantic event, inside the
-- transaction of the caller. The payload column is in Push/Message.
use moeen.Base.{
  ◌&&◌, ◌++◌, ◌-◌, ◌==◌, ◌∷◌, Bool, Option, [], any, false, if◌then◌else◌, none, not, some, suc, ℕ,
}
use moeen.Store.{
  DedupeKey, Journal, Notification, NotificationType, OutboxStatus, Recipient, RequestStatus,
  status_eq,
}
use mathlib.Core.Option

pub data Reliability : Type 0 where
  required best_effort : Reliability

-- The switches of the environment that the repository reads.
pub record Config : Type 0 where
  pub notifications_enabled : Bool
  pub tracking_enabled : Bool

-- FCM_MAX_DELIVERY_ATTEMPTS of fcm.config.ts.
abbrev pub max_delivery_attempts : ℕ
max_delivery_attempts = 5

-- `===` between two dedupe keys. Their templates have distinct prefixes.
abbrev pub dedupe_eq : DedupeKey → DedupeKey → Bool
dedupe_eq (DedupeKey.request_created a) (DedupeKey.request_created b) = a == b
dedupe_eq (DedupeKey.opportunity_invited a p) (DedupeKey.opportunity_invited b q) = a == b && p == q
dedupe_eq (DedupeKey.provider_assigned a p) (DedupeKey.provider_assigned b q) = a == b && p == q
dedupe_eq (DedupeKey.assignment_confirmed a) (DedupeKey.assignment_confirmed b) = a == b
dedupe_eq (DedupeKey.opportunity_closed a p) (DedupeKey.opportunity_closed b q) = a == b && p == q
dedupe_eq (DedupeKey.status_updated a s) (DedupeKey.status_updated b t) = a == b && status_eq s t
dedupe_eq (DedupeKey.quote_received a q) (DedupeKey.quote_received b r) = a == b && q == r
dedupe_eq _ _ = false

abbrev pub initial_attempts : Reliability → ℕ
initial_attempts best_effort = max_delivery_attempts - 1
initial_attempts required = 0

module _ (cfg : Config) (now : ℕ) where
  -- writeOnClient: nothing while disabled or without a recipient; ON CONFLICT (dedupe_key) DO
  -- NOTHING; a new row is pending, and due at once.
  unfoldable pub write_on_client :
      NotificationType → ℕ → Option Recipient → DedupeKey → Reliability → Journal → Journal
  write_on_client type rid none key reliability j = j
  write_on_client type rid (some recipient) key reliability j =
      if cfg.notifications_enabled
        && not (any (λ (n : Notification). dedupe_eq key n.dedupe_key) j.outbox)
      then record j {
        next_outbox_id = suc j.next_outbox_id;
        outbox =
            j.outbox
            ++ (record {
              dedupe_key = key;
              recipient = recipient;
              notification_type = type;
              id = j.next_outbox_id;
              request_id = rid;
              status = OutboxStatus.pending;
              attempts = initial_attempts reliability;
              available_at = now;
              next_attempt_at = none;
              lease_claimed_at = none;
              lease_claimed_by = none;
              last_error_kind = none;
              delivered_at = none;
            }
                ∷ []);
      }
      else j

  -- enqueueCustomerNotification: a row with no customer has no recipient.
  unfoldable pub enqueue_customer_notification :
      NotificationType → ℕ → Option ℕ → DedupeKey → Reliability → Journal → Journal
  unfolding write_on_client
  enqueue_customer_notification type rid customer key reliability =
      write_on_client type rid (Option.map Recipient.customer customer) key reliability

  -- enqueueProviderNotification.
  unfoldable pub enqueue_provider_notification :
      NotificationType → ℕ → ℕ → DedupeKey → Journal → Journal
  unfolding write_on_client
  enqueue_provider_notification type rid pid key =
      write_on_client type rid (some (Recipient.provider pid)) key required

-- customerStatusNotificationType.
abbrev pub customer_status_notification_type : RequestStatus → Option NotificationType
customer_status_notification_type RequestStatus.on_the_way =
    some NotificationType.provider_on_the_way
customer_status_notification_type RequestStatus.in_progress =
    some NotificationType.service_in_progress
customer_status_notification_type RequestStatus.completed = some NotificationType.request_completed
customer_status_notification_type RequestStatus.cancelled = some NotificationType.request_cancelled
customer_status_notification_type _ = none
