-- ===== src/Outbox/Worker.antt =====
-- apps/api/src/fcm-dispatch.worker.ts and the constants of fcm.config.ts: one worker against the
-- outbox and the devices. What the sender answers, and whether the stored payload passes its
-- contract, are arguments.
use moeen.Base.{
  ◌&&◌, ◌*◌, ◌+◌, ◌==◌, ◌∷◌, Bool, List, Option, [], any, false, find_first, holds, if◌then◌else◌,
  is_some, leb, none, some, suc, true, update_first, update_where, zero, ℕ,
}
use moeen.Store.{Notification, OutboxErrorKind, OutboxStatus, Recipient}
use moeen.Outbox.Writer.{max_delivery_attempts}
use moeen.Tracking.Arrival.{or_else}
use moeen.Tracking.Retention.{has_age, oldest}

abbrev pub dispatch_batch_size : ℕ
dispatch_batch_size = 50

abbrev pub dispatch_lease_ttl_milliseconds : ℕ
dispatch_lease_ttl_milliseconds = 300 * 1000

abbrev pub retry_backoff_milliseconds : List ℕ
retry_backoff_milliseconds = 60000 ∷ 300000 ∷ 900000 ∷ 3600000 ∷ []

abbrev pub get_elem? {ℓ} : {A : Type ℓ} → List A → ℕ → Option A
get_elem? [] n = none
get_elem? (x ∷ xs) zero = some x
get_elem? (x ∷ xs) (suc n) = get_elem? xs n

-- fcmRetryDelayMs.
abbrev pub retry_delay : ℕ → Option ℕ
retry_delay zero = none
retry_delay (suc index) = get_elem? retry_backoff_milliseconds index

pub record Device : Type 0 where
  pub id : ℕ
  pub owner : Recipient
  pub token : ℕ
  pub revoked_at : Option ℕ

pub record Dispatch : Type 0 where
  pub outbox : List Notification
  pub devices : List Device

-- The result for one device; a transient error may carry a code for throttling.
pub data DeviceResult : Type 0 where
  delivered_to invalid_token unregistered_token config_error missing_response : DeviceResult
  transient_error : Bool → DeviceResult

-- What sendToDevices does: results, a batch error, or any other exception (the timeout too).
pub data Sending : Type 0 where
  results : List DeviceResult → Sending
  batch_config_error batch_throttled other_exception : Sending

pub data RowOutcome : Type 0 where
  delivered retry dead : RowOutcome

abbrev pub is_pending_row : OutboxStatus → Bool
is_pending_row OutboxStatus.pending = true
is_pending_row _ = false

abbrev pub is_sending_row : OutboxStatus → Bool
is_sending_row OutboxStatus.sending = true
is_sending_row _ = false

-- `lease_claimed_at <= NOW() - ttl`.
abbrev pub is_expired : ℕ → Option ℕ → Bool
is_expired now none = false
is_expired now (some claimed) = leb (claimed + dispatch_lease_ttl_milliseconds) now

abbrev pub is_stale : ℕ → Notification → Bool
is_stale now n = is_sending_row n.status && is_expired now n.lease_claimed_at

abbrev pub reclaim_row : ℕ → Notification → Notification
reclaim_row now n = record n {
  status = OutboxStatus.pending;
  lease_claimed_at = none;
  lease_claimed_by = none;
  available_at = now;
}

-- RECLAIM_SQL.
unfoldable pub reclaim_stale : ℕ → List Notification → List Notification
reclaim_stale now rows = update_where (is_stale now) (reclaim_row now) rows

-- The WHERE clause of CLAIM_SQL, with its first sort key.
abbrev pub due_at : ℕ → Notification → Option ℕ
due_at now n =
    if is_pending_row n.status && leb n.available_at now then some n.available_at else none

abbrev pub is_due : ℕ → Notification → Bool
is_due now n = is_some (due_at now n)

abbrev pub claim_row : ℕ → ℕ → Notification → Notification
claim_row now worker n = record n {
  status = OutboxStatus.sending;
  lease_claimed_at = some now;
  lease_claimed_by = some worker;
}

-- CLAIM_SQL, row by row in the order of its ORDER BY: the table stands in the order of the ids,
-- its second sort key. The rows claimed come with the table.
unfoldable pub claim : ℕ → ℕ → ℕ → List Notification → List Notification × List Notification
claim now worker zero rows = ([], rows)
claim now worker (suc limit) rows = elim (oldest (due_at now) rows) [
  | none ↦ ([], rows)
  | some k ↦ elim (find_first (λ n. has_age (due_at now n) k) rows) [
    | none ↦ ([], rows)
    | some n ↦
        let (claimed, left) =
          claim now worker limit
            (update_first (λ x. has_age (due_at now x) k) (claim_row now worker) rows) in
        (n ∷ claimed, left)
  ]
]

unfoldable pub claim_batch : ℕ → ℕ → List Notification → List Notification × List Notification
unfolding claim
claim_batch now worker rows = claim now worker dispatch_batch_size rows

abbrev pub is_owned_lease : ℕ → List ℕ → Notification → Bool
is_owned_lease worker ids n =
    is_sending_row n.status && (holds n.lease_claimed_by worker && any (λ i. n.id == i) ids)

abbrev pub renew_row : ℕ → Notification → Notification
renew_row now n = record n { lease_claimed_at = some now }

-- RENEW_LEASE_SQL.
unfoldable pub renew_owned_leases : ℕ → ℕ → List ℕ → List Notification → List Notification
renew_owned_leases now worker ids rows =
    update_where (is_owned_lease worker ids) (renew_row now) rows

abbrev pub row_key : Notification → ℕ
row_key n = n.id

abbrev pub deliver_row : ℕ → Option OutboxErrorKind → Notification → Notification
deliver_row now kind n = record n {
  status = OutboxStatus.delivered;
  delivered_at = some now;
  last_error_kind = kind;
  lease_claimed_at = none;
  lease_claimed_by = none;
  next_attempt_at = none;
}

abbrev pub dead_row : ℕ → OutboxErrorKind → Notification → Notification
dead_row attempts kind n = record n {
  status = OutboxStatus.dead;
  attempts = attempts;
  last_error_kind = some kind;
  lease_claimed_at = none;
  lease_claimed_by = none;
}

abbrev pub retry_row : ℕ → ℕ → OutboxErrorKind → Notification → Notification
retry_row attempts at kind n = record n {
  status = OutboxStatus.pending;
  attempts = attempts;
  next_attempt_at = some at;
  available_at = at;
  last_error_kind = some kind;
  lease_claimed_at = none;
  lease_claimed_by = none;
}

abbrev pub set_row : ℕ → (Notification → Notification) → Dispatch → Dispatch
set_row id f d = record d { outbox = update_where (λ (n : Notification). n.id == id) f d.outbox }

-- finalizeRetry.
unfoldable pub finalize_retry :
    ℕ → Notification → ℕ → OutboxErrorKind → Dispatch → Dispatch × RowOutcome
finalize_retry now row attempt_number kind d =
    if leb max_delivery_attempts attempt_number
    then (set_row row.id (dead_row attempt_number kind) d, RowOutcome.dead)
    else (
      set_row row.id
          (retry_row attempt_number (now + or_else (retry_delay attempt_number) 60000) kind) d,
      RowOutcome.retry,
    )
