-- ===== src/Outbox/Process.antt =====
-- processClaimedRow of apps/api/src/fcm-dispatch.worker.ts.
use moeen.Base.{
  ◌&&◌, ◌+◌, ◌==◌, ◌∷◌, Bool, List, [], any, false, if◌then◌else◌, is_some, leb, map, none, not,
  select, some, suc, take, true, update_where, ℕ,
}
use moeen.Store.{Notification, OutboxErrorKind, Recipient}
use moeen.Outbox.Worker.{
  Device, DeviceResult, Dispatch, RowOutcome, Sending, batch_config_error, batch_throttled,
  claim_batch, dead_row, deliver_row, delivered_to, finalize_retry, missing_response,
  other_exception, reclaim_stale, renew_owned_leases, results, set_row, transient_error,
}

abbrev pub recipient_eq : Recipient → Recipient → Bool
recipient_eq (Recipient.customer a) (Recipient.customer b) = a == b
recipient_eq (Recipient.provider a) (Recipient.provider b) = a == b
recipient_eq _ _ = false

abbrev pub is_active_device_of : Recipient → Device → Bool
is_active_device_of owner d = recipient_eq owner d.owner && not (is_some d.revoked_at)

-- DEVICES_CUSTOMER_SQL and DEVICES_PROVIDER_SQL, on the devices in the order of their creation.
unfoldable pub resolve_active_devices : Recipient → List Device → List Device
resolve_active_devices owner devices = take 10 (select (is_active_device_of owner) devices)

-- `results[index] ?? missing_response`.
abbrev pub pair_results : List Device → List DeviceResult → List (Device × DeviceResult)
pair_results [] rs = []
pair_results (d ∷ ds) [] = (d, missing_response) ∷ pair_results ds []
pair_results (d ∷ ds) (r ∷ rs) = (d, r) ∷ pair_results ds rs

abbrev pub is_permanent : DeviceResult → Bool
is_permanent DeviceResult.invalid_token = true
is_permanent DeviceResult.unregistered_token = true
is_permanent _ = false

abbrev pub is_unregistered : DeviceResult → Bool
is_unregistered DeviceResult.unregistered_token = true
is_unregistered _ = false

abbrev pub is_config_error : DeviceResult → Bool
is_config_error DeviceResult.config_error = true
is_config_error _ = false

abbrev pub is_delivered_to : DeviceResult → Bool
is_delivered_to delivered_to = true
is_delivered_to _ = false

abbrev pub is_throttled : DeviceResult → Bool
is_throttled (transient_error throttled) = throttled
is_throttled _ = false

-- `permanent.length === byIndex.length`.
abbrev pub all_permanent : List (Device × DeviceResult) → Bool
all_permanent [] = true
all_permanent (e ∷ es) = is_permanent e.1 && all_permanent es

-- REVOKE_DEVICE_SQL.
abbrev pub revoke_device : ℕ → ℕ → List Device → List Device
revoke_device now id =
    update_where (λ (d : Device). d.id == id && not (is_some d.revoked_at))
      (λ d. record d { revoked_at = some now })

-- The loop over the permanent entries.
abbrev pub revoke_permanent : ℕ → List (Device × DeviceResult) → List Device → List Device
revoke_permanent now [] devices = devices
revoke_permanent now (e ∷ es) devices =
    revoke_permanent now es (if is_permanent e.1 then revoke_device now e.0.id devices else devices)

-- The decision on the paired results, after the permanent tokens are revoked.
unfoldable pub conclude_row :
    ℕ → Notification → List (Device × DeviceResult) → Dispatch → Dispatch × RowOutcome
unfolding finalize_retry
conclude_row now row entries d =
    let attempt_number = suc row.attempts in
    if any (λ (e : Device × DeviceResult). is_config_error e.1) entries
    then (set_row row.id (dead_row attempt_number OutboxErrorKind.config_error) d, RowOutcome.dead)
    else if any (λ (e : Device × DeviceResult). is_delivered_to e.1) entries
    then (set_row row.id (deliver_row now none) d, RowOutcome.delivered)
    else if all_permanent entries
    then (
      set_row row.id
          (deliver_row now (
            some (
              if any (λ (e : Device × DeviceResult). is_unregistered e.1) entries
              then OutboxErrorKind.unregistered_token
              else OutboxErrorKind.invalid_token)))
          d,
      RowOutcome.delivered,
    )
    else finalize_retry now row attempt_number
        (if any (λ (e : Device × DeviceResult). is_throttled e.1) entries
          then OutboxErrorKind.throttled
          else OutboxErrorKind.network_error)
        d

unfoldable pub finish_row :
    ℕ → Notification → List Device → Sending → Dispatch → Dispatch × RowOutcome
unfolding conclude_row finalize_retry
finish_row now row devices (results rs) d =
    let entries = pair_results devices rs in
    conclude_row now row entries (record d { devices = revoke_permanent now entries d.devices })
finish_row now row devices batch_config_error d =
    (set_row row.id (dead_row (suc row.attempts) OutboxErrorKind.config_error) d, RowOutcome.dead)
finish_row now row devices batch_throttled d =
    finalize_retry now row (suc row.attempts) OutboxErrorKind.throttled d
finish_row now row devices other_exception d =
    finalize_retry now row (suc row.attempts) OutboxErrorKind.network_error d

-- What follows the selection of the devices.
unfoldable pub process_with :
    ℕ
    → Notification
    → Bool
    → (List Device → Sending)
    → Dispatch
    → List Device
    → Dispatch × RowOutcome
unfolding finish_row
process_with now row payload_safe send d [] = (
  set_row row.id (deliver_row now (some OutboxErrorKind.no_active_device)) d,
  RowOutcome.delivered,
)
process_with now row payload_safe send d (x ∷ xs) =
    if payload_safe
    then finish_row now row (x ∷ xs) (send (x ∷ xs)) d
    else (set_row row.id (dead_row (suc row.attempts) OutboxErrorKind.unknown) d, RowOutcome.dead)

-- processClaimedRow, where no statement of its own fails.
unfoldable pub process_claimed_row :
    ℕ → Notification → Bool → (List Device → Sending) → Dispatch → Dispatch × RowOutcome
unfolding resolve_active_devices process_with
process_claimed_row now row payload_safe send d =
    process_with now row payload_safe send d (resolve_active_devices row.recipient d.devices)

abbrev pub lease_renew_interval_milliseconds : ℕ
lease_renew_interval_milliseconds = 30000

-- renewLeasesIfDue: at most once in the interval, on the rows that are not done. The result carries
-- the time of the last renewal.
unfoldable pub renew_leases_if_due :
    ℕ → ℕ → ℕ → List Notification → List Notification → ℕ × List Notification
unfolding renew_owned_leases
renew_leases_if_due now worker last active rows =
    if leb (last + lease_renew_interval_milliseconds) now
    then (now, renew_owned_leases now worker (map (λ (n : Notification). n.id) active) rows)
    else (last, rows)

-- The world around a cycle: when each row is reached, whether its payload is safe, and what the
-- sender answers.
pub record Surroundings : Type 0 where
  pub clock : Notification → ℕ
  pub payload_safe : Notification → Bool
  pub send : List Device → Sending

-- The loop of tickOnce over the claimed rows.
unfoldable pub process_rows : Surroundings → ℕ → ℕ → List Notification → Dispatch → Dispatch
unfolding renew_leases_if_due process_claimed_row
process_rows w worker last [] d = d
process_rows w worker last (row ∷ rows) d =
    let now = w.clock row in
    let (renewed, outbox) = renew_leases_if_due now worker last (row ∷ rows) d.outbox in
    process_rows w worker renewed rows
      (process_claimed_row now row (w.payload_safe row) w.send (record d { outbox = outbox })).0

-- tickOnce, where no statement fails.
unfoldable pub tick_once : Surroundings → ℕ → ℕ → Dispatch → Dispatch
unfolding reclaim_stale claim_batch process_rows
tick_once w now worker d =
    let (claimed, outbox) = claim_batch now worker (reclaim_stale now d.outbox) in
    process_rows w worker 0 claimed (record d { outbox = outbox })
