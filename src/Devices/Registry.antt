-- ===== src/Devices/Registry.antt =====
-- registerDevice and revokeDevice. A token is a number, since the code only compares its hash; the
-- platform and the time of the last visit are left out. An advisory lock on the owner serializes
-- its registrations.
use moeen.Base.{
  ◌&&◌, ◌++◌, ◌==◌, ◌>>◌, ◌∷◌, Bool, List, Option, Outcome, [], committed, count, find_first, guard,
  if◌then◌else◌, is_some, ltb, none, not, ok, some, update_where, ℕ,
}
use moeen.Store.{Recipient}
use moeen.Outbox.Process.{is_active_device_of, recipient_eq}
use moeen.Outbox.Worker.{Device}

pub data DeviceError : Type 0 where
  device_limit_exceeded : DeviceError

-- MAX_ACTIVE_FCM_DEVICES_PER_OWNER.
abbrev pub max_active_devices : ℕ
max_active_devices = 10

-- `token_hash = $1 AND revoked_at IS NULL`.
abbrev pub is_active_with : ℕ → Device → Bool
is_active_with token d = d.token == token && not (is_some d.revoked_at)

abbrev pub withdraw_device : ℕ → Device → Device
withdraw_device now d = record d { revoked_at = some now }

-- The count against the cap, and the INSERT.
unfoldable pub insert_device :
    ℕ → Recipient → ℕ → List Device → Outcome DeviceError (List Device × ℕ)
insert_device id owner token devices = do
  guard (ltb (count (is_active_device_of owner) devices) max_active_devices) device_limit_exceeded
  ok (devices ++ (record { id = id; owner = owner; token = token; revoked_at = none } ∷ []), id)

-- With the device of the active token, if there is one.
unfoldable pub register_with :
    ℕ → ℕ → Recipient → ℕ → List Device → Option Device → Outcome DeviceError (List Device × ℕ)
unfolding insert_device
register_with now id owner token devices none = insert_device id owner token devices
register_with now id owner token devices (some active) =
    if recipient_eq owner active.owner
    then ok (devices, active.id)
    else insert_device id owner token
        (update_where (λ (d : Device). d.id == active.id) (withdraw_device now) devices)

unfoldable pub register_device :
    ℕ → ℕ → Recipient → ℕ → List Device → Outcome DeviceError (List Device × ℕ)
unfolding register_with
register_device now id owner token devices =
    register_with now id owner token devices (find_first (is_active_with token) devices)

abbrev pub is_own_device : Recipient → ℕ → Device → Bool
is_own_device owner id d = d.id == id && recipient_eq owner d.owner

-- COALESCE(revoked_at, NOW()).
abbrev pub coalesce_revoked : ℕ → Device → Device
coalesce_revoked now d = record d {
  revoked_at = if is_some d.revoked_at then d.revoked_at else some now;
}

unfoldable pub revoke_own_device : ℕ → Recipient → ℕ → List Device → List Device
revoke_own_device now owner id devices =
    update_where (is_own_device owner id) (coalesce_revoked now) devices

pub data DeviceCommand : Type 0 where
  registers : ℕ → Recipient → ℕ → DeviceCommand
  revokes : Recipient → ℕ → DeviceCommand

abbrev pub device_step : ℕ × DeviceCommand → List Device → List Device
device_step (now, DeviceCommand.registers id owner token) devices =
    committed devices (register_device now id owner token devices)
device_step (now, DeviceCommand.revokes owner id) devices = revoke_own_device now owner id devices

abbrev pub device_run : List (ℕ × DeviceCommand) → List Device → List Device
device_run [] devices = devices
device_run (c ∷ cs) devices = device_run cs (device_step c devices)
