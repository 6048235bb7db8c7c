-- ===== src/Devices/Examples.antt =====
-- Registrations at concrete times, and the theorems on them.
use moeen.Base.{◌∷◌, ◌≡◌, ◌≤◌, List, [], count, refl, ℕ}
use moeen.Store.{Recipient}
use moeen.Devices.Limits.{device_run-caps}
use moeen.Devices.Registry.{
  DeviceCommand, device_run, is_active_with, register_device, revoke_own_device,
}
use moeen.Outbox.Process.{is_active_device_of}

-- A phone changes hands: the token moves to the second owner, who keeps it.
abbrev handover : List (ℕ × DeviceCommand)
handover =
    (1000, DeviceCommand.registers 1 (Recipient.customer 5) 99)
    ∷ (2000, DeviceCommand.registers 2 (Recipient.provider 7) 99)
    ∷ (3000, DeviceCommand.revokes (Recipient.customer 5) 2)
    ∷ []

moved_over :
    (count (is_active_device_of (Recipient.customer 5)) (device_run handover []) ≡ 0)
    × (count (is_active_device_of (Recipient.provider 7)) (device_run handover []) ≡ 1)
unfolding register_device revoke_own_device
moved_over = (refl, refl)

device_run-caps_example :
    (count (is_active_device_of (Recipient.provider 7)) (device_run handover []) ≤ 10)
    × (count (is_active_with 99) (device_run handover []) ≤ 1)
device_run-caps_example = device_run-caps handover (Recipient.provider 7) 99
