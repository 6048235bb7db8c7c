-- ===== src/Devices/Limits.antt =====
-- The active devices of an owner and of a token, under registerDevice and revokeDevice.
use moeen.Base.{
  ◌++◌, ◌==◌, ◌∷◌, ◌≡◌, ◌≤◌, ==_iff, ==_refl, Bool, Bool-cases, List, Option, [], ap, arith,
  committed_cases, count, count-update_where-less, find_first, find_first-none-total, guard-eq-ok,
  if◌then◌else◌, inl, inr, is_some, length, ltb, none, ok, refl, select, some, suc, take,
  total-append, total-update_where-le, true, update_where, zero, ℕ,
}
use moeen.Store.{Recipient}
use moeen.Devices.Registry.{
  DeviceCommand, coalesce_revoked, device_limit_exceeded, device_run, device_step, insert_device,
  is_active_with, is_own_device, max_active_devices, register_device, register_with,
  revoke_own_device, withdraw_device,
}
use moeen.Outbox.Process.{is_active_device_of, recipient_eq, resolve_active_devices}
use moeen.Outbox.Worker.{Device}

pub record IsCapped (devices : List Device) : Type 0 where
  pub owners : (owner : Recipient) → count (is_active_device_of owner) devices ≤ max_active_devices
  pub tokens : (token : ℕ) → count (is_active_with token) devices ≤ 1

-- A change that activates nothing.
fewer-IsCapped :
    (p : Device → Bool) (f : Device → Device) (devices : List Device)
    → ((d : Device) → (f d).owner ≡ d.owner)
    → ((d : Device) → (f d).token ≡ d.token)
    → ((d : Device) → is_some (f d).revoked_at ≡ true)
    → IsCapped devices
    → IsCapped (update_where p f devices)
fewer-IsCapped p f devices owner token gone h = record {
  owners = λ o. omega (
    arith,
    h.owners o,
    total-update_where-le (λ d. if is_active_device_of o d then 1 else 0) p f devices
        (λ d e. ground (arith, gone d)),
  );
  tokens = λ t. omega (
    arith,
    h.tokens t,
    total-update_where-le (λ d. if is_active_with t d then 1 else 0) p f devices
        (λ d e. ground (arith, gone d)),
  );
}

recipient_eq-true : (a b : Recipient) → recipient_eq a b ≡ true → a ≡ b
recipient_eq-true (Recipient.customer a) (Recipient.customer b) e =
    ap Recipient.customer ((==_iff a b).0 e)
recipient_eq-true (Recipient.provider a) (Recipient.provider b) e =
    ap Recipient.provider ((==_iff a b).0 e)
recipient_eq-true (Recipient.customer a) (Recipient.provider b) e = absurd (ground arith)
recipient_eq-true (Recipient.provider a) (Recipient.customer b) e = absurd (ground arith)

-- The cap is counted, and the token must be free.
insert-IsCapped :
    (id : ℕ) (owner : Recipient) (token : ℕ) (devices after : List Device) (new : ℕ)
    → insert_device id owner token devices ≡ ok (after, new)
    → count (is_active_with token) devices ≡ 0
    → IsCapped devices
    → IsCapped after
unfolding insert_device
insert-IsCapped id owner token devices after new e free h =
    let (room, e1) =
      guard-eq-ok (ltb (count (is_active_device_of owner) devices) max_active_devices)
        device_limit_exceeded _ e in
    let d : Device = record { id = id; owner = owner; token = token; revoked_at = none } in
    let left : after ≡ devices ++ (d ∷ []) = ground arith in
    rw left (record {
      owners = λ o. elim (Bool-cases (recipient_eq o owner)) [
        | inl same ↦
            let own : o ≡ owner = recipient_eq-true o owner same in
            ground (
              arith,
              own,
              total-append (λ x. if is_active_device_of o x then 1 else 0) devices (d ∷ []),
            )
        | inr other ↦ ground (
          arith,
          h.owners o,
          total-append (λ x. if is_active_device_of o x then 1 else 0) devices (d ∷ []),
        )
      ];
      tokens = λ t. ground (
        arith,
        h.tokens t,
        total-append (λ x. if is_active_with t x then 1 else 0) devices (d ∷ []),
      );
    })

none-active :
    (token : ℕ) (devices : List Device)
    → find_first (is_active_with token) devices ≡ none
    → count (is_active_with token) devices ≡ 0
none-active token devices e =
    find_first-none-total (λ d. if is_active_with token d then 1 else 0) (is_active_with token)
      devices (λ d k. ground arith) e

register_with-IsCapped :
    (now id : ℕ) (owner : Recipient) (token : ℕ) (devices after : List Device) (new : ℕ)
    (active : Option Device)
    → find_first (is_active_with token) devices ≡ active
    → register_with now id owner token devices active ≡ ok (after, new)
    → IsCapped devices
    → IsCapped after
unfolding register_with
register_with-IsCapped now id owner token devices after new none found e h =
    insert-IsCapped id owner token devices after new e (none-active token devices found) h
register_with-IsCapped now id owner token devices after new (some d) found e h =
    elim (Bool-cases (recipient_eq owner d.owner)) [
      | inl own ↦ let same : after ≡ devices = ground arith in rw same h
      | inr other ↦
          let freed = update_where (λ (x : Device). x.id == d.id) (withdraw_device now) devices in
          let less =
            count-update_where-less (is_active_with token) (λ (x : Device). x.id == d.id)
              (withdraw_device now) devices d (λ x k. ground arith) (==_refl d.id) found in
          insert-IsCapped id owner token freed after new (ground arith)
            (omega (arith, less, h.tokens token))
            (fewer-IsCapped (λ (x : Device). x.id == d.id) (withdraw_device now) devices (λ x. refl)
              (λ x. refl) (λ x. refl) h)
    ]

device_step-IsCapped :
    (c : ℕ × DeviceCommand) (devices : List Device)
    → IsCapped devices
    → IsCapped (device_step c devices)
unfolding register_device revoke_own_device
device_step-IsCapped (now, DeviceCommand.registers id owner token) devices h =
    committed_cases IsCapped devices (register_device now id owner token devices) h (λ after new e.
      register_with-IsCapped now id owner token devices after new
        (find_first (is_active_with token) devices) refl e h)
device_step-IsCapped (now, DeviceCommand.revokes owner id) devices h =
    fewer-IsCapped (is_own_device owner id) (coalesce_revoked now) devices (λ d. refl) (λ d. refl)
      (λ d. ground arith) h

device_run-IsCapped :
    (cs : List (ℕ × DeviceCommand)) (devices : List Device)
    → IsCapped devices
    → IsCapped (device_run cs devices)
device_run-IsCapped [] devices h = h
device_run-IsCapped (c ∷ cs) devices h =
    device_run-IsCapped cs (device_step c devices) (device_step-IsCapped c devices h)

-- After any history of registrations and revocations, an owner has at most ten active devices, and
-- a token at most one active device, whoever owns it.
pub device_run-caps :
    (cs : List (ℕ × DeviceCommand)) (owner : Recipient) (token : ℕ)
    → (count (is_active_device_of owner) (device_run cs []) ≤ 10)
      × (count (is_active_with token) (device_run cs []) ≤ 1)
device_run-caps cs owner token =
    let h =
      device_run-IsCapped cs [] (record { owners = λ o. omega arith; tokens = λ t. omega arith }) in
    (h.owners owner, h.tokens token)

length-select :
    (p : Device → Bool) (devices : List Device) → length (select p devices) ≡ count p devices
length-select p [] = refl
length-select p (d ∷ devices) = ground (arith, length-select p devices)

take-all : (n : ℕ) (devices : List Device) → length devices ≤ n → take n devices ≡ devices
take-all zero [] e = refl
take-all (suc n) [] e = refl
take-all zero (d ∷ devices) e = absurd (omega (arith, e))
take-all (suc n) (d ∷ devices) e = ap (λ ds. d ∷ ds) (take-all n devices (omega (arith, e)))

-- After any such history, the ten devices that the worker sends a notification to are all the
-- active devices of the recipient.
pub resolve_active_devices-all :
    (cs : List (ℕ × DeviceCommand)) (owner : Recipient)
    → resolve_active_devices owner (device_run cs [])
      ≡ select (is_active_device_of owner) (device_run cs [])
unfolding resolve_active_devices
resolve_active_devices-all cs owner =
    take-all 10 (select (is_active_device_of owner) (device_run cs [])) (
      omega (
        arith,
        length-select (is_active_device_of owner) (device_run cs []),
        (device_run-caps cs owner 0).0,
      ))
