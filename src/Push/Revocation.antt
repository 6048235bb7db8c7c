-- ===== src/Push/Revocation.antt =====
-- Which answers of Firebase cost a device its registration, through the sender and the worker.
use moeen.Base.{
  ◌&&◌, ◌==◌, ◌||◌, ◌∙◌, ◌∷◌, ◌≡◌, Bool, Bool-cases, List, Text, [], arith, codes, false, inl, inr,
  is_some, map, none, not, refl, some, sym, text_eq, text_eq_iff, true, update_where, ℕ,
}
use moeen.Store.{Notification}
use moeen.Outbox.Process.{
  conclude_row, finish_row, is_permanent, pair_results, process_claimed_row, process_with,
  resolve_active_devices, revoke_device, revoke_permanent,
}
use moeen.Outbox.Worker.{Device, DeviceResult, Dispatch, finalize_retry}
use moeen.Push.Sender.{
  FcmResponse, Multicast, classify_code, classify_fcm_send_error, is_config_code, is_lost_code,
  is_permanent_code, is_sdk_code, send_result, send_to_devices, to_device_result, to_sending,
}

-- The three codes of a token that is gone for good.
abbrev pub is_gone_code : Text → Bool
is_gone_code code =
    text_eq code (codes "messaging/registration-token-not-registered")
    || (text_eq code (codes "messaging/invalid-registration-token")
        || text_eq code (codes "messaging/sender-id-mismatch"))

-- An answer that says so.
abbrev pub is_gone : FcmResponse → Bool
is_gone (FcmResponse.failure (some code)) = is_gone_code code
is_gone _ = false

is_gone_code-is_sdk_code : (code : Text) → is_gone_code code ≡ true → is_sdk_code code ≡ true
unfolding is_sdk_code text_eq
is_gone_code-is_sdk_code code h =
    elim (Bool-cases (text_eq code (codes "messaging/registration-token-not-registered"))) [
      | inl e ↦ rw ((text_eq_iff code _).0 e) refl
      | inr p ↦ elim (Bool-cases (text_eq code (codes "messaging/invalid-registration-token"))) [
        | inl e ↦ rw ((text_eq_iff code _).0 e) refl
        | inr q ↦
            let e : text_eq code (codes "messaging/sender-id-mismatch") ≡ true =
              ground (arith, h, p, q) in
            rw ((text_eq_iff code _).0 e) refl
      ]
    ]

is_gone_code-is_permanent_code : (code : Text) → is_permanent_code code ≡ is_gone_code code
unfolding is_permanent_code
is_gone_code-is_permanent_code code = ground arith

-- The worker takes an answer for permanent exactly when it says that the token is gone.
is_permanent-is_gone :
    (r : FcmResponse) → is_permanent (to_device_result (send_result r)) ≡ is_gone r
unfolding classify_fcm_send_error classify_code
is_permanent-is_gone FcmResponse.success = refl
is_permanent-is_gone (FcmResponse.failure none) = refl
is_permanent-is_gone (FcmResponse.failure (some code)) = elim (Bool-cases (is_gone_code code)) [
  | inl gone ↦
      let permanent : is_permanent_code code ≡ true = is_gone_code-is_permanent_code code ∙ gone in
      elim (Bool-cases (is_lost_code code)) [
        | inl lost ↦ rw (is_gone_code-is_sdk_code code gone, permanent, lost, gone) refl
        | inr bad ↦ rw (is_gone_code-is_sdk_code code gone, permanent, bad, gone) refl
      ]
  | inr usable ↦
      let temporary : is_permanent_code code ≡ false =
        is_gone_code-is_permanent_code code ∙ usable in
      elim (Bool-cases (is_sdk_code code)) [
        | inr other ↦ rw (other, usable) refl
        | inl shaped ↦ elim (Bool-cases (is_config_code code)) [
          | inl config ↦ rw (shaped, temporary, config, usable) refl
          | inr fine ↦ rw (shaped, temporary, fine, usable) refl
        ]
      ]
]

-- The identifiers of the devices whose answer says that the token is gone; the answers stand in the
-- order of the devices.
abbrev pub loses : ℕ → List Device → List FcmResponse → Bool
loses id [] rs = false
loses id (d ∷ ds) [] = false
loses id (d ∷ ds) (r ∷ rs) = (id == d.id && is_gone r) || loses id ds rs

abbrev revoked : ℕ → Device → Device
revoked now x = record x { revoked_at = some now }

update_where-twice :
    (p q r : Device → Bool) (now : ℕ) (xs : List Device)
    → ((x : Device) → r x ≡ (p x || q x))
    → ((x : Device) → p (revoked now x) ≡ false)
    → update_where p (revoked now) (update_where q (revoked now) xs)
      ≡ update_where r (revoked now) xs
update_where-twice p q r now [] h k = refl
update_where-twice p q r now (x ∷ xs) h k =
    ground (arith, h x, k x, update_where-twice p q r now xs h k)

update_where-same :
    (p r : Device → Bool) (f : Device → Device) (xs : List Device)
    → ((x : Device) → p x ≡ r x)
    → update_where p f xs ≡ update_where r f xs
update_where-same p r f [] h = refl
update_where-same p r f (x ∷ xs) h = ground (arith, h x, update_where-same p r f xs h)

update_where-none :
    (p : Device → Bool) (f : Device → Device) (xs : List Device)
    → ((x : Device) → p x ≡ false)
    → update_where p f xs ≡ xs
update_where-none p f [] h = refl
update_where-none p f (x ∷ xs) h = ground (arith, h x, update_where-none p f xs h)

loses-unanswered : (id : ℕ) (ds : List Device) → loses id ds [] ≡ false
loses-unanswered id [] = refl
loses-unanswered id (d ∷ ds) = refl

abbrev pub is_lost : List Device → List FcmResponse → Device → Bool
is_lost ds rs x = not (is_some x.revoked_at) && loses x.id ds rs

revoke_permanent-loses :
    (now : ℕ) (ds : List Device) (rs : List FcmResponse) (devices : List Device)
    → revoke_permanent now (pair_results ds (map to_device_result (map send_result rs))) devices
      ≡ update_where (is_lost ds rs) (revoked now) devices
revoke_permanent-loses now [] rs devices =
    sym (update_where-none (is_lost [] rs) (revoked now) devices (λ x. ground arith))
revoke_permanent-loses now (d ∷ ds) [] devices =
    revoke_permanent-loses now ds [] devices
    ∙ update_where-same (is_lost ds []) (is_lost (d ∷ ds) []) (revoked now) devices
        (λ x. ground (arith, loses-unanswered x.id ds))
revoke_permanent-loses now (d ∷ ds) (r ∷ rs) devices = elim (Bool-cases (is_gone r)) [
  | inl gone ↦
      rw (is_permanent-is_gone r, gone)
        (revoke_permanent-loses now ds rs (revoke_device now d.id devices)
          ∙ update_where-twice (is_lost ds rs)
              (λ (x : Device). x.id == d.id && not (is_some x.revoked_at))
              (is_lost (d ∷ ds) (r ∷ rs)) now devices (λ x. ground (arith, gone)) (λ x. refl))
  | inr usable ↦
      rw (is_permanent-is_gone r, usable)
        (revoke_permanent-loses now ds rs devices
          ∙ update_where-same (is_lost ds rs) (is_lost (d ∷ ds) (r ∷ rs)) (revoked now) devices
              (λ x. ground (arith, usable)))
]

conclude_row-devices :
    (now : ℕ) (row : Notification) (entries : List (Device × DeviceResult)) (d : Dispatch)
    → (conclude_row now row entries d).0.devices ≡ d.devices
unfolding conclude_row finalize_retry
conclude_row-devices now row entries d = ground arith

finish_row-devices :
    (now : ℕ) (row : Notification) (ds : List Device) (rs : List FcmResponse) (d : Dispatch)
    → (finish_row now row ds (to_sending (send_to_devices (Multicast.responses rs))) d).0.devices
      ≡ update_where (is_lost ds rs) (revoked now) d.devices
unfolding finish_row send_to_devices
finish_row-devices now row ds rs d =
    conclude_row-devices now row (pair_results ds (map to_device_result (map send_result rs))) _
    ∙ revoke_permanent-loses now ds rs d.devices

process_with-devices :
    (now : ℕ) (row : Notification) (ds : List Device) (rs : List FcmResponse) (d : Dispatch)
    → (process_with now row true
        (λ to. to_sending (send_to_devices (Multicast.responses rs)))
        d
        ds).0.devices
      ≡ update_where (is_lost ds rs) (revoked now) d.devices
unfolding process_with
process_with-devices now row [] rs d =
    sym (update_where-none (is_lost [] rs) (revoked now) d.devices (λ x. ground arith))
process_with-devices now row (x ∷ xs) rs d = finish_row-devices now row (x ∷ xs) rs d

-- When Firebase answers for the devices of a notification, processing its row sets the time of
-- revocation in exactly the registrations, not revoked before, of the devices whose answer has one
-- of the three codes of a token that is gone, and leaves every other registration as it was. The
-- devices asked are the active ones of the recipient, ten at most.
pub process_claimed_row-revokes :
    (now : ℕ) (row : Notification) (rs : List FcmResponse) (d : Dispatch)
    → (process_claimed_row now row true
        (λ to. to_sending (send_to_devices (Multicast.responses rs)))
        d).0.devices
      ≡ update_where
          (λ x.
            not (is_some x.revoked_at)
            && loses x.id (resolve_active_devices row.recipient d.devices) rs)
          (λ x. record x { revoked_at = some now })
          d.devices
unfolding process_claimed_row
process_claimed_row-revokes now row rs d =
    process_with-devices now row (resolve_active_devices row.recipient d.devices) rs d
