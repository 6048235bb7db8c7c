-- ===== src/Push/Examples.antt =====
-- A stored row, its payload and its message; an answer of Firebase.
use moeen.Base.{
  ◌∷◌, ◌≡◌, List, Option, Text, [], any, codes, count, err, false, if◌then◌else◌, is_empty, none,
  ok, refl, some, text_eq, true, ℕ,
}
use moeen.Store.{DedupeKey, Notification, NotificationType, OutboxStatus, Recipient}
use moeen.Ids.Decimal.{decimal}
use moeen.Ids.Public.{to_request_public_id}
use moeen.Json.{Fields, Json, add_field, keys, number_one}
use moeen.Outbox.Process.{process_claimed_row, resolve_active_devices}
use moeen.Outbox.Worker.{Device, Dispatch}
use moeen.Push.Contract.{
  assert_fcm_push_payload_safe-keys, notification_message_from_payload-stored,
}
use moeen.Push.Message.{body_of, notification_message_from_payload, stored_payload, title_of}
use moeen.Push.Payload.{
  FcmPushPayload, NavigateTarget, PayloadError, allowed_fields, assert_fcm_push_payload_safe,
  build_push_payload, is_public_id, navigate_by_type, navigate_name, type_name,
}
use moeen.Push.Revocation.{process_claimed_row-revokes}
use moeen.Push.Sender.{FcmResponse, Multicast, send_to_devices, to_sending}

abbrev row : Notification
row = record {
  dedupe_key = DedupeKey.request_created 3;
  recipient = Recipient.customer 5;
  notification_type = NotificationType.quote_received;
  id = 12;
  request_id = 3;
  status = OutboxStatus.sending;
  attempts = 0;
  available_at = 0;
  next_attempt_at = none;
  lease_claimed_at = none;
  lease_claimed_by = none;
  last_error_kind = none;
  delivered_at = none;
}

abbrev read_row : FcmPushPayload
read_row = record {
  type = NotificationType.quote_received;
  request_public_id = codes "MOE-1003";
  navigate = NavigateTarget.customer_request_detail;
  event_id = codes "12";
}

row_is_safe : assert_fcm_push_payload_safe (stored_payload row) ≡ ok read_row
unfolding assert_fcm_push_payload_safe stored_payload text_eq
row_is_safe = refl

-- A coordinate beside the allowed fields.
smuggled :
    assert_fcm_push_payload_safe (
      Json.object (
        add_field
          (codes "latitude")
          (Json.number number_one)
          (build_push_payload NotificationType.quote_received (codes "MOE-1003") (codes "12"))))
    ≡ err PayloadError.unexpected_fields
unfolding assert_fcm_push_payload_safe build_push_payload text_eq
smuggled = refl

assert_fcm_push_payload_safe-keys_example :
    (fields : Fields) × (stored_payload row ≡ Json.object fields)
    × ((k : Text)
        → count (text_eq k) (keys fields) ≡ (if any (text_eq k) allowed_fields then 1 else 0))
    × (is_public_id read_row.request_public_id ≡ true)
    × (is_empty read_row.event_id ≡ false)
assert_fcm_push_payload_safe-keys_example =
    assert_fcm_push_payload_safe-keys (stored_payload row) read_row row_is_safe

notification_message_from_payload-stored_example :
    notification_message_from_payload (stored_payload row)
    ≡ ok (record {
      title = title_of NotificationType.quote_received;
      body = body_of NotificationType.quote_received (to_request_public_id 3);
      content =
          (codes "type", type_name NotificationType.quote_received)
          ∷ (codes "requestId", to_request_public_id 3)
          ∷ (codes "navigate", navigate_name (navigate_by_type NotificationType.quote_received))
          ∷ (codes "eventId", decimal 12)
          ∷ (codes "v", codes "1")
          ∷ [];
    })
notification_message_from_payload-stored_example = notification_message_from_payload-stored row

abbrev lost : Text
lost = codes "messaging/registration-token-not-registered"

abbrev phone_of : ℕ → Option ℕ → Device
phone_of id revoked_at = record {
  id = id;
  owner = Recipient.customer 5;
  token = id;
  revoked_at = revoked_at;
}

-- Two phones of the recipient, the first of which has lost its token.
abbrev two_phones : Dispatch
two_phones = record { outbox = row ∷ []; devices = phone_of 1 none ∷ phone_of 2 none ∷ [] }

abbrev answers : List FcmResponse
answers = FcmResponse.failure (some lost) ∷ FcmResponse.success ∷ []

process_claimed_row-revokes_example :
    (process_claimed_row 70 row true
      (λ to. to_sending (send_to_devices (Multicast.responses answers)))
      two_phones).0.devices
    ≡ phone_of 1 (some 70) ∷ phone_of 2 none ∷ []
unfolding resolve_active_devices text_eq
process_claimed_row-revokes_example = process_claimed_row-revokes 70 row answers two_phones
