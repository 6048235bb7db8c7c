-- ===== src/Push/Message.antt =====
-- The copy of apps/api/src/notification-templates.ts and the message that is sent.
use moeen.Base.{◌++◌, ◌>>=◌, ◌∷◌, List, Outcome, Text, [], codes, ok}
use moeen.Store.{Notification, NotificationType}
use moeen.Ids.Decimal.{decimal}
use moeen.Ids.Public.{to_request_public_id}
use moeen.Json.{Json}
use moeen.Push.Payload.{
  FcmPushPayload, PayloadError, assert_fcm_push_payload_safe, build_push_payload, navigate_name,
  type_name,
}

pub record FcmNotificationMessage : Type 0 where
  pub title : Text
  pub body : Text
  pub content : List (Text × Text)

-- ARABIC_COPY, by code points: the titles, and the bodies before and after the public identifier.
unfoldable pub title_of : NotificationType → Text
title_of NotificationType.request_created =
    codes "\u{62a}\u{645} \u{627}\u{633}\u{62a}\u{644}\u{627}\u{645} \u{637}\u{644}\u{628}\u{643}"
title_of NotificationType.quote_received =
    codes
      "\u{648}\u{635}\u{644} \u{639}\u{631}\u{636} \u{633}\u{639}\u{631} \u{62c}\u{62f}\u{64a}\u{62f}"
title_of NotificationType.assignment_confirmed =
    codes "\u{62a}\u{645} \u{62a}\u{623}\u{643}\u{64a}\u{62f} \u{637}\u{644}\u{628}\u{643}"
title_of NotificationType.provider_on_the_way =
    codes
      "\u{645}\u{642}\u{62f}\u{645} \u{627}\u{644}\u{62e}\u{62f}\u{645}\u{629} \u{641}\u{64a} \u{627}\u{644}\u{637}\u{631}\u{64a}\u{642}"
title_of NotificationType.service_in_progress =
    codes
      "\u{628}\u{62f}\u{623} \u{62a}\u{646}\u{641}\u{64a}\u{630} \u{627}\u{644}\u{62e}\u{62f}\u{645}\u{629}"
title_of NotificationType.request_completed =
    codes "\u{627}\u{643}\u{62a}\u{645}\u{644}\u{62a} \u{627}\u{644}\u{62e}\u{62f}\u{645}\u{629}"
title_of NotificationType.request_cancelled =
    codes "\u{62a}\u{645} \u{625}\u{644}\u{63a}\u{627}\u{621} \u{627}\u{644}\u{637}\u{644}\u{628}"
title_of NotificationType.opportunity_invited =
    codes "\u{641}\u{631}\u{635}\u{629} \u{639}\u{645}\u{644} \u{62c}\u{62f}\u{64a}\u{62f}\u{629}"
title_of NotificationType.provider_assigned =
    codes
      "\u{62a}\u{645} \u{625}\u{633}\u{646}\u{627}\u{62f} \u{637}\u{644}\u{628} \u{625}\u{644}\u{64a}\u{643}"
title_of NotificationType.opportunity_closed =
    codes
      "\u{62a}\u{645} \u{625}\u{63a}\u{644}\u{627}\u{642} \u{641}\u{631}\u{635}\u{629} \u{639}\u{645}\u{644}"

unfoldable pub body_of : NotificationType → Text → Text
body_of NotificationType.request_created id =
    codes
      "\u{62a}\u{645} \u{627}\u{633}\u{62a}\u{644}\u{627}\u{645} \u{637}\u{644}\u{628}\u{643} \u{628}\u{646}\u{62c}\u{627}\u{62d}، \u{648}\u{633}\u{64a}\u{62a}\u{645} \u{625}\u{631}\u{633}\u{627}\u{644} \u{639}\u{631}\u{648}\u{636} \u{627}\u{644}\u{623}\u{633}\u{639}\u{627}\u{631} \u{625}\u{644}\u{64a}\u{643} \u{642}\u{631}\u{64a}\u{628}ً\u{627}."
body_of NotificationType.quote_received id =
    codes
      "\u{648}\u{635}\u{644} \u{639}\u{631}\u{636} \u{633}\u{639}\u{631} \u{639}\u{644}\u{649} \u{637}\u{644}\u{628}\u{643} "
    ++ (id
        ++ codes
            ". \u{627}\u{641}\u{62a}\u{62d} \u{627}\u{644}\u{62a}\u{637}\u{628}\u{64a}\u{642} \u{644}\u{644}\u{627}\u{637}\u{644}\u{627}\u{639} \u{639}\u{644}\u{64a}\u{647}.")
body_of NotificationType.assignment_confirmed id =
    codes "\u{62a}\u{645} \u{62a}\u{623}\u{643}\u{64a}\u{62f} \u{637}\u{644}\u{628}\u{643} "
    ++ (id
        ++ codes
            ". \u{62a}\u{627}\u{628}\u{639} \u{62d}\u{627}\u{644}\u{629} \u{627}\u{644}\u{637}\u{644}\u{628} \u{645}\u{646} \u{627}\u{644}\u{62a}\u{637}\u{628}\u{64a}\u{642}.")
body_of NotificationType.provider_on_the_way id =
    codes
      "\u{645}\u{642}\u{62f}\u{645} \u{627}\u{644}\u{62e}\u{62f}\u{645}\u{629} \u{641}\u{64a} \u{627}\u{644}\u{637}\u{631}\u{64a}\u{642} \u{625}\u{644}\u{64a}\u{643} \u{644}\u{637}\u{644}\u{628}\u{643} "
    ++ (id ++ codes ".")
body_of NotificationType.service_in_progress id =
    codes
      "\u{628}\u{62f}\u{623} \u{645}\u{642}\u{62f}\u{645} \u{627}\u{644}\u{62e}\u{62f}\u{645}\u{629} \u{62a}\u{646}\u{641}\u{64a}\u{630} \u{637}\u{644}\u{628}\u{643} "
    ++ (id ++ codes ".")
body_of NotificationType.request_completed id =
    codes
      "\u{627}\u{643}\u{62a}\u{645}\u{644} \u{62a}\u{646}\u{641}\u{64a}\u{630} \u{637}\u{644}\u{628}\u{643} "
    ++ (id
        ++ codes
            ". \u{641}\u{636}\u{644}ً\u{627} \u{642}\u{64a}ّ\u{645} \u{62a}\u{62c}\u{631}\u{628}\u{62a}\u{643}.")
body_of NotificationType.request_cancelled id =
    codes "\u{62a}\u{645} \u{625}\u{644}\u{63a}\u{627}\u{621} \u{637}\u{644}\u{628}\u{643} "
    ++ (id ++ codes ".")
body_of NotificationType.opportunity_invited id =
    codes
      "\u{637}\u{644}\u{628} \u{62c}\u{62f}\u{64a}\u{62f} \u{645}\u{62a}\u{627}\u{62d} \u{644}\u{643} \u{628}\u{631}\u{642}\u{645} "
    ++ (id
        ++ codes
            ". \u{642}\u{62f}ّ\u{645} \u{639}\u{631}\u{636}\u{643} \u{627}\u{644}\u{622}\u{646}.")
body_of NotificationType.provider_assigned id =
    codes "\u{62a}\u{645} \u{625}\u{633}\u{646}\u{627}\u{62f} \u{627}\u{644}\u{637}\u{644}\u{628} "
    ++ (id
        ++ codes
            " \u{625}\u{644}\u{64a}\u{643}. \u{627}\u{637}\u{644}\u{639} \u{639}\u{644}\u{649} \u{627}\u{644}\u{62a}\u{641}\u{627}\u{635}\u{64a}\u{644}.")
body_of NotificationType.opportunity_closed id =
    codes
      "\u{62a}\u{645} \u{625}\u{63a}\u{644}\u{627}\u{642} \u{641}\u{631}\u{635}\u{629} \u{627}\u{644}\u{637}\u{644}\u{628} "
    ++ (id
        ++ codes
            " \u{644}\u{627}\u{62e}\u{62a}\u{64a}\u{627}\u{631} \u{645}\u{642}\u{62f}\u{645} \u{622}\u{62e}\u{631}.")

-- What is sent for a payload that meets the contract.
unfoldable pub message_of : FcmPushPayload → FcmNotificationMessage
unfolding title_of body_of type_name navigate_name decimal
message_of p = record {
  title = title_of p.type;
  body = body_of p.type p.request_public_id;
  content =
      (codes "type", type_name p.type)
      ∷ (codes "requestId", p.request_public_id)
      ∷ (codes "navigate", navigate_name p.navigate)
      ∷ (codes "eventId", p.event_id)
      ∷ (codes "v", codes "1")
      ∷ [];
}

unfoldable pub notification_message_from_payload :
    Json → Outcome PayloadError FcmNotificationMessage
unfolding assert_fcm_push_payload_safe message_of
notification_message_from_payload payload = do
  p ← assert_fcm_push_payload_safe payload
  ok (message_of p)

-- The payload that writeOnClient stores for a row: built, and merged with the row's identifier.
unfoldable pub stored_payload : Notification → Json
unfolding build_push_payload to_request_public_id decimal
stored_payload n =
    Json.object
      (build_push_payload n.notification_type (to_request_public_id n.request_id) (decimal n.id))
