-- ===== src/Push/Contract.antt =====
-- The contract of the payload: what it lets pass, and that it lets pass what the writer stores.
use moeen.Base.{
  ◌&&◌, ◌+◌, ◌∙◌, ◌∷◌, ◌≡◌, Bool, List, Option, Text, [], any, ap, arith, codes, count, false,
  guard-eq-ok, if◌then◌else◌, is_empty, is_some, none, not, ok, or_fail-eq-ok, refl, some, sym,
  text_eq, text_eq_iff, true, ℕ,
}
use moeen.Store.{Notification, NotificationType}
use moeen.Ids.Decimal.{decimal}
use moeen.Ids.Public.{all_digits, to_request_public_id}
use moeen.Ids.RoundTrip.{after_prefix-append, all_digits-decimal, decimal-nonempty}
use moeen.Json.{Fields, Json, as_text, get, is_number, keys}
use moeen.Push.Message.{
  body_of, message_of, notification_message_from_payload, stored_payload, title_of,
}
use moeen.Push.Payload.{
  FcmPushPayload, NavigateTarget, allowed_fields, assert_fcm_push_payload_safe, build_push_payload,
  event_in, find_navigate, find_type, has_keys, insert_text, is_public_id, navigate_by_type,
  navigate_name, navigate_target_of, notification_type_of, payload_version, public_id_in,
  sort_texts, texts_eq, type_name,
}

abbrev distinct : List Text → Bool
distinct [] = true
distinct (t ∷ ts) = not (any (text_eq t) ts) && distinct ts

-- Sorting keeps how often a text occurs.
module _ (k : Text) where
  count-insert_text :
      (t : Text) (ts : List Text)
      → count (text_eq k) (insert_text t ts) ≡ count (text_eq k) (t ∷ ts)
  count-insert_text t [] = refl
  count-insert_text t (u ∷ us) = ground (arith, count-insert_text t us)

  count-sort_texts : (ts : List Text) → count (text_eq k) (sort_texts ts) ≡ count (text_eq k) ts
  unfolding sort_texts
  count-sort_texts [] = refl
  count-sort_texts (t ∷ ts) =
      count-insert_text t (sort_texts ts) ∙ omega (arith, count-sort_texts ts)

  count-texts_eq :
      (ts us : List Text) → texts_eq ts us ≡ true → count (text_eq k) ts ≡ count (text_eq k) us
  count-texts_eq [] [] h = refl
  count-texts_eq [] (u ∷ us) h = cc
  count-texts_eq (t ∷ ts) [] h = cc
  count-texts_eq (t ∷ ts) (u ∷ us) h =
      let same : t ≡ u = ground (arith, text_eq_iff t u) in
      ground (arith, same, count-texts_eq ts us)

  any-text_eq :
      (t : Text) (ts : List Text) → text_eq k t ≡ true → any (text_eq k) ts ≡ any (text_eq t) ts
  any-text_eq t ts h =
      let same : k ≡ t = (text_eq_iff k t).0 h in ap (λ (u : Text). any (text_eq u) ts) same

  -- A text occurs once in a list of distinct texts, if at all.
  count-distinct :
      (ts : List Text)
      → distinct ts ≡ true
      → count (text_eq k) ts ≡ (if any (text_eq k) ts then 1 else 0)
  count-distinct [] h = refl
  count-distinct (t ∷ ts) h = ground (arith, count-distinct ts, any-text_eq t ts)

allowed-distinct : (k : Text) → distinct allowed_fields ≡ true
unfolding text_eq
allowed-distinct k = refl

public_id_in-some :
    (t : Option Text) (id : Text) → public_id_in t ≡ some id → is_public_id id ≡ true
public_id_in-some none id h = cc
public_id_in-some (some t) id h = ground arith

event_in-some : (t : Option Text) (id : Text) → event_in t ≡ some id → is_empty id ≡ false
event_in-some none id h = cc
event_in-some (some t) id h = ground arith

-- What a value that passes looks like.
assert_fcm_push_payload_safe-eq-ok :
    (value : Json) (p : FcmPushPayload)
    → assert_fcm_push_payload_safe value ≡ ok p
    → (fields : Fields) × (value ≡ Json.object fields)
      × (has_keys allowed_fields fields ≡ true)
      × (is_public_id p.request_public_id ≡ true)
      × (is_empty p.event_id ≡ false)
unfolding assert_fcm_push_payload_safe
assert_fcm_push_payload_safe-eq-ok Json.null p h = cc
assert_fcm_push_payload_safe-eq-ok (Json.boolean b) p h = cc
assert_fcm_push_payload_safe-eq-ok (Json.number n) p h = cc
assert_fcm_push_payload_safe-eq-ok (Json.text t) p h = cc
assert_fcm_push_payload_safe-eq-ok (Json.array items) p h = cc
assert_fcm_push_payload_safe-eq-ok (Json.object fields) p h =
    let (allowed, a) = guard-eq-ok (has_keys allowed_fields fields) _ _ h in
    let (type, typed, b) = or_fail-eq-ok (find_type (as_text (get (codes "type") fields))) _ _ a in
    let (id, public, c) =
      or_fail-eq-ok (public_id_in (as_text (get (codes "requestId") fields))) _ _ b in
    let (navigate, known, d) =
      or_fail-eq-ok (find_navigate (as_text (get (codes "navigate") fields))) _ _ c in
    let (event, present, e) =
      or_fail-eq-ok (event_in (as_text (get (codes "eventId") fields))) _ _ d in
    let (version, f) = guard-eq-ok (is_number payload_version (get (codes "v") fields)) _ _ e in
    (
      fields,
      refl,
      allowed,
      ground (arith, f, public_id_in-some (as_text (get (codes "requestId") fields)) id public),
      ground (arith, f, event_in-some (as_text (get (codes "eventId") fields)) event present),
    )

-- A value that passes the contract is an object with each of the five allowed fields once and no
-- other, with a public request identifier and an event identifier that is not empty.
pub assert_fcm_push_payload_safe-keys :
    (value : Json) (p : FcmPushPayload)
    → assert_fcm_push_payload_safe value ≡ ok p
    → (fields : Fields) × (value ≡ Json.object fields)
      × ((k : Text)
          → count (text_eq k) (keys fields) ≡ (if any (text_eq k) allowed_fields then 1 else 0))
      × (is_public_id p.request_public_id ≡ true)
      × (is_empty p.event_id ≡ false)
assert_fcm_push_payload_safe-keys value p h =
    let (fields, shape, allowed, public, event) = assert_fcm_push_payload_safe-eq-ok value p h in
    (
      fields,
      shape,
      λ k.
          sym (count-sort_texts k (keys fields))
          ∙ (count-texts_eq k (sort_texts (keys fields)) (sort_texts allowed_fields) allowed
              ∙ (count-sort_texts k allowed_fields
                  ∙ count-distinct k allowed_fields (allowed-distinct k))),
      public,
      event,
    )

notification_type_of-type_name :
    (t : NotificationType) → notification_type_of (type_name t) ≡ some t
unfolding notification_type_of text_eq
notification_type_of-type_name NotificationType.request_created = refl
notification_type_of-type_name NotificationType.quote_received = refl
notification_type_of-type_name NotificationType.assignment_confirmed = refl
notification_type_of-type_name NotificationType.provider_on_the_way = refl
notification_type_of-type_name NotificationType.service_in_progress = refl
notification_type_of-type_name NotificationType.request_completed = refl
notification_type_of-type_name NotificationType.request_cancelled = refl
notification_type_of-type_name NotificationType.opportunity_invited = refl
notification_type_of-type_name NotificationType.provider_assigned = refl
notification_type_of-type_name NotificationType.opportunity_closed = refl

navigate_target_of-navigate_name :
    (t : NavigateTarget) → navigate_target_of (navigate_name t) ≡ some t
unfolding navigate_target_of text_eq
navigate_target_of-navigate_name NavigateTarget.customer_requests_list = refl
navigate_target_of-navigate_name NavigateTarget.customer_request_detail = refl
navigate_target_of-navigate_name NavigateTarget.provider_opportunity = refl
navigate_target_of-navigate_name NavigateTarget.provider_job = refl
navigate_target_of-navigate_name NavigateTarget.provider_dashboard = refl

-- What buildPushPayload builds is read back.
assert-build_push_payload :
    (type : NotificationType) (id event : Text)
    → is_public_id id ≡ true
    → is_empty event ≡ false
    → assert_fcm_push_payload_safe (Json.object (build_push_payload type id event))
      ≡ ok (record {
        type = type;
        request_public_id = id;
        navigate = navigate_by_type type;
        event_id = event;
      })
unfolding assert_fcm_push_payload_safe build_push_payload sort_texts text_eq
assert-build_push_payload type id event public present =
    rw
      (
        notification_type_of-type_name type,
        navigate_target_of-navigate_name (navigate_by_type type),
        public,
        present,
      )
      refl

to_request_public_id-is_public : (n : ℕ) → is_public_id (to_request_public_id n) ≡ true
unfolding is_public_id to_request_public_id
to_request_public_id-is_public n =
    ap (λ rest. is_some (all_digits rest)) (after_prefix-append (codes "MOE-") (decimal (1000 + n)))
    ∙ ap is_some (all_digits-decimal (1000 + n))

-- Every row that the writer stores meets the contract when the worker reads it, and the message has
-- the copy and the target of the row's type, the public identifier of its request, the row's own
-- number and the version, and nothing else.
pub notification_message_from_payload-stored :
    (n : Notification)
    → notification_message_from_payload (stored_payload n)
      ≡ ok (record {
        title = title_of n.notification_type;
        body = body_of n.notification_type (to_request_public_id n.request_id);
        content =
            (codes "type", type_name n.notification_type)
            ∷ (codes "requestId", to_request_public_id n.request_id)
            ∷ (codes "navigate", navigate_name (navigate_by_type n.notification_type))
            ∷ (codes "eventId", decimal n.id)
            ∷ (codes "v", codes "1")
            ∷ [];
      })
unfolding notification_message_from_payload stored_payload message_of
notification_message_from_payload-stored n =
    rw
      (assert-build_push_payload n.notification_type (to_request_public_id n.request_id)
        (decimal n.id) (to_request_public_id-is_public n.request_id) (decimal-nonempty n.id))
      refl
