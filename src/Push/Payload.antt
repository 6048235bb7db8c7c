-- ===== src/Push/Payload.antt =====
-- apps/api/src/notification-templates.ts: the payload of a push notification, its contract, and the
-- copy. A stored payload is any JSON value.
use moeen.Base.{
  ◌&&◌, ◌==◌, ◌>>=◌, ◌>>◌, ◌||◌, ◌∷◌, Bool, List, Option, Outcome, Text, [], codes, delete_where,
  false, find_first, guard, if◌then◌else◌, is_empty, is_some, ltb, none, ok, or_fail, some, text_eq,
  true, ℕ,
}
use moeen.Store.{NotificationType}
use moeen.Ids.Public.{after_prefix, all_digits}
use moeen.Json.{Fields, Json, add_field, as_object, as_text, get, is_number, keys, number_one}

pub data NavigateTarget : Type 0 where
  customer_requests_list customer_request_detail provider_opportunity : NavigateTarget
  provider_job provider_dashboard : NavigateTarget

pub record FcmPushPayload : Type 0 where
  pub type : NotificationType
  pub request_public_id : Text
  pub navigate : NavigateTarget
  pub event_id : Text

pub data PayloadError : Type 0 where
  not_an_object unexpected_fields unknown_type invalid_public_id : PayloadError
  unknown_navigation missing_event unsupported_version : PayloadError

-- FCM_PAYLOAD_VERSION, the number 1.
abbrev pub payload_version : ℕ
payload_version = number_one

abbrev pub allowed_fields : List Text
allowed_fields =
    codes "type" ∷ codes "requestId" ∷ codes "navigate" ∷ codes "eventId" ∷ codes "v" ∷ []

abbrev pub notification_types : List NotificationType
notification_types =
    NotificationType.request_created ∷ NotificationType.quote_received
    ∷ NotificationType.assignment_confirmed ∷ NotificationType.provider_on_the_way
    ∷ NotificationType.service_in_progress ∷ NotificationType.request_completed
    ∷ NotificationType.request_cancelled ∷ NotificationType.opportunity_invited
    ∷ NotificationType.provider_assigned ∷ NotificationType.opportunity_closed ∷ []

abbrev pub navigate_targets : List NavigateTarget
navigate_targets =
    NavigateTarget.customer_requests_list ∷ NavigateTarget.customer_request_detail
    ∷ NavigateTarget.provider_opportunity ∷ NavigateTarget.provider_job
    ∷ NavigateTarget.provider_dashboard ∷ []

unfoldable pub type_name : NotificationType → Text
type_name NotificationType.request_created = codes "request_created"
type_name NotificationType.quote_received = codes "quote_received"
type_name NotificationType.assignment_confirmed = codes "assignment_confirmed"
type_name NotificationType.provider_on_the_way = codes "provider_on_the_way"
type_name NotificationType.service_in_progress = codes "service_in_progress"
type_name NotificationType.request_completed = codes "request_completed"
type_name NotificationType.request_cancelled = codes "request_cancelled"
type_name NotificationType.opportunity_invited = codes "opportunity_invited"
type_name NotificationType.provider_assigned = codes "provider_assigned"
type_name NotificationType.opportunity_closed = codes "opportunity_closed"

unfoldable pub navigate_name : NavigateTarget → Text
navigate_name NavigateTarget.customer_requests_list = codes "customer_requests_list"
navigate_name NavigateTarget.customer_request_detail = codes "customer_request_detail"
navigate_name NavigateTarget.provider_opportunity = codes "provider_opportunity"
navigate_name NavigateTarget.provider_job = codes "provider_job"
navigate_name NavigateTarget.provider_dashboard = codes "provider_dashboard"

-- NAVIGATE_BY_TYPE.
unfoldable pub navigate_by_type : NotificationType → NavigateTarget
navigate_by_type NotificationType.request_created = NavigateTarget.customer_requests_list
navigate_by_type NotificationType.quote_received = NavigateTarget.customer_request_detail
navigate_by_type NotificationType.assignment_confirmed = NavigateTarget.customer_request_detail
navigate_by_type NotificationType.provider_on_the_way = NavigateTarget.customer_request_detail
navigate_by_type NotificationType.service_in_progress = NavigateTarget.customer_request_detail
navigate_by_type NotificationType.request_completed = NavigateTarget.customer_request_detail
navigate_by_type NotificationType.request_cancelled = NavigateTarget.customer_requests_list
navigate_by_type NotificationType.opportunity_invited = NavigateTarget.provider_opportunity
navigate_by_type NotificationType.provider_assigned = NavigateTarget.provider_job
navigate_by_type NotificationType.opportunity_closed = NavigateTarget.provider_dashboard

unfoldable pub notification_type_of : Text → Option NotificationType
unfolding type_name
notification_type_of name = find_first (λ t. text_eq (type_name t) name) notification_types

unfoldable pub navigate_target_of : Text → Option NavigateTarget
unfolding navigate_name
navigate_target_of name = find_first (λ t. text_eq (navigate_name t) name) navigate_targets

-- Array.prototype.sort on texts: by code units.
abbrev pub text_le : Text → Text → Bool
text_le [] ds = true
text_le (c ∷ cs) [] = false
text_le (c ∷ cs) (d ∷ ds) = ltb c d || (c == d && text_le cs ds)

abbrev pub insert_text : Text → List Text → List Text
insert_text t [] = t ∷ []
insert_text t (u ∷ us) = let rest = insert_text t us in if text_le t u then t ∷ u ∷ us else u ∷ rest

unfoldable pub sort_texts : List Text → List Text
sort_texts [] = []
sort_texts (t ∷ ts) = insert_text t (sort_texts ts)

abbrev pub texts_eq : List Text → List Text → Bool
texts_eq [] [] = true
texts_eq [] (u ∷ us) = false
texts_eq (t ∷ ts) [] = false
texts_eq (t ∷ ts) (u ∷ us) = text_eq t u && texts_eq ts us

abbrev pub find_type : Option Text → Option NotificationType
find_type none = none
find_type (some name) = notification_type_of name

abbrev pub find_navigate : Option Text → Option NavigateTarget
find_navigate none = none
find_navigate (some name) = navigate_target_of name

-- `MOE-\d+`, the whole text.
unfoldable pub is_public_id : Text → Bool
unfolding after_prefix all_digits
is_public_id t = is_some (all_digits (after_prefix (codes "MOE-") t))

abbrev pub public_id_in : Option Text → Option Text
public_id_in none = none
public_id_in (some t) = if is_public_id t then some t else none

abbrev pub event_in : Option Text → Option Text
event_in none = none
event_in (some t) = if is_empty t then none else some t

abbrev pub has_keys : List Text → Fields → Bool
has_keys expected fields = texts_eq (sort_texts (keys fields)) (sort_texts expected)

-- assertFcmPushPayloadSafe, which also reads the value at its new type.
unfoldable pub assert_fcm_push_payload_safe : Json → Outcome PayloadError FcmPushPayload
unfolding sort_texts notification_type_of navigate_target_of is_public_id
assert_fcm_push_payload_safe value = do
  fields ← or_fail (as_object value) PayloadError.not_an_object
  guard (has_keys allowed_fields fields) PayloadError.unexpected_fields
  type ← or_fail (find_type (as_text (get (codes "type") fields))) PayloadError.unknown_type
  id ←
      or_fail (public_id_in (as_text (get (codes "requestId") fields)))
        PayloadError.invalid_public_id
  navigate ←
      or_fail (find_navigate (as_text (get (codes "navigate") fields)))
        PayloadError.unknown_navigation
  event ← or_fail (event_in (as_text (get (codes "eventId") fields))) PayloadError.missing_event
  guard (is_number payload_version (get (codes "v") fields)) PayloadError.unsupported_version
  ok (record { type = type; request_public_id = id; navigate = navigate; event_id = event })

abbrev pub is_event_key : Text → Bool
is_event_key k = text_eq k (codes "eventId")

-- assertOutboxPayloadSafe: the same without the event identifier.
unfoldable pub assert_outbox_payload_safe : Json → Outcome PayloadError (Unit {0})
unfolding sort_texts notification_type_of navigate_target_of is_public_id
assert_outbox_payload_safe value = do
  fields ← or_fail (as_object value) PayloadError.not_an_object
  guard (has_keys (delete_where is_event_key allowed_fields) fields) PayloadError.unexpected_fields
  type ← or_fail (find_type (as_text (get (codes "type") fields))) PayloadError.unknown_type
  id ←
      or_fail (public_id_in (as_text (get (codes "requestId") fields)))
        PayloadError.invalid_public_id
  navigate ←
      or_fail (find_navigate (as_text (get (codes "navigate") fields)))
        PayloadError.unknown_navigation
  guard (is_number payload_version (get (codes "v") fields)) PayloadError.unsupported_version
  ok tt

unfoldable pub build_outbox_payload : NotificationType → Text → Fields
unfolding type_name navigate_name navigate_by_type
build_outbox_payload type id = Fields.field (codes "type") (Json.text (type_name type)) (
    Fields.field (codes "requestId") (Json.text id) (
      Fields.field (codes "navigate") (Json.text (navigate_name (navigate_by_type type)))
        (Fields.field (codes "v") (Json.number payload_version) Fields.no_fields)))

-- buildPushPayload, and `payload || jsonb_build_object('eventId', …)` on the stored row.
unfoldable pub build_push_payload : NotificationType → Text → Text → Fields
unfolding build_outbox_payload
build_push_payload type id event =
    add_field (codes "eventId") (Json.text event) (build_outbox_payload type id)
