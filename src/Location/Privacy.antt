-- ===== src/Location/Privacy.antt =====
-- apps/api/src/location-privacy.ts: no exact location enters the audit of the staff. Values are
-- trees here, so an object that the search has visited before has been searched already.
use moeen.Base.{
  ◌&&◌, ◌++◌, ◌+◌, ◌||◌, ◌∷◌, ◌≡◌, Bool, List, Option, Text, [], any, ap, arith, codes, false,
  if◌then◌else◌, leb, map, none, not, refl, some, text_eq, true, ℕ,
}
use moeen.Store.{AuditState}
use moeen.Json.{Fields, Items, Json}

abbrev pub broad_audit_location_forbidden_fields : List Text
broad_audit_location_forbidden_fields =
    codes "latitude"
    ∷ codes "longitude"
    ∷ codes "location"
    ∷ codes "locationLatitude"
    ∷ codes "locationLongitude"
    ∷ codes "serviceLocation"
    ∷ codes "providerLocation"
    ∷ codes "liveLocation"
    ∷ codes "trackingHistory"
    ∷ codes "coordinates"
    ∷ codes "coordinate"
    ∷ codes "point"
    ∷ codes "mapUrl"
    ∷ codes "mapURL"
    ∷ codes "mapsUrl"
    ∷ codes "mapsURL"
    ∷ []

abbrev pub is_upper : ℕ → Bool
is_upper c = leb 65 c && leb c 90

abbrev pub is_alphanumeric : ℕ → Bool
is_alphanumeric c = (leb 97 c && leb c 122) || (is_upper c || (leb 48 c && leb c 57))

-- normalizeKey.
unfoldable pub normalize_key : Text → Text
normalize_key [] = []
normalize_key (c ∷ cs) =
    let rest = normalize_key cs in
    if is_alphanumeric c then (if is_upper c then c + 32 else c) ∷ rest else rest

unfoldable pub is_forbidden_key : Text → Bool
unfolding normalize_key
is_forbidden_key key =
    any (text_eq (normalize_key key)) (map normalize_key broad_audit_location_forbidden_fields)

-- containsForbiddenLocationKey.
unfoldable mutual
  pub contains_forbidden_location_key : Json → Bool
  contains_forbidden_location_key (Json.array items) = some_item_forbidden items
  contains_forbidden_location_key (Json.object fields) = some_field_forbidden fields
  contains_forbidden_location_key _ = false

  pub some_item_forbidden : Items → Bool
  some_item_forbidden Items.no_items = false
  some_item_forbidden (Items.item value rest) =
      contains_forbidden_location_key value || some_item_forbidden rest

  pub some_field_forbidden : Fields → Bool
  some_field_forbidden Fields.no_fields = false
  some_field_forbidden (Fields.field key value rest) =
      (is_forbidden_key key || contains_forbidden_location_key value) || some_field_forbidden rest

-- assertBroadAuditLocationSafe: false is the error.
unfoldable pub assert_broad_audit_location_safe : Option Json → Bool
unfolding contains_forbidden_location_key
assert_broad_audit_location_safe none = true
assert_broad_audit_location_safe (some value) = not (contains_forbidden_location_key value)

-- Every key of a value, at any depth.
unfoldable mutual
  pub all_keys : Json → List Text
  all_keys (Json.array items) = item_keys items
  all_keys (Json.object fields) = field_keys fields
  all_keys _ = []

  pub item_keys : Items → List Text
  item_keys Items.no_items = []
  item_keys (Items.item value rest) = all_keys value ++ item_keys rest

  pub field_keys : Fields → List Text
  field_keys Fields.no_fields = []
  field_keys (Fields.field key value rest) = key ∷ (all_keys value ++ field_keys rest)

any-append_or : (p : Text → Bool) (ts us : List Text) → any p (ts ++ us) ≡ (any p ts || any p us)
any-append_or p [] us = refl
any-append_or p (t ∷ ts) us = ground (arith, any-append_or p ts us)

mutual
  unfolding contains_forbidden_location_key some_item_forbidden some_field_forbidden all_keys
      item_keys field_keys

  contains-any :
      (value : Json) → contains_forbidden_location_key value ≡ any is_forbidden_key (all_keys value)
  contains-any Json.null = refl
  contains-any (Json.boolean b) = refl
  contains-any (Json.number n) = refl
  contains-any (Json.text t) = refl
  contains-any (Json.array items) = items-any items
  contains-any (Json.object fields) = fields-any fields

  items-any : (items : Items) → some_item_forbidden items ≡ any is_forbidden_key (item_keys items)
  items-any Items.no_items = refl
  items-any (Items.item value rest) = ground (
    arith,
    contains-any value,
    items-any rest,
    any-append_or is_forbidden_key (all_keys value) (item_keys rest),
  )

  fields-any :
      (fields : Fields) → some_field_forbidden fields ≡ any is_forbidden_key (field_keys fields)
  fields-any Fields.no_fields = refl
  fields-any (Fields.field key value rest) = ground (
    arith,
    contains-any value,
    fields-any rest,
    any-append_or is_forbidden_key (all_keys value) (field_keys rest),
  )

-- The keys of the states that service-request.repository.ts hands to the audit.
unfoldable pub audit_keys : AuditState → List Text
audit_keys (AuditState.request_state status provider) = codes "status" ∷ codes "providerId" ∷ []
audit_keys (AuditState.status_state status) = codes "status" ∷ []
audit_keys (AuditState.quote_state status amount) = codes "quoteStatus" ∷ codes "amountHalalas" ∷ []
audit_keys (AuditState.invited_state providers) = codes "invitedProviderIds" ∷ []
audit_keys (AuditState.closed_state provider closed) = codes "providerId" ∷ codes "closed" ∷ []
audit_keys (AuditState.payment_state status amount) =
    codes "paymentId"
    ∷ codes "method"
    ∷ codes "status"
    ∷ codes "amountHalalas"
    ∷ codes "currency"
    ∷ []
audit_keys (AuditState.provider_state status available) =
    codes "verificationStatus" ∷ codes "available" ∷ []
audit_keys (AuditState.created_state status) = codes "verificationStatus" ∷ codes "serviceZone" ∷ []
audit_keys AuditState.access_code_state = codes "accessCodeRotated" ∷ []
audit_keys (AuditState.ticket_state status) = codes "status" ∷ []

audit_keys-allowed : (state : AuditState) → any is_forbidden_key (audit_keys state) ≡ false
unfolding audit_keys is_forbidden_key text_eq
audit_keys-allowed (AuditState.request_state status provider) = refl
audit_keys-allowed (AuditState.status_state status) = refl
audit_keys-allowed (AuditState.quote_state status amount) = refl
audit_keys-allowed (AuditState.invited_state providers) = refl
audit_keys-allowed (AuditState.closed_state provider closed) = refl
audit_keys-allowed (AuditState.payment_state status amount) = refl
audit_keys-allowed (AuditState.provider_state status available) = refl
audit_keys-allowed (AuditState.created_state status) = refl
audit_keys-allowed AuditState.access_code_state = refl
audit_keys-allowed (AuditState.ticket_state status) = refl

-- The guard passes a state exactly when no key at any depth is a location key, up to letter case
-- and punctuation.
pub assert_broad_audit_location_safe-keys :
    (value : Json)
    → assert_broad_audit_location_safe (some value) ≡ not (any is_forbidden_key (all_keys value))
unfolding assert_broad_audit_location_safe
assert_broad_audit_location_safe-keys value = ap not (contains-any value)

-- So it never stops what the repository records.
pub assert_broad_audit_location_safe-audit_keys :
    (value : Json) (state : AuditState)
    → all_keys value ≡ audit_keys state
    → assert_broad_audit_location_safe (some value) ≡ true
assert_broad_audit_location_safe-audit_keys value state same = ground (
  arith,
  assert_broad_audit_location_safe-keys value,
  ap (any is_forbidden_key) same,
  audit_keys-allowed state,
)
