-- ===== src/Location/Service.antt =====
-- apps/api/src/service-location.config.ts and service-location.contracts.ts. A result none is the
-- configuration error or a BadRequestException; the messages of the latter are told apart.
use moeen.Base.{
  ◌&&◌, ◌==◌, ◌>>=◌, ◌>>◌, ◌∷◌, Bool, List, Option, Outcome, Text, [], all, any, codes, err, false,
  guard, if◌then◌else◌, is_empty, leb, length, negsuc, none, not, ok, or_fail, pos, some, text_eq,
  trim, ℕ, ℤ,
}
use moeen.Json.{Fields, Items, Json, as_object, as_text, get, keys}
use moeen.Location.Doubles.{Doubles, is_within}
use moeen.Location.Tracking.{mode_of}

pub data ServiceLocationMode : Type 0 where
  location_optional location_required : ServiceLocationMode

pub record ServiceLocationBounds : Type 0 where
  pub minimum_latitude : ℕ
  pub maximum_latitude : ℕ
  pub minimum_longitude : ℕ
  pub maximum_longitude : ℕ

pub data ServiceLocationConfig : Type 0 where
  off : ServiceLocationConfig
  bounded : ServiceLocationMode → ServiceLocationBounds → ServiceLocationConfig

-- coordinate.
unfoldable pub coordinate : Doubles → Option Text → ℤ → ℤ → Option ℕ
unfolding trim
coordinate d none minimum maximum = none
coordinate d (some value) minimum maximum =
    if not (is_empty (trim value)) && is_within d minimum maximum (d.number_of value)
    then some (d.number_of value)
    else none

-- `>=` between numbers that are not NaN.
abbrev pub ordered_bounds : Doubles → ServiceLocationBounds → Bool
ordered_bounds d b =
    d.less b.minimum_latitude b.maximum_latitude && d.less b.minimum_longitude b.maximum_longitude

abbrev pub bounds_of : Option ℕ → Option ℕ → Option ℕ → Option ℕ → Option ServiceLocationBounds
bounds_of (some a) (some b) (some c) (some e) = some (record {
  minimum_latitude = a;
  maximum_latitude = b;
  minimum_longitude = c;
  maximum_longitude = e;
})
bounds_of _ _ _ _ = none

abbrev pub with_bounds :
    Doubles → ServiceLocationMode → Option ServiceLocationBounds → Option ServiceLocationConfig
with_bounds d mode none = none
with_bounds d mode (some b) = if ordered_bounds d b then some (bounded mode b) else none

-- serviceLocationConfigFromEnvironment: the mode, and the four bounds.
unfoldable pub service_location_config_from_environment :
    Doubles
    → Option Text
    → Option Text
    → Option Text
    → Option Text
    → Option Text
    → Option ServiceLocationConfig
unfolding mode_of coordinate
service_location_config_from_environment d mode south north west east =
    let bounds =
      bounds_of (coordinate d south (negsuc 89) (pos 90)) (coordinate d north (negsuc 89) (pos 90))
        (coordinate d west (negsuc 179) (pos 180)) (coordinate d east (negsuc 179) (pos 180)) in
    if text_eq (mode_of mode) (codes "off")
    then some off
    else if text_eq (mode_of mode) (codes "optional")
    then with_bounds d location_optional bounds
    else if text_eq (mode_of mode) (codes "required")
    then with_bounds d location_required bounds
    else none

pub data ServiceLocationSource : Type 0 where
  current_location map_pin : ServiceLocationSource

pub record ServiceLocation : Type 0 where
  pub latitude : ℕ
  pub longitude : ℕ
  pub display_address : Text
  pub source : ServiceLocationSource
  pub confirmed_at : Text

pub data LocationError : Type 0 where
  invalid_location missing_location location_disabled : LocationError

-- hasExactKeys, with the set of the expected keys.
abbrev pub has_exact_keys : List Text → Fields → Bool
has_exact_keys expected fields =
    length (keys fields) == length expected && all (λ k. any (text_eq k) expected) (keys fields)

abbrev pub location_keys : List Text
location_keys = codes "point" ∷ codes "displayAddress" ∷ codes "source" ∷ codes "confirmed" ∷ []

abbrev pub point_keys : List Text
point_keys = codes "latitude" ∷ codes "longitude" ∷ []

abbrev pub as_fields : Option Json → Option Fields
as_fields (some (Json.object fields)) = some fields
as_fields _ = none

abbrev pub as_number : Option Json → Option ℕ
as_number (some (Json.number n)) = some n
as_number _ = none

abbrev pub is_true : Option Json → Bool
is_true (some (Json.boolean b)) = b
is_true _ = false

-- normalizeServiceAddress on a text.
abbrev pub address_in : Option Text → Option Text
address_in none = none
address_in (some value) =
    if leb 3 (length (trim value)) && leb (length (trim value)) 240 then some (trim value) else none

unfoldable pub normalize_service_address : Option Json → Outcome LocationError Text
unfolding trim
normalize_service_address value = or_fail (address_in (as_text value)) invalid_location

-- canonicalCoordinate.
abbrev pub coordinate_in : Doubles → ℤ → ℤ → Option ℕ → Option ℕ
coordinate_in d minimum maximum none = none
coordinate_in d minimum maximum (some value) =
    if is_within d minimum maximum value then some (d.six_decimals value) else none

unfoldable pub canonical_coordinate : Doubles → ℤ → ℤ → Option Json → Outcome LocationError ℕ
canonical_coordinate d minimum maximum value =
    or_fail (coordinate_in d minimum maximum (as_number value)) invalid_location

-- `String(value)`, where it can be a name of a source: a list of one value prints as that value.
unfoldable pub printed : Json → Option Text
printed (Json.text t) = some t
printed (Json.array (Items.item value Items.no_items)) = printed value
printed _ = none

abbrev pub source_text : Option Json → Option Text
source_text none = none
source_text (some value) = printed value

abbrev pub source_of : Option Text → Option ServiceLocationSource
source_of none = none
source_of (some t) =
    if text_eq t (codes "current_location")
    then some current_location
    else if text_eq t (codes "map_pin")
    then some map_pin
    else none

abbrev pub is_inside : Doubles → ServiceLocationBounds → ℕ → ℕ → Bool
is_inside d b latitude longitude =
    not (d.less latitude b.minimum_latitude)
    && (not (d.less b.maximum_latitude latitude)
        && (not (d.less longitude b.minimum_longitude)
            && not (d.less b.maximum_longitude longitude)))

-- validateServiceLocationInput.
unfoldable pub validate_service_location_input :
    Doubles → ServiceLocationBounds → ℕ → Json → Outcome LocationError ServiceLocation
unfolding canonical_coordinate normalize_service_address printed
validate_service_location_input d b now input = do
  fields ← or_fail (as_object input) invalid_location
  guard (has_exact_keys location_keys fields) invalid_location
  guard (is_true (get (codes "confirmed") fields)) invalid_location
  point ← or_fail (as_fields (get (codes "point") fields)) invalid_location
  guard (has_exact_keys point_keys point) invalid_location
  source ← or_fail (source_of (source_text (get (codes "source") fields))) invalid_location
  latitude ← canonical_coordinate d (negsuc 89) (pos 90) (get (codes "latitude") point)
  longitude ← canonical_coordinate d (negsuc 179) (pos 180) (get (codes "longitude") point)
  guard (is_inside d b latitude longitude) invalid_location
  address ← normalize_service_address (get (codes "displayAddress") fields)
  ok (record {
    latitude = latitude;
    longitude = longitude;
    display_address = address;
    source = source;
    confirmed_at = d.iso_of now;
  })

pub record ResolvedServiceLocation : Type 0 where
  pub address : Text
  pub location : Option ServiceLocation

-- `legacyAddress !== undefined && normalizeServiceAddress(…) !== …`.
abbrev pub assert_same_address : Option Json → Text → Outcome LocationError (Unit {0})
assert_same_address none address = ok tt
assert_same_address (some legacy) address =
    normalize_service_address (some legacy) >>= λ normalized.
    guard (text_eq normalized address) invalid_location

-- resolveServiceLocation.
unfoldable pub resolve_service_location :
    Doubles
    → ServiceLocationConfig
    → ℕ
    → Option Json
    → Option Json
    → Outcome LocationError ResolvedServiceLocation
unfolding normalize_service_address validate_service_location_input
resolve_service_location d (bounded location_required b) now legacy none = err missing_location
resolve_service_location d (bounded location_optional b) now legacy none = do
  address ← normalize_service_address legacy
  ok (record { address = address; location = none })
resolve_service_location d off now legacy none = do
  address ← normalize_service_address legacy
  ok (record { address = address; location = none })
resolve_service_location d off now legacy (some input) = err location_disabled
resolve_service_location d (bounded mode b) now legacy (some input) = do
  location ← validate_service_location_input d b now input
  assert_same_address legacy location.display_address
  ok (record { address = location.display_address; location = some location })
