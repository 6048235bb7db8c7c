-- ===== src/Location/Resolved.antt =====
-- What an accepted location is.
use moeen.Base.{
  ◌==◌, ◌≡◌, >>=-eq-ok, Bool-cases, Option, Text, ap, arith, codes, false, guard-eq-ok, inl, inr,
  negsuc, none, ok, or_fail, or_fail-eq-ok, pos, refl, some, subst, sym, text_eq, trim_idem, true,
  ℕ, ℤ,
}
use moeen.Json.{Fields, Json, as_object, as_text, get}
use moeen.Location.Doubles.{Doubles, IsRounding, is_within, negative_zero}
use moeen.Location.Service.{
  LocationError, ServiceLocation, ServiceLocationBounds, ServiceLocationSource, address_in,
  as_fields, as_number, canonical_coordinate, coordinate_in, current_location, has_exact_keys,
  is_inside, is_true, location_keys, map_pin, normalize_service_address, point_keys, source_of,
  source_text, validate_service_location_input,
}

abbrev pub source_name : ServiceLocationSource → Text
source_name current_location = codes "current_location"
source_name map_pin = codes "map_pin"

-- The location as a client may send it again.
abbrev pub sent_again : ServiceLocation → Json
sent_again l = Json.object (
    Fields.field (codes "point")
      (Json.object (
        Fields.field (codes "latitude") (Json.number l.latitude)
          (Fields.field (codes "longitude") (Json.number l.longitude) Fields.no_fields)))
      (Fields.field (codes "displayAddress") (Json.text l.display_address) (
        Fields.field (codes "source") (Json.text (source_name l.source))
          (Fields.field (codes "confirmed") (Json.boolean true) Fields.no_fields))))

source_of-source_name : (s : ServiceLocationSource) → source_of (some (source_name s)) ≡ some s
unfolding text_eq
source_of-source_name current_location = refl
source_of-source_name map_pin = refl

coordinate_in-again :
    (d : Doubles) (minimum maximum : ℤ) (value : Option ℕ) (n : ℕ)
    → IsRounding d
    → (n == negative_zero) ≡ false
    → coordinate_in d minimum maximum value ≡ some n
    → coordinate_in d minimum maximum (some n) ≡ some n
coordinate_in-again d minimum maximum none n r z h = cc
coordinate_in-again d minimum maximum (some value) n r z h =
    elim (Bool-cases (is_within d minimum maximum value)) [
      | inl within ↦
          let e : d.six_decimals value ≡ n = ground (arith, within, h) in
          let kept : is_within d minimum maximum n ≡ true =
            subst (λ (m : ℕ). is_within d minimum maximum m ≡ true) e
              (r.within minimum maximum value within) in
          let same : d.six_decimals n ≡ n =
            subst (λ (m : ℕ). (m == negative_zero) ≡ false → d.six_decimals m ≡ m) e (r.again value)
              z in
          rw (kept, same) refl
      | inr outside ↦ absurd (ground (arith, outside, h))
    ]

address_in-again :
    (value : Option Text) (address : Text)
    → address_in value ≡ some address
    → address_in (some address) ≡ some address
address_in-again none address h = cc
address_in-again (some value) address h = ground (arith, h, trim_idem value)

-- What a validated input held.
abbrev Validated : Doubles → ServiceLocationBounds → ℕ → Json → ServiceLocation → Type 0
Validated d b now input l =
    (coordinate_in d (negsuc 89) (pos 90) (some l.latitude) ≡ some l.latitude)
    × (coordinate_in d (negsuc 179) (pos 180) (some l.longitude) ≡ some l.longitude)
    × (is_inside d b l.latitude l.longitude ≡ true)
    × (address_in (some l.display_address) ≡ some l.display_address)
    × (l.confirmed_at ≡ d.iso_of now)

or_fail-ok :
    {A : Type 0} (o : Option A) (e : LocationError) (a : A) → or_fail o e ≡ ok a → o ≡ some a
or_fail-ok none e a h = cc
or_fail-ok (some b) e a h = ground arith

pub validate_service_location_input-eq-ok :
    (d : Doubles) (b : ServiceLocationBounds) (now : ℕ) (input : Json) (l : ServiceLocation)
    → IsRounding d
    → (l.latitude == negative_zero) ≡ false
    → (l.longitude == negative_zero) ≡ false
    → validate_service_location_input d b now input ≡ ok l
    → Validated d b now input l
unfolding validate_service_location_input canonical_coordinate normalize_service_address
validate_service_location_input-eq-ok d b now input l r y x h =
    let (fields, shape, h1) = or_fail-eq-ok (as_object input) _ _ h in
    let (exact, h2) = guard-eq-ok (has_exact_keys location_keys fields) _ _ h1 in
    let (confirmed, h3) = guard-eq-ok (is_true (get (codes "confirmed") fields)) _ _ h2 in
    let (point, pointed, h4) = or_fail-eq-ok (as_fields (get (codes "point") fields)) _ _ h3 in
    let (two, h5) = guard-eq-ok (has_exact_keys point_keys point) _ _ h4 in
    let (source, sourced, h6) =
      or_fail-eq-ok (source_of (source_text (get (codes "source") fields))) _ _ h5 in
    let (latitude, north, h7) =
      >>=-eq-ok (canonical_coordinate d (negsuc 89) (pos 90) (get (codes "latitude") point)) _ h6 in
    let (longitude, east, h8) =
      >>=-eq-ok (canonical_coordinate d (negsuc 179) (pos 180) (get (codes "longitude") point)) _
        h7 in
    let (inside, h9) = guard-eq-ok (is_inside d b latitude longitude) _ _ h8 in
    let (address, addressed, h10) =
      >>=-eq-ok (normalize_service_address (get (codes "displayAddress") fields)) _ h9 in
    let made : l ≡ record {
      latitude = latitude;
      longitude = longitude;
      display_address = address;
      source = source;
      confirmed_at = d.iso_of now;
    } =
      ground (arith, h10) in
    let y' =
      subst (λ (v : ℕ). (v == negative_zero) ≡ false)
        (ap (λ (m : ServiceLocation). m.latitude) made) y in
    let x' =
      subst (λ (v : ℕ). (v == negative_zero) ≡ false)
        (ap (λ (m : ServiceLocation). m.longitude) made) x in
    let n =
      coordinate_in-again d (negsuc 89) (pos 90) (as_number (get (codes "latitude") point)) latitude
        r y' (or_fail-ok _ _ _ north) in
    let e =
      coordinate_in-again d (negsuc 179) (pos 180) (as_number (get (codes "longitude") point))
        longitude r x' (or_fail-ok _ _ _ east) in
    let a =
      address_in-again (as_text (get (codes "displayAddress") fields)) address
        (or_fail-ok _ _ _ addressed) in
    subst (Validated d b now input) (sym made) (n, e, inside, a, refl)

-- An accepted location is canonical: sent again as it is, it is accepted unchanged, if neither
-- coordinate is -0, to which a small negative number rounds.
pub validate_service_location_input-again :
    (d : Doubles) (b : ServiceLocationBounds) (now : ℕ) (input : Json) (l : ServiceLocation)
    → IsRounding d
    → (l.latitude == negative_zero) ≡ false
    → (l.longitude == negative_zero) ≡ false
    → validate_service_location_input d b now input ≡ ok l
    → validate_service_location_input d b now (sent_again l) ≡ ok l
unfolding validate_service_location_input canonical_coordinate normalize_service_address text_eq
validate_service_location_input-again d b now input l r y x h =
    let (n, e, inside, a, stamp) = validate_service_location_input-eq-ok d b now input l r y x h in
    rw (source_of-source_name l.source, n, e, inside, a, ← stamp) refl
