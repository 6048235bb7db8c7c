-- ===== src/Location/Examples.antt =====
-- Doubles small enough to compute with, and the theorems on them: the pattern of a number is the
-- number itself, in whole degrees.
use moeen.Base.{
  ◌*◌, ◌/◌, ◌↔◌, ◌≡◌, any, arith, codes, false, ltb, negsuc, none, not, ok, pos, refl, some,
  text_eq, trim, true, ℕ, ℤ,
}
use moeen.Ids.Decimal.{decimal, read_digits}
use moeen.Json.{Json}
use moeen.Location.Doubles.{Doubles, IsRounding}
use moeen.Location.Privacy.{
  all_keys, assert_broad_audit_location_safe, assert_broad_audit_location_safe-keys,
  contains_forbidden_location_key, is_forbidden_key, some_field_forbidden,
}
use moeen.Location.Resolved.{sent_again, validate_service_location_input-again}
use moeen.Location.Samples.{
  IsSample, RawSample, sent_sample, validate_provider_location_sample,
  validate_provider_location_sample-IsSample,
}
use moeen.Location.Service.{
  ServiceLocation, ServiceLocationBounds, map_pin, validate_service_location_input,
}
use moeen.Location.Tracking.{ProviderTrackingConfig, provider_tracking_config_from_environment}

abbrev whole_part : ℤ → ℕ
whole_part (pos n) = n
whole_part (negsuc n) = 0

abbrev degrees : Doubles
degrees = record {
  is_finite = λ n. true;
  less = λ a b. ltb a b;
  whole = whole_part;
  six_decimals = λ n. n;
  number_of = λ t. read_digits 0 t;
  date_of = λ t. some (read_digits 0 t);
  iso_of = λ n. decimal n;
}

-- Numbers that stand for tenths of a degree, rounded down to whole degrees.
abbrev tenths : Doubles
tenths = record degrees { whole = λ i. whole_part i * 10; six_decimals = λ n. n / 10 * 10 }

tenths-IsRounding : IsRounding tenths
tenths-IsRounding = record {
  again = λ n z. omega arith;
  within = λ low high n h. ground (arith, h);
}

abbrev city : ServiceLocationBounds
city = record {
  minimum_latitude = 240;
  maximum_latitude = 260;
  minimum_longitude = 460;
  maximum_longitude = 480;
}

abbrev home : ServiceLocation
home = record {
  latitude = 250;
  longitude = 470;
  display_address = codes "Olaya";
  source = map_pin;
  confirmed_at = decimal 1000;
}

abbrev typed : Json
typed =
    sent_again (record home { latitude = 253; longitude = 478; display_address = codes " Olaya " })

typed_ok : validate_service_location_input tenths city 1000 typed ≡ ok home
unfolding validate_service_location_input text_eq trim
typed_ok = refl

validate_service_location_input-again_example :
    validate_service_location_input tenths city 1000 (sent_again home) ≡ ok home
validate_service_location_input-again_example =
    validate_service_location_input-again tenths city 1000 typed home tenths-IsRounding refl refl
      typed_ok

abbrev off_road : ProviderTrackingConfig
off_road = record { enabled = true; on_the_way_cadence = 20000; in_progress_cadence = 60000 }

configured :
    provider_tracking_config_from_environment (some (codes " enabled")) (some (codes "20000")) none
    ≡ some off_road
unfolding provider_tracking_config_from_environment text_eq
configured = refl

date_read : degrees.date_of (codes "90000") ≡ some 90000
unfolding read_digits
date_read = refl

abbrev at_home : RawSample
at_home = record { latitude = 25; longitude = 47; accuracy_meters = 9; captured_at = 90000 }

sample_ok :
    validate_provider_location_sample degrees (sent_sample at_home (codes "90000")) 100000
    ≡ some at_home
unfolding validate_provider_location_sample text_eq read_digits
sample_ok = refl

sample_old :
    validate_provider_location_sample degrees (sent_sample at_home (codes "90000")) 390001 ≡ none
unfolding validate_provider_location_sample text_eq read_digits
sample_old = refl

validate_provider_location_sample-IsSample_example :
    (validate_provider_location_sample degrees (sent_sample at_home (codes "90000")) 100000
      ≡ some at_home)
    ↔ IsSample degrees (sent_sample at_home (codes "90000")) 100000 at_home
validate_provider_location_sample-IsSample_example =
    validate_provider_location_sample-IsSample degrees (sent_sample at_home (codes "90000")) 100000
      at_home

assert_broad_audit_location_safe-keys_example :
    assert_broad_audit_location_safe (some typed) ≡ not (any is_forbidden_key (all_keys typed))
assert_broad_audit_location_safe-keys_example = assert_broad_audit_location_safe-keys typed

typed_refused : assert_broad_audit_location_safe (some typed) ≡ false
unfolding assert_broad_audit_location_safe contains_forbidden_location_key some_field_forbidden
    is_forbidden_key text_eq
typed_refused = refl
