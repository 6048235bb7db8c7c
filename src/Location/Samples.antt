-- ===== src/Location/Samples.antt =====
-- validateProviderLocationSample and canonicalizeProviderLocationSample of
-- apps/api/src/provider-tracking.ts. None is the BadRequestException.
use moeen.Base.{
  ◌&&◌, ◌*◌, ◌+◌, ◌↔◌, ◌∙◌, ◌∷◌, ◌≡◌, ◌≤◌, Bool, Bool-cases, List, Option, Option-cases, Text, [],
  all, any, ap, arith, codes, false, if◌then◌else◌, inl, inr, leb, negsuc, none, not, pos, refl,
  some, subst, text_eq, true, ℕ, ℤ,
}
use moeen.Json.{Fields, Json, as_text, get, keys}
use moeen.Location.Doubles.{Doubles, is_within}
use moeen.Location.Service.{as_number}

pub record RawSample : Type 0 where
  pub latitude : ℕ
  pub longitude : ℕ
  pub accuracy_meters : ℕ
  pub captured_at : ℕ

abbrev pub sample_keys : List Text
sample_keys =
    codes "latitude" ∷ codes "longitude" ∷ codes "accuracyMeters" ∷ codes "capturedAt" ∷ []

abbrev pub sample_maximum_age_milliseconds : ℕ
sample_maximum_age_milliseconds = 5 * 60000

abbrev pub sample_maximum_future_skew_milliseconds : ℕ
sample_maximum_future_skew_milliseconds = 60000

abbrev pub number_within : Doubles → ℤ → ℤ → Option ℕ → Option ℕ
number_within d minimum maximum none = none
number_within d minimum maximum (some n) = if is_within d minimum maximum n then some n else none

-- Finite and not negative.
abbrev pub accuracy_in : Doubles → Option ℕ → Option ℕ
accuracy_in d none = none
accuracy_in d (some n) = if d.is_finite n && not (d.less n (d.whole (pos 0))) then some n else none

-- A valid date, not too old and not too far ahead.
abbrev pub is_timely : ℕ → ℕ → Bool
is_timely received captured =
    leb received (captured + sample_maximum_age_milliseconds)
    && leb captured (received + sample_maximum_future_skew_milliseconds)

abbrev pub date_in : Doubles → Option Text → Option ℕ
date_in d none = none
date_in d (some t) = d.date_of t

abbrev pub timely : ℕ → Option ℕ → Option ℕ
timely received none = none
timely received (some captured) = if is_timely received captured then some captured else none

abbrev pub sample_of : Option ℕ → Option ℕ → Option ℕ → Option ℕ → Option RawSample
sample_of (some a) (some b) (some c) (some t) =
    some (record { latitude = a; longitude = b; accuracy_meters = c; captured_at = t })
sample_of _ _ _ _ = none

abbrev pub sample_fields : Doubles → ℕ → Fields → Option RawSample
sample_fields d received fields =
    if all (λ k. any (text_eq k) sample_keys) (keys fields)
    then sample_of
        (number_within d (negsuc 89) (pos 90) (as_number (get (codes "latitude") fields)))
        (number_within d (negsuc 179) (pos 180) (as_number (get (codes "longitude") fields)))
        (accuracy_in d (as_number (get (codes "accuracyMeters") fields)))
        (timely received (date_in d (as_text (get (codes "capturedAt") fields))))
    else none

unfoldable pub validate_provider_location_sample : Doubles → Json → ℕ → Option RawSample
validate_provider_location_sample d (Json.object fields) received = sample_fields d received fields
validate_provider_location_sample d _ received = none

-- A sample as a client sends it, with the text of its date.
abbrev pub sent_sample : RawSample → Text → Json
sent_sample s date = Json.object (
    Fields.field (codes "latitude") (Json.number s.latitude) (
      Fields.field (codes "longitude") (Json.number s.longitude) (
        Fields.field (codes "accuracyMeters") (Json.number s.accuracy_meters)
          (Fields.field (codes "capturedAt") (Json.text date) Fields.no_fields))))

-- A finite number between two whole ones.
abbrev pub IsBetween : Doubles → ℤ → ℤ → ℕ → Type 0
IsBetween d minimum maximum n =
    (d.is_finite n ≡ true)
    × (d.less n (d.whole minimum) ≡ false)
    × (d.less (d.whole maximum) n ≡ false)

-- What makes a body a given sample at the time of its receipt: an object with no other field than
-- the four, numbers in range, and the text of a date at most 300 seconds before and 60 seconds after
-- the receipt.
abbrev pub IsSample : Doubles → Json → ℕ → RawSample → Type 0
IsSample d input received s =
    (fields : Fields) × (input ≡ Json.object fields)
    × (all
          (λ k. any (text_eq k) (
            codes "latitude"
            ∷ codes "longitude"
            ∷ codes "accuracyMeters"
            ∷ codes "capturedAt"
            ∷ []))
          (keys fields)
        ≡ true)
    × ((get (codes "latitude") fields ≡ some (Json.number s.latitude))
        × IsBetween d (negsuc 89) (pos 90) s.latitude)
    × ((get (codes "longitude") fields ≡ some (Json.number s.longitude))
        × IsBetween d (negsuc 179) (pos 180) s.longitude)
    × ((get (codes "accuracyMeters") fields ≡ some (Json.number s.accuracy_meters))
        × (d.is_finite s.accuracy_meters ≡ true)
        × (d.less s.accuracy_meters (d.whole (pos 0)) ≡ false))
    × ((date : Text) × (get (codes "capturedAt") fields ≡ some (Json.text date))
        × (d.date_of date ≡ some s.captured_at)
        × (received ≤ s.captured_at + 300000)
        × (s.captured_at ≤ received + 60000))

as_number-number :
    (value : Option Json) (n : ℕ) → as_number value ≡ some n → value ≡ some (Json.number n)
as_number-number none n h = cc
as_number-number (some (Json.number m)) n h = cc
as_number-number (some Json.null) n h = cc
as_number-number (some (Json.boolean b)) n h = cc
as_number-number (some (Json.text t)) n h = cc
as_number-number (some (Json.array xs)) n h = cc
as_number-number (some (Json.object fs)) n h = cc

as_text-text :
    (value : Option Json) (t : Text) → as_text value ≡ some t → value ≡ some (Json.text t)
as_text-text none t h = cc
as_text-text (some (Json.text u)) t h = cc
as_text-text (some Json.null) t h = cc
as_text-text (some (Json.boolean b)) t h = cc
as_text-text (some (Json.number n)) t h = cc
as_text-text (some (Json.array xs)) t h = cc
as_text-text (some (Json.object fs)) t h = cc

number_within-IsBetween :
    (d : Doubles) (minimum maximum : ℤ) (value : Option ℕ) (n : ℕ)
    → number_within d minimum maximum value ≡ some n
    → (value ≡ some n) × IsBetween d minimum maximum n
number_within-IsBetween d minimum maximum none n h = cc
number_within-IsBetween d minimum maximum (some m) n h =
    elim (Bool-cases (is_within d minimum maximum m)) [
      | inl inside ↦
          let same : m ≡ n = ground (arith, inside, h) in
          let there : is_within d minimum maximum n ≡ true =
            subst (λ (k : ℕ). is_within d minimum maximum k ≡ true) same inside in
          (ap some same, (ground (arith, there), ground (arith, there), ground (arith, there)))
      | inr outside ↦ absurd (ground (arith, outside, h))
    ]

accuracy_in-finite :
    (d : Doubles) (value : Option ℕ) (n : ℕ)
    → accuracy_in d value ≡ some n
    → (value ≡ some n) × (d.is_finite n ≡ true) × (d.less n (d.whole (pos 0)) ≡ false)
accuracy_in-finite d none n h = cc
accuracy_in-finite d (some m) n h =
    elim (Bool-cases (d.is_finite m && not (d.less m (d.whole (pos 0))))) [
      | inl inside ↦
          let same : m ≡ n = ground (arith, inside, h) in
          let there : (d.is_finite n && not (d.less n (d.whole (pos 0)))) ≡ true =
            subst (λ (k : ℕ). (d.is_finite k && not (d.less k (d.whole (pos 0)))) ≡ true) same
              inside in
          (ap some same, ground (arith, there), ground (arith, there))
      | inr outside ↦ absurd (ground (arith, outside, h))
    ]

timely-date :
    (d : Doubles) (received : ℕ) (value : Option Text) (captured : ℕ)
    → timely received (date_in d value) ≡ some captured
    → (date : Text) × (value ≡ some date)
      × (d.date_of date ≡ some captured)
      × (received ≤ captured + 300000)
      × (captured ≤ received + 60000)
timely-date d received none captured h = cc
timely-date d received (some date) captured h = elim (Option-cases (d.date_of date)) [
  | inl invalid ↦ absurd (ground (arith, invalid, h))
  | inr (t, e) ↦
      let h' : timely received (some t) ≡ some captured = rw e at h in
      elim (Bool-cases (is_timely received t)) [
        | inr late ↦ absurd (ground (arith, late, h'))
        | inl good ↦
            let same : t ≡ captured = ground (arith, good, h') in
            (date, refl, e ∙ ap some same, ground (arith, good, same), ground (arith, good, same))
      ]
]

sample_of-eq-some :
    (a b c t : Option ℕ) (s : RawSample)
    → sample_of a b c t ≡ some s
    → (a ≡ some s.latitude)
      × (b ≡ some s.longitude)
      × (c ≡ some s.accuracy_meters)
      × (t ≡ some s.captured_at)
sample_of-eq-some (some a) (some b) (some c) (some t) s h =
    let same : record { latitude = a; longitude = b; accuracy_meters = c; captured_at = t } ≡ s =
      ground (arith, h) in
    (
      ap (λ (x : RawSample). some x.latitude) same,
      ap (λ (x : RawSample). some x.longitude) same,
      ap (λ (x : RawSample). some x.accuracy_meters) same,
      ap (λ (x : RawSample). some x.captured_at) same,
    )
sample_of-eq-some none b c t s h = cc
sample_of-eq-some (some a) none c t s h = cc
sample_of-eq-some (some a) (some b) none t s h = cc
sample_of-eq-some (some a) (some b) (some c) none s h = cc

sample_fields-IsSample :
    (d : Doubles) (fields : Fields) (received : ℕ) (s : RawSample)
    → sample_fields d received fields ≡ some s
    → IsSample d (Json.object fields) received s
sample_fields-IsSample d fields received s h =
    elim (Bool-cases (all (λ k. any (text_eq k) sample_keys) (keys fields))) [
      | inr other ↦ absurd (ground (arith, other, h))
      | inl known ↦
          let h' = rw known at h in
          let (a, b, c, t) = sample_of-eq-some _ _ _ _ s h' in
          let (north, lat) = number_within-IsBetween d (negsuc 89) (pos 90) _ s.latitude a in
          let (east, long) = number_within-IsBetween d (negsuc 179) (pos 180) _ s.longitude b in
          let (near, fin, above) = accuracy_in-finite d _ s.accuracy_meters c in
          let (date, written, parsed, past, ahead) = timely-date d received _ s.captured_at t in
          (
            fields,
            refl,
            known,
            (as_number-number _ _ north, lat),
            (as_number-number _ _ east, long),
            (as_number-number _ _ near, fin, above),
            (date, as_text-text _ _ written, parsed, past, ahead),
          )
    ]

IsSample-sample_fields :
    (d : Doubles) (input : Json) (received : ℕ) (s : RawSample)
    → IsSample d input received s
    → validate_provider_location_sample d input received ≡ some s
unfolding validate_provider_location_sample
IsSample-sample_fields d input received s h =
    let (fields, object, known, latitude, longitude, accuracy, captured) = h in
    let (lat, (fin, south, north)) = latitude in
    let (long, (fin', west, east)) = longitude in
    let (near, fin'', above) = accuracy in
    let (date, written, parsed, past, ahead) = captured in
    let good : is_timely received s.captured_at ≡ true = ground (arith, past, ahead) in
    rw
      (
        object, known, lat, long, near, written, parsed, fin, south, north, fin', west, east, fin'',
        above, good,
      )
      refl

-- A body is accepted as a sample exactly when it is an object without other fields than the four,
-- with a finite latitude and longitude in range, a finite accuracy that is not negative, and the
-- text of a date at most 300 seconds before and 60 seconds after the receipt; the sample holds just
-- these values. Everything else is refused.
pub validate_provider_location_sample-IsSample :
    (d : Doubles) (input : Json) (received : ℕ) (s : RawSample)
    → (validate_provider_location_sample d input received ≡ some s) ↔ IsSample d input received s
unfolding validate_provider_location_sample
validate_provider_location_sample-IsSample d (Json.object fields) received s = (
  sample_fields-IsSample d fields received s,
  IsSample-sample_fields d (Json.object fields) received s,
)
validate_provider_location_sample-IsSample d Json.null received s =
    (λ h. cc, IsSample-sample_fields d Json.null received s)
validate_provider_location_sample-IsSample d (Json.boolean b) received s =
    (λ h. cc, IsSample-sample_fields d (Json.boolean b) received s)
validate_provider_location_sample-IsSample d (Json.number n) received s =
    (λ h. cc, IsSample-sample_fields d (Json.number n) received s)
validate_provider_location_sample-IsSample d (Json.text t) received s =
    (λ h. cc, IsSample-sample_fields d (Json.text t) received s)
validate_provider_location_sample-IsSample d (Json.array xs) received s =
    (λ h. cc, IsSample-sample_fields d (Json.array xs) received s)
