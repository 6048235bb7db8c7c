-- ===== src/Location/Tracking.antt =====
-- apps/api/src/provider-tracking.config.ts, and projectProviderTrackingStatus of
-- provider-tracking.ts.
use moeen.Base.{
  ◌&&◌, ◌||◌, ◌≡◌, ◌≤◌, Bool, Bool-cases, Option, Text, all, arith, codes, false, given,
  if◌then◌else◌, inl, inr, is_empty, leb, ltb, none, not, refl, some, text_eq, trim, ℕ,
}
use moeen.Store.{RequestStatus, SessionState, is_active_session}
use moeen.Ids.Decimal.{is_digit, read_digits}
use moeen.Ids.Public.{maximum_safe_integer}
use moeen.Tracking.Sample.{is_trackable}

pub record ProviderTrackingConfig : Type 0 where
  pub enabled : Bool
  pub on_the_way_cadence : ℕ
  pub in_progress_cadence : ℕ

abbrev pub default_provider_tracking_config : ProviderTrackingConfig
default_provider_tracking_config = record {
  enabled = false;
  on_the_way_cadence = 15000;
  in_progress_cadence = 60000;
}

-- cadence: the default where the variable is missing, else a number of digits within the range;
-- none is the configuration error.
unfoldable pub cadence : Option Text → ℕ → ℕ → ℕ → Option ℕ
unfolding trim read_digits
cadence none standard minimum maximum = some standard
cadence (some value) standard minimum maximum =
    let normalized = trim value in
    let parsed = read_digits 0 normalized in
    if (not (is_empty normalized) && all is_digit normalized)
      && (leb parsed maximum_safe_integer && (leb minimum parsed && leb parsed maximum))
    then some parsed
    else none

-- `variable?.trim() || 'off'`.
unfoldable pub mode_of : Option Text → Text
unfolding trim
mode_of value = let mode = trim (given value) in if is_empty mode then codes "off" else mode

-- The last test and the result.
abbrev pub tracking_config : Bool → Option ℕ → Option ℕ → Option ProviderTrackingConfig
tracking_config enabled (some on_the_way) (some in_progress) =
    if ltb in_progress on_the_way
    then none
    else some (record {
      enabled = enabled;
      on_the_way_cadence = on_the_way;
      in_progress_cadence = in_progress;
    })
tracking_config enabled _ _ = none

-- providerTrackingConfigFromEnvironment.
unfoldable pub provider_tracking_config_from_environment :
    Option Text → Option Text → Option Text → Option ProviderTrackingConfig
unfolding mode_of cadence
provider_tracking_config_from_environment mode on_the_way in_progress =
    if text_eq (mode_of mode) (codes "off") || text_eq (mode_of mode) (codes "enabled")
    then tracking_config (text_eq (mode_of mode) (codes "enabled"))
        (cadence on_the_way default_provider_tracking_config.on_the_way_cadence 10000 60000)
        (cadence in_progress default_provider_tracking_config.in_progress_cadence 30000 300000)
    else none

-- What the provider's application is told.
pub record ProviderTrackingStatus : Type 0 where
  pub active : Bool
  pub request_id : ℕ
  pub status : RequestStatus
  pub on_the_way_cadence : ℕ
  pub in_progress_cadence : ℕ

abbrev pub is_active_state : Option SessionState → Bool
is_active_state none = false
is_active_state (some state) = is_active_session state

unfoldable pub project_provider_tracking_status :
    ℕ → RequestStatus → Option SessionState → ProviderTrackingConfig → ProviderTrackingStatus
project_provider_tracking_status rid status state config = record {
  active = config.enabled && (is_trackable status && is_active_state state);
  request_id = rid;
  status = status;
  on_the_way_cadence = config.on_the_way_cadence;
  in_progress_cadence = config.in_progress_cadence;
}

cadence_bounds :
    (value : Option Text) (standard minimum maximum n : ℕ)
    → minimum ≤ standard
    → standard ≤ maximum
    → cadence value standard minimum maximum ≡ some n
    → (minimum ≤ n) × (n ≤ maximum)
unfolding cadence
cadence_bounds none standard minimum maximum n low high h = ground (arith, h)
cadence_bounds (some value) standard minimum maximum n low high h = ground (arith, h)

tracking_config_bounds :
    (enabled : Bool) (a b : Option ℕ) (config : ProviderTrackingConfig)
    → ((n : ℕ) → a ≡ some n → (10000 ≤ n) × (n ≤ 60000))
    → ((n : ℕ) → b ≡ some n → (30000 ≤ n) × (n ≤ 300000))
    → tracking_config enabled a b ≡ some config
    → (10000 ≤ config.on_the_way_cadence)
      × (config.on_the_way_cadence ≤ 60000)
      × (30000 ≤ config.in_progress_cadence)
      × (config.in_progress_cadence ≤ 300000)
      × (config.on_the_way_cadence ≤ config.in_progress_cadence)
      × (config.enabled ≡ enabled)
tracking_config_bounds enabled none b config p q h = cc
tracking_config_bounds enabled (some m) none config p q h = cc
tracking_config_bounds enabled (some m) (some n) config p q h =
    ground (arith, h, p m refl, q n refl)

-- Whatever the environment holds, a configuration that is accepted has both cadences in their
-- ranges, the one on the way not longer than the one in progress, and is enabled only by the word.
pub provider_tracking_config_bounds :
    (mode on_the_way in_progress : Option Text) (config : ProviderTrackingConfig)
    → provider_tracking_config_from_environment mode on_the_way in_progress ≡ some config
    → (10000 ≤ config.on_the_way_cadence)
      × (config.on_the_way_cadence ≤ 60000)
      × (30000 ≤ config.in_progress_cadence)
      × (config.in_progress_cadence ≤ 300000)
      × (config.on_the_way_cadence ≤ config.in_progress_cadence)
      × (config.enabled ≡ text_eq (mode_of mode) (codes "enabled"))
unfolding provider_tracking_config_from_environment
provider_tracking_config_bounds mode on_the_way in_progress config h =
    let known = text_eq (mode_of mode) (codes "off") || text_eq (mode_of mode) (codes "enabled") in
    elim (Bool-cases known) [
      | inl named ↦
          tracking_config_bounds (text_eq (mode_of mode) (codes "enabled"))
            (cadence on_the_way 15000 10000 60000) (cadence in_progress 60000 30000 300000) config
            (λ n. cadence_bounds on_the_way 15000 10000 60000 n (omega arith) (omega arith))
            (λ n. cadence_bounds in_progress 60000 30000 300000 n (omega arith) (omega arith))
            (rw named at h)
      | inr unknown ↦ absurd (ground (arith, h, unknown))
    ]
