-- ===== src/Settings/Limits.antt =====
-- The smaller configurations: apps/api/src/twilio-verify.config.ts, otp-provider.factory.ts,
-- trusted-proxy.ts, and the batch size of provider-tracking-retention.ts.
use moeen.Base.{
  ◌&&◌, ◌==◌, ◌>>=◌, ◌>>◌, ◌||◌, ◌∷◌, Bool, Option, Outcome, Text, [], all, codes, false, given,
  guard, if◌then◌else◌, is_empty, leb, none, ok, or_fail, some, text_eq, trim, ℕ, ℤ,
}
use moeen.Ids.Decimal.{is_digit, read_digits}
use moeen.Settings.Images.{up_to}
use moeen.Settings.Values.{SettingError, required}

pub record TwilioVerifyConfig : Type 0 where
  pub api_key : Text
  pub api_secret : Text
  pub verify_service_sid : Text

unfoldable pub twilio_verify_config_from_environment :
    Option Text → Option Text → Option Text → Outcome SettingError TwilioVerifyConfig
unfolding required
twilio_verify_config_from_environment key secret sid = do
  api_key ← or_fail (required key) SettingError.missing_variable
  api_secret ← or_fail (required secret) SettingError.missing_variable
  service ← or_fail (required sid) SettingError.missing_variable
  ok (record { api_key = api_key; api_secret = api_secret; verify_service_sid = service })

-- otpProviderFromEnvironment, with the provider by its configuration.
unfoldable pub otp_provider_from_environment :
    Option Text → Option Text → Option Text → Option Text → Outcome SettingError TwilioVerifyConfig
unfolding trim text_eq twilio_verify_config_from_environment
otp_provider_from_environment provider key secret sid = do
  guard (text_eq (trim (given provider)) (codes "twilio_verify")) SettingError.unsupported_provider
  twilio_verify_config_from_environment key secret sid

-- `^(0|[1-9]\d*)$`.
abbrev pub is_plain_number : Text → Bool
is_plain_number [] = false
is_plain_number (c ∷ cs) = (c == 48 && is_empty cs) || (leb 49 c && (leb c 57 && all is_digit cs))

-- resolveTrustedProxyHops: none inside is a variable that is not set.
unfoldable pub resolve_trusted_proxy_hops : Option Text → Option (Option ℕ)
unfolding trim read_digits
resolve_trusted_proxy_hops value =
    let configured = trim (given value) in
    if is_empty configured
    then some none
    else if is_plain_number configured
    then some (some (read_digits 0 configured))
    else none

unfoldable pub retention_batch_size_from_environment : (Text → Option ℤ) → Option Text → Option ℕ
retention_batch_size_from_environment number_of none = some 1000
retention_batch_size_from_environment number_of (some raw) =
    if is_empty raw then some 1000 else up_to 10000 (number_of raw)
