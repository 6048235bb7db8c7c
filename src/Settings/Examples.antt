-- ===== src/Settings/Examples.antt =====
-- Environments that start the API, and some that do not.
use moeen.Base.{◌++◌, ◌∷◌, ◌≡◌, Text, codes, err, false, none, ok, refl, some, true, ℤ}
use moeen.Settings.Fcm.{
  FcmConfig, begin_marker, end_marker, fcm_config_from_environment, normalize_fcm_private_key,
  required_client_email,
}
use moeen.Settings.Images.{endpoint, request_image_config_from_environment}
use moeen.Settings.Limits.{
  otp_provider_from_environment, resolve_trusted_proxy_hops, retention_batch_size_from_environment,
}
use moeen.Settings.Values.{SettingError}

-- A key whose line breaks were escaped.
abbrev escaped_key : Text
escaped_key = begin_marker ++ codes "\\nMII\\n" ++ end_marker

real_key :
    normalize_fcm_private_key (λ key. true) (some escaped_key)
    ≡ ok (begin_marker ++ (10 ∷ codes "MII") ++ (10 ∷ end_marker))
unfolding normalize_fcm_private_key
real_key = refl

switched_off :
    fcm_config_from_environment (λ key. false) none none none none none
    ≡ ok (FcmConfig.disabled (codes "development"))
unfolding fcm_config_from_environment
switched_off = refl

no_key :
    fcm_config_from_environment
      (λ key. true)
      none
      (some (codes "true"))
      (some (codes "moeen-1"))
      (some (codes "push@moeen.example.sa"))
      (some (codes " "))
    ≡ err SettingError.missing_private_key
unfolding fcm_config_from_environment
no_key = refl

no_mail_address :
    required_client_email (some (codes "push@moeen.")) ≡ err SettingError.malformed_client_email
unfolding required_client_email
no_mail_address = refl

slash_cut :
    endpoint
      (λ url. some (record { protocol = codes "http:"; href = url }))
      (some (codes " http://s3/ "))
    ≡ ok (codes "http://s3")
unfolding endpoint
slash_cut = refl

images_off :
    request_image_config_from_environment
      (λ value. none)
      (λ url. none)
      (record {
        node_env = some (codes "production");
        images_enabled = some (codes "false");
        signed_url_ttl_seconds = none;
        endpoint = none;
        region = none;
        bucket = none;
        access_key_id = none;
        secret_access_key = none;
        force_path_style = none;
      })
    ≡ ok (record { environment = codes "production"; signed_url_ttl_seconds = 300; storage = none })
unfolding request_image_config_from_environment
images_off = refl

other_provider :
    otp_provider_from_environment (some (codes "console")) none none none
    ≡ err SettingError.unsupported_provider
unfolding otp_provider_from_environment
other_provider = refl

two_hops : resolve_trusted_proxy_hops (some (codes " 2 ")) ≡ some (some 2)
unfolding resolve_trusted_proxy_hops
two_hops = refl

no_octal : resolve_trusted_proxy_hops (some (codes "02")) ≡ none
unfolding resolve_trusted_proxy_hops
no_octal = refl

too_large :
    retention_batch_size_from_environment (λ value. some (ℤ.pos 10001)) (some (codes "10001"))
    ≡ none
unfolding retention_batch_size_from_environment
too_large = refl
