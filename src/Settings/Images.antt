-- ===== src/Settings/Images.antt =====
-- apps/api/src/request-image.config.ts: the storage of images. `Number` and `URL` are arguments:
-- the integer that a text denotes where it is a safe one, and the protocol and the text of a URL.
use moeen.Base.{
  ◌&&◌, ◌==◌, ◌>>=◌, ◌>>◌, ◌||◌, ◌∷◌, Bool, Option, Outcome, Text, [], codes, false, guard,
  if◌then◌else◌, is_empty, leb, none, ok, or_fail, some, text_eq, true, ℕ, ℤ,
}
use moeen.Settings.Values.{
  SettingError, environment_name, is_environment_name, parse_boolean, required,
}

abbrev pub default_signed_url_ttl_seconds : ℕ
default_signed_url_ttl_seconds = 300

abbrev pub max_signed_url_ttl_seconds : ℕ
max_signed_url_ttl_seconds = 3600

-- A positive integer up to a bound.
abbrev pub up_to : ℕ → Option ℤ → Option ℕ
up_to maximum (some (ℤ.pos n)) = if leb 1 n && leb n maximum then some n else none
up_to maximum _ = none

unfoldable pub parse_ttl : (Text → Option ℤ) → Option Text → Option ℕ
parse_ttl number_of none = some default_signed_url_ttl_seconds
parse_ttl number_of (some value) =
    if is_empty value
    then some default_signed_url_ttl_seconds
    else up_to max_signed_url_ttl_seconds (number_of value)

-- `text.replace(/\/$/, '')`.
unfoldable pub without_last_slash : Text → Text
without_last_slash [] = []
without_last_slash (c ∷ cs) =
    let rest = without_last_slash cs in if is_empty cs && c == 47 then [] else c ∷ rest

pub record Url : Type 0 where
  pub protocol : Text
  pub href : Text

unfoldable pub endpoint : (Text → Option Url) → Option Text → Outcome SettingError Text
unfolding required text_eq without_last_slash
endpoint parse_url value = do
  normalized ← or_fail (required value) SettingError.invalid_configuration
  parsed ← or_fail (parse_url normalized) SettingError.invalid_configuration
  guard (text_eq parsed.protocol (codes "http:") || text_eq parsed.protocol (codes "https:"))
      SettingError.invalid_configuration
  ok (without_last_slash parsed.href)

pub record ImageVariables : Type 0 where
  pub node_env : Option Text
  pub images_enabled : Option Text
  pub signed_url_ttl_seconds : Option Text
  pub endpoint : Option Text
  pub region : Option Text
  pub bucket : Option Text
  pub access_key_id : Option Text
  pub secret_access_key : Option Text
  pub force_path_style : Option Text

pub record ImageStorage : Type 0 where
  pub endpoint : Text
  pub region : Text
  pub bucket : Text
  pub access_key_id : Text
  pub secret_access_key : Text
  pub force_path_style : Bool

-- The storage is there when the images are enabled.
pub record RequestImageConfig : Type 0 where
  pub environment : Text
  pub signed_url_ttl_seconds : ℕ
  pub storage : Option ImageStorage

module _ (number_of : Text → Option ℤ) (parse_url : Text → Option Url) where
  unfoldable pub image_storage : ImageVariables → Outcome SettingError ImageStorage
  unfolding endpoint required parse_boolean
  image_storage v = do
    url ← endpoint parse_url v.endpoint
    region ← or_fail (required v.region) SettingError.invalid_configuration
    bucket ← or_fail (required v.bucket) SettingError.invalid_configuration
    id ← or_fail (required v.access_key_id) SettingError.invalid_configuration
    secret ← or_fail (required v.secret_access_key) SettingError.invalid_configuration
    path_style ← or_fail (parse_boolean v.force_path_style false) SettingError.invalid_configuration
    ok (record {
      endpoint = url;
      region = region;
      bucket = bucket;
      access_key_id = id;
      secret_access_key = secret;
      force_path_style = path_style;
    })

  abbrev pub image_config :
      Text → ℕ → Bool → ImageVariables → Outcome SettingError RequestImageConfig
  unfolding image_storage
  image_config name ttl false v =
      ok (record { environment = name; signed_url_ttl_seconds = ttl; storage = none })
  image_config name ttl true v = do
    storage ← image_storage v
    ok (record { environment = name; signed_url_ttl_seconds = ttl; storage = some storage })

  unfoldable pub request_image_config_from_environment :
      ImageVariables → Outcome SettingError RequestImageConfig
  unfolding environment_name is_environment_name parse_boolean parse_ttl image_config
  request_image_config_from_environment v = do
    let name = environment_name v.node_env
    guard (is_environment_name name) SettingError.invalid_environment
    on ← or_fail (parse_boolean v.images_enabled false) SettingError.invalid_configuration
    ttl ← or_fail (parse_ttl number_of v.signed_url_ttl_seconds) SettingError.invalid_configuration
    image_config name ttl on v
