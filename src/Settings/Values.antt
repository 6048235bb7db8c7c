-- ===== src/Settings/Values.antt =====
-- The values that the configurations share.
use moeen.Base.{
  ◌&&◌, ◌==◌, ◌||◌, ◌∷◌, Bool, Option, Text, [], all, codes, false, given, if◌then◌else◌, is_empty,
  leb, length, none, some, text_eq, trim, true, ℕ,
}

-- What stops the start.
pub data SettingError : Type 0 where
  invalid_environment invalid_configuration malformed_project_id : SettingError
  malformed_client_email missing_private_key malformed_private_key : SettingError
  missing_variable unsupported_provider : SettingError

abbrev pub is_lower_or_digit : ℕ → Bool
is_lower_or_digit c = (leb 97 c && leb c 122) || (leb 48 c && leb c 57)

-- `[a-z0-9_-]`.
abbrev pub is_environment_code : ℕ → Bool
is_environment_code c = is_lower_or_digit c || (c == 95 || c == 45)

-- `^[a-z0-9][a-z0-9_-]{0,31}$`.
unfoldable pub is_environment_name : Text → Bool
is_environment_name [] = false
is_environment_name (c ∷ cs) =
    is_lower_or_digit c && (leb (length cs) 31 && all is_environment_code cs)

-- `(NODE_ENV ?? 'development').trim()`.
unfoldable pub environment_name : Option Text → Text
unfolding trim
environment_name none = codes "development"
environment_name (some name) = trim name

-- parseBoolean and parseFcmBoolean.
unfoldable pub parse_boolean : Option Text → Bool → Option Bool
unfolding text_eq
parse_boolean none fallback = some fallback
parse_boolean (some value) fallback =
    if is_empty value
    then some fallback
    else if text_eq value (codes "true")
    then some true
    else if text_eq value (codes "false")
    then some false
    else none

-- `value?.trim()`, which must not be empty.
unfoldable pub required : Option Text → Option Text
unfolding trim
required value =
    let normalized = trim (given value) in if is_empty normalized then none else some normalized
