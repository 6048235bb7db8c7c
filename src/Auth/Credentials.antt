-- ===== src/Auth/Credentials.antt =====
-- Password hashes of apps/api/src/staff-auth.service.ts and access codes of provider-access-code.ts.
-- The key derivation and the digest of node:crypto are arguments; `IsDerivation` and `IsDigest`
-- state what is documented of their results.
use moeen.Base.{
  ◌&&◌, ◌++◌, ◌==◌, ◌∷◌, ◌≡◌, All, Bool, List, Option, Text, all, codes, false, if◌then◌else◌,
  is_empty, length, none, not, some, text_eq, ℕ,
}
use moeen.Auth.Hex.{IsByte, from_hex, is_hex, split_on, to_hex}

-- `scrypt(password, salt, 64)`.
pub record IsDerivation (scrypt : Text → Text → List ℕ) : Type 0 where
  pub bytes : (password salt : Text) → All IsByte (scrypt password salt)
  pub size : (password salt : Text) → length (scrypt password salt) ≡ 64

-- `createHash('sha256').update(text)`.
pub record IsDigest (sha256 : Text → List ℕ) : Type 0 where
  pub bytes : (text : Text) → All IsByte (sha256 text)
  pub size : (text : Text) → length (sha256 text) ≡ 32

-- `scrypt`, the value of passwordHashPrefix and of accessCodeHashPrefix.
abbrev pub hash_prefix : Text
hash_prefix = codes "scrypt"

abbrev pub dollar : ℕ
dollar = 36

-- The parts that `split` gives, when they are those of a hash in the current format.
pub record HashParts : Type 0 where
  pub salt : Text
  pub expected_key : Text

abbrev pub hash_parts_of : List Text → Option HashParts
hash_parts_of (prefix ∷ salt ∷ expected_key ∷ rest) =
    if text_eq prefix hash_prefix
      && (not (is_empty salt) && (not (is_empty expected_key) && all is_hex expected_key))
    then some (record { salt = salt; expected_key = expected_key })
    else none
hash_parts_of _ = none

unfoldable pub parse_hash : Text → Option HashParts
parse_hash stored = hash_parts_of (split_on dollar stored)

-- hashStaffPassword and hashProviderAccessCode, with the sixteen random bytes as an argument.
unfoldable pub hash_password : (Text → Text → List ℕ) → List ℕ → Text → Text
hash_password scrypt random_bytes password =
    let salt = to_hex random_bytes in
    hash_prefix ++ dollar ∷ (salt ++ dollar ∷ to_hex (scrypt password salt))

-- The comparison with the derived key, when the stored hash is in the current format.
unfoldable pub accepts : (Text → Text → List ℕ) → Text → Bool → Option HashParts → Bool
accepts scrypt password otherwise none = otherwise
accepts scrypt password otherwise (some parts) =
    text_eq (from_hex parts.expected_key) (scrypt password parts.salt)

-- StaffAuthService.verifyPassword.
unfoldable pub verify_password : (Text → Text → List ℕ) → Text → Text → Bool
unfolding accepts parse_hash
verify_password scrypt password stored = accepts scrypt password false (parse_hash stored)

unfoldable pub is_legacy_provider_access_code_hash : Text → Bool
is_legacy_provider_access_code_hash stored = length stored == 64 && all is_hex stored

unfoldable pub provider_access_code_lookup_id : (Text → List ℕ) → Text → Text
provider_access_code_lookup_id sha256 code = to_hex (sha256 code)

-- The comparison of a bare digest.
unfoldable pub verify_legacy : (Text → List ℕ) → Text → Text → Bool
unfolding is_legacy_provider_access_code_hash
verify_legacy sha256 code stored =
    if is_legacy_provider_access_code_hash stored
    then text_eq (from_hex stored) (from_hex (to_hex (sha256 code)))
    else false

-- verifyProviderAccessCode: the current format, else a bare digest in hexadecimal.
unfoldable pub verify_provider_access_code :
    (Text → Text → List ℕ) → (Text → List ℕ) → Text → Text → Bool
unfolding accepts parse_hash verify_legacy
verify_provider_access_code scrypt sha256 code stored =
    accepts scrypt code (verify_legacy sha256 code stored) (parse_hash stored)
