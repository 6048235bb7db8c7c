-- ===== src/Auth/Platform.antt =====
-- What the sign-in code uses of the platform: `scrypt` and `sha256` of node:crypto, and the Unicode
-- tables behind `toLowerCase`.
use moeen.Base.{List, Text, ℕ}
use moeen.Auth.Hex.{to_hex}

pub record Platform : Type 0 where
  pub scrypt : Text → Text → List ℕ
  pub sha256 : Text → List ℕ
  pub to_lower_case : Text → Text

-- `createHash('sha256').update(token).digest('hex')`.
abbrev pub hash_token : Platform → Text → Text
hash_token platform token = to_hex (platform.sha256 token)
