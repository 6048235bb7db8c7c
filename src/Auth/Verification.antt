-- ===== src/Auth/Verification.antt =====
-- What a stored hash of a password or of an access code accepts.
use moeen.Base.{
  ◌*◌, ◌++◌, ◌<◌, ◌==◌, ◌↔◌, ◌∙◌, ◌∷◌, ◌≡◌, ==_iff, All, Bool, List, Text, [], all, arith, false,
  is_empty, length, not, refl, some, sym, text_eq, text_eq_iff, text_eq_refl, true, ℕ,
}
use moeen.Auth.Credentials.{
  IsDerivation, IsDigest, accepts, dollar, hash_password, hash_prefix,
  is_legacy_provider_access_code_hash, parse_hash, verify_legacy, verify_password,
  verify_provider_access_code,
}
use moeen.Auth.Hex.{
  IsByte, from_hex-to_hex, is_hex, is_hex-to_hex, split_on-lacks, split_on-last, to_hex,
  to_hex-lacks,
}

-- Sixteen random bytes, or any other positive number of them.
abbrev pub IsSalt : List ℕ → Type 0
IsSalt random_bytes = All IsByte random_bytes × (0 < length random_bytes)

to_hex-nonempty : (bytes : List ℕ) → 0 < length bytes → is_empty (to_hex bytes) ≡ false
unfolding to_hex
to_hex-nonempty [] h = absurd (omega arith)
to_hex-nonempty (b ∷ bytes) h = refl

-- The parts of a fresh hash.
pub parse_hash-hash_password :
    (scrypt : Text → Text → List ℕ) (salt : List ℕ) (password : Text)
    → IsDerivation scrypt
    → IsSalt salt
    → parse_hash (hash_password scrypt salt password)
      ≡ some (record { salt = to_hex salt; expected_key = to_hex (scrypt password (to_hex salt)) })
unfolding hash_password parse_hash
parse_hash-hash_password scrypt salt password d s =
    let key = scrypt password (to_hex salt) in
    let keys = d.bytes password (to_hex salt) in
    let tail = to_hex salt ++ dollar ∷ to_hex key in
    rw (
      split_on-lacks dollar hash_prefix tail refl,
      split_on-lacks dollar (to_hex salt) (to_hex key) (to_hex-lacks salt s.0),
      split_on-last dollar (to_hex key) (to_hex-lacks key keys),
      text_eq_refl hash_prefix,
      to_hex-nonempty salt s.1,
      to_hex-nonempty key (omega (arith, d.size password (to_hex salt))),
      is_hex-to_hex key keys,
    )

pub accepts-hash_password :
    (scrypt : Text → Text → List ℕ) (salt : List ℕ) (password other : Text) (otherwise : Bool)
    → IsDerivation scrypt
    → IsSalt salt
    → accepts scrypt other otherwise (parse_hash (hash_password scrypt salt password))
      ≡ text_eq (scrypt password (to_hex salt)) (scrypt other (to_hex salt))
unfolding accepts
accepts-hash_password scrypt salt password other otherwise d s = rw (
  parse_hash-hash_password scrypt salt password d s,
  from_hex-to_hex (scrypt password (to_hex salt)) (d.bytes password (to_hex salt)),
)

-- A hash that `hash_password` made accepts a password exactly when the two derived keys agree; as
-- an access code of a provider it accepts the same.
pub verify_password-hash_password :
    (scrypt : Text → Text → List ℕ) (sha256 : Text → List ℕ) (salt : List ℕ) (password other : Text)
    → IsDerivation scrypt
    → IsSalt salt
    → ((verify_password scrypt other (hash_password scrypt salt password) ≡ true)
        ↔ (scrypt password (to_hex salt) ≡ scrypt other (to_hex salt)))
      × (verify_provider_access_code scrypt sha256 other (hash_password scrypt salt password)
          ≡ verify_password scrypt other (hash_password scrypt salt password))
unfolding verify_password verify_provider_access_code
verify_password-hash_password scrypt sha256 salt password other d s =
    let stored = hash_password scrypt salt password in
    let strict = accepts-hash_password scrypt salt password other false d s in
    (
      rw strict (text_eq_iff _ _),
      accepts-hash_password scrypt salt password other (verify_legacy sha256 other stored) d s
          ∙ sym strict,
    )

hex-lacks : (cs : Text) → all is_hex cs ≡ true → all (λ c. not (c == 36)) cs ≡ true
hex-lacks [] h = refl
hex-lacks (c ∷ cs) h = ground (arith, hex-lacks cs)

length-to_hex : (bytes : List ℕ) → length (to_hex bytes) ≡ 2 * length bytes
unfolding to_hex
length-to_hex [] = refl
length-to_hex (b ∷ bytes) = omega (arith, length-to_hex bytes)

-- The digest that older rows hold accepts exactly the codes with that digest.
pub verify_provider_access_code-legacy :
    (scrypt : Text → Text → List ℕ) (sha256 : Text → List ℕ) (code other : Text)
    → IsDigest sha256
    → (verify_provider_access_code scrypt sha256 other (to_hex (sha256 code)) ≡ true)
      ↔ (sha256 code ≡ sha256 other)
unfolding verify_provider_access_code verify_legacy parse_hash accepts
    is_legacy_provider_access_code_hash
verify_provider_access_code-legacy scrypt sha256 code other d =
    let stored = to_hex (sha256 code) in
    let hex = is_hex-to_hex (sha256 code) (d.bytes code) in
    let size : (length stored == 64) ≡ true =
      (==_iff _ _).1 (omega (arith, length-to_hex (sha256 code), d.size code)) in
    rw
      (
        split_on-last dollar stored (hex-lacks stored hex),
        hex,
        size,
        from_hex-to_hex (sha256 code) (d.bytes code),
        from_hex-to_hex (sha256 other) (d.bytes other),
      )
      (text_eq_iff _ _)

-- The current format is no bare digest: a hash begins with letters that are not hexadecimal.
pub is_legacy-hash_password :
    (scrypt : Text → Text → List ℕ) (salt : List ℕ) (password : Text)
    → is_legacy_provider_access_code_hash (hash_password scrypt salt password) ≡ false
unfolding is_legacy_provider_access_code_hash hash_password
is_legacy-hash_password scrypt salt password = ground arith
