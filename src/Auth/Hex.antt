-- ===== src/Auth/Hex.antt =====
-- What the credentials use of buffers and texts. Buffers are lists of bytes; `toString('hex')` and `Buffer.from(…, 'hex')` convert between the two.
use moeen.Base.{
  ◌%◌, ◌&&◌, ◌*◌, ◌++◌, ◌+◌, ◌-◌, ◌/◌, ◌<◌, ◌==◌, ◌||◌, ◌∷◌, ◌≡◌, ==_refl, All, Bool, List, Text,
  [], all, arith, if◌then◌else◌, leb, ltb, not, refl, true, ℕ,
}

abbrev pub IsByte : ℕ → Type 0
IsByte b = b < 256

abbrev pub hex_digit : ℕ → ℕ
hex_digit n = if ltb n 10 then n + 48 else n + 87

-- `[a-f0-9]` under the flag `i`.
abbrev pub is_hex : ℕ → Bool
is_hex c = (leb 48 c && leb c 57) || ((leb 97 c && leb c 102) || (leb 65 c && leb c 70))

-- The value of a code unit that `is_hex` accepts.
abbrev pub hex_value : ℕ → ℕ
hex_value c = if leb c 57 then c - 48 else if leb c 70 then c - 55 else c - 87

unfoldable pub to_hex : List ℕ → Text
to_hex [] = []
to_hex (b ∷ bs) = hex_digit (b / 16) ∷ hex_digit (b % 16) ∷ to_hex bs

-- On hexadecimal digits; an odd digit at the end is dropped.
unfoldable pub from_hex : Text → List ℕ
from_hex [] = []
from_hex (c ∷ []) = []
from_hex (c ∷ d ∷ cs) = (hex_value c * 16 + hex_value d) ∷ from_hex cs

-- `text.split(separator)`, on a separator of one code unit.
abbrev prepend : ℕ → List Text → List Text
prepend c [] = (c ∷ []) ∷ []
prepend c (part ∷ parts) = (c ∷ part) ∷ parts

unfoldable pub split_on : ℕ → Text → List Text
split_on separator [] = [] ∷ []
split_on separator (c ∷ cs) =
    let parts = split_on separator cs in if c == separator then [] ∷ parts else prepend c parts

hex_digit-is_hex : (n : ℕ) → n < 16 → is_hex (hex_digit n) ≡ true
hex_digit-is_hex n h = ground arith

hex_value-hex_digit : (n : ℕ) → n < 16 → hex_value (hex_digit n) ≡ n
hex_value-hex_digit n h = ground arith

pub is_hex-to_hex : (bytes : List ℕ) → All IsByte bytes → all is_hex (to_hex bytes) ≡ true
unfolding to_hex
is_hex-to_hex [] h = refl
is_hex-to_hex (b ∷ bytes) h = rw (
  hex_digit-is_hex (b / 16) (omega (arith, h.0)),
  hex_digit-is_hex (b % 16) (omega arith),
  is_hex-to_hex bytes h.1,
)

pub from_hex-to_hex : (bytes : List ℕ) → All IsByte bytes → from_hex (to_hex bytes) ≡ bytes
unfolding to_hex from_hex
from_hex-to_hex [] h = refl
from_hex-to_hex (b ∷ bytes) h =
    let high = hex_value-hex_digit (b / 16) (omega (arith, h.0)) in
    let low = hex_value-hex_digit (b % 16) (omega arith) in
    let e : hex_value (hex_digit (b / 16)) * 16 + hex_value (hex_digit (b % 16)) ≡ b =
      omega (arith, high, low) in
    cc (e, from_hex-to_hex bytes h.1)

pub split_on-lacks :
    (separator : ℕ) (part rest : Text)
    → all (λ c. not (c == separator)) part ≡ true
    → split_on separator (part ++ separator ∷ rest) ≡ part ∷ split_on separator rest
unfolding split_on
split_on-lacks separator [] rest h = rw (==_refl separator)
split_on-lacks separator (c ∷ part) rest h = ground (arith, split_on-lacks separator part rest)

pub split_on-last :
    (separator : ℕ) (part : Text)
    → all (λ c. not (c == separator)) part ≡ true
    → split_on separator part ≡ part ∷ []
unfolding split_on
split_on-last separator [] h = refl
split_on-last separator (c ∷ part) h = ground (arith, split_on-last separator part)

-- No hexadecimal digit is a dollar sign.
pub to_hex-lacks :
    (bytes : List ℕ) → All IsByte bytes → all (λ c. not (c == 36)) (to_hex bytes) ≡ true
unfolding to_hex
to_hex-lacks [] h = refl
to_hex-lacks (b ∷ bytes) h = ground (arith, to_hex-lacks bytes)
