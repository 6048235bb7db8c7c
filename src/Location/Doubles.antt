-- ===== src/Location/Doubles.antt =====
-- What the location code uses of JavaScript numbers and dates. A number is given by its 64-bit
-- pattern; the operations on patterns, and the parsing of dates, are arguments.
use moeen.Base.{◌&&◌, ◌==◌, ◌||◌, ◌≡◌, Bool, Option, Text, false, not, true, ℕ, ℤ}

pub record Doubles : Type 0 where
  pub is_finite : ℕ → Bool
  -- `<` on numbers, and the number that a whole literal denotes.
  pub less : ℕ → ℕ → Bool
  pub whole : ℤ → ℕ
  -- `Number(value.toFixed(6))`.
  pub six_decimals : ℕ → ℕ
  -- `Number(text)`.
  pub number_of : Text → ℕ
  -- `new Date(text).getTime()` and `date.toISOString()`, in milliseconds; none is an invalid date.
  pub date_of : Text → Option ℕ
  pub iso_of : ℕ → Text

-- `Number.isFinite(value) && !(value < minimum || value > maximum)`, with whole bounds.
abbrev pub is_within : Doubles → ℤ → ℤ → ℕ → Bool
is_within d minimum maximum value =
    d.is_finite value && not (d.less value (d.whole minimum) || d.less (d.whole maximum) value)

-- The pattern of -0, which toFixed gives for a small negative number and turns into 0 itself.
abbrev pub negative_zero : ℕ
negative_zero = 9223372036854775808

-- What is documented of toFixed: six decimals other than -0 stay as they are, and rounding does not
-- pass a whole number.
pub record IsRounding (d : Doubles) : Type 0 where
  pub again :
      (value : ℕ)
      → (d.six_decimals value == negative_zero) ≡ false
      → d.six_decimals (d.six_decimals value) ≡ d.six_decimals value
  pub within :
      (minimum maximum : ℤ) (value : ℕ)
      → is_within d minimum maximum value ≡ true
      → is_within d minimum maximum (d.six_decimals value) ≡ true
