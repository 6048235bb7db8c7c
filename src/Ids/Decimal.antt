-- ===== src/Ids/Decimal.antt =====
-- Decimal numerals: what a template literal prints of a whole number, and what `Number` reads of a
-- text of digits. JavaScript numbers are exact up to 2 ^ 53 - 1; the numbers here are exact.
use moeen.Base.{
  ◌%◌, ◌&&◌, ◌*◌, ◌++◌, ◌+◌, ◌-◌, ◌/◌, ◌<◌, ◌∙◌, ◌∷◌, ◌≡◌, ◌≤◌, Bool, Bool-cases, Text, [], all,
  arith, false, if◌then◌else◌, inl, inr, is_empty, leb, length, length-append, ltb, refl, suc, true,
  zero, ℕ,
}

abbrev pub is_digit : ℕ → Bool
is_digit c = leb 48 c && leb c 57

-- The digits of a number below the fuel.
unfoldable pub digits : ℕ → ℕ → Text
digits zero n = []
digits (suc fuel) n =
    let front = digits fuel (n / 10) in
    if ltb n 10 then (48 + n) ∷ [] else front ++ ((48 + n % 10) ∷ [])

unfoldable pub decimal : ℕ → Text
unfolding digits
decimal n = digits (suc n) n

unfoldable pub read_digits : ℕ → Text → ℕ
read_digits acc [] = acc
read_digits acc (c ∷ cs) = read_digits (acc * 10 + (c - 48)) cs

read_digits-append :
    (acc d : ℕ) (cs : Text) → read_digits acc (cs ++ (d ∷ [])) ≡ read_digits acc cs * 10 + (d - 48)
unfolding read_digits
read_digits-append acc d [] = refl
read_digits-append acc d (c ∷ cs) = read_digits-append (acc * 10 + (c - 48)) d cs

digits-read_small : (n : ℕ) → read_digits 0 ((48 + n) ∷ []) ≡ n
unfolding read_digits
digits-read_small n = omega arith

digits-read : (fuel n : ℕ) → n < fuel → read_digits 0 (digits fuel n) ≡ n
unfolding digits
digits-read zero n h = absurd (omega arith)
digits-read (suc fuel) n h = elim (Bool-cases (ltb n 10)) [
  | inl small ↦ rw small (digits-read_small n)
  | inr large ↦ rw large (
      read_digits-append 0 (48 + n % 10) (digits fuel (n / 10))
      ∙ omega (arith, digits-read fuel (n / 10) (ground arith)))
]

pub read_digits-decimal : (n : ℕ) → read_digits 0 (decimal n) ≡ n
unfolding decimal
read_digits-decimal n = digits-read (suc n) n (omega arith)

all-append :
    (p : ℕ → Bool) (cs ds : Text) → all p cs ≡ true → all p ds ≡ true → all p (cs ++ ds) ≡ true
all-append p [] ds h k = k
all-append p (c ∷ cs) ds h k = ground (arith, all-append p cs ds)

digits-all : (fuel n : ℕ) → all is_digit (digits fuel n) ≡ true
unfolding digits
digits-all zero n = refl
digits-all (suc fuel) n = elim (Bool-cases (ltb n 10)) [
  | inl small ↦ rw small (ground arith)
  | inr large ↦ rw large (
      all-append is_digit (digits fuel (n / 10)) ((48 + n % 10) ∷ []) (digits-all fuel (n / 10))
        (ground arith))
]

pub decimal-all : (n : ℕ) → all is_digit (decimal n) ≡ true
unfolding decimal
decimal-all n = digits-all (suc n) n

-- The first digit of a positive number is not a zero.
abbrev pub starts_positive : Text → Bool
starts_positive [] = false
starts_positive (c ∷ cs) = leb 49 c && leb c 57

starts_positive-append :
    (cs ds : Text) → starts_positive cs ≡ true → starts_positive (cs ++ ds) ≡ true
starts_positive-append [] ds h = cc
starts_positive-append (c ∷ cs) ds h = h

digits-starts : (fuel n : ℕ) → n < fuel → 0 < n → starts_positive (digits fuel n) ≡ true
unfolding digits
digits-starts zero n h p = absurd (omega arith)
digits-starts (suc fuel) n h p = elim (Bool-cases (ltb n 10)) [
  | inl small ↦ rw small (ground arith)
  | inr large ↦ rw large (
      starts_positive-append (digits fuel (n / 10)) ((48 + n % 10) ∷ [])
        (digits-starts fuel (n / 10) (ground arith) (ground arith)))
]

pub decimal-starts : (n : ℕ) → 0 < n → starts_positive (decimal n) ≡ true
unfolding decimal
decimal-starts n p = digits-starts (suc n) n (omega arith) p

tenth : (n m : ℕ) → n < 10 * m → n / 10 < m
tenth n m h = omega arith

abbrev pub ten_to : ℕ → ℕ
ten_to zero = 1
ten_to (suc k) = 10 * ten_to k

-- A number below a power of ten has that many digits at most.
digits-length : (fuel n k : ℕ) → n < ten_to (suc k) → length (digits fuel n) ≤ suc k
unfolding digits
digits-length zero n k h = omega arith
digits-length (suc fuel) n zero h = ground arith
digits-length (suc fuel) n (suc k) h = elim (Bool-cases (ltb n 10)) [
  | inl small ↦ rw small (omega arith)
  | inr large ↦ rw large (
      omega (
        arith,
        length-append (digits fuel (n / 10)) ((48 + n % 10) ∷ []),
        digits-length fuel (n / 10) k (tenth n (ten_to (suc k)) h),
      ))
]

pub decimal-length : (n k : ℕ) → n < ten_to (suc k) → length (decimal n) ≤ suc k
unfolding decimal
decimal-length n k h = digits-length (suc n) n k h

nonempty-append : (cs : Text) (d : ℕ) → is_empty (cs ++ (d ∷ [])) ≡ false
nonempty-append [] d = refl
nonempty-append (c ∷ cs) d = refl

pub digits-nonempty : (fuel n : ℕ) → is_empty (digits (suc fuel) n) ≡ false
unfolding digits
digits-nonempty fuel n = elim (Bool-cases (ltb n 10)) [
  | inl small ↦ rw small refl
  | inr large ↦ rw large (nonempty-append (digits fuel (n / 10)) (48 + n % 10))
]
