-- ===== src/Otp/Tries.antt =====
-- The limit on the verification attempts of one challenge.
use moeen.Base.{
  ◌+◌, ◌-◌, ◌==◌, ◌∷◌, ◌≡◌, ◌≤◌, Bool, List, [], arith, count, delete_where, false, find_first,
  if◌then◌else◌, is_some, refl, total, total-append, total-delete_where-le, total-update_where-le,
  update_where, ℕ,
}
use moeen.Otp.Challenges.{
  OtpChallenge, consume_otp_challenge, count_attempt, counted, create_otp_challenge, is_failing,
  is_live, may_verify, record_otp_failure, reserve_otp_verification_attempt,
}

-- What may be done with a challenge.
pub data Trial : Type 0 where
  guesses redeems : ℕ → Trial
  misses : Trial

-- The state after one trial of the challenge `id`, and whether it was reserved or consumed.
abbrev pub try_once : ℕ → Trial → List OtpChallenge → List OtpChallenge × Bool × Bool
try_once id (Trial.guesses now) cs =
    let (next, reserved) = reserve_otp_verification_attempt now id cs in
    (next, is_some reserved, false)
try_once id (Trial.redeems now) cs =
    let (next, gone) = consume_otp_challenge now id cs in (next, false, gone)
try_once id Trial.misses cs = (record_otp_failure id cs, false, false)

abbrev pub one_if : Bool → ℕ
one_if b = if b then 1 else 0

-- How many trials were reserved, and how many consumed the challenge.
abbrev pub reservations : ℕ → List Trial → List OtpChallenge → ℕ
reservations id [] cs = 0
reservations id (t ∷ ts) cs =
    let (next, reserved, gone) = try_once id t cs in one_if reserved + reservations id ts next

abbrev pub consumptions : ℕ → List Trial → List OtpChallenge → ℕ
consumptions id [] cs = 0
consumptions id (t ∷ ts) cs =
    let (next, reserved, gone) = try_once id t cs in one_if gone + consumptions id ts next

-- The attempts that are left.
abbrev attempts_left : ℕ → OtpChallenge → ℕ
attempts_left id c = if c.challenge_id == id then 5 - c.failed_attempts else 0

abbrev is_key : ℕ → OtpChallenge → Bool
is_key id c = c.challenge_id == id

reserve-left :
    (now id : ℕ) (cs : List OtpChallenge)
    → one_if (is_some (counted (find_first (may_verify now id) cs)))
        + total (attempts_left id) (update_where (may_verify now id) count_attempt cs)
      ≤ total (attempts_left id) cs
reserve-left now id [] = omega arith
reserve-left now id (c ∷ cs) = ground (
  arith,
  reserve-left now id cs,
  total-update_where-le (attempts_left id) (may_verify now id) count_attempt cs
      (λ x e. ground arith),
)

try_once-left :
    (id : ℕ) (t : Trial) (cs : List OtpChallenge)
    → one_if (try_once id t cs).1 + total (attempts_left id) (try_once id t cs).0
      ≤ total (attempts_left id) cs
unfolding reserve_otp_verification_attempt record_otp_failure consume_otp_challenge
try_once-left id (Trial.guesses now) cs = reserve-left now id cs
try_once-left id (Trial.redeems now) cs =
    omega (arith, total-delete_where-le (attempts_left id) (is_live now id) cs)
try_once-left id Trial.misses cs = omega (
  arith,
  total-update_where-le (attempts_left id) (is_failing id) count_attempt cs (λ x e. ground arith),
)

live-le_key :
    (now id : ℕ) (cs : List OtpChallenge)
    → count (is_live now id) cs + count (is_key id) (delete_where (is_live now id) cs)
      ≡ count (is_key id) cs
live-le_key now id [] = refl
live-le_key now id (c ∷ cs) = ground (arith, live-le_key now id cs)

try_once-key :
    (id : ℕ) (t : Trial) (cs : List OtpChallenge)
    → one_if (try_once id t cs).2 + count (is_key id) (try_once id t cs).0 ≤ count (is_key id) cs
unfolding reserve_otp_verification_attempt record_otp_failure consume_otp_challenge
try_once-key id (Trial.guesses now) cs = omega (
  arith,
  total-update_where-le (λ c. if is_key id c then 1 else 0) (may_verify now id) count_attempt cs
      (λ x e. omega arith),
)
try_once-key id (Trial.redeems now) cs = ground (arith, live-le_key now id cs)
try_once-key id Trial.misses cs = omega (
  arith,
  total-update_where-le (λ c. if is_key id c then 1 else 0) (is_failing id) count_attempt cs
      (λ x e. omega arith),
)

reservations-left :
    (id : ℕ) (ts : List Trial) (cs : List OtpChallenge)
    → reservations id ts cs ≤ total (attempts_left id) cs
reservations-left id [] cs = omega arith
reservations-left id (t ∷ ts) cs =
    omega (arith, try_once-left id t cs, reservations-left id ts (try_once id t cs).0)

consumptions-key :
    (id : ℕ) (ts : List Trial) (cs : List OtpChallenge)
    → consumptions id ts cs ≤ count (is_key id) cs
consumptions-key id [] cs = omega arith
consumptions-key id (t ∷ ts) cs =
    omega (arith, try_once-key id t cs, consumptions-key id ts (try_once id t cs).0)

left-fresh :
    (id : ℕ) (cs : List OtpChallenge) → count (is_key id) cs ≡ 0 → total (attempts_left id) cs ≡ 0
left-fresh id [] fresh = refl
left-fresh id (c ∷ cs) fresh = ground (arith, left-fresh id cs)

abbrev new_challenge : ℕ → ℕ → ℕ → OtpChallenge
new_challenge id phone expires = record {
  challenge_id = id;
  phone = phone;
  expires_at = expires;
  failed_attempts = 0;
}

new_left :
    (id phone expires : ℕ) → total (attempts_left id) (new_challenge id phone expires ∷ []) ≤ 5
new_left id phone expires = ground arith

new_key : (id phone expires : ℕ) → count (is_key id) (new_challenge id phone expires ∷ []) ≤ 1
new_key id phone expires = ground arith

-- A challenge under a fresh identifier, tried in any way: at most five verification attempts are
-- reserved in all, and it is consumed at most once.
pub create_otp_challenge-tries :
    (id phone expires : ℕ) (ts : List Trial) (cs : List OtpChallenge)
    → count (is_key id) cs ≡ 0
    → (reservations id ts (create_otp_challenge id phone expires cs) ≤ 5)
      × (consumptions id ts (create_otp_challenge id phone expires cs) ≤ 1)
create_otp_challenge-tries id phone expires ts cs fresh =
    let new = create_otp_challenge id phone expires cs in
    (
      omega (
        arith,
        reservations-left id ts new,
        left-fresh id cs fresh,
        total-append (attempts_left id) cs (new_challenge id phone expires ∷ []),
        new_left id phone expires,
      ),
      omega (
        arith,
        consumptions-key id ts new,
        total-append (λ c. if is_key id c then 1 else 0) cs (new_challenge id phone expires ∷ []),
        new_key id phone expires,
        fresh,
      ),
    )
