-- ===== src/Otp/Challenges.antt =====
-- createOtpChallenge, reserveOtpVerificationAttempt, recordOtpFailure and consumeOtpChallenge.
use moeen.Base.{
  ◌&&◌, ◌++◌, ◌==◌, ◌∷◌, Bool, List, Option, [], count, delete_where, find_first, ltb, none, some,
  suc, update_where, ℕ,
}

pub record OtpChallenge : Type 0 where
  pub challenge_id : ℕ
  pub phone : ℕ
  pub expires_at : ℕ
  pub failed_attempts : ℕ

abbrev pub challenge_key : OtpChallenge → ℕ
challenge_key c = c.challenge_id

abbrev pub count_attempt : OtpChallenge → OtpChallenge
count_attempt c = record c { failed_attempts = suc c.failed_attempts }

abbrev pub create_otp_challenge : ℕ → ℕ → ℕ → List OtpChallenge → List OtpChallenge
create_otp_challenge id phone expires cs =
    cs
    ++ (record { challenge_id = id; phone = phone; expires_at = expires; failed_attempts = 0 } ∷ [])

abbrev pub counted : Option OtpChallenge → Option OtpChallenge
counted none = none
counted (some c) = some (count_attempt c)

-- `challenge_id = $1 AND expires_at > NOW() AND failed_attempts < 5`.
abbrev pub may_verify : ℕ → ℕ → OtpChallenge → Bool
may_verify now id c = c.challenge_id == id && (ltb now c.expires_at && ltb c.failed_attempts 5)

-- The challenge returned is the row after the UPDATE.
unfoldable pub reserve_otp_verification_attempt :
    ℕ → ℕ → List OtpChallenge → List OtpChallenge × Option OtpChallenge
reserve_otp_verification_attempt now id cs =
    (update_where (may_verify now id) count_attempt cs, counted (find_first (may_verify now id) cs))

abbrev pub is_failing : ℕ → OtpChallenge → Bool
is_failing id c = c.challenge_id == id && ltb c.failed_attempts 5

unfoldable pub record_otp_failure : ℕ → List OtpChallenge → List OtpChallenge
record_otp_failure id cs = update_where (is_failing id) count_attempt cs

abbrev pub is_live : ℕ → ℕ → OtpChallenge → Bool
is_live now id c = c.challenge_id == id && ltb now c.expires_at

-- The result says whether exactly one row went.
unfoldable pub consume_otp_challenge : ℕ → ℕ → List OtpChallenge → List OtpChallenge × Bool
consume_otp_challenge now id cs = (delete_where (is_live now id) cs, count (is_live now id) cs == 1)
