-- ===== src/Otp/Examples.antt =====
-- Requests and attempts at concrete times, and the theorems on them.
use moeen.Base.{
  ◌*◌, ◌+◌, ◌==◌, ◌∷◌, ◌≡◌, ◌≤◌, List, Outcome, Text, [], arith, codes, count, find_first,
  if◌then◌else◌, length, ltb, none, ok, refl, some, true, ℕ,
}
use moeen.Otp.Challenges.{
  OtpChallenge, consume_otp_challenge, create_otp_challenge, may_verify, record_otp_failure,
  reserve_otp_verification_attempt,
}
use moeen.Otp.Requests.{is_recent, reserve_all, reserve_otp_request}
use moeen.Otp.Service.{
  Check, Customer, CustomerStore, VerifyError, find_customer_by_session, is_token, request_otp,
  verify_otp,
}
use moeen.Otp.SignIn.{HasKeys, verify_otp-signs_in}
use moeen.Otp.Tries.{Trial, consumptions, create_otp_challenge-tries, reservations}
use moeen.Otp.Window.{reserve_all-le_five}
use moeen.Tracking.Retention.{day_milliseconds}

-- Two phones: a second request within a minute is refused, the others are accepted.
abbrev asking : List (ℕ × ℕ)
asking = (1, 1000) ∷ (1, 30000) ∷ (2, 40000) ∷ (1, 70000) ∷ []

three_accepted : length (reserve_all asking [] []).1 ≡ 3
unfolding reserve_otp_request
three_accepted = refl

reserve_all-le_five_example : count (is_recent 1 80000) (reserve_all asking [] []).1 ≤ 5
reserve_all-le_five_example =
    reserve_all-le_five 0 asking 1 80000
      (omega arith, (omega arith, (omega arith, (omega arith, tt)))) (omega arith)

abbrev trying : List Trial
trying =
    Trial.guesses 100
    ∷ Trial.misses
    ∷ Trial.guesses 200
    ∷ Trial.guesses 300
    ∷ Trial.guesses 400
    ∷ Trial.guesses 500
    ∷ Trial.redeems 600
    ∷ Trial.redeems 700
    ∷ []

four_reserved :
    (reservations 4 trying (create_otp_challenge 4 1 1000 []) ≡ 4)
    × (consumptions 4 trying (create_otp_challenge 4 1 1000 []) ≡ 1)
unfolding reserve_otp_verification_attempt record_otp_failure consume_otp_challenge
four_reserved = (refl, refl)

create_otp_challenge-tries_example :
    (reservations 4 trying (create_otp_challenge 4 1 1000 []) ≤ 5)
    × (consumptions 4 trying (create_otp_challenge 4 1 1000 []) ≤ 1)
create_otp_challenge-tries_example = create_otp_challenge-tries 4 1 1000 trying [] refl

abbrev caller : Text
caller = codes "+966512345678"

abbrev empty_store : CustomerStore
empty_store = record {
  otp_attempts = [];
  challenges = [];
  customers = [];
  customer_sessions = [];
  next_customer_id = 1;
}

abbrev challenged : CustomerStore
challenged = (request_otp true 1000 4 caller empty_store).0

abbrev said : ℕ → Check
said phone = if phone == 966512345678 then Check.approved else Check.denied

abbrev welcomed : CustomerStore × Outcome VerifyError (Customer × ℕ)
welcomed = verify_otp 2000 4 77 said challenged

abbrev first_customer : Customer
first_customer = record { id = 1; phone = 966512345678 }

welcomed_ok : welcomed ≡ (welcomed.0, ok (first_customer, 77))
unfolding verify_otp request_otp
welcomed_ok = refl

challenged_once : count (λ (x : OtpChallenge). x.challenge_id == 4) challenged.challenges ≤ 1
unfolding request_otp
challenged_once = omega arith

challenged_sessions : count (is_token 77) challenged.customer_sessions ≤ 1
unfolding request_otp
challenged_sessions = omega arith

challenged_keys : HasKeys challenged
unfolding request_otp
challenged_keys = record { unique = λ id. omega arith; free = refl }

verify_otp-signs_in_example :
    ((x : OtpChallenge) × (find_first (may_verify 2000 4) challenged.challenges ≡ some x)
      × (x.phone ≡ first_customer.phone)
      × (said x.phone ≡ Check.approved))
    × (count (λ (x : OtpChallenge). x.challenge_id == 4) welcomed.0.challenges ≡ 0)
    × (find_customer_by_session 3000 77 welcomed.0
        ≡ (if ltb 3000 (2000 + 30 * day_milliseconds) then some first_customer else none))
verify_otp-signs_in_example =
    verify_otp-signs_in 2000 3000 4 77 said challenged welcomed.0 first_customer 77 challenged_once
      challenged_sessions challenged_keys welcomed_ok
