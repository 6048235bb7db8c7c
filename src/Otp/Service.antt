-- ===== src/Otp/Service.antt =====
-- apps/api/src/customer-auth.service.ts over the repository, which has all the methods that the
-- service asks for, so its maps in memory stay unused. Each operation is run alone. The text-message
-- provider is an argument.
use moeen.Base.{
  ◌&&◌, ◌*◌, ◌++◌, ◌+◌, ◌==◌, ◌∷◌, Bool, List, Option, Outcome, Text, [], all, codes, delete_where,
  err, false, find_first, if◌then◌else◌, leb, length, ltb, none, ok, some, suc, ℕ,
}
use moeen.Ids.Decimal.{is_digit, read_digits}
use moeen.Ids.Public.{after_prefix}
use moeen.Otp.Challenges.{
  OtpChallenge, consume_otp_challenge, create_otp_challenge, reserve_otp_verification_attempt,
}
use moeen.Otp.Requests.{OtpAttempt, Reservation, reserve_otp_request}
use moeen.Tracking.Retention.{day_milliseconds}

pub record Customer : Type 0 where
  pub id : ℕ
  pub phone : ℕ

pub record CustomerSession : Type 0 where
  pub token_hash : ℕ
  pub customer_id : ℕ
  pub expires_at : ℕ

pub record CustomerStore : Type 0 where
  pub otp_attempts : List OtpAttempt
  pub challenges : List OtpChallenge
  pub customers : List Customer
  pub customer_sessions : List CustomerSession
  pub next_customer_id : ℕ

pub data VerifyError : Type 0 where
  invalid_mobile_number otp_cooldown otp_limit provider_failed : VerifyError
  attempts_exceeded invalid_challenge invalid_otp : VerifyError

-- What the provider says of a code: approved, anything else, or an exception.
pub data Check : Type 0 where
  approved denied broken : Check

-- `\+9665\d{8}`, the whole text.
abbrev pub is_local_number : Option Text → Bool
is_local_number none = false
is_local_number (some cs) = length cs == 8 && all is_digit cs

unfoldable pub is_saudi_mobile : Text → Bool
unfolding after_prefix
is_saudi_mobile phone = is_local_number (after_prefix (codes "+9665") phone)

-- A phone of that form as a number.
abbrev pub phone_key : Text → ℕ
phone_key [] = 0
phone_key (c ∷ cs) = read_digits 0 cs

abbrev pub after_reservation :
    Bool
    → ℕ
    → ℕ
    → ℕ
    → List OtpAttempt × Reservation
    → CustomerStore
    → CustomerStore × Outcome VerifyError ℕ
after_reservation started now id phone (attempts, Reservation.cooldown) s =
    (record s { otp_attempts = attempts }, err otp_cooldown)
after_reservation started now id phone (attempts, Reservation.limit) s =
    (record s { otp_attempts = attempts }, err otp_limit)
after_reservation started now id phone (attempts, Reservation.accepted) s =
    if started
    then (
      record s {
        otp_attempts = attempts;
        challenges = create_otp_challenge id phone (now + 10 * 60000) s.challenges;
      },
      ok id,
    )
    else (record s { otp_attempts = attempts }, err provider_failed)

-- requestOtp: `started` says whether the provider sent the message, `id` is the random identifier.
unfoldable pub request_otp :
    Bool → ℕ → ℕ → Text → CustomerStore → CustomerStore × Outcome VerifyError ℕ
unfolding is_saudi_mobile reserve_otp_request read_digits
request_otp started now id phone s =
    if is_saudi_mobile phone
    then after_reservation started now id (phone_key phone)
        (reserve_otp_request (phone_key phone) now s.otp_attempts) s
    else (s, err invalid_mobile_number)

abbrev pub has_phone : ℕ → Customer → Bool
has_phone phone c = c.phone == phone

unfoldable pub upsert_with : ℕ → Option Customer → CustomerStore → CustomerStore × Customer
upsert_with phone (some c) s = (s, c)
upsert_with phone none s =
    let new : Customer = record { id = s.next_customer_id; phone = phone } in
    (
      record s { customers = s.customers ++ (new ∷ []); next_customer_id = suc s.next_customer_id },
      new,
    )

-- upsertCustomer.
unfoldable pub upsert_customer : ℕ → CustomerStore → CustomerStore × Customer
unfolding upsert_with
upsert_customer phone s = upsert_with phone (find_first (has_phone phone) s.customers) s

abbrev pub is_token : ℕ → CustomerSession → Bool
is_token token x = x.token_hash == token

-- createCustomerSession, for 30 days.
unfoldable pub create_customer_session : ℕ → ℕ → ℕ → List CustomerSession → List CustomerSession
create_customer_session now id token [] =
    record { token_hash = token; customer_id = id; expires_at = now + 30 * day_milliseconds } ∷ []
create_customer_session now id token (x ∷ xs) =
    let rest = create_customer_session now id token xs in
    if is_token token x
    then (record x { customer_id = id; expires_at = now + 30 * day_milliseconds }) ∷ xs
    else x ∷ rest

unfoldable pub customer_named : List Customer → Option CustomerSession → Option Customer
customer_named customers none = none
customer_named customers (some x) = find_first (λ c. c.id == x.customer_id) customers

-- findCustomerBySession and revokeCustomerSession.
unfoldable pub find_customer_by_session : ℕ → ℕ → CustomerStore → Option Customer
unfolding customer_named
find_customer_by_session now token s =
    customer_named s.customers
      (find_first (λ x. is_token token x && ltb now x.expires_at) s.customer_sessions)

unfoldable pub revoke_customer_session : ℕ → CustomerStore → CustomerStore
revoke_customer_session token s = record s {
  customer_sessions = delete_where (is_token token) s.customer_sessions;
}

unfoldable pub find_otp_challenge : ℕ → List OtpChallenge → Option OtpChallenge
find_otp_challenge id cs = find_first (λ c. c.challenge_id == id) cs

-- The error for a challenge that could not be reserved.
abbrev pub unreserved_error : ℕ → Option OtpChallenge → VerifyError
unreserved_error now none = invalid_challenge
unreserved_error now (some c) =
    if leb now c.expires_at && leb 5 c.failed_attempts then attempts_exceeded else invalid_challenge

-- The customer of the phone, and the session.
unfoldable pub sign_in : ℕ → ℕ → ℕ → CustomerStore → CustomerStore × Customer
unfolding upsert_customer create_customer_session
sign_in now token phone s =
    let (t, c) = upsert_customer phone s in
    (record t { customer_sessions = create_customer_session now c.id token t.customer_sessions }, c)

-- After the provider's answer: the challenge is consumed, and the customer signed in.
unfoldable pub conclude_otp :
    ℕ → ℕ → ℕ → ℕ → Check → CustomerStore → CustomerStore × Outcome VerifyError (Customer × ℕ)
unfolding consume_otp_challenge sign_in
conclude_otp now id token phone broken s = (s, err provider_failed)
conclude_otp now id token phone denied s = (s, err invalid_otp)
conclude_otp now id token phone approved s =
    let (cs, gone) = consume_otp_challenge now id s.challenges in
    let t = record s { challenges = cs } in
    if gone
    then (let (u, c) = sign_in now token phone t in (u, ok (c, token)))
    else (t, err invalid_challenge)

unfoldable pub check_reserved :
    ℕ
    → ℕ
    → ℕ
    → (ℕ → Check)
    → Option OtpChallenge
    → CustomerStore
    → CustomerStore × Outcome VerifyError (Customer × ℕ)
unfolding conclude_otp find_otp_challenge
check_reserved now id token check none s =
    (s, err (unreserved_error now (find_otp_challenge id s.challenges)))
check_reserved now id token check (some c) s = conclude_otp now id token c.phone (check c.phone) s

-- verifyOtp: `check` answers for the code that was typed, given the phone.
unfoldable pub verify_otp :
    ℕ → ℕ → ℕ → (ℕ → Check) → CustomerStore → CustomerStore × Outcome VerifyError (Customer × ℕ)
unfolding reserve_otp_verification_attempt check_reserved
verify_otp now id token check s =
    let (cs, reserved) = reserve_otp_verification_attempt now id s.challenges in
    check_reserved now id token check reserved (record s { challenges = cs })
