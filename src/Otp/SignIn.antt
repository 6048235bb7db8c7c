-- ===== src/Otp/SignIn.antt =====
-- Who is signed in by a one-time password.
use moeen.Base.{
  ◌&&◌, ◌*◌, ◌+◌, ◌==◌, ◌∙◌, ◌∷◌, ◌≡◌, ◌≤◌, ==_iff, Bool, Bool-cases, List, Option, Option-cases,
  [], ap, arith, count, delete_where, find_first, find_first-again, find_first-holds,
  find_first-new, given, if◌then◌else◌, inl, inr, ltb, none, ok, refl, some, subst, sym, true, ℕ,
}
use moeen.Json.{keys}
use moeen.Otp.Challenges.{
  OtpChallenge, consume_otp_challenge, counted, is_live, may_verify,
  reserve_otp_verification_attempt,
}
use moeen.Otp.Service.{
  Check, Customer, CustomerSession, CustomerStore, check_reserved, conclude_otp,
  create_customer_session, customer_named, find_customer_by_session, has_phone, is_token, sign_in,
  upsert_customer, upsert_with, verify_otp,
}
use moeen.Tracking.Retention.{day_milliseconds}

abbrev is_challenge : ℕ → OtpChallenge → Bool
is_challenge id c = c.challenge_id == id

counted-some :
    (found : Option OtpChallenge) (c : OtpChallenge)
    → counted found ≡ some c
    → (d : OtpChallenge) × (found ≡ some d) × (c.phone ≡ d.phone)
counted-some none c h = cc
counted-some (some d) c h = (d, refl, ground arith)

consumed-count :
    (now id : ℕ) (cs : List OtpChallenge)
    → count (is_live now id) cs + count (is_challenge id) (delete_where (is_live now id) cs)
      ≡ count (is_challenge id) cs
consumed-count now id [] = refl
consumed-count now id (c ∷ cs) = ground (arith, consumed-count now id cs)

count-consume :
    (now id : ℕ) (cs : List OtpChallenge)
    → count (is_challenge id) cs ≤ 1
    → (consume_otp_challenge now id cs).1 ≡ true
    → count (is_challenge id) (consume_otp_challenge now id cs).0 ≡ 0
unfolding consume_otp_challenge
count-consume now id cs unique h = omega (arith, consumed-count now id cs, (==_iff _ _).0 h)

count-reserve :
    (now id : ℕ) (cs : List OtpChallenge)
    → count (is_challenge id) (reserve_otp_verification_attempt now id cs).0
      ≡ count (is_challenge id) cs
unfolding reserve_otp_verification_attempt
count-reserve now id [] = refl
count-reserve now id (c ∷ cs) = ground (arith, count-reserve now id cs)

-- Rows have distinct identifiers, and the next one is free.
pub record HasKeys (s : CustomerStore) : Type 0 where
  pub unique : (id : ℕ) → count (λ (c : Customer). c.id == id) s.customers ≤ 1
  pub free : count (λ (c : Customer). c.id == s.next_customer_id) s.customers ≡ 0

upsert_with-found :
    (phone : ℕ) (found : Option Customer) (s : CustomerStore)
    → find_first (has_phone phone) s.customers ≡ found
    → HasKeys s
    → (find_first
          (λ c. c.id == (upsert_with phone found s).1.id)
          (upsert_with phone found s).0.customers
        ≡ some (upsert_with phone found s).1)
      × ((upsert_with phone found s).1.phone ≡ phone)
unfolding upsert_with
upsert_with-found phone (some c) s h k = (
  find_first-again (λ (x : Customer). x.id) (has_phone phone) s.customers c h (k.unique c.id),
  ground (arith, find_first-holds (has_phone phone) s.customers c h),
)
upsert_with-found phone none s h k = (
  find_first-new (λ (x : Customer). x.id) s.next_customer_id s.customers
      (record { id = s.next_customer_id; phone = phone }) k.free refl,
  refl,
)

find_first-no_token :
    (later token : ℕ) (xs : List CustomerSession)
    → count (is_token token) xs ≡ 0
    → find_first (λ x. is_token token x && ltb later x.expires_at) xs ≡ none
find_first-no_token later token [] h = refl
find_first-no_token later token (x ∷ xs) h = ground (arith, find_first-no_token later token xs)

create_customer_session-found :
    (now later id token : ℕ) (customers : List Customer) (xs : List CustomerSession)
    → count (is_token token) xs ≤ 1
    → customer_named customers (
        find_first
          (λ x. is_token token x && ltb later x.expires_at)
          (create_customer_session now id token xs))
      ≡ (if ltb later (now + 30 * day_milliseconds)
          then find_first (λ c. c.id == id) customers
          else none)
unfolding create_customer_session customer_named
create_customer_session-found now later id token customers [] u = ground arith
create_customer_session-found now later id token customers (x ∷ xs) u = ground (
  arith,
  create_customer_session-found now later id token customers xs,
  find_first-no_token later token xs,
)

upsert_with-kept :
    (phone : ℕ) (found : Option Customer) (s : CustomerStore)
    → ((upsert_with phone found s).0.customer_sessions ≡ s.customer_sessions)
      × ((upsert_with phone found s).0.challenges ≡ s.challenges)
unfolding upsert_with
upsert_with-kept phone none s = (refl, refl)
upsert_with-kept phone (some c) s = (refl, refl)

sign_in-found :
    (now later token phone : ℕ) (s : CustomerStore)
    → count (is_token token) s.customer_sessions ≤ 1
    → HasKeys s
    → (find_customer_by_session later token (sign_in now token phone s).0 ≡ (
        if ltb later (now + 30 * day_milliseconds)
        then some (sign_in now token phone s).1
        else none))
      × ((sign_in now token phone s).1.phone ≡ phone)
      × ((sign_in now token phone s).0.challenges ≡ s.challenges)
unfolding sign_in find_customer_by_session
sign_in-found now later token phone s held keys =
    let u = upsert_customer phone s in
    let (found, same) =
      upsert_with-found phone (find_first (has_phone phone) s.customers) s refl keys in
    let (sessions, challenges) =
      upsert_with-kept phone (find_first (has_phone phone) s.customers) s in
    let named =
      create_customer_session-found now later u.1.id token u.0.customers u.0.customer_sessions
        (rw sessions held) in
    (
      named
          ∙ ap
              (λ (f : Option Customer). if ltb later (now + 30 * day_milliseconds) then f else none)
              found,
      same,
      challenges,
    )

conclude_otp-signs_in :
    (now later id token phone : ℕ) (answer : Check) (s t : CustomerStore) (c : Customer) (given : ℕ)
    → count (is_challenge id) s.challenges ≤ 1
    → count (is_token token) s.customer_sessions ≤ 1
    → HasKeys s
    → conclude_otp now id token phone answer s ≡ (t, ok (c, given))
    → (answer ≡ Check.approved)
      × (c.phone ≡ phone)
      × (count (is_challenge id) t.challenges ≡ 0)
      × (find_customer_by_session later given t
          ≡ (if ltb later (now + 30 * day_milliseconds) then some c else none))
unfolding conclude_otp
conclude_otp-signs_in now later id token phone Check.broken s t c given one held keys h = cc
conclude_otp-signs_in now later id token phone Check.denied s t c given one held keys h = cc
conclude_otp-signs_in now later id token phone Check.approved s t c given one held keys h =
    elim (Bool-cases (consume_otp_challenge now id s.challenges).1) [
      | inr lost ↦ absurd (ground (arith, lost, h))
      | inl gone ↦
          let rest = record s { challenges = (consume_otp_challenge now id s.challenges).0 } in
          let made : (sign_in now token phone rest).0 ≡ t = ground (arith, gone, h) in
          let who : (sign_in now token phone rest).1 ≡ c = ground (arith, gone, h) in
          let same : token ≡ given = ground (arith, gone, h) in
          let (named, phoned, left) =
            sign_in-found now later token phone rest held
              (record { unique = keys.unique; free = keys.free }) in
          (
            refl,
            ap (λ (x : Customer). x.phone) (sym who) ∙ phoned,
            subst (λ (x : CustomerStore). count (is_challenge id) x.challenges ≡ 0) made
                (ap (count (is_challenge id)) left ∙ count-consume now id s.challenges one gone),
            rw (← made, ← who, ← same) named,
          )
    ]

-- A challenge signs in the customer of its phone, after the provider approved the code for that
-- phone, and is gone then; the token names the customer for 30 days. The challenge was live and had
-- fewer than five attempts behind it.
pub verify_otp-signs_in :
    (now later id token : ℕ) (check : ℕ → Check) (s t : CustomerStore) (c : Customer) (given : ℕ)
    → count (λ (x : OtpChallenge). x.challenge_id == id) s.challenges ≤ 1
    → count (is_token token) s.customer_sessions ≤ 1
    → HasKeys s
    → verify_otp now id token check s ≡ (t, ok (c, given))
    → ((x : OtpChallenge) × (find_first (may_verify now id) s.challenges ≡ some x)
        × (x.phone ≡ c.phone)
        × (check x.phone ≡ Check.approved))
      × (count (λ (x : OtpChallenge). x.challenge_id == id) t.challenges ≡ 0)
      × (find_customer_by_session later given t
          ≡ (if ltb later (now + 30 * day_milliseconds) then some c else none))
unfolding verify_otp check_reserved reserve_otp_verification_attempt
verify_otp-signs_in now later id token check s t c given one held keys h =
    elim (Option-cases (find_first (may_verify now id) s.challenges)) [
      | inl none_live ↦ absurd (ground (arith, none_live, h))
      | inr (x, live) ↦
          let reserved = record s {
            challenges = (reserve_otp_verification_attempt now id s.challenges).0;
          } in
          let step : conclude_otp now id token x.phone (check x.phone) reserved
              ≡ (t, ok (c, given)) =
            rw live at h in
          let single : count (is_challenge id) reserved.challenges ≤ 1 =
            omega (arith, count-reserve now id s.challenges, one) in
          let (answer, phone, gone, names) =
            conclude_otp-signs_in now later id token x.phone (check x.phone) reserved t c given
              single held (record { unique = keys.unique; free = keys.free }) step in
          ((x, live, sym phone, answer), gone, names)
    ]
