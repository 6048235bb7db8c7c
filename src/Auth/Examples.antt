-- ===== src/Auth/Examples.antt =====
-- A small platform, accounts and codes on it, and the theorems on them.
use moeen.Base.{
  ◌%◌, ◌*◌, ◌++◌, ◌+◌, ◌==◌, ◌↔◌, ◌∷◌, ◌≡◌, ◌≤◌, All, List, Outcome, Text, [], arith, count, err,
  false, if◌then◌else◌, length, ltb, ok, refl, suc, text_eq, trim, true, zero, ℕ,
}
use moeen.Auth.Credentials.{
  IsDerivation, IsDigest, hash_password, verify_password, verify_provider_access_code,
}
use moeen.Auth.Failures.{
  clear_login_failures, count_recent_login_failures, record_login_failure, subject_digest,
}
use moeen.Auth.Hex.{IsByte, from_hex, split_on, to_hex}
use moeen.Auth.Interleaving.{LoginAttempt, LoginMove, Logins, login_statement, run_moves}
use moeen.Auth.Platform.{Platform}
use moeen.Auth.Quota.{PublicAttempt, admitted, admitted-smaller, counts_for, smaller, used}
use moeen.Auth.RateLimits.{
  PublicAuthAttemptScope, client_digest, count_attempt_of, maximum_attempts, reserve,
}
use moeen.Auth.Sessions.{login-get_current_staff}
use moeen.Auth.Staff.{
  LoginError, StaffPrincipal, StaffRole, StaffStore, StaffUser, get_current_staff, login, logout,
  unauthorized,
}
use moeen.Auth.Verification.{IsSalt, verify_password-hash_password}
use moeen.Tracking.Retention.{day_milliseconds}

abbrev zeros : ℕ → List ℕ
zeros zero = []
zeros (suc n) = 0 ∷ zeros n

zeros-IsByte : (n : ℕ) → All IsByte (zeros n)
zeros-IsByte zero = tt
zeros-IsByte (suc n) = (omega arith, zeros-IsByte n)

-- A number for a text.
abbrev mixed : Text → ℕ
mixed [] = 7
mixed (c ∷ cs) = (mixed cs * 31 + c) % 256

abbrev pub small_scrypt : Text → Text → List ℕ
small_scrypt password salt = (mixed (password ++ salt) % 256) ∷ zeros 63

abbrev pub small_sha256 : Text → List ℕ
small_sha256 text = (mixed text % 256) ∷ zeros 31

abbrev pub small : Platform
small = record { scrypt = small_scrypt; sha256 = small_sha256; to_lower_case = λ text. text }

pub small_scrypt-IsDerivation : IsDerivation small_scrypt
small_scrypt-IsDerivation = record {
  bytes = λ password salt. (omega arith, zeros-IsByte 63);
  size = λ password salt. refl;
}

small_sha256-IsDigest : IsDigest small_sha256
small_sha256-IsDigest = record {
  bytes = λ text. (omega arith, zeros-IsByte 31);
  size = λ text. refl;
}

abbrev pub salt_bytes : List ℕ
salt_bytes = 1 ∷ 2 ∷ 200 ∷ []

pub salt_bytes-IsSalt : IsSalt salt_bytes
salt_bytes-IsSalt = omega arith

abbrev pub secret : Text
secret = 115 ∷ 51 ∷ 36 ∷ []

abbrev pub guess : Text
guess = 115 ∷ 52 ∷ []

verify_password-hash_password_example :
    ((verify_password small_scrypt guess (hash_password small_scrypt salt_bytes secret) ≡ true)
      ↔ (small_scrypt secret (to_hex salt_bytes) ≡ small_scrypt guess (to_hex salt_bytes)))
    × (verify_provider_access_code small_scrypt small_sha256 guess
          (hash_password small_scrypt salt_bytes secret)
        ≡ verify_password small_scrypt guess (hash_password small_scrypt salt_bytes secret))
verify_password-hash_password_example =
    verify_password-hash_password small_scrypt small_sha256 salt_bytes secret guess
      small_scrypt-IsDerivation salt_bytes-IsSalt

guess_refused :
    verify_password small_scrypt guess (hash_password small_scrypt salt_bytes secret) ≡ false
unfolding verify_password hash_password to_hex from_hex text_eq split_on
guess_refused = refl

abbrev address : Text
address = 97 ∷ 64 ∷ 98 ∷ []

abbrev office : StaffStore
office = record {
  staff_users =
      record {
        id = 3;
        email = address;
        display_name = 65 ∷ [];
        role = StaffRole.dispatcher;
        password_hash = hash_password small_scrypt salt_bytes secret;
        is_active = true;
      }
      ∷ [];
  staff_sessions = [];
  login_failures = [];
  next_staff_id = 4;
}

abbrev badge : Text
badge = 116 ∷ 49 ∷ []

abbrev signed_in : StaffStore × Outcome LoginError (StaffPrincipal × Text)
signed_in = login small 7 1000 badge (32 ∷ address) secret office

abbrev clerk : StaffPrincipal
clerk = record { id = 3; email = address; display_name = 65 ∷ []; role = StaffRole.dispatcher }

office_keys : (id : ℕ) → count (λ (u : StaffUser). u.id == id) office.staff_users ≤ 1
office_keys id = ground arith

signed_in_ok : signed_in ≡ (signed_in.0, ok (clerk, badge))
unfolding login trim verify_password hash_password to_hex from_hex text_eq split_on
    record_login_failure clear_login_failures count_recent_login_failures subject_digest
signed_in_ok = refl

login-get_current_staff_example :
    (get_current_staff small 2000 badge signed_in.0
      ≡ (if ltb 2000 (1000 + 7 * day_milliseconds) then ok clerk else err unauthorized))
    × (get_current_staff small 2000 badge (logout small badge signed_in.0) ≡ err unauthorized)
login-get_current_staff_example =
    login-get_current_staff small 7 1000 2000 badge (32 ∷ address) secret office signed_in.0 clerk
      badge office_keys (omega arith) signed_in_ok

abbrev wrong : LoginAttempt
wrong = record { token = badge; email = address; password = guess }

-- Each login of the list goes on by one statement.
abbrev all_proceed : List ℕ → ℕ → List LoginMove → List LoginMove
all_proceed [] now ms = ms
all_proceed (i ∷ is) now ms = LoginMove.proceeds i now ∷ all_proceed is now ms

abbrev all_arrive : List ℕ → List LoginMove → List LoginMove
all_arrive [] ms = ms
all_arrive (i ∷ is) ms = LoginMove.arrives wrong ∷ all_arrive is ms

abbrev six : List ℕ
six = 0 ∷ 1 ∷ 2 ∷ 3 ∷ 4 ∷ 5 ∷ []

-- Six guesses at once: all are counted before one of them is recorded.
abbrev at_once : List LoginMove
at_once =
    all_arrive six
      (all_proceed six 1000 (all_proceed six 2000 (all_proceed six 3000 (all_proceed six 4000 []))))

abbrev nobody : Logins
nobody = record { store = office; flights = []; log = [] }

six_logged : length (run_moves small 7 at_once nobody).log ≡ 6
unfolding login_statement trim verify_password hash_password to_hex from_hex text_eq split_on
    clear_login_failures count_recent_login_failures subject_digest
six_logged = refl

-- Seven guesses one after the other: the last two are not admitted.
abbrev guess_again : ℕ → List LoginMove → List LoginMove
guess_again now ms = LoginMove.arrives wrong ∷ all_proceed (0 ∷ 0 ∷ 0 ∷ 0 ∷ []) now ms

abbrev in_turn : List LoginMove
in_turn = guess_again 1000 (
    guess_again 2000 (
      guess_again 3000
        (guess_again 4000 (guess_again 5000 (guess_again 6000 (guess_again 7000 []))))))

five_logged : length (run_moves small 7 in_turn nobody).log ≡ 5
unfolding login_statement trim verify_password hash_password to_hex from_hex text_eq split_on
    clear_login_failures count_recent_login_failures subject_digest
five_logged = refl

abbrev asks : ℕ → Text → PublicAttempt
asks now ip = record {
  scope = PublicAuthAttemptScope.customer_otp_request;
  client_ip = ip;
  now = now;
}

abbrev asking_twice : List PublicAttempt
asking_twice = asks 600001 address ∷ asks 600002 secret ∷ asks 600003 address ∷ []

abbrev digest_of_address : Text
digest_of_address = client_digest small PublicAuthAttemptScope.customer_otp_request address

admitted-smaller_example :
    admitted small PublicAuthAttemptScope.customer_otp_request digest_of_address asking_twice []
      + smaller
          (used PublicAuthAttemptScope.customer_otp_request digest_of_address 600000 [])
          (maximum_attempts PublicAuthAttemptScope.customer_otp_request)
    ≡ smaller
        (used PublicAuthAttemptScope.customer_otp_request digest_of_address 600000 []
          + count
              (counts_for small PublicAuthAttemptScope.customer_otp_request digest_of_address)
              asking_twice)
        (maximum_attempts PublicAuthAttemptScope.customer_otp_request)
admitted-smaller_example =
    admitted-smaller small PublicAuthAttemptScope.customer_otp_request digest_of_address 600000
      asking_twice [] (refl, (refl, (refl, tt))) (omega arith)

two_admitted :
    admitted small PublicAuthAttemptScope.customer_otp_request digest_of_address asking_twice [] ≡ 2
unfolding reserve count_attempt_of client_digest to_hex text_eq
two_admitted = refl
