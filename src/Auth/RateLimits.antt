-- ===== src/Auth/RateLimits.antt =====
-- apps/api/src/public-auth-rate-limiter.service.ts over reservePublicAuthAttempt of
-- staff-auth.repository.ts. The upsert is one statement, so concurrent attempts are counted one
-- after the other.
use moeen.Base.{
  ◌&&◌, ◌*◌, ◌++◌, ◌+◌, ◌/◌, ◌==◌, ◌∷◌, Bool, List, Text, [], codes, delete_where, false,
  if◌then◌else◌, leb, ltb, suc, text_eq, true, ℕ,
}
use moeen.Auth.Platform.{Platform, hash_token}
use moeen.Auth.ProviderLogin.{}
use moeen.Tracking.Retention.{day_milliseconds}

pub data PublicAuthAttemptScope : Type 0 where
  customer_otp_request customer_otp_verification public_provider_login : PublicAuthAttemptScope

abbrev pub attempt_scope_eq : PublicAuthAttemptScope → PublicAuthAttemptScope → Bool
attempt_scope_eq PublicAuthAttemptScope.customer_otp_request
      PublicAuthAttemptScope.customer_otp_request =
    true
attempt_scope_eq PublicAuthAttemptScope.customer_otp_verification
      PublicAuthAttemptScope.customer_otp_verification =
    true
attempt_scope_eq PublicAuthAttemptScope.public_provider_login
      PublicAuthAttemptScope.public_provider_login =
    true
attempt_scope_eq _ _ = false

pub record RateLimit : Type 0 where
  pub scope : PublicAuthAttemptScope
  pub client_hash : Text
  pub window_started_at : ℕ
  pub attempt_count : ℕ

-- The primary key (scope, subject_hash).
abbrev pub is_limit_of : PublicAuthAttemptScope → Text → RateLimit → Bool
is_limit_of scope hash r = attempt_scope_eq r.scope scope && text_eq r.client_hash hash

abbrev pub next_count : ℕ → RateLimit → ℕ
next_count window r = if r.window_started_at == window then suc r.attempt_count else 1

abbrev pub count_in : ℕ → RateLimit → RateLimit
count_in window r = record r { window_started_at = window; attempt_count = next_count window r }

abbrev pub first_attempt : PublicAuthAttemptScope → Text → ℕ → RateLimit
first_attempt scope hash window = record {
  scope = scope;
  client_hash = hash;
  window_started_at = window;
  attempt_count = 1;
}

-- INSERT … ON CONFLICT (scope, subject_hash) DO UPDATE, with the count that it returns.
unfoldable pub count_attempt_of :
    PublicAuthAttemptScope → Text → ℕ → List RateLimit → List RateLimit × ℕ
count_attempt_of scope hash window [] = (first_attempt scope hash window ∷ [], 1)
count_attempt_of scope hash window (r ∷ limits) =
    let (rest, n) = count_attempt_of scope hash window limits in
    if is_limit_of scope hash r
    then (count_in window r ∷ limits, next_count window r)
    else (r ∷ rest, n)

abbrev pub is_forgotten : ℕ → RateLimit → Bool
is_forgotten now r = ltb (r.window_started_at + day_milliseconds) now

unfoldable pub reserve_public_auth_attempt :
    PublicAuthAttemptScope → Text → ℕ → ℕ → List RateLimit → List RateLimit × ℕ
unfolding count_attempt_of
reserve_public_auth_attempt scope hash window now limits =
    let (next, attempts) = count_attempt_of scope hash window limits in
    (delete_where (is_forgotten now) next, attempts)

abbrev pub window_milliseconds : ℕ
window_milliseconds = 10 * 60000

-- windowStartedAt.
abbrev pub window_started : ℕ → ℕ
window_started now = now / window_milliseconds * window_milliseconds

abbrev pub maximum_attempts : PublicAuthAttemptScope → ℕ
maximum_attempts PublicAuthAttemptScope.customer_otp_request = 10
maximum_attempts PublicAuthAttemptScope.customer_otp_verification = 20
maximum_attempts PublicAuthAttemptScope.public_provider_login = 20

abbrev pub attempt_scope_text : PublicAuthAttemptScope → Text
attempt_scope_text PublicAuthAttemptScope.customer_otp_request = codes "customer_otp_request"
attempt_scope_text PublicAuthAttemptScope.customer_otp_verification =
    codes "customer_otp_verification"
attempt_scope_text PublicAuthAttemptScope.public_provider_login = codes "provider_login"

unfoldable pub client_digest : Platform → PublicAuthAttemptScope → Text → Text
client_digest platform scope client_ip =
    hash_token platform (attempt_scope_text scope ++ 0 ∷ client_ip)

-- reserve: the attempt is counted first, and refused when it is past the maximum.
unfoldable pub reserve :
    Platform → PublicAuthAttemptScope → Text → ℕ → List RateLimit → List RateLimit × Bool
unfolding reserve_public_auth_attempt client_digest
reserve platform scope client_ip now limits =
    let (next, attempts) =
      reserve_public_auth_attempt scope (client_digest platform scope client_ip)
        (window_started now) now limits in
    (next, leb attempts (maximum_attempts scope))
