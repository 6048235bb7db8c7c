-- ===== src/Auth/Failures.antt =====
-- apps/api/src/login-attempt-limiter.service.ts over the table auth_login_failures of
-- staff-auth.repository.ts. The clocks of the process and of the database are one clock.
use moeen.Base.{
  ◌&&◌, ◌*◌, ◌++◌, ◌+◌, ◌∷◌, Bool, List, Text, [], codes, count, delete_where, false, leb, ltb,
  text_eq, true, ℕ,
}
use moeen.Auth.Platform.{Platform, hash_token}
use moeen.Tracking.Retention.{day_milliseconds}

pub data LoginScope : Type 0 where
  staff_login provider_login : LoginScope

abbrev pub scope_eq : LoginScope → LoginScope → Bool
scope_eq LoginScope.staff_login LoginScope.staff_login = true
scope_eq LoginScope.provider_login LoginScope.provider_login = true
scope_eq _ _ = false

abbrev pub scope_text : LoginScope → Text
scope_text LoginScope.staff_login = codes "staff_login"
scope_text LoginScope.provider_login = codes "provider_login"

pub record LoginFailure : Type 0 where
  pub scope : LoginScope
  pub subject_hash : Text
  pub attempted_at : ℕ

abbrev pub maximum_failures : ℕ
maximum_failures = 5

abbrev pub failure_window_milliseconds : ℕ
failure_window_milliseconds = 15 * 60000

abbrev pub is_failure_of : LoginScope → Text → LoginFailure → Bool
is_failure_of scope hash f = scope_eq f.scope scope && text_eq f.subject_hash hash

-- `attempted_at >= $3`, with `$3` the start of the window.
abbrev pub is_recent_failure : LoginScope → Text → ℕ → LoginFailure → Bool
is_recent_failure scope hash now f =
    is_failure_of scope hash f && leb now (f.attempted_at + failure_window_milliseconds)

unfoldable pub count_recent_login_failures : LoginScope → Text → ℕ → List LoginFailure → ℕ
count_recent_login_failures scope hash now failures =
    count (is_recent_failure scope hash now) failures

abbrev pub insert_login_failure : LoginScope → Text → ℕ → List LoginFailure → List LoginFailure
insert_login_failure scope hash now failures =
    failures ++ (record { scope = scope; subject_hash = hash; attempted_at = now } ∷ [])

-- The deletion of what is older than 24 hours.
abbrev pub prune_login_failures : ℕ → List LoginFailure → List LoginFailure
prune_login_failures now failures =
    delete_where (λ f. ltb (f.attempted_at + day_milliseconds) now) failures

-- The two statements of recordLoginFailure.
unfoldable pub record_login_failure : LoginScope → Text → ℕ → List LoginFailure → List LoginFailure
record_login_failure scope hash now failures =
    prune_login_failures now (insert_login_failure scope hash now failures)

unfoldable pub clear_login_failures : LoginScope → Text → List LoginFailure → List LoginFailure
clear_login_failures scope hash failures = delete_where (is_failure_of scope hash) failures

-- subjectHash: the digest of the scope, a NUL and the subject.
unfoldable pub subject_digest : Platform → LoginScope → Text → Text
subject_digest platform scope subject = hash_token platform (scope_text scope ++ 0 ∷ subject)

-- assertAllowed throws unless this holds.
unfoldable pub is_allowed : Platform → LoginScope → Text → ℕ → List LoginFailure → Bool
unfolding count_recent_login_failures subject_digest
is_allowed platform scope subject now failures =
    ltb (count_recent_login_failures scope (subject_digest platform scope subject) now failures)
      maximum_failures

unfoldable pub record_failure :
    Platform → LoginScope → Text → ℕ → List LoginFailure → List LoginFailure
unfolding record_login_failure subject_digest
record_failure platform scope subject now failures =
    record_login_failure scope (subject_digest platform scope subject) now failures

unfoldable pub clear_failures : Platform → LoginScope → Text → List LoginFailure → List LoginFailure
unfolding clear_login_failures subject_digest
clear_failures platform scope subject failures =
    clear_login_failures scope (subject_digest platform scope subject) failures
