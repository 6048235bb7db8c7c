-- ===== src/Auth/Staff.antt =====
-- Staff accounts and sessions: apps/api/src/staff-auth.service.ts, staff-bootstrap.service.ts and
-- the statements of staff-auth.repository.ts. The passwords that a request brings and the random
-- tokens are arguments.
use moeen.Base.{
  ◌&&◌, ◌*◌, ◌++◌, ◌+◌, ◌==◌, ◌||◌, ◌∷◌, Bool, List, Option, Outcome, Text, [], any, delete_where,
  err, false, find_first, given, if◌then◌else◌, is_empty, is_some, ltb, none, ok, or_fail, some,
  suc, text_eq, trim, true, update_first, ℕ,
}
use moeen.Auth.Credentials.{hash_password, verify_password}
use moeen.Auth.Failures.{LoginFailure, LoginScope, clear_failures, is_allowed, record_failure}
use moeen.Auth.Platform.{Platform, hash_token}
use moeen.Tracking.Retention.{day_milliseconds}

pub data StaffRole : Type 0 where
  admin dispatcher support_agent : StaffRole

pub record StaffUser : Type 0 where
  pub id : ℕ
  pub email : Text
  pub display_name : Text
  pub role : StaffRole
  pub password_hash : Text
  pub is_active : Bool

pub record StaffSession : Type 0 where
  pub token_hash : Text
  pub staff_user_id : ℕ
  pub expires_at : ℕ

pub record StaffPrincipal : Type 0 where
  pub id : ℕ
  pub email : Text
  pub display_name : Text
  pub role : StaffRole

pub record StaffStore : Type 0 where
  pub staff_users : List StaffUser
  pub staff_sessions : List StaffSession
  pub login_failures : List LoginFailure
  pub next_staff_id : ℕ

abbrev pub to_principal : StaffUser → StaffPrincipal
to_principal u = record { id = u.id; email = u.email; display_name = u.display_name; role = u.role }

-- `email.trim().toLowerCase()`.
unfoldable pub normalize_email : Platform → Text → Text
unfolding trim
normalize_email platform email = platform.to_lower_case (trim email)

abbrev pub has_email : Text → StaffUser → Bool
has_email email u = text_eq u.email email

unfoldable pub find_staff_by_email : Platform → Text → StaffStore → Option StaffUser
unfolding normalize_email
find_staff_by_email platform email s =
    find_first (has_email (normalize_email platform email)) s.staff_users

abbrev pub has_token_hash : Text → StaffSession → Bool
has_token_hash hash session = text_eq session.token_hash hash

-- INSERT … ON CONFLICT (token_hash) DO UPDATE, with the time to live in days.
unfoldable pub create_staff_session : Platform → ℕ → ℕ → ℕ → Text → StaffStore → StaffStore
create_staff_session platform ttl_days now staff_id token s =
    let hash = hash_token platform token in
    let expires = now + ttl_days * day_milliseconds in
    record s {
      staff_sessions =
          if any (has_token_hash hash) s.staff_sessions
          then update_first (has_token_hash hash)
              (λ session. record session { staff_user_id = staff_id; expires_at = expires })
              s.staff_sessions
          else s.staff_sessions
            ++ (record { token_hash = hash; staff_user_id = staff_id; expires_at = expires } ∷ []);
    }

abbrev pub is_valid_session : Text → ℕ → StaffSession → Bool
is_valid_session hash now session = has_token_hash hash session && ltb now session.expires_at

abbrev pub principal_of : Option StaffUser → Option StaffPrincipal
principal_of none = none
principal_of (some u) = some (to_principal u)

abbrev pub is_active_account : ℕ → StaffUser → Bool
is_active_account id u = u.id == id && u.is_active

-- The join with an active account.
unfoldable pub staff_of : List StaffUser → Option StaffSession → Option StaffPrincipal
staff_of users none = none
staff_of users (some session) =
    principal_of (find_first (is_active_account session.staff_user_id) users)

unfoldable pub find_staff_by_session : Platform → ℕ → Text → StaffStore → Option StaffPrincipal
unfolding staff_of
find_staff_by_session platform now token s =
    staff_of s.staff_users
      (find_first (is_valid_session (hash_token platform token) now) s.staff_sessions)

unfoldable pub revoke_staff_session : Platform → Text → StaffStore → StaffStore
revoke_staff_session platform token s = record s {
  staff_sessions = delete_where (has_token_hash (hash_token platform token)) s.staff_sessions;
}

-- sessionTtlDays on the number that the environment gives, `none` for one that is not finite and
-- positive; a fraction is cut off.
unfoldable pub session_ttl_days : Option ℕ → ℕ
session_ttl_days none = 7
session_ttl_days (some days) = if ltb days 30 then days else 30

pub data LoginError : Type 0 where
  too_many_login_attempts invalid_credentials unauthorized : LoginError

-- What `passwordIsValid` says of the account found.
unfoldable pub password_is_valid : Platform → Text → Option StaffUser → Bool
unfolding verify_password
password_is_valid platform password none = false
password_is_valid platform password (some u) =
    u.is_active && verify_password platform.scrypt password u.password_hash

abbrev pub with_failures : (List LoginFailure → List LoginFailure) → StaffStore → StaffStore
with_failures f s = record s { login_failures = f s.login_failures }

-- The account that a normalized email names; an empty one is not looked up.
unfoldable pub staff_named : Platform → Text → StaffStore → Option StaffUser
unfolding find_staff_by_email
staff_named platform email s = if is_empty email then none else find_staff_by_email platform email s

-- What follows the search: the failure is recorded, or the session is opened and the failures are
-- cleared.
unfoldable pub finish_login :
    Platform
    → ℕ
    → ℕ
    → Text
    → Text
    → Text
    → Option StaffUser
    → StaffStore
    → StaffStore × Outcome LoginError (StaffPrincipal × Text)
unfolding create_staff_session password_is_valid record_failure clear_failures
finish_login platform ttl_days now token email password none s = (
  with_failures (record_failure platform LoginScope.staff_login email now) s,
  err invalid_credentials,
)
finish_login platform ttl_days now token email password (some u) s =
    if password_is_valid platform password (some u)
    then (
      with_failures (clear_failures platform LoginScope.staff_login email)
          (create_staff_session platform ttl_days now u.id token s),
      ok (to_principal u, token),
    )
    else (
      with_failures (record_failure platform LoginScope.staff_login email now) s,
      err invalid_credentials,
    )

-- StaffAuthService.login, run alone; Auth.Interleaving has its statements one by one.
unfoldable pub login :
    Platform
    → ℕ
    → ℕ
    → Text
    → Text
    → Text
    → StaffStore
    → StaffStore × Outcome LoginError (StaffPrincipal × Text)
unfolding normalize_email staff_named finish_login is_allowed
login platform ttl_days now token email password s =
    let normalized = normalize_email platform email in
    if is_allowed platform LoginScope.staff_login normalized now s.login_failures
    then finish_login platform ttl_days now token normalized password
        (staff_named platform normalized s) s
    else (s, err too_many_login_attempts)

-- StaffAuthService.getCurrentStaff and logout.
unfoldable pub get_current_staff :
    Platform → ℕ → Text → StaffStore → Outcome LoginError StaffPrincipal
unfolding find_staff_by_session
get_current_staff platform now token s =
    or_fail (find_staff_by_session platform now token s) unauthorized

unfoldable pub logout : Platform → Text → StaffStore → StaffStore
unfolding revoke_staff_session
logout platform token s = revoke_staff_session platform token s

-- createStaff: the account of an email is replaced.
unfoldable pub create_staff : Platform → Text → Text → StaffRole → Text → StaffStore → StaffStore
unfolding normalize_email trim
create_staff platform email display_name role password_hash s =
    let normalized = normalize_email platform email in
    if any (has_email normalized) s.staff_users
    then record s {
      staff_users =
          update_first (has_email normalized)
            (λ (u : StaffUser). record u {
              display_name = trim display_name;
              role = role;
              password_hash = password_hash;
              is_active = true;
            })
            s.staff_users;
    }
    else record s {
      staff_users =
          s.staff_users
          ++ (record {
            id = s.next_staff_id;
            email = normalized;
            display_name = trim display_name;
            role = role;
            password_hash = password_hash;
            is_active = true;
          }
              ∷ []);
      next_staff_id = suc s.next_staff_id;
    }

-- bootstrapInitialAdmin: an account that is there is left alone.
unfoldable pub bootstrap_initial_admin : Platform → Text → Text → Text → StaffStore → StaffStore
unfolding find_staff_by_email create_staff
bootstrap_initial_admin platform email display_name password_hash s =
    if is_some (find_staff_by_email platform email s)
    then s
    else create_staff platform email display_name StaffRole.admin password_hash s

pub record InitialAdminConfig : Type 0 where
  pub email : Text
  pub display_name : Text
  pub password : Text

pub data InitialAdmin : Type 0 where
  absent incomplete : InitialAdmin
  configured : InitialAdminConfig → InitialAdmin

-- readInitialAdminConfig: an empty value counts as a missing one.
unfoldable pub read_initial_admin_config : Option Text → Option Text → Option Text → InitialAdmin
unfolding trim
read_initial_admin_config email display_name password =
    let e = trim (given email) in
    let n = trim (given display_name) in
    let p = given password in
    if is_empty e && (is_empty n && is_empty p)
    then InitialAdmin.absent
    else if is_empty e || (is_empty n || is_empty p)
    then InitialAdmin.incomplete
    else InitialAdmin.configured (record { email = e; display_name = n; password = p })

-- StaffBootstrapService.bootstrap; none is the error of an incomplete configuration.
unfoldable pub bootstrap : Platform → List ℕ → InitialAdmin → StaffStore → Option StaffStore
unfolding bootstrap_initial_admin hash_password
bootstrap platform salt InitialAdmin.absent s = some s
bootstrap platform salt InitialAdmin.incomplete s = none
bootstrap platform salt (InitialAdmin.configured c) s = some (
    bootstrap_initial_admin platform c.email c.display_name
      (hash_password platform.scrypt salt c.password) s)
