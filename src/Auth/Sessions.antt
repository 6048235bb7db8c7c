-- ===== src/Auth/Sessions.antt =====
-- The session that a login of the staff opens.
use moeen.Base.{
  ◌*◌, ◌++◌, ◌+◌, ◌==◌, ◌∙◌, ◌∷◌, ◌≡◌, ◌≤◌, Bool, Bool-cases, List, Option, Text, [], any, arith,
  count, count-delete_where, delete_where, err, false, find_first, given, if◌then◌else◌, inl, inr,
  ltb, none, ok, or_fail, refl, some, sym, text_eq_refl, true, update_first, ℕ,
}
use moeen.Auth.Credentials.{verify_password}
use moeen.Auth.Failures.{LoginScope, is_allowed}
use moeen.Auth.Platform.{Platform, hash_token}
use moeen.Auth.Staff.{
  StaffPrincipal, StaffSession, StaffStore, StaffUser, create_staff_session, find_staff_by_email,
  find_staff_by_session, finish_login, get_current_staff, has_email, has_token_hash,
  is_active_account, is_valid_session, login, logout, normalize_email, password_is_valid,
  principal_of, revoke_staff_session, staff_named, staff_of, to_principal, unauthorized,
}
use moeen.Json.{keys}
use moeen.Tracking.Retention.{day_milliseconds}

find_first-counted :
    (p : StaffUser → Bool) (users : List StaffUser) (u : StaffUser)
    → find_first p users ≡ some u
    → 1 ≤ count (λ v. v.id == u.id) users
find_first-counted p [] u h = cc
find_first-counted p (v ∷ users) u h = elim (Bool-cases (p v)) [
  | inl here ↦ ground (arith, here)
  | inr there ↦ ground (arith, find_first-counted p users u (rw there at h))
]

-- An active account is found again under its primary key.
found-is_active_account :
    (p : StaffUser → Bool) (users : List StaffUser) (u : StaffUser)
    → find_first p users ≡ some u
    → u.is_active ≡ true
    → ((id : ℕ) → count (λ (v : StaffUser). v.id == id) users ≤ 1)
    → find_first (is_active_account u.id) users ≡ some u
found-is_active_account p [] u h active keys = cc
found-is_active_account p (v ∷ users) u h active keys = elim (Bool-cases (p v)) [
  | inl here ↦ ground (arith, here)
  | inr there ↦
      let later : find_first p users ≡ some u = rw there at h in
      let rest = found-is_active_account p users u later active (λ id. ground (arith, keys id)) in
      ground (arith, rest, keys u.id, find_first-counted p users u later)
]

find_first-gone :
    (hash : Text) (later : ℕ) (sessions : List StaffSession)
    → count (has_token_hash hash) sessions ≡ 0
    → find_first (is_valid_session hash later) sessions ≡ none
find_first-gone hash later [] h = refl
find_first-gone hash later (s ∷ sessions) h = ground (arith, find_first-gone hash later sessions)

module _ (users : List StaffUser) (hash : Text) (id expires later : ℕ) where
  -- Whom the session names: the account, until it expires.
  abbrev named : Option StaffPrincipal
  named = if ltb later expires then principal_of (find_first (is_active_account id) users) else none

  staff_of-append :
      (sessions : List StaffSession)
      → any (has_token_hash hash) sessions ≡ false
      → staff_of users (
          find_first (is_valid_session hash later) (
            sessions
            ++ (record { token_hash = hash; staff_user_id = id; expires_at = expires } ∷ [])))
        ≡ named
  unfolding staff_of
  staff_of-append [] h = ground (arith, text_eq_refl hash)
  staff_of-append (s ∷ sessions) h = ground (arith, staff_of-append sessions)

  staff_of-update_first :
      (sessions : List StaffSession)
      → any (has_token_hash hash) sessions ≡ true
      → count (has_token_hash hash) sessions ≤ 1
      → staff_of users (
          find_first (is_valid_session hash later) (
            update_first
              (has_token_hash hash)
              (λ (s : StaffSession). record s { staff_user_id = id; expires_at = expires })
              sessions))
        ≡ named
  unfolding staff_of
  staff_of-update_first [] h unique = cc
  staff_of-update_first (s ∷ sessions) h unique =
      ground (arith, staff_of-update_first sessions, find_first-gone hash later sessions)

find_staff_by_session-create :
    (platform : Platform) (ttl_days now later id : ℕ) (token : Text) (s : StaffStore)
    → count (has_token_hash (hash_token platform token)) s.staff_sessions ≤ 1
    → find_staff_by_session platform later token
        (create_staff_session platform ttl_days now id token s)
      ≡ named s.staff_users (hash_token platform token) id (now + ttl_days * day_milliseconds) later
unfolding find_staff_by_session create_staff_session
find_staff_by_session-create platform ttl_days now later id token s unique =
    let hash = hash_token platform token in
    let expires = now + ttl_days * day_milliseconds in
    elim (Bool-cases (any (has_token_hash hash) s.staff_sessions)) [
      | inl held ↦
          rw held
            (staff_of-update_first s.staff_users hash id expires later s.staff_sessions held unique)
      | inr fresh ↦
          rw fresh (staff_of-append s.staff_users hash id expires later s.staff_sessions fresh)
    ]

find_staff_by_session-revoke :
    (platform : Platform) (later : ℕ) (token : Text) (s : StaffStore)
    → find_staff_by_session platform later token (revoke_staff_session platform token s) ≡ none
unfolding find_staff_by_session revoke_staff_session staff_of
find_staff_by_session-revoke platform later token s = rw (
  find_first-gone (hash_token platform token) later
      (delete_where (has_token_hash (hash_token platform token)) s.staff_sessions)
      (count-delete_where (has_token_hash (hash_token platform token)) s.staff_sessions),
  staff_of,
)

-- A login that returned: the account it found, and the store it left.
abbrev LoggedIn : Platform → ℕ → ℕ → Text → Text → StaffStore → StaffStore → StaffUser → Type 0
LoggedIn platform ttl_days now token password s t u =
    (u.is_active ≡ true)
    × (verify_password platform.scrypt password u.password_hash ≡ true)
    × (t.staff_users ≡ s.staff_users)
    × (t.staff_sessions ≡ (create_staff_session platform ttl_days now u.id token s).staff_sessions)

finish_login-eq-ok :
    (platform : Platform) (ttl_days now : ℕ) (token email password : Text)
    (found : Option StaffUser) (s t : StaffStore) (p : StaffPrincipal) (given : Text)
    → finish_login platform ttl_days now token email password found s ≡ (t, ok (p, given))
    → (u : StaffUser) × (found ≡ some u)
      × LoggedIn platform ttl_days now token password s t u
      × (p ≡ to_principal u)
      × (given ≡ token)
unfolding finish_login password_is_valid create_staff_session
finish_login-eq-ok platform ttl_days now token email password none s t p given h = cc
finish_login-eq-ok platform ttl_days now token email password (some u) s t p given h =
    (u, refl, ground arith, ground arith, ground arith)

pub login-eq-ok :
    (platform : Platform) (ttl_days now : ℕ) (token email password : Text) (s t : StaffStore)
    (p : StaffPrincipal) (given : Text)
    → login platform ttl_days now token email password s ≡ (t, ok (p, given))
    → (u : StaffUser) × (staff_named platform (normalize_email platform email) s ≡ some u)
      × LoggedIn platform ttl_days now token password s t u
      × (p ≡ to_principal u)
      × (given ≡ token)
unfolding login
login-eq-ok platform ttl_days now token email password s t p given h =
    let normalized = normalize_email platform email in
    elim (Bool-cases (is_allowed platform LoginScope.staff_login normalized now s.login_failures)) [
      | inr refused ↦ absurd (ground (arith, h, refused))
      | inl allowed ↦
          finish_login-eq-ok platform ttl_days now token normalized password
            (staff_named platform normalized s) s t p given (rw allowed at h)
    ]

staff_named-found :
    (platform : Platform) (email : Text) (s : StaffStore) (u : StaffUser)
    → staff_named platform email s ≡ some u
    → find_first (has_email (normalize_email platform email)) s.staff_users ≡ some u
unfolding staff_named find_staff_by_email
staff_named-found platform email s u h = ground arith

find_staff_by_session-eq :
    (platform : Platform) (later : ℕ) (token : Text) (s t : StaffStore)
    → s.staff_sessions ≡ t.staff_sessions
    → s.staff_users ≡ t.staff_users
    → find_staff_by_session platform later token s ≡ find_staff_by_session platform later token t
unfolding find_staff_by_session
find_staff_by_session-eq platform later token s t p q = cc

create_staff_session-users :
    (platform : Platform) (ttl_days now id : ℕ) (token : Text) (s : StaffStore)
    → (create_staff_session platform ttl_days now id token s).staff_users ≡ s.staff_users
unfolding create_staff_session
create_staff_session-users platform ttl_days now id token s = refl

or_fail_if :
    (b : Bool) (p : StaffPrincipal)
    → or_fail (if b then some p else none) unauthorized ≡ (if b then ok p else err unauthorized)
or_fail_if true p = refl
or_fail_if false p = refl

-- After a login that runs alone the token names the account that logged in until the session
-- expires, with the details that the login returned, and once it is logged out it names nobody.
-- Accounts have distinct identifiers, and at most one session had the token before.
pub login-get_current_staff :
    (platform : Platform) (ttl_days now later : ℕ) (token email password : Text) (s t : StaffStore)
    (p : StaffPrincipal) (given : Text)
    → ((id : ℕ) → count (λ (u : StaffUser). u.id == id) s.staff_users ≤ 1)
    → count (has_token_hash (hash_token platform token)) s.staff_sessions ≤ 1
    → login platform ttl_days now token email password s ≡ (t, ok (p, given))
    → (get_current_staff platform later given t
        ≡ (if ltb later (now + ttl_days * day_milliseconds) then ok p else err unauthorized))
      × (get_current_staff platform later given (logout platform given t) ≡ err unauthorized)
unfolding get_current_staff logout
login-get_current_staff platform ttl_days now later token email password s t p given keys unique h =
    let (u, found, opened, principal, same) =
      login-eq-ok platform ttl_days now token email password s t p given h in
    let normalized = normalize_email platform email in
    let account =
      found-is_active_account (has_email (normalize_email platform normalized)) s.staff_users u
        (staff_named-found platform normalized s u found) opened.0 keys in
    let held = find_staff_by_session-create platform ttl_days now later u.id token s unique in
    let kept : find_staff_by_session platform later token t
        ≡ find_staff_by_session platform later token
            (create_staff_session platform ttl_days now u.id token s) =
      find_staff_by_session-eq platform later token t
        (create_staff_session platform ttl_days now u.id token s) opened.3
        (opened.2 ∙ sym (create_staff_session-users platform ttl_days now u.id token s)) in
    (
      rw (same, kept, held, account, principal) (or_fail_if _ (to_principal u)),
      rw (find_staff_by_session-revoke platform later given t) refl,
    )
