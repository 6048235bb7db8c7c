-- ===== src/Auth/Interleaving.antt =====
-- StaffAuthService.login statement by statement: other logins run between its statements, which no
-- lock holds together. Auth.Staff.login is the run of one login alone.
use moeen.Base.{
  ◌&&◌, ◌++◌, ◌∷◌, ◌≡◌, ◌≤◌, Bool, Bool-cases, List, Option, Outcome, Text, [], count, delete_where,
  err, false, if◌then◌else◌, inl, inr, leb, none, not, ok, refl, some, suc, text_eq, true, zero, ℕ,
}
use moeen.Auth.Failures.{
  LoginFailure, LoginScope, clear_failures, insert_login_failure, is_allowed, is_failure_of,
  prune_login_failures, record_failure, record_login_failure, subject_digest,
}
use moeen.Auth.Lockout.{failure_at}
use moeen.Auth.Platform.{Platform}
use moeen.Auth.Staff.{
  LoginError, StaffPrincipal, StaffStore, StaffUser, create_staff_session, finish_login,
  invalid_credentials, login, normalize_email, password_is_valid, staff_named, to_principal,
  too_many_login_attempts, with_failures,
}
use moeen.Outbox.Worker.{get_elem?}

-- What a request brings, and the random token.
pub record LoginAttempt : Type 0 where
  pub token : Text
  pub email : Text
  pub password : Text

-- What a login does next: count the failures, look the account up, verify the password and insert
-- the session or the failure, prune the old failures, clear the failures.
pub data Stage : Type 0 where
  checks looks_up prunes : Stage
  verifies : Option StaffUser → Stage
  clears : StaffUser → Stage
  finished : Outcome LoginError (StaffPrincipal × Text) → Stage

abbrev pub digest_of : Platform → LoginAttempt → Text
digest_of platform a =
    subject_digest platform LoginScope.staff_login (normalize_email platform a.email)

-- One statement, at its time.
unfoldable pub login_statement :
    Platform → ℕ → ℕ → LoginAttempt → Stage → StaffStore → StaffStore × Stage
unfolding normalize_email is_allowed staff_named password_is_valid create_staff_session
    clear_failures
login_statement platform ttl_days now a Stage.checks s =
    if is_allowed platform LoginScope.staff_login (normalize_email platform a.email) now
      s.login_failures
    then (s, Stage.looks_up)
    else (s, Stage.finished (err too_many_login_attempts))
login_statement platform ttl_days now a Stage.looks_up s =
    (s, Stage.verifies (staff_named platform (normalize_email platform a.email) s))
login_statement platform ttl_days now a (Stage.verifies none) s = (
  with_failures (insert_login_failure LoginScope.staff_login (digest_of platform a) now) s,
  Stage.prunes,
)
login_statement platform ttl_days now a (Stage.verifies (some u)) s =
    if password_is_valid platform a.password (some u)
    then (create_staff_session platform ttl_days now u.id a.token s, Stage.clears u)
    else (
      with_failures (insert_login_failure LoginScope.staff_login (digest_of platform a) now) s,
      Stage.prunes,
    )
login_statement platform ttl_days now a Stage.prunes s =
    (with_failures (prune_login_failures now) s, Stage.finished (err invalid_credentials))
login_statement platform ttl_days now a (Stage.clears u) s = (
  with_failures (clear_failures platform LoginScope.staff_login (normalize_email platform a.email))
      s,
  Stage.finished (ok (to_principal u, a.token)),
)
login_statement platform ttl_days now a (Stage.finished outcome) s = (s, Stage.finished outcome)

abbrev pub statements :
    ℕ → Platform → ℕ → ℕ → LoginAttempt → StaffStore × Stage → StaffStore × Stage
statements zero platform ttl_days now a (s, stage) = (s, stage)
statements (suc n) platform ttl_days now a (s, stage) =
    statements n platform ttl_days now a (login_statement platform ttl_days now a stage s)

statements-finish_login :
    (platform : Platform) (ttl_days now : ℕ) (a : LoginAttempt) (found : Option StaffUser)
    (s : StaffStore)
    → let body =
        finish_login platform ttl_days now a.token
          (normalize_email platform a.email)
          a.password
          found
          s in
      statements 2 platform ttl_days now a (s, Stage.verifies found)
      ≡ (body.0, Stage.finished body.1)
unfolding finish_login login_statement record_failure record_login_failure
statements-finish_login platform ttl_days now a none s = refl
statements-finish_login platform ttl_days now a (some u) s =
    elim (Bool-cases (password_is_valid platform a.password (some u))) [
      | inl valid ↦ rw valid refl
      | inr invalid ↦ rw invalid refl
    ]

-- Four statements without another between them are a login.
login-statements :
    (platform : Platform) (ttl_days now : ℕ) (a : LoginAttempt) (s : StaffStore)
    → statements 4 platform ttl_days now a (s, Stage.checks) ≡ (
      (login platform ttl_days now a.token a.email a.password s).0,
      Stage.finished (login platform ttl_days now a.token a.email a.password s).1,
    )
unfolding login login_statement
login-statements platform ttl_days now a s =
    elim (Bool-cases (
      is_allowed platform LoginScope.staff_login (normalize_email platform a.email) now
        s.login_failures)) [
          | inl allowed ↦ rw allowed (
              statements-finish_login platform ttl_days now a
                (staff_named platform (normalize_email platform a.email) s) s)
          | inr refused ↦ rw refused refl
        ]

pub record Flight : Type 0 where
  pub attempt : LoginAttempt
  pub stage : Stage

-- The store, the logins begun so far, and a log of the failures that no later success has forgiven.
pub record Logins : Type 0 where
  pub store : StaffStore
  pub flights : List Flight
  pub log : List LoginFailure

-- A request arrives, or the login of an index goes on by one statement, at a time.
pub data LoginMove : Type 0 where
  arrives : LoginAttempt → LoginMove
  proceeds : ℕ → ℕ → LoginMove

abbrev pub set_elem : {A : Type 0} → ℕ → A → List A → List A
set_elem n y [] = []
set_elem zero y (x ∷ xs) = y ∷ xs
set_elem (suc n) y (x ∷ xs) = x ∷ set_elem n y xs

-- The log notes a password that was refused, and a success forgives.
abbrev pub note : Text → ℕ → Stage → Stage → List LoginFailure → List LoginFailure
note digest now (Stage.verifies found) Stage.prunes log =
    log ++ (failure_at LoginScope.staff_login digest now ∷ [])
note digest now (Stage.clears u) (Stage.finished (ok p)) log =
    delete_where (is_failure_of LoginScope.staff_login digest) log
note digest now stage next log = log

abbrev pub flight_move : Platform → ℕ → ℕ → ℕ → Option Flight → Logins → Logins
flight_move platform ttl_days i now none l = l
flight_move platform ttl_days i now (some f) l =
    let (s, next) = login_statement platform ttl_days now f.attempt f.stage l.store in
    record {
      store = s;
      flights = set_elem i (record f { stage = next }) l.flights;
      log = note (digest_of platform f.attempt) now f.stage next l.log;
    }

abbrev pub move : Platform → ℕ → LoginMove → Logins → Logins
move platform ttl_days (arrives a) l = record l {
  flights = record { attempt = a; stage = Stage.checks } ∷ l.flights;
}
move platform ttl_days (proceeds i now) l =
    flight_move platform ttl_days i now (get_elem? l.flights i) l

abbrev pub run_moves : Platform → ℕ → List LoginMove → Logins → Logins
run_moves platform ttl_days [] l = l
run_moves platform ttl_days (m ∷ ms) l = run_moves platform ttl_days ms (move platform ttl_days m l)

-- The logins under one subject that have not finished, and the most of them at any time.
abbrev pub is_finished : Stage → Bool
is_finished (Stage.finished outcome) = true
is_finished _ = false

abbrev pub is_open_flight : Platform → Text → Flight → Bool
is_open_flight platform hash f =
    text_eq (digest_of platform f.attempt) hash && not (is_finished f.stage)

abbrev pub larger : ℕ → ℕ → ℕ
larger m n = if leb m n then n else m

abbrev pub peak : Platform → ℕ → Text → List LoginMove → Logins → ℕ
peak platform ttl_days hash [] l = count (is_open_flight platform hash) l.flights
peak platform ttl_days hash (m ∷ ms) l =
    larger (count (is_open_flight platform hash) l.flights)
      (peak platform ttl_days hash ms (move platform ttl_days m l))

-- The times of the statements do not go back.
abbrev pub IsInOrder : ℕ → List LoginMove → Type 0
IsInOrder start [] = Unit
IsInOrder start (arrives a ∷ later) = IsInOrder start later
IsInOrder start (proceeds i now ∷ later) = (start ≤ now) × IsInOrder now later

abbrev pub end_time : ℕ → List LoginMove → ℕ
end_time start [] = start
end_time start (arrives a ∷ later) = end_time start later
end_time start (proceeds i now ∷ later) = end_time now later
