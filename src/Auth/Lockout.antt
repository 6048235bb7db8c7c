-- ===== src/Auth/Lockout.antt =====
-- How the statements on auth_login_failures change the number of failures that a window counts.
use moeen.Base.{
  ◌&&◌, ◌+◌, ◌↔◌, ◌∷◌, ◌≡◌, ◌≤◌, Bool-cases, List, Text, [], arith, count, delete_where,
  if◌then◌else◌, inl, inr, ltb, text_eq, text_eq_iff, total-append, total-delete_where-eq, true, ℕ,
}
use moeen.Auth.Failures.{
  LoginFailure, LoginScope, insert_login_failure, is_failure_of, is_recent_failure,
  prune_login_failures, scope_eq,
}
use moeen.Tracking.Retention.{day_milliseconds}

scope_eq_iff : (a b : LoginScope) → (scope_eq a b ≡ true) ↔ (a ≡ b)
scope_eq_iff LoginScope.staff_login b = elim b [
  | LoginScope.staff_login ↦ ground arith
  | LoginScope.provider_login ↦ ground arith
]
scope_eq_iff LoginScope.provider_login b = elim b [
  | LoginScope.staff_login ↦ ground arith
  | LoginScope.provider_login ↦ ground arith
]

abbrev pub failure_at : LoginScope → Text → ℕ → LoginFailure
failure_at scope hash now = record { scope = scope; subject_hash = hash; attempted_at = now }

module _ (scope : LoginScope) (hash : Text) (later : ℕ) where
  -- A later window holds no more of the failures made so far.
  pub recent_failure-later :
      (now : ℕ) (failures : List LoginFailure)
      → now ≤ later
      → count (is_recent_failure scope hash later) failures
        ≤ count (is_recent_failure scope hash now) failures
  recent_failure-later now [] e = omega arith
  recent_failure-later now (f ∷ failures) e = ground (arith, recent_failure-later now failures e)

  -- A failure of one subject is of no other.
  is_failure_of-same :
      (other : LoginScope) (digest : Text) (f : LoginFailure)
      → is_failure_of other digest f ≡ true
      → is_recent_failure scope hash later f ≡ true
      → (scope_eq other scope && text_eq digest hash) ≡ true
  is_failure_of-same other digest f h k = ground (
    arith,
    scope_eq_iff f.scope scope,
    scope_eq_iff f.scope other,
    scope_eq_iff other scope,
    text_eq_iff f.subject_hash hash,
    text_eq_iff f.subject_hash digest,
    text_eq_iff digest hash,
  )

  is_failure_of-differs :
      (other : LoginScope) (digest : Text) (f : LoginFailure)
      → (scope_eq other scope && text_eq digest hash) ≡ true
      → is_recent_failure scope hash later f ≡ true
      → is_failure_of other digest f ≡ true
  is_failure_of-differs other digest f h k = ground (
    arith,
    scope_eq_iff f.scope scope,
    scope_eq_iff f.scope other,
    scope_eq_iff other scope,
    text_eq_iff f.subject_hash hash,
    text_eq_iff f.subject_hash digest,
    text_eq_iff digest hash,
  )

  pub count-clear :
      (other : LoginScope) (digest : Text) (failures : List LoginFailure)
      → count
          (is_recent_failure scope hash later)
          (delete_where (is_failure_of other digest) failures)
        ≡ (if scope_eq other scope && text_eq digest hash
            then 0
            else count (is_recent_failure scope hash later) failures)
  count-clear other digest [] = ground arith
  count-clear other digest (f ∷ failures) =
      elim (Bool-cases (is_recent_failure scope hash later f)) [
        | inl recent ↦ ground (
          arith,
          recent,
          count-clear other digest failures,
          is_failure_of-same other digest f,
          is_failure_of-differs other digest f,
        )
        | inr old ↦ ground (arith, old, count-clear other digest failures)
      ]

pub count-insert :
    (scope other : LoginScope) (hash digest : Text) (now later : ℕ) (failures : List LoginFailure)
    → count (is_recent_failure scope hash later) (insert_login_failure other digest now failures)
      ≡ count (is_recent_failure scope hash later) failures
        + (if is_recent_failure scope hash later (failure_at other digest now) then 1 else 0)
count-insert scope other hash digest now later failures =
    let weight : LoginFailure → ℕ = λ f. if is_recent_failure scope hash later f then 1 else 0 in
    omega (arith, total-append weight failures (failure_at other digest now ∷ []))

pub count-prune :
    (scope : LoginScope) (hash : Text) (now later : ℕ) (failures : List LoginFailure)
    → now ≤ later
    → count (is_recent_failure scope hash later) (prune_login_failures now failures)
      ≡ count (is_recent_failure scope hash later) failures
count-prune scope hash now later failures e =
    total-delete_where-eq (λ f. if is_recent_failure scope hash later f then 1 else 0)
      (λ f. ltb (f.attempted_at + day_milliseconds) now) failures (λ f old. ground (arith, e))
