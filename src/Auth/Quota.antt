-- ===== src/Auth/Quota.antt =====
-- How many attempts of one client the public limiter admits in a window.
use moeen.Base.{
  ◌&&◌, ◌+◌, ◌==◌, ◌↔◌, ◌∷◌, ◌≡◌, ◌≤◌, All, Bool, Bool-cases, List, Text, [], arith, count,
  delete_where, false, if◌then◌else◌, inl, inr, leb, refl, subst, suc, text_eq, text_eq_iff,
  text_eq_refl, total-delete_where-le, true, ℕ,
}
use moeen.Auth.Platform.{Platform}
use moeen.Auth.RateLimits.{
  PublicAuthAttemptScope, RateLimit, attempt_scope_eq, client_digest, count_attempt_of,
  is_forgotten, is_limit_of, maximum_attempts, reserve, reserve_public_auth_attempt, window_started,
}
use moeen.Tracking.Retention.{day_milliseconds}

pub record PublicAttempt : Type 0 where
  pub scope : PublicAuthAttemptScope
  pub client_ip : Text
  pub now : ℕ

-- The attempts that fall to one row: the scope is the same, and so is the digest of the address.
abbrev pub counts_for : Platform → PublicAuthAttemptScope → Text → PublicAttempt → Bool
counts_for platform scope hash a =
    attempt_scope_eq a.scope scope && text_eq (client_digest platform a.scope a.client_ip) hash

-- The attempts one after the other: how many of those for one row were admitted.
abbrev pub admitted :
    Platform → PublicAuthAttemptScope → Text → List PublicAttempt → List RateLimit → ℕ
admitted platform scope hash [] limits = 0
admitted platform scope hash (a ∷ later) limits =
    let (next, allowed) = reserve platform a.scope a.client_ip a.now limits in
    (if counts_for platform scope hash a && allowed then 1 else 0)
    + admitted platform scope hash later next

abbrev pub smaller : ℕ → ℕ → ℕ
smaller a b = if leb a b then a else b

-- The attempts of a window that the rows have counted.
abbrev pub used : PublicAuthAttemptScope → Text → ℕ → List RateLimit → ℕ
used scope hash window [] = 0
used scope hash window (r ∷ limits) =
    let rest = used scope hash window limits in
    if is_limit_of scope hash r && r.window_started_at == window then r.attempt_count else rest

attempt_scope_eq_iff : (a b : PublicAuthAttemptScope) → (attempt_scope_eq a b ≡ true) ↔ (a ≡ b)
attempt_scope_eq_iff PublicAuthAttemptScope.customer_otp_request b = elim b [
  | PublicAuthAttemptScope.customer_otp_request ↦ ground arith
  | PublicAuthAttemptScope.customer_otp_verification ↦ ground arith
  | PublicAuthAttemptScope.public_provider_login ↦ ground arith
]
attempt_scope_eq_iff PublicAuthAttemptScope.customer_otp_verification b = elim b [
  | PublicAuthAttemptScope.customer_otp_request ↦ ground arith
  | PublicAuthAttemptScope.customer_otp_verification ↦ ground arith
  | PublicAuthAttemptScope.public_provider_login ↦ ground arith
]
attempt_scope_eq_iff PublicAuthAttemptScope.public_provider_login b = elim b [
  | PublicAuthAttemptScope.customer_otp_request ↦ ground arith
  | PublicAuthAttemptScope.customer_otp_verification ↦ ground arith
  | PublicAuthAttemptScope.public_provider_login ↦ ground arith
]

-- A row of one key is of no other.
is_limit_of-same :
    (scope other : PublicAuthAttemptScope) (hash digest : Text) (r : RateLimit)
    → is_limit_of scope hash r ≡ true
    → is_limit_of other digest r ≡ true
    → (attempt_scope_eq other scope && text_eq digest hash) ≡ true
is_limit_of-same scope other hash digest r h k = ground (
  arith,
  attempt_scope_eq_iff r.scope scope,
  attempt_scope_eq_iff r.scope other,
  attempt_scope_eq_iff other scope,
  text_eq_iff r.client_hash hash,
  text_eq_iff r.client_hash digest,
  text_eq_iff digest hash,
)

used-zero :
    (scope : PublicAuthAttemptScope) (hash : Text) (window : ℕ) (limits : List RateLimit)
    → count (is_limit_of scope hash) limits ≡ 0
    → used scope hash window limits ≡ 0
used-zero scope hash window [] h = refl
used-zero scope hash window (r ∷ limits) h = ground (arith, used-zero scope hash window limits)

module _ (scope : PublicAuthAttemptScope) (hash : Text) (window : ℕ) where
  used-count_attempt :
      (limits : List RateLimit)
      → count (is_limit_of scope hash) limits ≤ 1
      → (used scope hash window (count_attempt_of scope hash window limits).0
          ≡ suc (used scope hash window limits))
        × ((count_attempt_of scope hash window limits).1 ≡ suc (used scope hash window limits))
        × (count (is_limit_of scope hash) (count_attempt_of scope hash window limits).0 ≤ 1)
  unfolding count_attempt_of
  used-count_attempt [] h = ground (arith, attempt_scope_eq_iff scope scope, text_eq_refl hash)
  used-count_attempt (r ∷ limits) h =
      ground (arith, used-count_attempt limits, used-zero scope hash window limits)

  used-count_attempt_other :
      (other : PublicAuthAttemptScope) (digest : Text) (started : ℕ) (limits : List RateLimit)
      → (attempt_scope_eq other scope && text_eq digest hash) ≡ false
      → (used scope hash window (count_attempt_of other digest started limits).0
          ≡ used scope hash window limits)
        × (count (is_limit_of scope hash) (count_attempt_of other digest started limits).0
            ≡ count (is_limit_of scope hash) limits)
  unfolding count_attempt_of
  used-count_attempt_other other digest started [] d = ground arith
  used-count_attempt_other other digest started (r ∷ limits) d = ground (
    arith,
    used-count_attempt_other other digest started limits,
    is_limit_of-same scope other hash digest r,
  )

  -- The rows of a window that is a day old or less are kept.
  used-forget :
      (now : ℕ) (limits : List RateLimit)
      → now ≤ window + day_milliseconds
      → used scope hash window (delete_where (is_forgotten now) limits)
        ≡ used scope hash window limits
  used-forget now [] h = refl
  used-forget now (r ∷ limits) h = ground (arith, used-forget now limits)

window_started-near : (now : ℕ) → now ≤ window_started now + day_milliseconds
window_started-near now = omega arith

-- One attempt under the key of a row, and one under another key.
reserve-mine :
    (scope other : PublicAuthAttemptScope) (hash digest : Text) (window started now : ℕ)
    (limits : List RateLimit)
    → other ≡ scope
    → digest ≡ hash
    → started ≡ window
    → now ≤ started + day_milliseconds
    → count (is_limit_of scope hash) limits ≤ 1
    → (used scope hash window (reserve_public_auth_attempt other digest started now limits).0
        ≡ used scope hash window limits + 1)
      × (count
            (is_limit_of scope hash)
            (reserve_public_auth_attempt other digest started now limits).0
          ≤ 1)
      × ((reserve_public_auth_attempt other digest started now limits).1
          ≡ suc (used scope hash window limits))
unfolding reserve_public_auth_attempt
reserve-mine scope other hash digest window started now limits p q e near unique =
    let next = (count_attempt_of other digest started limits).0 in
    let same : count_attempt_of other digest started limits
        ≡ count_attempt_of scope hash window limits =
      cc in
    let step = used-count_attempt scope hash window limits unique in
    let kept = used-forget scope hash window now next (omega arith) in
    let fewer =
      total-delete_where-le (λ r. if is_limit_of scope hash r then 1 else 0) (is_forgotten now)
        next in
    let first : used scope hash window next ≡ suc (used scope hash window limits) =
      rw same step.0 in
    let ones : count (is_limit_of scope hash) next ≤ 1 = rw same step.2 in
    (omega (arith, kept, first), omega (arith, fewer, ones), rw same step.1)

reserve-others :
    (scope other : PublicAuthAttemptScope) (hash digest : Text) (window started now : ℕ)
    (limits : List RateLimit)
    → (attempt_scope_eq other scope && text_eq digest hash) ≡ false
    → now ≤ window + day_milliseconds
    → count (is_limit_of scope hash) limits ≤ 1
    → (used scope hash window (reserve_public_auth_attempt other digest started now limits).0
        ≡ used scope hash window limits)
      × (count
            (is_limit_of scope hash)
            (reserve_public_auth_attempt other digest started now limits).0
          ≤ 1)
unfolding reserve_public_auth_attempt
reserve-others scope other hash digest window started now limits d near unique =
    let next = (count_attempt_of other digest started limits).0 in
    let step = used-count_attempt_other scope hash window other digest started limits d in
    let kept = used-forget scope hash window now next near in
    let fewer =
      total-delete_where-le (λ r. if is_limit_of scope hash r then 1 else 0) (is_forgotten now)
        next in
    (omega (arith, kept, step.0), omega (arith, fewer, step.1, unique))

smaller-suc :
    (used later maximum rest : ℕ)
    → rest + smaller (used + 1) maximum ≡ smaller (used + 1 + later) maximum
    → (if leb (suc used) maximum then 1 else 0) + rest + smaller used maximum
      ≡ smaller (used + (1 + later)) maximum
smaller-suc used later maximum rest h = ground arith

-- In a window the first attempts of a client are admitted, up to the maximum of the scope, and no
-- others, whatever other clients do in between.
pub admitted-smaller :
    (platform : Platform) (scope : PublicAuthAttemptScope) (hash : Text) (window : ℕ)
    (attempts : List PublicAttempt) (limits : List RateLimit)
    → All (λ a. window_started a.now ≡ window) attempts
    → count (is_limit_of scope hash) limits ≤ 1
    → admitted platform scope hash attempts limits
        + smaller (used scope hash window limits) (maximum_attempts scope)
      ≡ smaller
          (used scope hash window limits + count (counts_for platform scope hash) attempts)
          (maximum_attempts scope)
unfolding reserve
admitted-smaller platform scope hash window [] limits h unique = ground arith
admitted-smaller platform scope hash window (a ∷ attempts) limits h unique =
    let digest = client_digest platform a.scope a.client_ip in
    let started = window_started a.now in
    let next = (reserve_public_auth_attempt a.scope digest started a.now limits).0 in
    let near : a.now ≤ window + day_milliseconds =
      subst (λ (w : ℕ). a.now ≤ w + day_milliseconds) h.0 (window_started-near a.now) in
    elim (Bool-cases (counts_for platform scope hash a)) [
      | inl mine ↦
          let p : a.scope ≡ scope = ground (arith, attempt_scope_eq_iff a.scope scope) in
          let q : digest ≡ hash = ground (arith, text_eq_iff digest hash) in
          let step =
            reserve-mine scope a.scope hash digest window started a.now limits p q h.0
              (window_started-near a.now) unique in
          let rest = admitted-smaller platform scope hash window attempts next h.1 step.1 in
          ground (arith, step.0, step.2, rest, p)
      | inr other ↦
          let step =
            reserve-others scope a.scope hash digest window started a.now limits other near
              unique in
          let rest = admitted-smaller platform scope hash window attempts next h.1 step.1 in
          ground (arith, step.0, rest)
    ]
