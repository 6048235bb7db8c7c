-- ===== src/Otp/Window.antt =====
-- The limit on the requests for one-time passwords.
use moeen.Base.{
  ◌++◌, ◌+◌, ◌∷◌, ◌≡◌, ◌≤◌, Bool, Bool-cases, List, [], arith, count, if◌then◌else◌, inl, inr,
  length, ltb, refl, select, total-append, total-delete_where-eq, ℕ,
}
use moeen.Otp.Requests.{
  OtpAttempt, is_accepted, is_cooling, is_recent, latest, otp_window_milliseconds, reserve_all,
  reserve_otp_request,
}

-- A later window holds no more of the attempts made so far.
recent-later :
    (phone now later : ℕ) (attempts : List OtpAttempt)
    → now ≤ later
    → count (is_recent phone later) attempts ≤ count (is_recent phone now) attempts
recent-later phone now later [] e = omega arith
recent-later phone now later (a ∷ attempts) e =
    ground (arith, recent-later phone now later attempts e)

length-select :
    (p : OtpAttempt → Bool) (attempts : List OtpAttempt)
    → length (select p attempts) ≡ count p attempts
length-select p [] = refl
length-select p (a ∷ attempts) = ground (arith, length-select p attempts)

-- From `now` on, the stored attempts are those of the log that a window holds, and five at most.
abbrev IsLimited : ℕ → List OtpAttempt → List OtpAttempt → Type 0
IsLimited now attempts log =
    (phone later : ℕ)
    → now ≤ later
    → (count (is_recent phone later) log ≡ count (is_recent phone later) attempts)
      × (count (is_recent phone later) attempts ≤ 5)

abbrev next_log : ℕ → ℕ → List OtpAttempt → List OtpAttempt → List OtpAttempt
next_log phone now attempts log =
    if is_accepted (reserve_otp_request phone now attempts).1
    then log ++ (record { phone = phone; requested_at = now } ∷ [])
    else log

reserve-IsLimited :
    (phone now : ℕ) (attempts log : List OtpAttempt)
    → IsLimited now attempts log
    → IsLimited now (reserve_otp_request phone now attempts).0 (next_log phone now attempts log)
unfolding reserve_otp_request
reserve-IsLimited phone now attempts log h other later e =
    let recent = select (is_recent phone now) attempts in
    elim (Bool-cases (is_cooling now (latest recent))) [
      | inl cooling ↦ rw cooling (h other later e)
      | inr ready ↦ elim (Bool-cases (ltb (length recent) 5)) [
        | inr full ↦ rw (ready, full) (h other later e)
        | inl room ↦
            let pruned =
              total-delete_where-eq (λ a. if is_recent other later a then 1 else 0)
                (λ a. ltb (a.requested_at + otp_window_milliseconds) now)
                (attempts ++ (record { phone = phone; requested_at = now } ∷ []))
                (λ a old. ground arith) in
            let sum =
              total-append (λ a. if is_recent other later a then 1 else 0) attempts
                (record { phone = phone; requested_at = now } ∷ []) in
            let logged =
              total-append (λ a. if is_recent other later a then 1 else 0) log
                (record { phone = phone; requested_at = now } ∷ []) in
            let (same, few) = h other later e in
            let older = recent-later phone now later attempts e in
            let size = length-select (is_recent phone now) attempts in
            rw (ready, room)
              (
                ground (arith, pruned, sum, logged, same),
                ground (arith, pruned, sum, few, older, size),
              )
      ]
    ]

-- The times of the requests do not go back.
abbrev pub IsOrdered : ℕ → List (ℕ × ℕ) → Type 0
IsOrdered start [] = Unit
IsOrdered start ((phone, now) ∷ rs) = (start ≤ now) × IsOrdered now rs

abbrev pub last_time : ℕ → List (ℕ × ℕ) → ℕ
last_time start [] = start
last_time start ((phone, now) ∷ rs) = last_time now rs

reserve_all-IsLimited :
    (start : ℕ) (rs : List (ℕ × ℕ)) (attempts log : List OtpAttempt)
    → IsOrdered start rs
    → IsLimited start attempts log
    → IsLimited (last_time start rs) (reserve_all rs attempts log).0 (reserve_all rs attempts log).1
reserve_all-IsLimited start [] attempts log ordered h = h
reserve_all-IsLimited start ((phone, now) ∷ rs) attempts log ordered h =
    reserve_all-IsLimited now rs (reserve_otp_request phone now attempts).0
      (next_log phone now attempts log) ordered.1
      (reserve-IsLimited phone now attempts log
        (λ other later e. h other later (omega (arith, ordered.0, e))))

-- However many requests are made, at times that do not go back: of those accepted for one phone,
-- at most five lie within the hour before the last request, or before any later time.
pub reserve_all-le_five :
    (start : ℕ) (rs : List (ℕ × ℕ)) (phone later : ℕ)
    → IsOrdered start rs
    → last_time start rs ≤ later
    → count (is_recent phone later) (reserve_all rs [] []).1 ≤ 5
reserve_all-le_five start rs phone later ordered e =
    let (same, few) =
      reserve_all-IsLimited start rs [] [] ordered (λ other at h. (refl, omega arith)) phone later
        e in
    omega (arith, same, few)
