-- ===== src/Otp/Requests.antt =====
-- reserveOtpRequest. A phone is a number, since the code only compares it; an advisory lock on the
-- phone serializes its requests.
use moeen.Base.{
  ◌&&◌, ◌*◌, ◌++◌, ◌+◌, ◌==◌, ◌∷◌, Bool, List, Option, [], delete_where, false, if◌then◌else◌,
  length, ltb, none, not, select, some, true, ℕ,
}

pub record OtpAttempt : Type 0 where
  pub phone : ℕ
  pub requested_at : ℕ

pub data Reservation : Type 0 where
  accepted cooldown limit : Reservation

abbrev pub otp_window_milliseconds : ℕ
otp_window_milliseconds = 60 * 60000

-- `phone = $1 AND requested_at > $2`, with the start of the window one hour ago.
abbrev pub is_recent : ℕ → ℕ → OtpAttempt → Bool
is_recent phone now a = a.phone == phone && ltb now (a.requested_at + otp_window_milliseconds)

-- `rows[0]` of the selection ORDER BY requested_at DESC.
abbrev pub latest : List OtpAttempt → Option ℕ
latest [] = none
latest (a ∷ attempts) = elim (latest attempts) [
  | none ↦ some a.requested_at
  | some t ↦ some (if ltb t a.requested_at then a.requested_at else t)
]

-- Less than a minute since the previous request.
abbrev pub is_cooling : ℕ → Option ℕ → Bool
is_cooling now none = false
is_cooling now (some previous) = ltb now (previous + 60000)

unfoldable pub reserve_otp_request : ℕ → ℕ → List OtpAttempt → List OtpAttempt × Reservation
reserve_otp_request phone now attempts =
    let recent = select (is_recent phone now) attempts in
    if is_cooling now (latest recent)
    then (attempts, Reservation.cooldown)
    else if not (ltb (length recent) 5)
    then (attempts, Reservation.limit)
    else (
      delete_where (λ a. ltb (a.requested_at + otp_window_milliseconds) now)
          (attempts ++ (record { phone = phone; requested_at = now } ∷ [])),
      Reservation.accepted,
    )

abbrev pub is_accepted : Reservation → Bool
is_accepted Reservation.accepted = true
is_accepted _ = false

-- Requests one after the other, and the log of those that were accepted.
abbrev pub reserve_all :
    List (ℕ × ℕ) → List OtpAttempt → List OtpAttempt → List OtpAttempt × List OtpAttempt
reserve_all [] attempts log = (attempts, log)
reserve_all ((phone, now) ∷ rs) attempts log =
    let (next, result) = reserve_otp_request phone now attempts in
    reserve_all rs next (
      if is_accepted result
      then log ++ (record { phone = phone; requested_at = now } ∷ [])
      else log)
