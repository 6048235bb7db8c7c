-- ===== src/Auth/Guesses.antt =====
-- The lockout over all interleavings of logins of the staff.
use moeen.Base.{
  ◌&&◌, ◌+◌, ◌≡◌, ◌≤◌, Bool, List, Text, count, false, if◌then◌else◌, text_eq, total, true, ℕ,
}
use moeen.Auth.Failures.{LoginFailure, LoginScope, is_recent_failure}
use moeen.Auth.Interleaving.{Flight, Logins, Stage, digest_of}
use moeen.Auth.Platform.{Platform}
use moeen.Auth.Quota.{admitted}
use moeen.Service.Accounts.{stored}

-- A login that was admitted and has not been judged.
abbrev is_admitted : Stage → Bool
is_admitted Stage.looks_up = true
is_admitted (Stage.verifies found) = true
is_admitted _ = false

module _ (platform : Platform) (hash : Text) where
  abbrev weigh : Text → Stage → ℕ
  weigh digest stage = if text_eq digest hash && is_admitted stage then 1 else 0

  abbrev weight : Flight → ℕ
  weight f = weigh (digest_of platform f.attempt) f.stage

module _ (hash : Text) (bound : ℕ) where
  -- From `now` on, the table counts what the log counts, and with the logins admitted it stays
  -- within the bound.
  abbrev IsGuarded : ℕ → List LoginFailure → List LoginFailure → ℕ → Type 0
  IsGuarded now stored log admitted =
      (later : ℕ)
      → now ≤ later
      → (count (is_recent_failure LoginScope.staff_login hash later) log
          ≡ count (is_recent_failure LoginScope.staff_login hash later) stored)
        × (count (is_recent_failure LoginScope.staff_login hash later) stored + admitted
            ≤ 4 + bound)

module _ (platform : Platform) (ttl_days : ℕ) (hash : Text) where
  module _ (bound : ℕ) where
    abbrev Guards : ℕ → Logins → Type 0
    Guards now l =
        IsGuarded hash bound now l.store.login_failures l.log
          (total (weight platform hash) l.flights)
