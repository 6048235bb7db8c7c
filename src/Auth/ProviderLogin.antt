-- ===== src/Auth/ProviderLogin.antt =====
-- apps/api/src/provider-auth.service.ts over the access codes, the sessions and the limiter.
use moeen.Base.{
  ◌>>=◌, Bool, List, Option, Outcome, Text, err, if◌then◌else◌, leb, length, none, ok, or_fail,
  some, trim, ℕ,
}
use moeen.Store.{Error, Provider}
use moeen.Auth.Failures.{LoginFailure, LoginScope, clear_failures, is_allowed, record_failure}
use moeen.Auth.Platform.{Platform}
use moeen.Auth.Providers.{
  ProviderAuth, create_provider_session, find_provider_by_access_code, find_provider_by_session,
  revoke_provider_session,
}
use moeen.Providers.Verify.{update_provider_availability}

pub data ProviderLoginError : Type 0 where
  too_many_provider_attempts invalid_provider_credentials not_signed_in : ProviderLoginError
  session_failed : Error → ProviderLoginError

abbrev pub with_provider_failures :
    (List LoginFailure → List LoginFailure) → ProviderAuth → ProviderAuth
with_provider_failures f s = record s { login_failures = f s.login_failures }

-- A session for the provider found; when that fails, its error is thrown and nothing is cleared.
unfoldable pub open_provider_session :
    Platform
    → Text
    → Text
    → Provider
    → ProviderAuth
    → Outcome Error ProviderAuth
    → ProviderAuth × Outcome ProviderLoginError (Provider × Text)
unfolding clear_failures
open_provider_session platform token code p s (err e) = (s, err (session_failed e))
open_provider_session platform token code p s (ok t) = (
  with_provider_failures (clear_failures platform LoginScope.provider_login code) t,
  ok (p, token),
)

unfoldable pub finish_provider_login :
    Platform
    → ℕ
    → Text
    → Text
    → ProviderAuth × Option Provider
    → ProviderAuth × Outcome ProviderLoginError (Provider × Text)
unfolding open_provider_session record_failure create_provider_session
finish_provider_login platform now token code (s, none) = (
  with_provider_failures (record_failure platform LoginScope.provider_login code now) s,
  err invalid_provider_credentials,
)
finish_provider_login platform now token code (s, some p) =
    open_provider_session platform token code p s
      (create_provider_session platform now p.id token s)

-- `normalizedAccessCode.length >= 16 ? … : undefined`.
unfoldable pub find_provider_for :
    Platform → List ℕ → Text → ProviderAuth → ProviderAuth × Option Provider
unfolding find_provider_by_access_code
find_provider_for platform salt code s =
    if leb 16 (length code) then find_provider_by_access_code platform salt code s else (s, none)

-- ProviderAuthService.login, run alone.
unfoldable pub provider_login :
    Platform
    → List ℕ
    → ℕ
    → Text
    → Text
    → ProviderAuth
    → ProviderAuth × Outcome ProviderLoginError (Provider × Text)
unfolding trim is_allowed find_provider_for finish_provider_login
provider_login platform salt now token access_code s =
    let code = trim access_code in
    if is_allowed platform LoginScope.provider_login code now s.login_failures
    then finish_provider_login platform now token code (find_provider_for platform salt code s)
    else (s, err too_many_provider_attempts)

unfoldable pub get_current_provider :
    Platform → ℕ → Text → ProviderAuth → Outcome ProviderLoginError Provider
unfolding find_provider_by_session
get_current_provider platform now token s =
    or_fail (find_provider_by_session platform now token s) not_signed_in

-- ProviderAuthService.logout.
unfoldable pub provider_logout :
    Platform → ℕ → Text → ProviderAuth → Outcome ProviderLoginError ProviderAuth
unfolding get_current_provider revoke_provider_session
provider_logout platform now token s = do
  provider ← get_current_provider platform now token s
  ok (revoke_provider_session platform token s)

abbrev pub session_result {ℓ} : {A : Type ℓ} → Outcome Error A → Outcome ProviderLoginError A
session_result (err e) = err (session_failed e)
session_result (ok a) = ok a

-- updateMyAvailability.
unfoldable pub update_my_availability :
    Platform → ℕ → Text → Bool → ProviderAuth → Outcome ProviderLoginError (ProviderAuth × Provider)
unfolding get_current_provider update_provider_availability
update_my_availability platform now token available s = do
  provider ← get_current_provider platform now token s
  updated ← session_result (update_provider_availability provider.id available s.db)
  ok (record s { db = updated.0 }, updated.1)
