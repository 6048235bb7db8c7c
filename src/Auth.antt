-- ===== src/Auth.antt =====
-- Who may call the API: apps/api/src/staff-auth.service.ts, provider-auth.service.ts,
-- provider-access-code.ts, login-attempt-limiter.service.ts, public-auth-rate-limiter.service.ts,
-- and the statements of staff-auth.repository.ts and service-request.repository.ts behind them.
pub mod Hex
pub mod Credentials
pub mod Verification
pub mod Platform
pub mod Failures
pub mod RateLimits
pub mod Quota
pub mod Staff
pub mod Sessions
pub mod Lockout
pub mod Interleaving
pub mod Guesses
pub mod Providers
pub mod ProviderLogin
pub mod Codes
pub mod Upgrades
pub mod Examples
pub mod CodeExamples
