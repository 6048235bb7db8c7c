-- ===== src/Otp.antt =====
-- One-time passwords in apps/api/src/service-request.repository.ts and customer-auth.service.ts: how
-- many may be asked for, how often one may be tried, and the sign-in.
pub mod Requests
pub mod Challenges
pub mod Window
pub mod Tries
pub mod Service
pub mod SignIn
pub mod Examples
