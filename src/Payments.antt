-- ===== src/Payments.antt =====
-- Cash payments of apps/api/src/service-request.repository.ts.
pub mod Collect
pub mod Inversion
pub mod Once
