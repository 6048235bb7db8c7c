-- ===== src/Providers.antt =====
-- Pilot providers of apps/api/src/service-request.repository.ts.
pub mod Verify
pub mod Inversion
pub mod Create
