-- ===== src/Support.antt =====
-- Support tickets in apps/api/src/service-request.repository.ts.
pub mod Tickets
pub mod Handling
pub mod Examples
