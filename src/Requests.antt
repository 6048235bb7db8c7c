-- ===== src/Requests.antt =====
-- The life of a service request in apps/api/src/service-request.repository.ts: creation, manual
-- assignment and the status transitions.
pub mod Opportunities
pub mod Create
pub mod Assign
pub mod Transition
pub mod Inversion
pub mod Idempotence
pub mod Closing
