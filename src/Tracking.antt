-- ===== src/Tracking.antt =====
-- Live provider tracking: the sessions that follow a request's status.
pub mod Session
pub mod Arrival
pub mod Sample
pub mod Operations
pub mod Retention
pub mod Carried
pub mod Live
pub mod Inversion
pub mod Batches
pub mod Order
pub mod Evidence
pub mod Examples
