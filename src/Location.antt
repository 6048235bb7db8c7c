-- ===== src/Location.antt =====
-- Locations in apps/api/src: provider-tracking.config.ts, service-location.config.ts,
-- service-location.contracts.ts, provider-tracking.ts and location-privacy.ts.
pub mod Tracking
pub mod Privacy
pub mod Doubles
pub mod Service
pub mod Resolved
pub mod Samples
pub mod Examples
