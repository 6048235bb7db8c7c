-- ===== src/Ids.antt =====
-- The public identifiers of apps/api/src: printed by the projections of service-request.repository.ts
-- and staff-auth.repository.ts, read back by their to…DatabaseId functions.
pub mod Decimal
pub mod Public
pub mod RoundTrip
pub mod Examples
