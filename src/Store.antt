-- ===== src/Store.antt =====
-- The PostgreSQL tables of the API as lists of rows, and the vocabulary of their columns
-- (apps/api/src/app.service.ts, service-request.repository.ts, provider-tracking.ts).
mod Status
mod Rows
mod State
pub use Status.*
pub use Rows.*
unfoldable pub use State.*
