-- ===== src/Market.antt =====
-- Quotes and opportunities in apps/api/src/service-request.repository.ts: the staff quote, the
-- marketplace of invited providers, and the customer's decision.
pub mod Propose
pub mod Decide
pub mod Marketplace
pub mod Inversion
pub mod Winning
