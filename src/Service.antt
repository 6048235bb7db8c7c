-- ===== src/Service.antt =====
-- AppService of apps/api/src/app.service.ts: the checks in front of the store. A text that a column
-- keeps for comparison alone is a number there: `key` stands for it; `written` stands for a text
-- that a column keeps as it is.
pub mod Accounts
pub mod Invitations
pub mod Pilots
pub mod Offers
pub mod Unique
pub mod Verification
pub mod Views
pub mod Disclosure
pub mod Examples
