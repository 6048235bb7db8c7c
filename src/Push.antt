-- ===== src/Push.antt =====
-- Push notifications: apps/api/src/notification-templates.ts and fcm.sender.ts.
pub mod Payload
pub mod Message
pub mod Contract
pub mod Sender
pub mod Revocation
pub mod Examples
