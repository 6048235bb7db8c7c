-- ===== src/Settings.antt =====
-- What the API reads from its environment when it starts: fcm.config.ts, request-image.config.ts,
-- twilio-verify.config.ts, otp-provider.factory.ts, trusted-proxy.ts and the batch size of
-- provider-tracking-retention.ts, all in apps/api/src. A missing variable
-- is none.
pub mod Values
pub mod Fcm
pub mod Images
pub mod Limits
pub mod Examples
