-- ===== src/Devices.antt =====
-- The devices that notifications are sent to: apps/api/src/fcm-device.repository.ts.
pub mod Registry
pub mod Limits
pub mod Examples
