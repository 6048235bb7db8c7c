-- ===== src/Outbox.antt =====
-- The transactional notification outbox: the writer that the transactions call
-- (apps/api/src/notification-outbox.writer.ts and the two callers of it in
-- service-request.repository.ts), and the dispatch worker (apps/api/src/fcm-dispatch.worker.ts).
pub mod Writer
pub mod Worker
pub mod Process
pub mod Attempts
pub mod Dedupe
pub mod Claims
pub mod Ladder
pub mod Examples
