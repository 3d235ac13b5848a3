-- ===== src/Platform.antt =====
-- backend/src/yitu/platform: errors, the idempotency arbiter and the outbox.
pub mod Errors
pub mod Json
pub mod Outbox
pub mod Relay
pub mod Audit
pub mod Idempotency
pub mod Consumer
