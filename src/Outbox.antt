-- ===== src/Outbox.antt =====
-- internal/application/outbox: the relay of the outbox.
pub mod Relay
pub mod Settlement
pub mod Published
pub mod Shutdown
pub mod Store
