-- ===== src/Streams.antt =====
-- internal/infrastructure/redis: the envelope of a stream message, and its consumer.
pub mod Envelope
pub mod Config
pub mod Delivery
pub mod Dispatch
