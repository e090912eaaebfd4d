-- ===== src/DeadLetters.antt =====
-- internal/application/dlq: dead-lettered messages and their replay.
pub mod Classify
pub mod Record
pub mod Replay
pub mod Once
pub mod History
