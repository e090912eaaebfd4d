-- ===== src/Processing.antt =====
-- The processing of an ingestion run: its row of ingestion_run_processing, and the pages of raw records.
pub mod Row
pub mod Keyset
pub mod Session
pub mod Run
