-- ===== src/Ingestion.antt =====
-- internal/domain/ingestion and internal/application/ingestion: runs, raw records, and the pull of a source.
pub mod Checkpoint
pub mod Run
pub mod RawRecord
pub mod Service
pub mod Sync
