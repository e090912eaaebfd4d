-- ===== src/Platform.antt =====
-- internal/platform: retry delays and the worker pool.
pub mod Backoff
