-- ===== src/Worker.antt =====
-- internal/platform/worker/pool.go: the worker pool.
pub mod Pool
pub mod Soundness
pub mod Shutdown
