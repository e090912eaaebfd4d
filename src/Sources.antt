-- ===== src/Sources.antt =====
-- internal/adapters/sources: how the pages of a source are asked for.
pub mod Pagination
