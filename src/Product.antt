-- ===== src/Product.antt =====
-- internal/domain/product: products, their versions and change detection.
pub mod Metrics
pub mod Canonical
pub mod Transition
pub mod Batch
