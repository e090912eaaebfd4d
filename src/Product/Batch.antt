-- ===== src/Product/Batch.antt =====
-- internal/domain/product/batch.go: a page of records is folded into one plan of writes.
pub mod Plan
pub mod Grouping
pub mod Versions
pub mod Fold
pub mod Added
pub mod Accounting
pub mod Partition
pub mod Running
pub mod History
pub mod Unchanged
pub mod Redelivery
pub mod Outcome
