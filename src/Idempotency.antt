-- ===== src/Idempotency.antt =====
-- internal/application/idempotency and internal/infrastructure/postgres/idempotency_repository.go.
pub mod Store
pub mod Table
pub mod Fencing
pub mod Leases
pub mod Guard
pub mod Completion
pub mod Protection
pub mod Retry
