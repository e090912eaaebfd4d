-- ===== src/Regulatory.antt =====
-- internal/domain/regulatory and internal/application/regulatory: versioned datasets, coverage, and
-- the resolution of tariffs.
pub mod Dataset
pub mod Coverage
pub mod Tariff
pub mod Service
