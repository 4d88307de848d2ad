-- ===== src/Domain.antt =====
-- internal/domain: the values that collectors produce and the cache publishes.
pub mod Identity
pub mod Money
pub mod Period
pub mod Month
pub mod Dimension
pub mod Cost
pub mod Records
mod Examples
