-- ===== src/Collector.antt =====
-- internal/collector: the queries of a collection, the limits on the series that it may publish, the
-- registry of collectors and the collectors themselves.
pub mod Queries
pub mod Cardinality
pub mod Limits
pub mod Registry
pub mod Grouped
pub mod Bounded
pub mod Costs
pub mod Owned
pub mod Accounts
pub mod Simple
pub mod Tags
pub mod TagLimits
pub mod TagsOwned
pub mod Commitments
pub mod Cur
pub mod CurLimits
pub mod CurBounds
mod Examples
mod Sampled
mod Summaries
