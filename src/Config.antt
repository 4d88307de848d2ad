-- ===== src/Config.antt =====
-- internal/config: the schema of the configuration, its defaults and its validation.
pub mod Schema
pub mod Collection
pub mod Patterns
pub mod Checks
pub mod Strings
pub mod Credentials
pub mod Tags
pub mod Targets
pub mod Rounds
pub mod Sound
pub mod Names
pub mod TagBudget
pub mod Defaults
pub mod Unique
pub mod Examples
