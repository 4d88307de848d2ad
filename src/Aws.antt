-- ===== src/Aws.antt =====
-- internal/aws: the adapters of the AWS APIs. The SDK is not part of the repository: what it answers
-- is an argument.
pub mod Pagination
pub mod Pages
pub mod Mapping
pub mod Mapped
pub mod Totals
pub mod Usage
pub mod Known
pub mod Organizations
pub mod Accounts
pub mod Failures
pub mod Retries
mod Examples
mod Sampled
