-- ===== src/Scheduler.antt =====
-- internal/scheduler/runner.go: the jobs of a runner, the attempts of one refresh, and the two
-- goroutines of a job, which start its refreshes.
pub mod Jobs
pub mod Accepted
pub mod Collect
pub mod Attempts
pub mod Flight
pub mod SingleFlight
pub mod Promise
pub mod Shutdown
mod Examples
mod Flights
