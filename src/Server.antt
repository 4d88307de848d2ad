-- ===== src/Server.antt =====
-- internal/httpserver/server.go: the handlers of the operational endpoints, and when the server says
-- that it is ready.
pub mod Response
pub mod Routes
pub mod Ready
pub mod Accepted
pub mod Probe
mod Probes
