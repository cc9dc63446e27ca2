-- ===== src/Gateway.antt =====
-- The package gateway: its records and the routing of a request.
pub mod Route
pub mod Usage
pub mod Router
pub mod Errors
pub mod Dispatch
pub mod Prefetch
