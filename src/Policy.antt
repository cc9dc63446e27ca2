-- ===== src/Policy.antt =====
-- The package policy: the circuit breaker, the concurrency limiter and the quota settlement.
pub mod Breaker
pub mod Limiter
pub mod Quota
pub mod Attempt
pub mod Candidate
pub mod Estimate
pub mod Request
