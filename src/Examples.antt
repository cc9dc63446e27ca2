-- ===== src/Examples.antt =====
-- The theorems at concrete inputs, and runs of the definitions.
mod Stores
mod Admissions
mod Breakers
mod Numbers
mod Usages
mod Quotas
mod Endings
mod Limiters
mod Routers
mod Attempts
mod Gateways
mod Requests
mod Limits
mod Counters
