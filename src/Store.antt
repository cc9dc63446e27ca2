-- ===== src/Store.antt =====
-- The package store: the in-memory quota store of store/store.go, its parts and its theorems.
pub mod Usage
pub mod Clock
pub mod Keys
pub mod State
pub mod Settlements
pub mod Replay
pub mod ReplayOrder
pub mod ReplayBound
pub mod Holds
pub mod Outcome
pub mod Cleanup
pub mod Reserve
pub mod TopUp
pub mod Settle
pub mod Report
pub mod Ledger
pub mod History
pub mod Denial
pub mod Admission
pub mod ReplayCleanup
pub mod ReplayHistory
pub mod Limits
pub mod Counters
