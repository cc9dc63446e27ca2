-- ===== src/Store/Outcome.antt =====
-- How an operation of store/store.go ends, and what its context says.
use llmgw.Base.{Bool, ◌||◌}
use llmgw.Store.Holds.{Dimension}

pub data StoreError : Type 0 where
  context_done reservation_not_found reservation_conflict : StoreError
  quota_exceeded : Dimension → StoreError

pub data Result (A : Type 0) : Type 0 where
  ok : A → Result A
  err : StoreError → Result A

-- Whether the context is done when an operation starts, and when it holds the lock.
pub record Context : Type 0 where
  pub done_at_start : Bool
  pub done_when_locked : Bool

abbrev pub is_done : Context → Bool
is_done ctx = ctx.done_at_start || ctx.done_when_locked
