-- ===== src/Store/History.antt =====
-- Histories of calls on `MemoryQuotaStore` (store/store.go), one after the other under its lock.
use llmgw.Base.{ℕ, ◌≡◌, refl, ℤ, String, List, [], ◌∷◌, Bool-cases, inl, inr, true, arith, pos}
use llmgw.Store.Usage.{EstimatedUsage, ActualUsage, ScopedLimit, QuotaTicket}
use llmgw.Store.Keys.{QuotaKey}
use llmgw.Store.State.{QuotaStore, Readings, new_memory_quota_store, value_or_zero}
use llmgw.Store.Outcome.{Context, is_done}
use llmgw.Store.Reserve.{reserve}
use llmgw.Store.TopUp.{top_up}
use llmgw.Store.Settle.{commit, refund}
use llmgw.Store.Report.{get_usage}
use llmgw.Store.Ledger.{is_held, held_total, Fits, IsLedger}
use llmgw.Store.Ledger.Growth.{AreInt64}
use llmgw.Store.Ledger.Cleanup.{cleanup_expired-IsLedger}
use llmgw.Store.Ledger.Operations.{reserve-IsLedger}
use llmgw.Store.Ledger.Settling.{top_up-IsLedger, commit-IsLedger, refund-IsLedger}

pub data Call : Type 0 where
  reserves : Context → Readings → String → List ScopedLimit → EstimatedUsage → ℤ → Call
  tops_up : Context → Readings → QuotaTicket → EstimatedUsage → ℤ → Call
  commits : Context → Readings → QuotaTicket → ActualUsage → Call
  refunds : Context → Readings → QuotaTicket → Call
  reports : Context → ℕ → ScopedLimit → Call

-- The store after a call, whether it succeeds or fails.
unfoldable pub step : QuotaStore → Call → QuotaStore
unfolding reserve top_up commit refund get_usage
step s (reserves ctx r id scopes e ttl) = (reserve ctx r id scopes e ttl s).0
step s (tops_up ctx r ticket delta ttl) = (top_up ctx r ticket delta ttl s).0
step s (commits ctx r ticket a) = (commit ctx r ticket a s).0
step s (refunds ctx r ticket) = (refund ctx r ticket s).0
step s (reports ctx now scope) = (get_usage ctx now scope s).0

unfoldable pub run : QuotaStore → List Call → QuotaStore
unfolding step
run s [] = s
run s (c ∷ calls) = run (step s c) calls

-- The amounts that a caller estimates are int64 values.
abbrev pub IsTyped : Call → Type 0
IsTyped (reserves ctx r id scopes e ttl) = AreInt64 e
IsTyped (tops_up ctx r ticket delta ttl) = AreInt64 delta
IsTyped (commits ctx r ticket a) = Unit
IsTyped (refunds ctx r ticket) = Unit
IsTyped (reports ctx now scope) = Unit

-- After each call of the history, what is held of a key is below the largest int64.
abbrev pub StaysBelow : QuotaStore → List Call → Type 0
StaysBelow s [] = Unit
StaysBelow s (c ∷ calls) = IsTyped c × Fits (step s c) × StaysBelow (step s c) calls

get_usage-IsLedger :
    (ctx : Context) (now : ℕ) (scope : ScopedLimit) (s : QuotaStore)
    → IsLedger s
    → IsLedger (get_usage ctx now scope s).0
unfolding get_usage
get_usage-IsLedger ctx now scope s v = elim (Bool-cases (is_done ctx)) [
  | inl h ↦ rw (h, get_usage) v
  | inr h ↦ rw (h, get_usage) (cleanup_expired-IsLedger now s v)
]

-- Every call, whether it succeeds or fails, keeps the ledger of a store that has it, if the caller's
-- amounts are int64 values and what is held of each key stays below the largest int64: the held
-- values are exact and do not expire, and each request has at most one reservation.
pub step-IsLedger :
    (s : QuotaStore) (c : Call) → IsLedger s → IsTyped c → Fits (step s c) → IsLedger (step s c)
unfolding step
step-IsLedger s (reserves ctx r id scopes e ttl) v i fit =
    reserve-IsLedger ctx r id scopes e ttl s v i fit
step-IsLedger s (tops_up ctx r ticket delta ttl) v i fit =
    top_up-IsLedger ctx r ticket delta ttl s v i fit
step-IsLedger s (commits ctx r ticket a) v i fit = commit-IsLedger ctx r ticket a s v
step-IsLedger s (refunds ctx r ticket) v i fit = refund-IsLedger ctx r ticket s v
step-IsLedger s (reports ctx now scope) v i fit = get_usage-IsLedger ctx now scope s v

pub run-IsLedger :
    (s : QuotaStore) (calls : List Call) → IsLedger s → StaysBelow s calls → IsLedger (run s calls)
unfolding run
run-IsLedger s [] v h = v
run-IsLedger s (c ∷ calls) v h = run-IsLedger (step s c) calls (step-IsLedger s c v h.0 h.1) h.2

pub new_memory_quota_store-IsLedger : IsLedger new_memory_quota_store
unfolding new_memory_quota_store held_total
new_memory_quota_store-IsLedger = record {
  exact = λ k held. refl;
  lasting = λ k held. refl;
  unique = tt;
  sound = tt;
  fits = λ k held. omega arith;
}

-- After every history of calls on a new store, successful or not, in which what is held stays
-- below the largest int64: the running value of every active, held-spend, held-day and held-month
-- key is exactly what the live reservations hold of it.
pub run_exact :
    (calls : List Call)
    → StaysBelow new_memory_quota_store calls
    → (k : QuotaKey) → is_held k ≡ true
    → value_or_zero ((run new_memory_quota_store calls).values k)
      ≡ pos (held_total k (run new_memory_quota_store calls).reservations)
run_exact calls h k held =
    (run-IsLedger new_memory_quota_store calls new_memory_quota_store-IsLedger h).exact k held
