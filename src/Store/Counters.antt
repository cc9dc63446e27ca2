-- ===== src/Store/Counters.antt =====
-- The store of counters in memory (store/store.go, MemoryCounterStore). Add holds the lock, so it is one
-- step; its context is read at the start and under the lock.
pub mod Windows
use llmgw.Base.{
  ℕ, suc, ◌%◌, ◌==◌, ℤ, pos, String, String-discrete, List, [], ◌∷◌, Option, none, some, Bool, not,
  ◌&&◌, ltb, lookup, insert, if◌then◌else◌,
}
use llmgw.Amounts.{zero64, saturating_add_nonnegative}
use llmgw.Store.Clock.{add_time, is_zero_time}
use llmgw.Store.State.{CounterEntry}
use llmgw.Store.Outcome.{Context, is_done, Result, ok, err, context_done}

pub record CounterStore : Type 0 where
  pub entries : List (String × CounterEntry)
  pub operations : ℕ

-- `NewMemoryCounterStore`.
abbrev pub new_counter_store : CounterStore
new_counter_store = record { entries = []; operations = 0 }

abbrev pub memory_counter_prune_every : ℕ
memory_counter_prune_every = 256

abbrev pub is_expired : ℕ → CounterEntry → Bool
is_expired now e = not (is_zero_time e.expires) && not (ltb now e.expires)

-- `pruneExpired`.
unfoldable pub prune_counters : ℕ → List (String × CounterEntry) → List (String × CounterEntry)
prune_counters now [] = []
prune_counters now ((key, e) ∷ entries) =
    let rest = prune_counters now entries in if is_expired now e then rest else (key, e) ∷ rest

abbrev pub pruned_entries : ℕ → CounterStore → List (String × CounterEntry)
pruned_entries now s =
    if suc s.operations % memory_counter_prune_every == 0
    then prune_counters now s.entries
    else s.entries

-- The value that an entry counts with; a missing one is the zero entry.
abbrev pub value_now : Option CounterEntry → ℕ → ℤ
value_now none now = zero64
value_now (some e) now = if ltb e.expires now then zero64 else e.value

-- `Add`, when the context is not done.
unfoldable pub add_live : String → ℤ → ℤ → ℕ → CounterStore → CounterStore × ℤ
unfolding prune_counters saturating_add_nonnegative
add_live key delta ttl now s =
    let entries = pruned_entries now s in
    let value =
      saturating_add_nonnegative (value_now (lookup String-discrete key entries) now) delta in
    (
      record {
        entries =
            insert String-discrete key (record { value = value; expires = add_time now ttl })
              entries;
        operations = suc s.operations;
      },
      value,
    )

unfoldable pub add : Context → String → ℤ → ℤ → ℕ → CounterStore → CounterStore × Result ℤ
unfolding add_live
add ctx key delta ttl now s =
    if is_done ctx
    then (s, err context_done)
    else (let added = add_live key delta ttl now s in (added.0, ok added.1))
