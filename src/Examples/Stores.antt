-- ===== src/Examples/Stores.antt =====
-- Runs of the memory quota store of store/store.go.
use llmgw.Base.{
  true, ◌⊎◌, ℕ, ◌+◌, ◌≡◌, refl, pos, String-discrete, lookup, insert, ◌≤◌, ◌-ℤ◌, ◌+ℤ◌, ℕ_discrete,
  List, [], ◌∷◌, false, arith,
}
use llmgw.Amounts.{zero64, saturating_usage_add}
use llmgw.Store.Usage.{
  scope_key, ScopeRef, EstimatedUsage, ActualUsage, estimated_total_tokens, ScopedLimit,
  QuotaTicket,
}
use llmgw.Store.Keys.{QuotaKey, day_held, QuotaKey-discrete}
use llmgw.Store.State.{
  QuotaStore, Reservation, resolve_scope_reservations, Readings, new_memory_quota_store,
  value_or_zero,
}
use llmgw.Store.Outcome.{Context}
use llmgw.Store.History.{
  Call, reserves, commits, step, run, StaysBelow, run_exact, step-IsLedger,
  new_memory_quota_store-IsLedger,
}
use llmgw.Store.ReplayHistory.{run-settlements}
use llmgw.Store.ReplayBound.{IsReplay}
use llmgw.Store.Ledger.Growth.{AreInt64}
use llmgw.Store.Denial.{fails, step-fails}
use llmgw.Store.Cleanup.{cleanup_expired}
use llmgw.Store.Ledger.{shares, share, held_by, held_total, Fits, IsLedger}

abbrev key_scope : ScopeRef
key_scope = record { kind = scope_key; id = "k1" }

abbrev pub key_limit : ScopedLimit
key_limit = record {
  ref = key_scope;
  limits = record {
    rpm = pos 10;
    tpm = pos 1000;
    max_parallel = pos 2;
    max_spend_micros = pos 1_000_000;
    soft_spend_micros = zero64;
    daily_tokens = pos 5000;
    monthly_tokens = zero64;
    budget_duration = zero64;
    max_input_tokens = zero64;
    max_output_tokens = zero64;
    model_allowlist = [];
    provider_allowlist = [];
  };
}

abbrev pub live_context : Context
live_context = record { done_at_start = false; done_when_locked = false }

-- 2026-01-01 00:00:00, as nanoseconds since Go's zero time.
abbrev pub new_year : ℕ
new_year = 63_902_822_400_000_000_000

abbrev pub at : ℕ → Readings
at t = record { now = t; later = λ i j. t }

abbrev pub one_estimate : EstimatedUsage
one_estimate = record {
  input_tokens = pos 100;
  reserved_output_tokens = pos 50;
  estimated_spend_micros = pos 2000;
}

abbrev pub one_ticket : QuotaTicket
one_ticket = record { request_id = "r1"; scopes = key_scope ∷ [] }

abbrev one_usage : ActualUsage
one_usage = record { input_tokens = pos 100; output_tokens = pos 20; spend_micros = pos 1500 }

abbrev one_reserve : Call
one_reserve =
    reserves live_context (at new_year) "r1" (key_limit ∷ []) one_estimate (pos 60_000_000_000)

abbrev one_commit : Call
one_commit = commits live_context (at (new_year + 5_000_000_000)) one_ticket one_usage

abbrev two_reserve : Call
two_reserve =
    reserves live_context (at (new_year + 1_000_000_000)) "r2" (key_limit ∷ []) one_estimate
      (pos 60_000_000_000)

abbrev one_reservation : Reservation
one_reservation = record {
  ticket = one_ticket;
  held = one_estimate;
  scopes = resolve_scope_reservations (key_limit ∷ []) new_year;
  expires = new_year + 60_000_000_000;
}

abbrev two_reservation : Reservation
two_reservation = record {
  ticket = record { request_id = "r2"; scopes = key_scope ∷ [] };
  held = one_estimate;
  scopes = resolve_scope_reservations (key_limit ∷ []) (new_year + 1_000_000_000);
  expires = new_year + 61_000_000_000;
}

abbrev pub one_store : QuotaStore
one_store = step new_memory_quota_store one_reserve

abbrev two_store : QuotaStore
two_store = step one_store two_reserve

abbrev settled_store : QuotaStore
settled_store = step two_store one_commit

one_reservations : one_store.reservations ≡ ("r1", one_reservation) ∷ []
unfolding step String-discrete lookup new_memory_quota_store ◌-ℤ◌ ◌+ℤ◌ saturating_usage_add
    QuotaKey-discrete ℕ_discrete insert
one_reservations = refl

two_reservations : two_store.reservations ≡ ("r2", two_reservation) ∷ ("r1", one_reservation) ∷ []
unfolding step String-discrete lookup new_memory_quota_store ◌-ℤ◌ ◌+ℤ◌ saturating_usage_add
    QuotaKey-discrete ℕ_discrete insert
two_reservations = refl

settled_reservations : settled_store.reservations ≡ ("r2", two_reservation) ∷ []
unfolding step String-discrete lookup new_memory_quota_store ◌-ℤ◌ ◌+ℤ◌ saturating_usage_add
    QuotaKey-discrete ℕ_discrete insert
settled_reservations = refl

-- A test reservation holds at most one request, 2,000 micros and 150 tokens in two buckets.
one_reservation-share : (k : QuotaKey) → held_by k one_reservation ≤ 2301
unfolding held_by shares share estimated_total_tokens saturating_usage_add ◌-ℤ◌ ◌+ℤ◌
    resolve_scope_reservations
one_reservation-share k = ground arith

two_reservation-share : (k : QuotaKey) → held_by k two_reservation ≤ 2301
unfolding held_by shares share estimated_total_tokens saturating_usage_add ◌-ℤ◌ ◌+ℤ◌
    resolve_scope_reservations
two_reservation-share k = ground arith

one_store-Fits : Fits one_store
unfolding held_total
one_store-Fits k held = rw one_reservations (ground (arith, one_reservation-share k))

two_store-Fits : Fits two_store
unfolding held_total
two_store-Fits k held =
    rw two_reservations (ground (arith, one_reservation-share k, two_reservation-share k))

settled_store-Fits : Fits settled_store
unfolding held_total
settled_store-Fits k held = rw settled_reservations (ground (arith, two_reservation-share k))

abbrev three_calls : List Call
three_calls = one_reserve ∷ two_reserve ∷ one_commit ∷ []

one_estimate-AreInt64 : AreInt64 one_estimate
one_estimate-AreInt64 = ground arith

three_calls-StayBelow : StaysBelow new_memory_quota_store three_calls
three_calls-StayBelow = (
  one_estimate-AreInt64,
  one_store-Fits,
  (one_estimate-AreInt64, two_store-Fits, (tt, settled_store-Fits, tt)),
)

abbrev new_year_key : QuotaKey
new_year_key = day_held key_scope 739_616

-- What the second request still holds of the day, after the first is settled.
settled_hold :
    value_or_zero ((run new_memory_quota_store three_calls).values new_year_key) ≡ pos 150
unfolding run step String-discrete lookup new_memory_quota_store ◌-ℤ◌ ◌+ℤ◌ saturating_usage_add
    QuotaKey-discrete ℕ_discrete insert
settled_hold = refl

run_exact_example :
    value_or_zero ((run new_memory_quota_store three_calls).values new_year_key)
    ≡ pos (held_total new_year_key (run new_memory_quota_store three_calls).reservations)
run_exact_example = run_exact three_calls three_calls-StayBelow new_year_key refl

run-settlements_example : IsReplay (run new_memory_quota_store three_calls)
run-settlements_example = run-settlements three_calls

one_store-IsLedger : IsLedger one_store
one_store-IsLedger =
    step-IsLedger new_memory_quota_store one_reserve new_memory_quota_store-IsLedger
      one_estimate-AreInt64 one_store-Fits

step-IsLedger_example : IsLedger two_store
step-IsLedger_example =
    step-IsLedger one_store two_reserve one_store-IsLedger one_estimate-AreInt64 two_store-Fits

-- The key has a limit of 2 requests at a time; a third is denied.
abbrev three_reserve : Call
three_reserve =
    reserves live_context (at (new_year + 2_000_000_000)) "r3" (key_limit ∷ []) one_estimate
      (pos 60_000_000_000)

three_reserve-denied : fails two_store three_reserve ≡ true
unfolding fails step String-discrete lookup new_memory_quota_store ◌-ℤ◌ ◌+ℤ◌ saturating_usage_add
    QuotaKey-discrete ℕ_discrete insert
three_reserve-denied = refl

step-fails_example :
    (step two_store three_reserve ≡ two_store)
    ⊎ (step two_store three_reserve ≡ cleanup_expired (new_year + 2_000_000_000) two_store)
step-fails_example = step-fails two_store three_reserve three_reserve-denied
