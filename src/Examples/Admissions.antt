-- ===== src/Examples/Admissions.antt =====
-- A reservation that is admitted by a new store (store/store.go).
use llmgw.Base.{◌≡◌, refl, ◌-ℤ◌, ◌+ℤ◌, List, [], ◌∷◌, pos, All, arith}
use llmgw.Amounts.{saturating_usage_add}
use llmgw.Store.State.{
  ScopeReservation, resolve_scope_reservations, new_memory_quota_store, counter_value,
}
use llmgw.Store.Usage.{estimated_total_tokens}
use llmgw.Store.Outcome.{ok}
use llmgw.Store.Reserve.{admit}
use llmgw.Store.Admission.{IsTyped, Admits, admit-Admits}
use llmgw.Examples.Stores.{key_limit, new_year, at, one_estimate, one_ticket}

abbrev key_scopes : List ScopeReservation
key_scopes = resolve_scope_reservations (key_limit ∷ []) new_year

key_scopes-IsTyped : All (λ scope. IsTyped new_memory_quota_store scope new_year) key_scopes
unfolding new_memory_quota_store counter_value resolve_scope_reservations
key_scopes-IsTyped = (
  record {
    parallel = omega arith;
    requests = omega arith;
    tokens = omega arith;
    money = omega arith;
    daily = omega arith;
    monthly = omega arith;
    active = omega arith;
    rpm = omega arith;
    tpm = omega arith;
    spend_used = omega arith;
    spend_held = omega arith;
    day_used = omega arith;
    day_held = omega arith;
    month_used = omega arith;
    month_held = omega arith;
  },
  tt,
)

one_estimate-tokens : estimated_total_tokens one_estimate ≡ pos 150
unfolding estimated_total_tokens saturating_usage_add ◌-ℤ◌ ◌+ℤ◌
one_estimate-tokens = refl

one_admitted :
    (admit (at new_year) "r1" key_scopes one_estimate (pos 60_000_000_000) new_memory_quota_store).1
    ≡ ok one_ticket
unfolding admit resolve_scope_reservations ◌-ℤ◌ new_memory_quota_store ◌+ℤ◌ saturating_usage_add
one_admitted = refl

admit-Admits_example :
    All (λ scope. Admits new_memory_quota_store scope one_estimate new_year) key_scopes
admit-Admits_example =
    admit-Admits (at new_year) "r1" key_scopes one_estimate (pos 60_000_000_000)
      new_memory_quota_store one_ticket key_scopes-IsTyped (rw one_estimate-tokens (omega arith))
      (omega arith) one_admitted
