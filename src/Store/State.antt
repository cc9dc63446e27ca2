-- ===== src/Store/State.antt =====
-- The state of `MemoryQuotaStore` (store/store.go), and reads of it. The maps that the code walks
-- through are association lists, in the order of the walk, which Go leaves open.
use llmgw.Base.{ℕ, ℤ, String, ltb, if◌then◌else◌, Bool, Option, none, some, List, [], ◌∷◌, map}
use llmgw.Amounts.{zero64}
use llmgw.Store.Usage.{ScopeRef, LimitSpec, ScopedLimit, EstimatedUsage, QuotaTicket}
use llmgw.Store.Keys.{
  QuotaKey, QuotaKeys, QuotaExpiries, quota_keys_for_scope, quota_expiries_for_limit,
}

pub record CounterEntry : Type 0 where
  pub value : ℤ
  pub expires : ℕ

pub record ScopeReservation : Type 0 where
  pub ref : ScopeRef
  pub limit : LimitSpec
  pub keys : QuotaKeys
  pub expires : QuotaExpiries

pub record Reservation : Type 0 where
  pub ticket : QuotaTicket
  pub held : EstimatedUsage
  pub scopes : List ScopeReservation
  pub expires : ℕ

-- `element` is the entry of `settled_order` that the settlement points to.
pub record Settlement : Type 0 where
  pub expires : ℕ
  pub expired : Bool
  pub element : ℕ

-- The linked list `settled_order` holds its elements, front first: each has an identity, and
-- `next_element` is an identity that was never given out.
pub record QuotaStore : Type 0 where
  pub values : QuotaKey → Option ℤ
  pub value_expires : QuotaKey → Option ℕ
  pub counters : QuotaKey → Option CounterEntry
  pub reservations : List (String × Reservation)
  pub settlements : List (String × Settlement)
  pub settled_order : List (ℕ × String)
  pub next_element : ℕ

unfoldable pub new_memory_quota_store : QuotaStore
new_memory_quota_store = record {
  values = λ k. none;
  value_expires = λ k. none;
  counters = λ k. none;
  reservations = [];
  settlements = [];
  settled_order = [];
  next_element = 0;
}

-- The clock readings that one operation makes: `now` at its start, and `later i j` in the j-th
-- helper call for its i-th scope.
pub record Readings : Type 0 where
  pub now : ℕ
  pub later : ℕ → ℕ → ℕ

-- A read of a missing key gives the zero value.
abbrev pub value_or_zero : Option ℤ → ℤ
value_or_zero none = zero64
value_or_zero (some v) = v

-- s.values[key], where a read by the empty string finds nothing.
abbrev pub value_at : QuotaStore → Option QuotaKey → ℤ
value_at s none = zero64
value_at s (some k) = value_or_zero (s.values k)

abbrev pub live_count : Option CounterEntry → ℕ → ℤ
live_count none now = zero64
live_count (some e) now = if ltb e.expires now then zero64 else e.value

-- The zero entry of a missing key counts 0, whether or not it is taken for expired.
unfoldable pub counter_value : QuotaStore → Option QuotaKey → ℕ → ℤ
counter_value s none now = zero64
counter_value s (some k) now = live_count (s.counters k) now

unfoldable pub resolve_scope_reservation : ScopedLimit → ℕ → ScopeReservation
unfolding quota_keys_for_scope quota_expiries_for_limit
resolve_scope_reservation scope now = record {
  ref = scope.ref;
  limit = scope.limits;
  keys = quota_keys_for_scope scope.ref scope.limits now;
  expires = quota_expiries_for_limit scope.limits now;
}

unfoldable pub resolve_scope_reservations : List ScopedLimit → ℕ → List ScopeReservation
unfolding resolve_scope_reservation
resolve_scope_reservations [] now = []
resolve_scope_reservations (scope ∷ scopes) now =
    resolve_scope_reservation scope now ∷ resolve_scope_reservations scopes now

unfoldable pub scoped_refs : List ScopeReservation → List ScopeRef
scoped_refs scopes = map (λ s. s.ref) scopes
