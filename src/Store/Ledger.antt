-- ===== src/Store/Ledger.antt =====
-- What the live reservations of store/store.go hold of each key, counted from the reservations
-- themselves. The children prove that the store's running values agree with this count.
pub mod Amounts
pub mod Holds
pub mod Frames
pub mod Totals
pub mod Release
pub mod Cleanup
pub mod Growth
pub mod Operations
pub mod Settling
use llmgw.Base.{
  ℕ, ◌+◌, ◌≤◌, ◌<◌, ◌≡◌, ℤ, pos, pos_part, max_int64, String, String-discrete, Bool, true, false,
  Option, none, some, List, [], ◌∷◌, All, ite, lookup,
}
use llmgw.Store.Usage.{EstimatedUsage, estimated_total_tokens}
use llmgw.Store.Keys.{
  QuotaKey, active, rpm, tpm, spend_used, spend_held, day_used, day_held, month_used, month_held,
  QuotaKey-discrete,
}
use llmgw.Store.State.{ScopeReservation, Reservation, QuotaStore, value_or_zero}

-- The keys whose value is what reservations hold.
abbrev pub is_held : QuotaKey → Bool
is_held (active _) = true
is_held (rpm _ _) = false
is_held (tpm _ _) = false
is_held (spend_used _ _) = false
is_held (spend_held _ _) = true
is_held (day_used _ _) = false
is_held (day_held _ _) = true
is_held (month_used _ _) = false
is_held (month_held _ _) = true

-- An amount, if it is booked on the key `k`.
abbrev pub when : Option QuotaKey → QuotaKey → ℕ → ℕ
when none k n = 0
when (some j) k n = ite (QuotaKey-discrete k j) n 0

-- What one scope books on `k`: requests, money and tokens.
unfoldable pub share : QuotaKey → ScopeReservation → ℕ → ℕ → ℕ → ℕ
share k scope requests spend tokens =
    when scope.keys.active_key k requests
    + when scope.keys.spend_held_key k spend
    + when scope.keys.day_held_key k tokens
    + when scope.keys.month_held_key k tokens

unfoldable pub shares : QuotaKey → List ScopeReservation → ℕ → ℕ → ℕ → ℕ
shares k [] requests spend tokens = 0
shares k (scope ∷ scopes) requests spend tokens =
    share k scope requests spend tokens + shares k scopes requests spend tokens

abbrev pub spend_of : EstimatedUsage → ℕ
spend_of held = pos_part held.estimated_spend_micros

abbrev pub tokens_of : EstimatedUsage → ℕ
tokens_of held = pos_part (estimated_total_tokens held)

unfoldable pub held_by : QuotaKey → Reservation → ℕ
held_by k res = shares k res.scopes 1 (spend_of res.held) (tokens_of res.held)

unfoldable pub held_total : QuotaKey → List (String × Reservation) → ℕ
held_total k [] = 0
held_total k ((id, res) ∷ reservations) = held_by k res + held_total k reservations

abbrev pub IsAmount : ℤ → Type 0
IsAmount z = (z ≡ pos (pos_part z)) × (pos_part z ≤ max_int64)

abbrev pub IsUsedKey : Option QuotaKey → Type 0
IsUsedKey none = Unit
IsUsedKey (some j) = is_held j ≡ false

-- The keys of money and tokens spent are no held keys.
abbrev pub IsKeyed : ScopeReservation → Type 0
IsKeyed scope =
    IsUsedKey scope.keys.spend_used_key
    × IsUsedKey scope.keys.day_used_key
    × IsUsedKey scope.keys.month_used_key

pub record IsReservation (res : Reservation) : Type 0 where
  pub keyed : All IsKeyed res.scopes
  pub input : IsAmount res.held.input_tokens
  pub output : IsAmount res.held.reserved_output_tokens
  pub spend : IsAmount res.held.estimated_spend_micros

-- No request has two reservations.
abbrev pub Unique : List (String × Reservation) → Type 0
Unique [] = Unit
Unique ((id, res) ∷ reservations) =
    (lookup String-discrete id reservations ≡ none) × Unique reservations

abbrev pub Holds : QuotaStore → QuotaKey → ℕ → Type 0
Holds s k n = value_or_zero (s.values k) ≡ pos n

-- What is held of a key stays below the largest int64, so that no sum is cut off.
abbrev pub Fits : QuotaStore → Type 0
Fits s = (k : QuotaKey) → is_held k ≡ true → held_total k s.reservations < max_int64

-- The value of every held key is the exact sum over the live reservations, and does not expire.
pub record IsLedger (s : QuotaStore) : Type 0 where
  pub exact : (k : QuotaKey) → is_held k ≡ true → Holds s k (held_total k s.reservations)
  pub lasting : (k : QuotaKey) → is_held k ≡ true → s.value_expires k ≡ none
  pub unique : Unique s.reservations
  pub sound : All (λ p. IsReservation p.1) s.reservations
  pub fits : Fits s
