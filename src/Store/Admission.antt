-- ===== src/Store/Admission.antt =====
-- What an admitted reservation has been checked for (store/store.go).
use llmgw.Base.{
  ℕ, zero, suc, ◌≤◌, ◌≡◌, refl, ℤ, pos, negsuc, pos_part, IsInt64, String, List, [], ◌∷◌, All, none,
  some, Option-cases, Bool, true, false, not, ◌&&◌, if◌then◌else◌, inl, inr, ltb_ℤ, arith,
}
use llmgw.Amounts.{zero64, exceeds_limit}
use llmgw.Amounts.Laws.{total, AllInt64, exceeds_limit_lem}
use llmgw.Store.Usage.{EstimatedUsage, QuotaTicket, estimated_total_tokens}
use llmgw.Store.State.{ScopeReservation, QuotaStore, Readings, value_at, counter_value}
use llmgw.Store.Outcome.{ok}
use llmgw.Store.Holds.{max_parallel, rpm, tpm, spend, daily_tokens, monthly_tokens, check_scope}
use llmgw.Store.Reserve.{check_scopes, admit}

-- A positive limit is not below the exact sum of the amounts.
abbrev pub IsWithin : ℤ → List ℤ → Type 0
IsWithin limit amounts = ltb_ℤ zero64 limit ≡ true → total amounts ≤ pos_part limit

exceeds_limit-IsWithin :
    (limit : ℤ) (amounts : List ℤ)
    → IsInt64 limit
    → AllInt64 amounts
    → exceeds_limit limit amounts ≡ false
    → IsWithin limit amounts
exceeds_limit-IsWithin (pos zero) amounts h k e p = ground arith
exceeds_limit-IsWithin (negsuc n) amounts h k e p = ground arith
exceeds_limit-IsWithin (pos (suc n)) amounts h k e p =
    ground (arith, exceeds_limit_lem (suc n) amounts (omega arith) h k)

-- The limits of a scope, and all that is counted for it, are int64 values.
pub record IsTyped (s : QuotaStore) (scope : ScopeReservation) (now : ℕ) : Type 0 where
  pub parallel : IsInt64 scope.limit.max_parallel
  pub requests : IsInt64 scope.limit.rpm
  pub tokens : IsInt64 scope.limit.tpm
  pub money : IsInt64 scope.limit.max_spend_micros
  pub daily : IsInt64 scope.limit.daily_tokens
  pub monthly : IsInt64 scope.limit.monthly_tokens
  pub active : IsInt64 (value_at s scope.keys.active_key)
  pub rpm : IsInt64 (counter_value s scope.keys.rpm_key now)
  pub tpm : IsInt64 (counter_value s scope.keys.tpm_key now)
  pub spend_used : IsInt64 (value_at s scope.keys.spend_used_key)
  pub spend_held : IsInt64 (value_at s scope.keys.spend_held_key)
  pub day_used : IsInt64 (value_at s scope.keys.day_used_key)
  pub day_held : IsInt64 (value_at s scope.keys.day_held_key)
  pub month_used : IsInt64 (value_at s scope.keys.month_used_key)
  pub month_held : IsInt64 (value_at s scope.keys.month_held_key)

-- With the new request, the scope stays within each of its six limits.
pub record Admits (s : QuotaStore) (scope : ScopeReservation) (e : EstimatedUsage) (now : ℕ)
    : Type 0 where
  pub parallel : IsWithin scope.limit.max_parallel (value_at s scope.keys.active_key ∷ pos 1 ∷ [])
  pub requests : IsWithin scope.limit.rpm (counter_value s scope.keys.rpm_key now ∷ pos 1 ∷ [])
  pub tokens :
      IsWithin scope.limit.tpm
        (counter_value s scope.keys.tpm_key now ∷ estimated_total_tokens e ∷ [])
  pub money : IsWithin scope.limit.max_spend_micros (
      value_at s scope.keys.spend_used_key
      ∷ value_at s scope.keys.spend_held_key
      ∷ e.estimated_spend_micros
      ∷ [])
  pub daily : IsWithin scope.limit.daily_tokens (
      value_at s scope.keys.day_used_key
      ∷ value_at s scope.keys.day_held_key
      ∷ estimated_total_tokens e
      ∷ [])
  pub monthly : IsWithin scope.limit.monthly_tokens (
      value_at s scope.keys.month_used_key
      ∷ value_at s scope.keys.month_held_key
      ∷ estimated_total_tokens e
      ∷ [])

-- No guard of the chain holds.
no_guard :
    (a b c d f g : Bool)
    → (if not false && a
        then some max_parallel
        else if not false && b
        then some rpm
        else if c
        then some tpm
        else if d
        then some spend
        else if f
        then some daily_tokens
        else if g
        then some monthly_tokens
        else none)
      ≡ none
    → (a ≡ false) × (b ≡ false) × (c ≡ false) × (d ≡ false) × (f ≡ false) × (g ≡ false)
no_guard true b c d f g h = ground arith
no_guard false true c d f g h = ground arith
no_guard false false true d f g h = ground arith
no_guard false false false true f g h = ground arith
no_guard false false false false true g h = ground arith
no_guard false false false false false true h = ground arith
no_guard false false false false false false h = (refl, refl, refl, refl, refl, refl)

check_scope-Admits :
    (s : QuotaStore) (scope : ScopeReservation) (e : EstimatedUsage) (now : ℕ)
    → IsTyped s scope now
    → IsInt64 (estimated_total_tokens e)
    → IsInt64 e.estimated_spend_micros
    → check_scope s scope e now false ≡ none
    → Admits s scope e now
unfolding check_scope
check_scope-Admits s scope e now t p q h =
    let used = scope.keys in
    let n = estimated_total_tokens e in
    let passed = no_guard _ _ _ _ _ _ h in
    record {
      parallel =
          exceeds_limit-IsWithin scope.limit.max_parallel (value_at s used.active_key ∷ pos 1 ∷ [])
            t.parallel (t.active, (omega arith, tt)) passed.0;
      requests =
          exceeds_limit-IsWithin scope.limit.rpm (counter_value s used.rpm_key now ∷ pos 1 ∷ [])
            t.requests (t.rpm, (omega arith, tt)) passed.1;
      tokens =
          exceeds_limit-IsWithin scope.limit.tpm (counter_value s used.tpm_key now ∷ n ∷ [])
            t.tokens (t.tpm, (p, tt)) passed.2;
      money =
          exceeds_limit-IsWithin scope.limit.max_spend_micros
            (value_at s used.spend_used_key
              ∷ value_at s used.spend_held_key
              ∷ e.estimated_spend_micros
              ∷ [])
            t.money (t.spend_used, (t.spend_held, (q, tt))) passed.3;
      daily =
          exceeds_limit-IsWithin scope.limit.daily_tokens
            (value_at s used.day_used_key ∷ value_at s used.day_held_key ∷ n ∷ []) t.daily
            (t.day_used, (t.day_held, (p, tt))) passed.4;
      monthly =
          exceeds_limit-IsWithin scope.limit.monthly_tokens
            (value_at s used.month_used_key ∷ value_at s used.month_held_key ∷ n ∷ []) t.monthly
            (t.month_used, (t.month_held, (p, tt))) passed.5;
    }

check_scopes-Admits :
    (s : QuotaStore) (scopes : List ScopeReservation) (e : EstimatedUsage) (now : ℕ)
    → All (λ scope. IsTyped s scope now) scopes
    → IsInt64 (estimated_total_tokens e)
    → IsInt64 e.estimated_spend_micros
    → check_scopes s scopes e now false ≡ none
    → All (λ scope. Admits s scope e now) scopes
unfolding check_scopes
check_scopes-Admits s [] e now t p q h = tt
check_scopes-Admits s (scope ∷ scopes) e now t p q h =
    elim (Option-cases (check_scope s scope e now false)) [
      | inl k ↦ (
        check_scope-Admits s scope e now t.0 p q k,
        check_scopes-Admits s scopes e now t.1 p q (rw (k, check_scopes) at h),
      )
      | inr (d, k) ↦ absurd (ground (arith, rw (k, check_scopes) at h))
    ]

-- A new reservation that is admitted fits every limit of every scope: for each positive limit on
-- parallel requests, requests and tokens of the minute, money, and tokens of the day and month,
-- what is already used and held together with the new request is at most the limit, by the exact
-- sum (all amounts are int64 values; negative ones count as 0).
pub admit-Admits :
    (r : Readings) (id : String) (scopes : List ScopeReservation) (e : EstimatedUsage) (ttl : ℤ)
    (s : QuotaStore) (ticket : QuotaTicket)
    → All (λ scope. IsTyped s scope r.now) scopes
    → IsInt64 (estimated_total_tokens e)
    → IsInt64 e.estimated_spend_micros
    → (admit r id scopes e ttl s).1 ≡ ok ticket
    → All (λ scope. Admits s scope e r.now) scopes
unfolding admit
admit-Admits r id scopes e ttl s ticket t p q h =
    elim (Option-cases (check_scopes s scopes e r.now false)) [
      | inl k ↦ check_scopes-Admits s scopes e r.now t p q k
      | inr (d, k) ↦ absurd (ground (arith, rw (k, admit) at h))
    ]
