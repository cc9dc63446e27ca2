-- ===== src/Store/Ledger/Frames.antt =====
-- What the updates of store/store.go leave alone: amounts never touch reservations or settlements,
-- a held value never gets an expiry, and a charge changes no held value.
use llmgw.Base.{
  ℕ, suc, ◌≡◌, refl, ◌∙◌, ℤ, pos, true, false, Option, none, some, List, [], ◌∷◌, arith, All, Bool,
}
use llmgw.Store.Usage.{EstimatedUsage, ActualUsage, estimated_total_tokens, actual_total_tokens}
use llmgw.Store.Clock.{time_until_next_minute}
use llmgw.Store.Keys.{QuotaKey}
use llmgw.Store.State.{ScopeReservation, QuotaStore}
use llmgw.Store.Holds.{
  add_value, decr_value, add_counter, reconcile_counter, apply_scope_hold, release_scope,
  release_scopes,
}
use llmgw.Store.Reserve.{apply_holds}
use llmgw.Store.Settle.{charge_scope, charge_scopes}
use llmgw.Store.Ledger.{is_held, IsUsedKey, IsKeyed}
use llmgw.Store.Ledger.Amounts.{add_value-IsUsedKey}

pub record IsFrame (f : QuotaStore → QuotaStore) : Type 0 where
  pub reservations : (s : QuotaStore) → (f s).reservations ≡ s.reservations
  pub settlements : (s : QuotaStore) → (f s).settlements ≡ s.settlements
  pub order : (s : QuotaStore) → (f s).settled_order ≡ s.settled_order
  pub next : (s : QuotaStore) → (f s).next_element ≡ s.next_element
  pub lasting :
      (k : QuotaKey) (s : QuotaStore)
      → is_held k ≡ true
      → s.value_expires k ≡ none
      → (f s).value_expires k ≡ none

pub IsFrame-compose :
    {f g : QuotaStore → QuotaStore} → IsFrame f → IsFrame g → IsFrame (λ s. g (f s))
IsFrame-compose {f} {g} hf hg = record {
  reservations = λ s. hg.reservations (f s) ∙ hf.reservations s;
  settlements = λ s. hg.settlements (f s) ∙ hf.settlements s;
  order = λ s. hg.order (f s) ∙ hf.order s;
  next = λ s. hg.next (f s) ∙ hf.next s;
  lasting = λ k s held e. hg.lasting k (f s) held (hf.lasting k s held e);
}

IsFrame-none : IsFrame (λ s. s)
IsFrame-none = record {
  reservations = λ s. refl;
  settlements = λ s. refl;
  order = λ s. refl;
  next = λ s. refl;
  lasting = λ k s held e. e;
}

add_value-IsFrame : (key : Option QuotaKey) (d : ℤ) (at : ℕ) → IsFrame (add_value key d 0 at)
unfolding add_value
add_value-IsFrame none d at = IsFrame-none
add_value-IsFrame (some j) d at = record {
  reservations = λ s. ground arith;
  settlements = λ s. ground arith;
  order = λ s. ground arith;
  next = λ s. ground arith;
  lasting = λ k s held e. ground arith;
}

used_value-IsFrame :
    (key : Option QuotaKey) (d : ℤ) (expires at : ℕ)
    → IsUsedKey key
    → IsFrame (add_value key d expires at)
unfolding add_value
used_value-IsFrame none d expires at u = IsFrame-none
used_value-IsFrame (some j) d expires at u = record {
  reservations = λ s. ground arith;
  settlements = λ s. ground arith;
  order = λ s. ground arith;
  next = λ s. ground arith;
  lasting = λ k s held e. (add_value-IsUsedKey (some j) k d expires at s held u).1 ∙ e;
}

decr_value-IsFrame : (key : Option QuotaKey) (d : ℤ) → IsFrame (decr_value key d)
unfolding decr_value
decr_value-IsFrame none d = IsFrame-none
decr_value-IsFrame (some j) d = record {
  reservations = λ s. ground arith;
  settlements = λ s. ground arith;
  order = λ s. ground arith;
  next = λ s. ground arith;
  lasting = λ k s held e. ground arith;
}

add_counter-IsFrame :
    (key : Option QuotaKey) (d : ℤ) (ttl at : ℕ) → IsFrame (add_counter key d ttl at)
unfolding add_counter
add_counter-IsFrame none d ttl at = IsFrame-none
add_counter-IsFrame (some j) d ttl at = record {
  reservations = λ s. ground arith;
  settlements = λ s. ground arith;
  order = λ s. ground arith;
  next = λ s. ground arith;
  lasting = λ k s held e. ground arith;
}

reconcile_counter-IsFrame :
    (key : Option QuotaKey) (held actual : ℤ) (now : ℕ)
    → IsFrame (reconcile_counter key held actual now)
unfolding reconcile_counter
reconcile_counter-IsFrame none held actual now = IsFrame-none
reconcile_counter-IsFrame (some j) held actual now = record {
  reservations = λ s. refl;
  settlements = λ s. refl;
  order = λ s. refl;
  next = λ s. refl;
  lasting = λ k s h e. e;
}

module _ (later : ℕ → ℕ) (scope : ScopeReservation) (e : EstimatedUsage) (ttl : ℕ) where
  first_IsFrame : IsFrame (λ s.
      add_counter scope.keys.rpm_key
        (pos 1)
        ttl
        (later 1)
        (add_value scope.keys.active_key (pos 1) 0 (later 0) s))
  first_IsFrame =
      IsFrame-compose (add_value-IsFrame scope.keys.active_key (pos 1) (later 0))
        (add_counter-IsFrame scope.keys.rpm_key (pos 1) ttl (later 1))

  last_IsFrame : IsFrame (λ s.
      add_value scope.keys.month_held_key (estimated_total_tokens e) 0 (later 5) (
        add_value scope.keys.day_held_key (estimated_total_tokens e) 0 (later 4) (
          add_value scope.keys.spend_held_key e.estimated_spend_micros 0
            (later 3)
            (add_counter scope.keys.tpm_key (estimated_total_tokens e) ttl (later 2) s))))
  last_IsFrame =
      IsFrame-compose
        (IsFrame-compose
          (IsFrame-compose
            (add_counter-IsFrame scope.keys.tpm_key (estimated_total_tokens e) ttl (later 2))
            (add_value-IsFrame scope.keys.spend_held_key e.estimated_spend_micros (later 3)))
          (add_value-IsFrame scope.keys.day_held_key (estimated_total_tokens e) (later 4)))
        (add_value-IsFrame scope.keys.month_held_key (estimated_total_tokens e) (later 5))

apply_scope_hold-IsFrame :
    (later : ℕ → ℕ) (scope : ScopeReservation) (e : EstimatedUsage) (now : ℕ) (top_up : Bool)
    → IsFrame (apply_scope_hold later scope e now top_up)
unfolding apply_scope_hold
apply_scope_hold-IsFrame later scope e now true =
    last_IsFrame later scope e (time_until_next_minute now)
apply_scope_hold-IsFrame later scope e now false =
    IsFrame-compose (first_IsFrame later scope e (time_until_next_minute now))
      (last_IsFrame later scope e (time_until_next_minute now))

pub apply_holds-IsFrame :
    (later : ℕ → ℕ → ℕ) (scopes : List ScopeReservation) (e : EstimatedUsage) (now : ℕ)
    (top_up : Bool)
    → IsFrame (apply_holds later scopes e now top_up)
unfolding apply_holds
apply_holds-IsFrame later [] e now top_up = IsFrame-none
apply_holds-IsFrame later (scope ∷ scopes) e now top_up =
    IsFrame-compose (apply_scope_hold-IsFrame (later 0) scope e now top_up)
      (apply_holds-IsFrame (λ i. later (suc i)) scopes e now top_up)

release_scope-IsFrame :
    (scope : ScopeReservation) (e : EstimatedUsage) (actual : ℤ) (now : ℕ)
    → IsFrame (release_scope scope e actual now)
unfolding release_scope
release_scope-IsFrame scope e actual now =
    IsFrame-compose
      (IsFrame-compose
        (IsFrame-compose
          (IsFrame-compose
            (reconcile_counter-IsFrame scope.keys.tpm_key (estimated_total_tokens e) actual now)
            (decr_value-IsFrame scope.keys.active_key (pos 1)))
          (decr_value-IsFrame scope.keys.spend_held_key e.estimated_spend_micros))
        (decr_value-IsFrame scope.keys.day_held_key (estimated_total_tokens e)))
      (decr_value-IsFrame scope.keys.month_held_key (estimated_total_tokens e))

pub release_scopes-IsFrame :
    (scopes : List ScopeReservation) (e : EstimatedUsage) (actual : ℤ) (now : ℕ)
    → IsFrame (release_scopes scopes e actual now)
unfolding release_scopes
release_scopes-IsFrame [] e actual now = IsFrame-none
release_scopes-IsFrame (scope ∷ scopes) e actual now =
    IsFrame-compose (release_scope-IsFrame scope e actual now)
      (release_scopes-IsFrame scopes e actual now)

charge_scope-IsFrame :
    (later : ℕ → ℕ) (scope : ScopeReservation) (a : ActualUsage)
    → IsKeyed scope
    → IsFrame (charge_scope later scope a)
unfolding charge_scope
charge_scope-IsFrame later scope a u =
    IsFrame-compose
      (IsFrame-compose
        (used_value-IsFrame scope.keys.spend_used_key a.spend_micros scope.expires.spend_used_at
          (later 0) u.0)
        (used_value-IsFrame scope.keys.day_used_key (actual_total_tokens a)
          scope.expires.day_used_at (later 1) u.1))
      (used_value-IsFrame scope.keys.month_used_key (actual_total_tokens a)
        scope.expires.month_used_at (later 2) u.2)

pub charge_scopes-IsFrame :
    (later : ℕ → ℕ → ℕ) (scopes : List ScopeReservation) (a : ActualUsage)
    → All IsKeyed scopes
    → IsFrame (charge_scopes later scopes a)
unfolding charge_scopes
charge_scopes-IsFrame later [] a u = IsFrame-none
charge_scopes-IsFrame later (scope ∷ scopes) a u =
    IsFrame-compose (charge_scope-IsFrame (later 0) scope a u.0)
      (charge_scopes-IsFrame (λ i. later (suc i)) scopes a u.1)

values-charge_scope :
    (k : QuotaKey) (later : ℕ → ℕ) (scope : ScopeReservation) (a : ActualUsage) (s : QuotaStore)
    → is_held k ≡ true
    → IsKeyed scope
    → (charge_scope later scope a s).values k ≡ s.values k
unfolding charge_scope
values-charge_scope k later scope a s held u =
    (add_value-IsUsedKey scope.keys.month_used_key k (actual_total_tokens a)
      scope.expires.month_used_at (later 2) _ held u.2).0
    ∙ (add_value-IsUsedKey scope.keys.day_used_key k (actual_total_tokens a)
        scope.expires.day_used_at (later 1) _ held u.1).0
    ∙ (add_value-IsUsedKey scope.keys.spend_used_key k a.spend_micros scope.expires.spend_used_at
        (later 0) s held u.0).0

-- The money and tokens that a commit charges change no held value.
pub values-charge_scopes :
    (k : QuotaKey) (later : ℕ → ℕ → ℕ) (scopes : List ScopeReservation) (a : ActualUsage)
    (s : QuotaStore)
    → is_held k ≡ true
    → All IsKeyed scopes
    → (charge_scopes later scopes a s).values k ≡ s.values k
unfolding charge_scopes
values-charge_scopes k later [] a s held u = refl
values-charge_scopes k later (scope ∷ scopes) a s held u =
    values-charge_scopes k (λ i. later (suc i)) scopes a (charge_scope (later 0) scope a s) held u.1
    ∙ values-charge_scope k (later 0) scope a s held u.0
