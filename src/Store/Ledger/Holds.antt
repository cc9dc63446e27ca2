-- ===== src/Store/Ledger/Holds.antt =====
-- What a hold, its release and a charge do to the value of a held key (store/store.go).
use llmgw.Base.{
  ℕ, suc, ◌+◌, ◌≡◌, refl, ℤ, pos, true, false, List, [], ◌∷◌, arith, Bool, subst, if◌then◌else◌,
}
use llmgw.Store.Usage.{EstimatedUsage, estimated_total_tokens}
use llmgw.Store.Clock.{time_until_next_minute}
use llmgw.Store.Keys.{QuotaKey}
use llmgw.Store.State.{ScopeReservation, QuotaStore}
use llmgw.Store.Holds.{add_value, add_counter, apply_scope_hold, release_scope, release_scopes}
use llmgw.Store.Reserve.{apply_holds}
use llmgw.Store.Ledger.{when, share, shares, Holds, IsAmount, spend_of, tokens_of}
use llmgw.Store.Ledger.Amounts.{
  Books, Unbooks, Books-compose, Unbooks-compose, add_value-Books, decr_value-Unbooks,
  add_counter-Books, reconcile_counter-Unbooks,
}

-- How many requests a hold books: a top-up books none.
abbrev pub requests_of : Bool → ℕ
requests_of top_up = if top_up then 0 else 1

Books-at :
    {m n : ℕ} {k : QuotaKey} {f : QuotaStore → QuotaStore} → m ≡ n → Books k m f → Books k n f
Books-at {k = k} {f = f} e b = subst (λ t. Books k t f) e b

Unbooks-at :
    {m n : ℕ} {k : QuotaKey} {f : QuotaStore → QuotaStore} → m ≡ n → Unbooks k m f → Unbooks k n f
Unbooks-at {k = k} {f = f} e b = subst (λ t. Unbooks k t f) e b

Books-none : {k : QuotaKey} → Books k 0 (λ s. s)
Books-none {k} = record { books = λ v s hv h. subst (Holds s k) (omega arith) h }

Unbooks-none : {k : QuotaKey} → Unbooks k 0 (λ s. s)
Unbooks-none {k} = record { unbooks = λ v s hv hn h. subst (Holds s k) (omega arith) h }

module _ (k : QuotaKey) (scope : ScopeReservation) (e : EstimatedUsage)
    (spend_ok : IsAmount e.estimated_spend_micros)
    (tokens_ok : IsAmount (estimated_total_tokens e)) where
  -- The first updates of a hold, which a top-up skips.
  first_Books :
      (later : ℕ → ℕ) (ttl : ℕ)
      → Books k (when scope.keys.active_key k 1 + 0) (λ s.
        add_counter scope.keys.rpm_key
          (pos 1)
          ttl
          (later 1)
          (add_value scope.keys.active_key (pos 1) 0 (later 0) s))
  first_Books later ttl =
      Books-compose
        (add_value-Books scope.keys.active_key k (pos 1) 0 (later 0) (refl, omega arith))
        (add_counter-Books scope.keys.rpm_key k (pos 1) ttl (later 1))

  last_Books :
      (later : ℕ → ℕ) (ttl : ℕ)
      → Books k
          (0
            + when scope.keys.spend_held_key k (spend_of e)
            + when scope.keys.day_held_key k (tokens_of e)
            + when scope.keys.month_held_key k (tokens_of e))
          (λ s. add_value scope.keys.month_held_key (estimated_total_tokens e) 0 (later 5) (
            add_value scope.keys.day_held_key (estimated_total_tokens e) 0 (later 4) (
              add_value scope.keys.spend_held_key e.estimated_spend_micros 0
                (later 3)
                (add_counter scope.keys.tpm_key (estimated_total_tokens e) ttl (later 2) s))))
  last_Books later ttl =
      Books-compose
        (Books-compose
          (Books-compose
            (add_counter-Books scope.keys.tpm_key k (estimated_total_tokens e) ttl (later 2))
            (add_value-Books scope.keys.spend_held_key k e.estimated_spend_micros 0 (later 3)
              spend_ok))
          (add_value-Books scope.keys.day_held_key k (estimated_total_tokens e) 0 (later 4)
            tokens_ok))
        (add_value-Books scope.keys.month_held_key k (estimated_total_tokens e) 0 (later 5)
          tokens_ok)

  pub apply_scope_hold-Books :
      (later : ℕ → ℕ) (now : ℕ) (top_up : Bool)
      → Books k
          (share k scope (requests_of top_up) (spend_of e) (tokens_of e))
          (apply_scope_hold later scope e now top_up)
  unfolding apply_scope_hold share
  apply_scope_hold-Books later now true =
      Books-at (ground arith) (last_Books later (time_until_next_minute now))
  apply_scope_hold-Books later now false = Books-at (ground arith) (
      Books-compose (first_Books later (time_until_next_minute now))
        (last_Books later (time_until_next_minute now)))

  pub release_scope-Unbooks :
      (actual : ℤ) (now : ℕ)
      → Unbooks k (share k scope 1 (spend_of e) (tokens_of e)) (release_scope scope e actual now)
  unfolding release_scope share
  release_scope-Unbooks actual now = Unbooks-at (omega arith) (
      Unbooks-compose
        (Unbooks-compose
          (Unbooks-compose
            (Unbooks-compose
              (reconcile_counter-Unbooks scope.keys.tpm_key k (estimated_total_tokens e) actual now)
              (decr_value-Unbooks scope.keys.active_key k (pos 1) (refl, omega arith)))
            (decr_value-Unbooks scope.keys.spend_held_key k e.estimated_spend_micros spend_ok))
          (decr_value-Unbooks scope.keys.day_held_key k (estimated_total_tokens e) tokens_ok))
        (decr_value-Unbooks scope.keys.month_held_key k (estimated_total_tokens e) tokens_ok))

module _ (k : QuotaKey) (e : EstimatedUsage) (spend_ok : IsAmount e.estimated_spend_micros)
    (tokens_ok : IsAmount (estimated_total_tokens e)) where
  pub apply_holds-Books :
      (later : ℕ → ℕ → ℕ) (scopes : List ScopeReservation) (now : ℕ) (top_up : Bool)
      → Books k
          (shares k scopes (requests_of top_up) (spend_of e) (tokens_of e))
          (apply_holds later scopes e now top_up)
  unfolding apply_holds shares
  apply_holds-Books later [] now top_up = Books-none
  apply_holds-Books later (scope ∷ scopes) now top_up =
      Books-compose (apply_scope_hold-Books k scope e spend_ok tokens_ok (later 0) now top_up)
        (apply_holds-Books (λ i. later (suc i)) scopes now top_up)

  pub release_scopes-Unbooks :
      (scopes : List ScopeReservation) (actual : ℤ) (now : ℕ)
      → Unbooks k
          (shares k scopes 1 (spend_of e) (tokens_of e))
          (release_scopes scopes e actual now)
  unfolding release_scopes shares
  release_scopes-Unbooks [] actual now = Unbooks-none
  release_scopes-Unbooks (scope ∷ scopes) actual now =
      Unbooks-compose (release_scope-Unbooks k scope e spend_ok tokens_ok actual now)
        (release_scopes-Unbooks scopes actual now)
