-- ===== src/Store/ReplayCleanup.antt =====
-- Amounts, holds and the cleanup leave the replay window of store/store.go consistent.
use llmgw.Base.{
  ℕ, suc, ◌≡◌, refl, ◌∙◌, Option, true, ℤ, String, List, [], ◌∷◌, Bool, Bool-cases, inl, inr, none,
  some, arith,
}
use llmgw.Amounts.{zero64}
use llmgw.Store.Usage.{EstimatedUsage, ActualUsage, actual_total_tokens}
use llmgw.Store.State.{QuotaStore, Reservation, ScopeReservation}
use llmgw.Store.Settlements.{cleanup_settlements}
use llmgw.Store.ReplayBound.{IsReplay, record_settlement-IsReplay, cleanup_settlements-IsReplay}
use llmgw.Store.Keys.{QuotaKey}
use llmgw.Store.Ledger.Frames.{IsFrame, release_scopes-IsFrame, apply_holds-IsFrame}
use llmgw.Store.Holds.{release_hold, has_passed, add_value}
use llmgw.Store.Cleanup.{
  expire_reservation, expire_reservations, drop_expired_amounts, cleanup_expired,
}
use llmgw.Store.Reserve.{apply_holds}
use llmgw.Store.TopUp.{top_up}
use llmgw.Store.Settle.{charge_scopes}

-- Amounts and reservations are no part of the window.
pub IsReplay-of :
    (s t : QuotaStore)
    → t.settlements ≡ s.settlements
    → t.settled_order ≡ s.settled_order
    → t.next_element ≡ s.next_element
    → IsReplay s
    → IsReplay t
IsReplay-of s t p q n v = record {
  links = rw (p, q) v.links;
  fresh = rw (q, n) v.fresh;
  bounded = rw p v.bounded;
}

-- An update of amounts, which leaves the window alone.
pub record IsAside (f : QuotaStore → QuotaStore) : Type 0 where
  pub settlements : (s : QuotaStore) → (f s).settlements ≡ s.settlements
  pub order : (s : QuotaStore) → (f s).settled_order ≡ s.settled_order
  pub next : (s : QuotaStore) → (f s).next_element ≡ s.next_element

pub IsAside-IsReplay :
    {f : QuotaStore → QuotaStore} → IsAside f → (s : QuotaStore) → IsReplay s → IsReplay (f s)
IsAside-IsReplay {f} a s v = IsReplay-of s (f s) (a.settlements s) (a.order s) (a.next s) v

IsAside-compose : {f g : QuotaStore → QuotaStore} → IsAside f → IsAside g → IsAside (λ s. g (f s))
IsAside-compose {f} {g} hf hg = record {
  settlements = λ s. hg.settlements (f s) ∙ hf.settlements s;
  order = λ s. hg.order (f s) ∙ hf.order s;
  next = λ s. hg.next (f s) ∙ hf.next s;
}

IsAside-none : IsAside (λ s. s)
IsAside-none = record { settlements = λ s. refl; order = λ s. refl; next = λ s. refl }

add_value-IsAside :
    (key : Option QuotaKey) (d : ℤ) (expires at : ℕ) → IsAside (add_value key d expires at)
unfolding add_value
add_value-IsAside none d expires at = IsAside-none
add_value-IsAside (some j) d expires at = record {
  settlements = λ s. ground arith;
  order = λ s. ground arith;
  next = λ s. ground arith;
}

pub charge_scopes-IsAside :
    (later : ℕ → ℕ → ℕ) (scopes : List ScopeReservation) (a : ActualUsage)
    → IsAside (charge_scopes later scopes a)
unfolding charge_scopes
charge_scopes-IsAside later [] a = IsAside-none
charge_scopes-IsAside later (scope ∷ scopes) a =
    IsAside-compose
      (IsAside-compose
        (IsAside-compose
          (add_value-IsAside scope.keys.spend_used_key a.spend_micros scope.expires.spend_used_at
            (later 0 0))
          (add_value-IsAside scope.keys.day_used_key (actual_total_tokens a)
            scope.expires.day_used_at (later 0 1)))
        (add_value-IsAside scope.keys.month_used_key (actual_total_tokens a)
          scope.expires.month_used_at (later 0 2)))
      (charge_scopes-IsAside (λ i. later (suc i)) scopes a)

IsFrame-IsAside : {f : QuotaStore → QuotaStore} → IsFrame f → IsAside f
IsFrame-IsAside h = record { settlements = h.settlements; order = h.order; next = h.next }

pub release_hold-IsReplay :
    (res : Reservation) (actual : ℤ) (now : ℕ) (s : QuotaStore)
    → IsReplay s
    → IsReplay (release_hold res actual now s)
unfolding release_hold
release_hold-IsReplay res actual now =
    IsAside-IsReplay (IsFrame-IsAside (release_scopes-IsFrame res.scopes res.held actual now))

pub apply_holds-IsReplay :
    (later : ℕ → ℕ → ℕ) (scopes : List ScopeReservation) (e : EstimatedUsage) (now : ℕ)
    (top_up : Bool) (s : QuotaStore)
    → IsReplay s
    → IsReplay (apply_holds later scopes e now top_up s)
apply_holds-IsReplay later scopes e now top_up =
    IsAside-IsReplay (IsFrame-IsAside (apply_holds-IsFrame later scopes e now top_up))

expire_reservations-IsReplay :
    (rs : List (String × Reservation)) (now : ℕ) (s : QuotaStore)
    → IsReplay s
    → IsReplay (expire_reservations rs now s)
unfolding expire_reservations
expire_reservations-IsReplay [] now s v = v
expire_reservations-IsReplay ((id, res) ∷ rs) now s v =
    expire_reservations-IsReplay rs now (expire_reservation id res now s)
      (elim (Bool-cases (has_passed res.expires now)) [
        | inl h ↦
            rw (h, expire_reservation)
              (record_settlement-IsReplay id true now _ (
                IsReplay-of (release_hold res zero64 now s) _ refl refl refl
                  (release_hold-IsReplay res zero64 now s v)))
        | inr h ↦ rw (h, expire_reservation) v
      ])

pub cleanup_expired-IsReplay :
    (now : ℕ) (s : QuotaStore) → IsReplay s → IsReplay (cleanup_expired now s)
unfolding cleanup_expired drop_expired_amounts
cleanup_expired-IsReplay now s v =
    IsReplay-of (cleanup_settlements now (expire_reservations s.reservations now s))
      (cleanup_expired now s) refl refl refl
      (cleanup_settlements-IsReplay now _ (expire_reservations-IsReplay s.reservations now s v))
