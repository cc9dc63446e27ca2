-- ===== src/Store/Ledger/Release.antt =====
-- A reservation that ends gives back exactly what it held (store/store.go).
use llmgw.Base.{
  ℕ, ◌+◌, ◌-◌, ◌≡◌, refl, sym, subst, ℤ, pos, negsuc, IsInt64, true, some, arith, String,
  String-discrete, lookup, remove,
}
use llmgw.Amounts.Laws.{saturating_usage_add_lem}
use llmgw.Store.Usage.{EstimatedUsage, estimated_total_tokens}
use llmgw.Store.Keys.{QuotaKey}
use llmgw.Store.State.{Reservation, QuotaStore}
use llmgw.Store.Holds.{release_hold}
use llmgw.Store.Cleanup.{drop_reservation}
use llmgw.Store.Ledger.{is_held, held_by, held_total, IsAmount, IsReservation, Holds, IsLedger}
use llmgw.Store.Ledger.Holds.{release_scopes-Unbooks}
use llmgw.Store.Ledger.Frames.{IsFrame, release_scopes-IsFrame}
use llmgw.Store.Ledger.Totals.{held_total-remove, Unique-remove, All-remove, IsReservation-lookup}

pub IsInt64-of_IsAmount : (z : ℤ) → IsAmount z → IsInt64 z
IsInt64-of_IsAmount (pos n) a = a.1
IsInt64-of_IsAmount (negsuc n) a = cc (a.0)

pub IsAmount-tokens :
    (e : EstimatedUsage)
    → IsAmount e.input_tokens
    → IsAmount e.reserved_output_tokens
    → IsAmount (estimated_total_tokens e)
unfolding estimated_total_tokens
IsAmount-tokens e i o =
    rw
      (saturating_usage_add_lem e.input_tokens e.reserved_output_tokens
        (IsInt64-of_IsAmount e.input_tokens i) (IsInt64-of_IsAmount e.reserved_output_tokens o))
      (refl, omega arith)

module _ (id : String) (res : Reservation) (actual : ℤ) (now : ℕ) (s : QuotaStore) (v : IsLedger s)
    (found : lookup String-discrete id s.reservations ≡ some res) where
  ok_res : IsReservation res
  ok_res = IsReservation-lookup id s.reservations res v.sound found

  frame : IsFrame (release_hold res actual now)
  unfolding release_hold
  frame = release_scopes-IsFrame res.scopes res.held actual now

  total :
      (k : QuotaKey)
      → held_by k res + held_total k (remove String-discrete id s.reservations)
        ≡ held_total k s.reservations
  total k = held_total-remove k id s.reservations res v.unique found

  released :
      (k : QuotaKey)
      → is_held k ≡ true
      → Holds (release_hold res actual now s) k (held_total k s.reservations - held_by k res)
  unfolding release_hold held_by
  released k held =
      (release_scopes-Unbooks k res.held ok_res.spend
          (IsAmount-tokens res.held ok_res.input ok_res.output) res.scopes actual now).unbooks
        (held_total k s.reservations) s (omega (arith, v.fits k held)) (omega (arith, total k))
        (v.exact k held)

  pub release-IsLedger : IsLedger (drop_reservation id (release_hold res actual now s))
  release-IsLedger = record {
    exact = λ k held.
        subst
          (λ m.
            Holds (release_hold res actual now s) k (held_total k (remove String-discrete id m)))
          (sym (frame.reservations s))
          (subst (Holds (release_hold res actual now s) k) (omega (arith, total k))
            (released k held));
    lasting = λ k held. frame.lasting k s held (v.lasting k held);
    unique = rw (frame.reservations s) (Unique-remove id s.reservations v.unique);
    sound = rw (frame.reservations s) (All-remove id s.reservations v.sound);
    fits = λ k held. rw (frame.reservations s) (omega (arith, total k, v.fits k held));
  }
