-- ===== src/Store/Ledger/Operations.antt =====
-- Each operation of `MemoryQuotaStore` (store/store.go) keeps the ledger.
use llmgw.Base.{
  ◌≡◌, ℤ, false, none, List, arith, All, Bool-cases, Option-cases, inl, inr, String,
  String-discrete, lookup,
}
use llmgw.Store.Usage.{EstimatedUsage, ScopedLimit, normalize_estimated_usage}
use llmgw.Store.State.{
  ScopeReservation, Reservation, QuotaStore, Readings, resolve_scope_reservations,
}
use llmgw.Store.Settlements.{is_empty_id}
use llmgw.Store.Outcome.{Context}
use llmgw.Store.Cleanup.{put_reservation, cleanup_expired}
use llmgw.Store.Reserve.{
  check_scopes, apply_holds, new_reservation, admit, replay, reserve_cleaned, reserve,
}
use llmgw.Store.Ledger.{IsReservation, IsKeyed, Fits, IsLedger}
use llmgw.Store.Ledger.Frames.{IsFrame, apply_holds-IsFrame}
use llmgw.Store.Ledger.Cleanup.{cleanup_expired-IsLedger}
use llmgw.Store.Ledger.Growth.{
  IsUsage, AreInt64, normalize_estimated_usage-IsUsage, resolve_scope_reservations-IsKeyed,
  put_reservation-IsLedger, reserved-Holds,
}

pub IsUsage-of : {res : Reservation} → IsReservation res → IsUsage res.held
IsUsage-of u = record { input = u.input; output = u.output; spend = u.spend }

module _ (r : Readings) (id : String) (scopes : List ScopeReservation) (e : EstimatedUsage)
    (ttl : ℤ) (s : QuotaStore) (v : IsLedger s) (keyed : All IsKeyed scopes) (u : IsUsage e)
    (fresh : lookup String-discrete id s.reservations ≡ none) where
  admitted-IsLedger :
      Fits (
        put_reservation id
          (new_reservation id scopes e r.now ttl)
          (apply_holds r.later scopes e r.now false s))
      → IsLedger (
          put_reservation id
            (new_reservation id scopes e r.now ttl)
            (apply_holds r.later scopes e r.now false s))
  admitted-IsLedger fit =
      put_reservation-IsLedger id (new_reservation id scopes e r.now ttl) s
        (apply_holds r.later scopes e r.now false s) v
        (record { keyed = keyed; input = u.input; output = u.output; spend = u.spend })
        (λ k held. frame.lasting k s held (v.lasting k held)) (frame.reservations s)
        (λ k held.
          reserved-Holds k r.later r.now id (new_reservation id scopes e r.now ttl) s held v u
            fresh)
        (λ k held. rw (← frame.reservations s) (fit k held))
    where
      frame : IsFrame (apply_holds r.later scopes e r.now false)
      frame = apply_holds-IsFrame r.later scopes e r.now false

  admit-IsLedger : Fits (admit r id scopes e ttl s).0 → IsLedger (admit r id scopes e ttl s).0
  unfolding admit
  admit-IsLedger fit = elim (Option-cases (check_scopes s scopes e r.now false)) [
    | inl h ↦ rw (h, admit) (admitted-IsLedger (rw (h, admit) at fit))
    | inr (d, h) ↦ rw (h, admit) v
  ]

pub replay-keeps :
    (existing : Reservation) (scopes : List ScopeReservation) (e : EstimatedUsage) (s : QuotaStore)
    → (replay existing scopes e s).0 ≡ s
unfolding replay
replay-keeps existing scopes e s = ground arith

reserve_cleaned-IsLedger :
    (r : Readings) (id : String) (scopes : List ScopeReservation) (e : EstimatedUsage) (ttl : ℤ)
    (s : QuotaStore)
    → IsLedger s
    → All IsKeyed scopes
    → IsUsage e
    → Fits (reserve_cleaned r id scopes e ttl s).0
    → IsLedger (reserve_cleaned r id scopes e ttl s).0
unfolding reserve_cleaned
reserve_cleaned-IsLedger r id scopes e ttl s v keyed u fit =
    elim (Option-cases (lookup String-discrete id s.settlements)) [
      | inr (st, h) ↦ rw (h, reserve_cleaned) v
      | inl h ↦ elim (Option-cases (lookup String-discrete id s.reservations)) [
        | inr (existing, found) ↦
            rw (h, reserve_cleaned)
              (rw (found, reserve_cleaned) (rw (replay-keeps existing scopes e s) v))
        | inl fresh ↦
            rw (h, reserve_cleaned)
              (rw (fresh, reserve_cleaned)
                (admit-IsLedger r id scopes e ttl s v keyed u fresh
                  (rw (fresh, reserve_cleaned) at (rw (h, reserve_cleaned) at fit))))
      ]
    ]

-- Reserve keeps the ledger.
pub reserve-IsLedger :
    (ctx : Context) (r : Readings) (id : String) (scopes : List ScopedLimit) (e : EstimatedUsage)
    (ttl : ℤ) (s : QuotaStore)
    → IsLedger s
    → AreInt64 e
    → Fits (reserve ctx r id scopes e ttl s).0
    → IsLedger (reserve ctx r id scopes e ttl s).0
unfolding reserve
reserve-IsLedger ctx r id scopes e ttl s v i fit = elim (Bool-cases ctx.done_at_start) [
  | inl h ↦ rw (h, reserve) v
  | inr h ↦ elim (Bool-cases (is_empty_id id)) [
    | inl k ↦ rw (h, k, reserve) v
    | inr k ↦ elim (Bool-cases ctx.done_when_locked) [
      | inl l ↦ rw (h, k, l, reserve) v
      | inr l ↦
          rw (h, k, l, reserve)
            (reserve_cleaned-IsLedger r id (resolve_scope_reservations scopes r.now)
              (normalize_estimated_usage e) ttl (cleanup_expired r.now s)
              (cleanup_expired-IsLedger r.now s v) (resolve_scope_reservations-IsKeyed scopes r.now)
              (normalize_estimated_usage-IsUsage e i) (rw (h, k, l, reserve) at fit))
    ]
  ]
]
