-- ===== src/Store/Ledger/Settling.antt =====
-- Topping up, committing and refunding keep the ledger (store/store.go).
use llmgw.Base.{
  ℕ, ◌≡◌, refl, sym, subst, ℤ, true, false, some, List, All, Bool-cases, Option-cases, inl, inr,
  String, String-discrete, lookup, insert,
}
use llmgw.Amounts.{zero64}
use llmgw.Store.Usage.{
  EstimatedUsage, ActualUsage, QuotaTicket, normalize_estimated_usage, normalize_actual_usage,
  normalize_reservation_ttl, actual_total_tokens,
}
use llmgw.Store.Clock.{add_time}
use llmgw.Store.Keys.{QuotaKey}
use llmgw.Store.State.{ScopeReservation, Reservation, QuotaStore, Readings}
use llmgw.Store.Settlements.{is_empty_id}
use llmgw.Store.Holds.{release_hold}
use llmgw.Store.Outcome.{Context, is_done}
use llmgw.Store.Cleanup.{put_reservation, drop_reservation, cleanup_expired}
use llmgw.Store.Reserve.{check_scopes, apply_holds}
use llmgw.Store.TopUp.{more_held, is_no_usage, top_up_reservation, top_up}
use llmgw.Store.Settle.{charge_scopes, commit_reservation, commit, refund_reservation, refund}
use llmgw.Store.Ledger.{held_by, held_total, IsReservation, IsKeyed, Holds, Fits, IsLedger}
use llmgw.Store.Ledger.Frames.{
  IsFrame, apply_holds-IsFrame, charge_scopes-IsFrame, values-charge_scopes,
}
use llmgw.Store.Ledger.Totals.{held_total-remove, IsReservation-lookup}
use llmgw.Store.Ledger.Release.{release-IsLedger}
use llmgw.Store.Ledger.Cleanup.{record_settlement-IsLedger, cleanup_expired-IsLedger}
use llmgw.Store.Ledger.Growth.{
  IsUsage, AreInt64, normalize_estimated_usage-IsUsage, more_held-IsUsage, put_reservation-IsLedger,
  grown-Holds,
}
use llmgw.Store.Ledger.Operations.{IsUsage-of}

module _ (r : Readings) (id : String) (res : Reservation) (delta : EstimatedUsage) (ttl : ℤ)
    (s : QuotaStore) (v : IsLedger s) (d : IsUsage delta)
    (found : lookup String-discrete id s.reservations ≡ some res) where
  ok_res : IsReservation res
  ok_res = IsReservation-lookup id s.reservations res v.sound found

  grown_IsReservation :
      (expires : ℕ)
      → IsReservation (record res { held = more_held res.held delta; expires = expires })
  grown_IsReservation expires =
      let more = more_held-IsUsage res.held delta (IsUsage-of ok_res) d in
      record { keyed = ok_res.keyed; input = more.input; output = more.output; spend = more.spend }

  grown-IsLedger :
      (expires : ℕ)
      → Fits (
          put_reservation id
            (record res { held = more_held res.held delta; expires = expires })
            (apply_holds r.later res.scopes delta r.now true s))
      → IsLedger (
          put_reservation id
            (record res { held = more_held res.held delta; expires = expires })
            (apply_holds r.later res.scopes delta r.now true s))
  grown-IsLedger expires fit =
      put_reservation-IsLedger id
        (record res { held = more_held res.held delta; expires = expires }) s
        (apply_holds r.later res.scopes delta r.now true s) v (grown_IsReservation expires)
        (λ k held. frame.lasting k s held (v.lasting k held)) (frame.reservations s)
        (λ k held.
          grown-Holds k r.later r.now id res
            (record res { held = more_held res.held delta; expires = expires }) delta s held v
            (IsUsage-of ok_res) d found refl refl)
        (λ k held. rw (← frame.reservations s) (fit k held))
    where
      frame : IsFrame (apply_holds r.later res.scopes delta r.now true)
      frame = apply_holds-IsFrame r.later res.scopes delta r.now true

  renewed_total :
      (k : QuotaKey) (expires : ℕ)
      → held_total k (insert String-discrete id (record res { expires = expires }) s.reservations)
        ≡ held_total k s.reservations
  unfolding insert held_total held_by
  renewed_total k expires = held_total-remove k id s.reservations res v.unique found

  renewed-IsLedger :
      (expires : ℕ) → IsLedger (put_reservation id (record res { expires = expires }) s)
  renewed-IsLedger expires =
      put_reservation-IsLedger id (record res { expires = expires }) s s v
        (record {
          keyed = ok_res.keyed;
          input = ok_res.input;
          output = ok_res.output;
          spend = ok_res.spend;
        })
        v.lasting refl
        (λ k held _. subst (Holds s k) (sym (renewed_total k expires)) (v.exact k held))
        (λ k held. rw (renewed_total k expires) (v.fits k held))

  top_up_reservation-IsLedger :
      Fits (top_up_reservation r id res delta ttl s).0
      → IsLedger (top_up_reservation r id res delta ttl s).0
  unfolding top_up_reservation
  top_up_reservation-IsLedger fit = elim (Bool-cases (is_no_usage delta)) [
    | inl h ↦
        rw (h, top_up_reservation)
          (renewed-IsLedger (add_time r.now (normalize_reservation_ttl ttl)))
    | inr h ↦ elim (Option-cases (check_scopes s res.scopes delta r.now true)) [
      | inl k ↦
          rw (h, k, top_up_reservation)
            (grown-IsLedger (add_time r.now (normalize_reservation_ttl ttl))
              (rw (h, k, top_up_reservation) at fit))
      | inr (dim, k) ↦ rw (h, k, top_up_reservation) v
    ]
  ]

-- A top-up keeps the ledger.
pub top_up-IsLedger :
    (ctx : Context) (r : Readings) (ticket : QuotaTicket) (delta : EstimatedUsage) (ttl : ℤ)
    (s : QuotaStore)
    → IsLedger s
    → AreInt64 delta
    → Fits (top_up ctx r ticket delta ttl s).0
    → IsLedger (top_up ctx r ticket delta ttl s).0
unfolding top_up
top_up-IsLedger ctx r ticket delta ttl s v i fit = elim (Bool-cases (is_done ctx)) [
  | inl h ↦ rw (h, top_up) v
  | inr h ↦ elim (Bool-cases (is_empty_id ticket.request_id)) [
    | inl k ↦ rw (h, k, top_up) v
    | inr k ↦
        elim (Option-cases
          (lookup String-discrete ticket.request_id (cleanup_expired r.now s).reservations)) [
            | inl l ↦ rw (h, k, l, top_up) (cleanup_expired-IsLedger r.now s v)
            | inr (res, l) ↦
                rw (h, k, l, top_up)
                  (top_up_reservation-IsLedger r ticket.request_id res
                    (normalize_estimated_usage delta) ttl (cleanup_expired r.now s)
                    (cleanup_expired-IsLedger r.now s v) (normalize_estimated_usage-IsUsage delta i)
                    l (rw (h, k, l, top_up) at fit))
          ]
  ]
]

-- What a commit charges once the reservation has given back what it held.
charged-IsLedger :
    (id : String) (later : ℕ → ℕ → ℕ) (scopes : List ScopeReservation) (a : ActualUsage)
    (t : QuotaStore)
    → All IsKeyed scopes
    → IsLedger (drop_reservation id t)
    → IsLedger (drop_reservation id (charge_scopes later scopes a t))
charged-IsLedger id later scopes a t u v = record {
  exact = λ k held.
      rw (values-charge_scopes k later scopes a t held u, frame.reservations t) (v.exact k held);
  lasting = λ k held. frame.lasting k t held (v.lasting k held);
  unique = rw (frame.reservations t) v.unique;
  sound = rw (frame.reservations t) v.sound;
  fits = λ k held. rw (frame.reservations t) (v.fits k held);
}
  where
    frame : IsFrame (charge_scopes later scopes a)
    frame = charge_scopes-IsFrame later scopes a u

commit_reservation-IsLedger :
    (r : Readings) (id : String) (res : Reservation) (a : ActualUsage) (s : QuotaStore)
    → IsLedger s
    → lookup String-discrete id s.reservations ≡ some res
    → IsLedger (commit_reservation r id res a s)
unfolding commit_reservation
commit_reservation-IsLedger r id res a s v found = record_settlement-IsLedger id false r.now _ (
    charged-IsLedger id r.later res.scopes a (release_hold res (actual_total_tokens a) r.now s)
      (IsReservation-lookup id s.reservations res v.sound found).keyed
      (release-IsLedger id res (actual_total_tokens a) r.now s v found))

refund_reservation-IsLedger :
    (r : Readings) (id : String) (res : Reservation) (s : QuotaStore)
    → IsLedger s
    → lookup String-discrete id s.reservations ≡ some res
    → IsLedger (refund_reservation r id res s)
unfolding refund_reservation
refund_reservation-IsLedger r id res s v found =
    record_settlement-IsLedger id false r.now _ (release-IsLedger id res zero64 r.now s v found)

-- A commit keeps the ledger.
pub commit-IsLedger :
    (ctx : Context) (r : Readings) (ticket : QuotaTicket) (a : ActualUsage) (s : QuotaStore)
    → IsLedger s
    → IsLedger (commit ctx r ticket a s).0
unfolding commit
commit-IsLedger ctx r ticket a s v = elim (Bool-cases (is_done ctx)) [
  | inl h ↦ rw (h, commit) v
  | inr h ↦ elim (Bool-cases (is_empty_id ticket.request_id)) [
    | inl k ↦ rw (h, k, commit) v
    | inr k ↦
        elim (Option-cases
          (lookup String-discrete ticket.request_id (cleanup_expired r.now s).reservations)) [
            | inl l ↦ rw (h, k, l, commit) (cleanup_expired-IsLedger r.now s v)
            | inr (res, l) ↦
                rw (h, k, l, commit)
                  (commit_reservation-IsLedger r ticket.request_id res (normalize_actual_usage a)
                    (cleanup_expired r.now s) (cleanup_expired-IsLedger r.now s v) l)
          ]
  ]
]

-- A refund keeps the ledger.
pub refund-IsLedger :
    (ctx : Context) (r : Readings) (ticket : QuotaTicket) (s : QuotaStore)
    → IsLedger s
    → IsLedger (refund ctx r ticket s).0
unfolding refund
refund-IsLedger ctx r ticket s v = elim (Bool-cases (is_done ctx)) [
  | inl h ↦ rw (h, refund) v
  | inr h ↦ elim (Bool-cases (is_empty_id ticket.request_id)) [
    | inl k ↦ rw (h, k, refund) v
    | inr k ↦
        elim (Option-cases
          (lookup String-discrete ticket.request_id (cleanup_expired r.now s).reservations)) [
            | inl l ↦ rw (h, k, l, refund) (cleanup_expired-IsLedger r.now s v)
            | inr (res, l) ↦
                rw (h, k, l, refund)
                  (refund_reservation-IsLedger r ticket.request_id res (cleanup_expired r.now s)
                    (cleanup_expired-IsLedger r.now s v) l)
          ]
  ]
]
