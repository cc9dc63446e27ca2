-- ===== src/Store/ReplayHistory.antt =====
-- The replay window over histories of calls (store/store.go).
use llmgw.Base.{
  ℕ, refl, true, false, ℤ, String, String-discrete, List, [], ◌∷◌, Bool-cases, Option-cases, inl,
  inr, lookup, arith,
}
use llmgw.Amounts.{zero64}
use llmgw.Store.Usage.{
  EstimatedUsage, ActualUsage, ScopedLimit, QuotaTicket, normalize_actual_usage,
  actual_total_tokens, normalize_estimated_usage,
}
use llmgw.Store.State.{
  QuotaStore, Reservation, ScopeReservation, Readings, new_memory_quota_store,
  resolve_scope_reservations,
}
use llmgw.Store.ReplayBound.{IsReplay, record_settlement-IsReplay}
use llmgw.Store.Ledger.Operations.{replay-keeps}
use llmgw.Store.Holds.{release_hold}
use llmgw.Store.Cleanup.{cleanup_expired}
use llmgw.Store.Outcome.{Context, is_done}
use llmgw.Store.Reserve.{check_scopes, reserve, reserve_cleaned, admit, apply_holds}
use llmgw.Store.TopUp.{top_up, top_up_reservation, is_no_usage}
use llmgw.Store.Settle.{commit, refund, commit_reservation, refund_reservation, charge_scopes}
use llmgw.Store.Report.{get_usage}
use llmgw.Store.History.{Call, reserves, tops_up, commits, refunds, reports, step, run}
-- Amounts and reservations are no part of the window.
use llmgw.Store.ReplayCleanup.{
  IsReplay-of, IsAside-IsReplay, charge_scopes-IsAside, release_hold-IsReplay, apply_holds-IsReplay,
  cleanup_expired-IsReplay,
}

reserve_cleaned-IsReplay :
    (r : Readings) (id : String) (scopes : List ScopeReservation) (e : EstimatedUsage) (ttl : ℤ)
    (s : QuotaStore)
    → IsReplay s
    → IsReplay (reserve_cleaned r id scopes e ttl s).0
unfolding reserve_cleaned
reserve_cleaned-IsReplay r id scopes e ttl s v =
    elim (Option-cases (lookup String-discrete id s.settlements)) [
      | inr (st, h) ↦ rw (h, reserve_cleaned) v
      | inl h ↦ elim (Option-cases (lookup String-discrete id s.reservations)) [
        | inr (existing, found) ↦
            rw (h, reserve_cleaned)
              (rw (found, reserve_cleaned) (rw (replay-keeps existing scopes e s) v))
        | inl fresh ↦ elim (Option-cases (check_scopes s scopes e r.now false)) [
          | inl k ↦
              rw (h, reserve_cleaned)
                (rw (fresh, reserve_cleaned)
                  (rw (k, admit)
                    (IsReplay-of (apply_holds r.later scopes e r.now false s) _ refl refl refl
                      (apply_holds-IsReplay r.later scopes e r.now false s v))))
          | inr (d, k) ↦ rw (h, reserve_cleaned) (rw (fresh, reserve_cleaned) (rw (k, admit) v))
        ]
      ]
    ]

reserve-IsReplay :
    (ctx : Context) (r : Readings) (id : String) (scopes : List ScopedLimit) (e : EstimatedUsage)
    (ttl : ℤ) (s : QuotaStore)
    → IsReplay s
    → IsReplay (reserve ctx r id scopes e ttl s).0
unfolding reserve
reserve-IsReplay ctx r id scopes e ttl s v = ground (
  arith,
  reserve_cleaned-IsReplay r id (resolve_scope_reservations scopes r.now)
      (normalize_estimated_usage e) ttl (cleanup_expired r.now s)
      (cleanup_expired-IsReplay r.now s v),
)

top_up_reservation-IsReplay :
    (r : Readings) (id : String) (res : Reservation) (delta : EstimatedUsage) (ttl : ℤ)
    (s : QuotaStore)
    → IsReplay s
    → IsReplay (top_up_reservation r id res delta ttl s).0
unfolding top_up_reservation
top_up_reservation-IsReplay r id res delta ttl s v = elim (Bool-cases (is_no_usage delta)) [
  | inl h ↦ rw (h, top_up_reservation) (IsReplay-of s _ refl refl refl v)
  | inr h ↦ elim (Option-cases (check_scopes s res.scopes delta r.now true)) [
    | inl k ↦
        rw (h, k, top_up_reservation)
          (IsReplay-of (apply_holds r.later res.scopes delta r.now true s) _ refl refl refl
            (apply_holds-IsReplay r.later res.scopes delta r.now true s v))
    | inr (d, k) ↦ rw (h, k, top_up_reservation) v
  ]
]

-- The three operations that look for the reservation of a ticket: the store stays, is cleaned, or
-- goes on with the reservation.
commit_reservation-IsReplay :
    (r : Readings) (id : String) (res : Reservation) (a : ActualUsage) (s : QuotaStore)
    → IsReplay s
    → IsReplay (commit_reservation r id res a s)
unfolding commit_reservation
commit_reservation-IsReplay r id res a s v = record_settlement-IsReplay id false r.now _ (
    IsReplay-of
      (charge_scopes r.later res.scopes a (release_hold res (actual_total_tokens a) r.now s)) _ refl
      refl refl
      (IsAside-IsReplay (charge_scopes-IsAside r.later res.scopes a) _
        (release_hold-IsReplay res (actual_total_tokens a) r.now s v)))

refund_reservation-IsReplay :
    (r : Readings) (id : String) (res : Reservation) (s : QuotaStore)
    → IsReplay s
    → IsReplay (refund_reservation r id res s)
unfolding refund_reservation
refund_reservation-IsReplay r id res s v = record_settlement-IsReplay id false r.now _ (
    IsReplay-of (release_hold res zero64 r.now s) _ refl refl refl
      (release_hold-IsReplay res zero64 r.now s v))

module _ (ctx : Context) (r : Readings) (ticket : QuotaTicket) (s : QuotaStore)
    (v : IsReplay s) where
  cleaned : IsReplay (cleanup_expired r.now s)
  cleaned = cleanup_expired-IsReplay r.now s v

  top_up-IsReplay :
      (delta : EstimatedUsage) (ttl : ℤ) → IsReplay (top_up ctx r ticket delta ttl s).0
  unfolding top_up
  top_up-IsReplay delta ttl =
      elim (Option-cases
        (lookup String-discrete ticket.request_id (cleanup_expired r.now s).reservations)) [
          | inl l ↦ rw (l, top_up) (ground (arith, cleaned, v))
          | inr (res, l) ↦
              rw (l, top_up)
                (ground (
                  arith,
                  v,
                  top_up_reservation-IsReplay r ticket.request_id res
                      (normalize_estimated_usage delta) ttl (cleanup_expired r.now s) cleaned,
                ))
        ]

  commit-IsReplay : (a : ActualUsage) → IsReplay (commit ctx r ticket a s).0
  unfolding commit
  commit-IsReplay a =
      elim (Option-cases
        (lookup String-discrete ticket.request_id (cleanup_expired r.now s).reservations)) [
          | inl l ↦ rw (l, commit) (ground (arith, cleaned, v))
          | inr (res, l) ↦
              rw (l, commit)
                (ground (
                  arith,
                  v,
                  commit_reservation-IsReplay r ticket.request_id res (normalize_actual_usage a)
                      (cleanup_expired r.now s) cleaned,
                ))
        ]

  refund-IsReplay : IsReplay (refund ctx r ticket s).0
  unfolding refund
  refund-IsReplay =
      elim (Option-cases
        (lookup String-discrete ticket.request_id (cleanup_expired r.now s).reservations)) [
          | inl l ↦ rw (l, refund) (ground (arith, cleaned, v))
          | inr (res, l) ↦
              rw (l, refund)
                (ground (
                  arith,
                  v,
                  refund_reservation-IsReplay r ticket.request_id res (cleanup_expired r.now s)
                      cleaned,
                ))
        ]

get_usage-IsReplay :
    (ctx : Context) (now : ℕ) (scope : ScopedLimit) (s : QuotaStore)
    → IsReplay s
    → IsReplay (get_usage ctx now scope s).0
unfolding get_usage
get_usage-IsReplay ctx now scope s v = elim (Bool-cases (is_done ctx)) [
  | inl h ↦ rw (h, get_usage) v
  | inr h ↦ rw (h, get_usage) (cleanup_expired-IsReplay now s v)
]

step-IsReplay : (s : QuotaStore) (c : Call) → IsReplay s → IsReplay (step s c)
unfolding step
step-IsReplay s (reserves ctx r id scopes e ttl) v = reserve-IsReplay ctx r id scopes e ttl s v
step-IsReplay s (tops_up ctx r ticket delta ttl) v = top_up-IsReplay ctx r ticket s v delta ttl
step-IsReplay s (commits ctx r ticket a) v = commit-IsReplay ctx r ticket s v a
step-IsReplay s (refunds ctx r ticket) v = refund-IsReplay ctx r ticket s v
step-IsReplay s (reports ctx now scope) v = get_usage-IsReplay ctx now scope s v

run-IsReplay : (s : QuotaStore) (calls : List Call) → IsReplay s → IsReplay (run s calls)
unfolding run
run-IsReplay s [] v = v
run-IsReplay s (c ∷ calls) v = run-IsReplay (step s c) calls (step-IsReplay s c v)

new_memory_quota_store-IsReplay : IsReplay new_memory_quota_store
unfolding new_memory_quota_store lookup
new_memory_quota_store-IsReplay = record {
  links = record { linked = λ id st e. cc; distinct = tt };
  fresh = tt;
  bounded = omega arith;
}

-- After every history of calls on a new store, at most 65,536 settlements are remembered, and each
-- of them points to an element of its own in the list of settled requests.
pub run-settlements : (calls : List Call) → IsReplay (run new_memory_quota_store calls)
run-settlements calls = run-IsReplay new_memory_quota_store calls new_memory_quota_store-IsReplay
