-- ===== src/Store/Denial.antt =====
-- What a failed call on `MemoryQuotaStore` (store/store.go) leaves behind.
use llmgw.Base.{ℕ, ◌≡◌, ℤ, String, List, Bool, true, false, ◌⊎◌, arith}
use llmgw.Store.Usage.{EstimatedUsage, normalize_estimated_usage}
use llmgw.Store.State.{
  QuotaStore, Reservation, ScopeReservation, Readings, resolve_scope_reservations,
}
use llmgw.Store.Outcome.{Result, ok, err}
use llmgw.Store.Cleanup.{cleanup_expired}
use llmgw.Store.Reserve.{admit, reserve_cleaned, reserve}
use llmgw.Store.TopUp.{top_up, top_up_reservation}
use llmgw.Store.Settle.{commit, refund}
use llmgw.Store.Report.{get_usage}
use llmgw.Store.Ledger.Operations.{replay-keeps}
use llmgw.Store.History.{Call, reserves, tops_up, commits, refunds, reports, step}

abbrev pub is_err : {A : Type 0} → Result A → Bool
is_err (ok a) = false
is_err (err e) = true

-- Does the call return an error?
unfoldable pub fails : QuotaStore → Call → Bool
fails s (reserves ctx r id scopes e ttl) = is_err (reserve ctx r id scopes e ttl s).1
fails s (tops_up ctx r ticket delta ttl) = is_err (top_up ctx r ticket delta ttl s).1
fails s (commits ctx r ticket a) = is_err (commit ctx r ticket a s).1
fails s (refunds ctx r ticket) = is_err (refund ctx r ticket s).1
fails s (reports ctx now scope) = is_err (get_usage ctx now scope s).1

abbrev pub time_of : Call → ℕ
time_of (reserves ctx r id scopes e ttl) = r.now
time_of (tops_up ctx r ticket delta ttl) = r.now
time_of (commits ctx r ticket a) = r.now
time_of (refunds ctx r ticket) = r.now
time_of (reports ctx now scope) = now

reserve_cleaned-fails :
    (r : Readings) (id : String) (scopes : List ScopeReservation) (e : EstimatedUsage) (ttl : ℤ)
    (s : QuotaStore)
    → is_err (reserve_cleaned r id scopes e ttl s).1 ≡ true
    → (reserve_cleaned r id scopes e ttl s).0 ≡ s
unfolding reserve_cleaned admit
reserve_cleaned-fails r id scopes e ttl s h =
    ground (arith, λ (existing : Reservation). replay-keeps existing scopes e s)

top_up_reservation-fails :
    (r : Readings) (id : String) (res : Reservation) (delta : EstimatedUsage) (ttl : ℤ)
    (s : QuotaStore)
    → is_err (top_up_reservation r id res delta ttl s).1 ≡ true
    → (top_up_reservation r id res delta ttl s).0 ≡ s
unfolding top_up_reservation
top_up_reservation-fails r id res delta ttl s h = ground arith

-- Every call that returns an error leaves the store as it was, or as the removal of what had
-- expired leaves it: nothing is held, charged, released or settled for a call that is denied.
pub step-fails :
    (s : QuotaStore) (c : Call)
    → fails s c ≡ true
    → (step s c ≡ s) ⊎ (step s c ≡ cleanup_expired (time_of c) s)
unfolding step fails reserve top_up commit refund get_usage
step-fails s (reserves ctx r id scopes e ttl) h = ground (
  arith,
  reserve_cleaned-fails r id (resolve_scope_reservations scopes r.now) (normalize_estimated_usage e)
      ttl (cleanup_expired r.now s),
)
step-fails s (tops_up ctx r ticket delta ttl) h = ground (
  arith,
  λ (res : Reservation).
      top_up_reservation-fails r ticket.request_id res (normalize_estimated_usage delta) ttl
        (cleanup_expired r.now s),
)
step-fails s (commits ctx r ticket a) h = ground arith
step-fails s (refunds ctx r ticket) h = ground arith
step-fails s (reports ctx now scope) h = ground arith
