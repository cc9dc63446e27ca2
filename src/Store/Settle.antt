-- ===== src/Store/Settle.antt =====
-- `Commit` and `Refund` of `MemoryQuotaStore` (store/store.go).
use llmgw.Base.{
  ℕ, suc, String, String-discrete, if◌then◌else◌, false, Option, none, some, List, [], ◌∷◌, lookup,
}
use llmgw.Amounts.{zero64}
use llmgw.Store.Usage.{ActualUsage, QuotaTicket, actual_total_tokens, normalize_actual_usage}
use llmgw.Store.State.{ScopeReservation, Reservation, Settlement, QuotaStore, Readings}
use llmgw.Store.Settlements.{is_empty_id, record_settlement}
use llmgw.Store.Holds.{add_value, release_hold}
use llmgw.Store.Outcome.{Result, ok, err, context_done, reservation_not_found, Context, is_done}
use llmgw.Store.Cleanup.{drop_reservation, cleanup_expired}

unfoldable pub charge_scope : (ℕ → ℕ) → ScopeReservation → ActualUsage → QuotaStore → QuotaStore
unfolding add_value actual_total_tokens
charge_scope later scope actual s =
    let k = scope.keys in
    let e = scope.expires in
    let tokens = actual_total_tokens actual in
    add_value k.month_used_key tokens e.month_used_at (later 2) (
      add_value k.day_used_key tokens e.day_used_at (later 1)
        (add_value k.spend_used_key actual.spend_micros e.spend_used_at (later 0) s))

unfoldable pub charge_scopes :
    (ℕ → ℕ → ℕ) → List ScopeReservation → ActualUsage → QuotaStore → QuotaStore
unfolding charge_scope
charge_scopes later [] actual s = s
charge_scopes later (scope ∷ scopes) actual s =
    charge_scopes (λ i. later (suc i)) scopes actual (charge_scope (later 0) scope actual s)

abbrev pub settle : String → ℕ → QuotaStore → QuotaStore
settle id now s = record_settlement id false now (drop_reservation id s)

-- A ticket without a reservation was settled before, or is unknown.
abbrev pub settled_before : Option Settlement → Result (Unit {0})
settled_before none = err reservation_not_found
settled_before (some s) = if s.expired then err reservation_not_found else ok tt

unfoldable pub commit_reservation :
    Readings → String → Reservation → ActualUsage → QuotaStore → QuotaStore
unfolding release_hold charge_scopes record_settlement actual_total_tokens
commit_reservation r id res actual s = settle id r.now (
    charge_scopes r.later res.scopes actual (release_hold res (actual_total_tokens actual) r.now s))

unfoldable pub commit :
    Context → Readings → QuotaTicket → ActualUsage → QuotaStore → QuotaStore × Result (Unit {0})
unfolding cleanup_expired commit_reservation normalize_actual_usage
commit ctx r ticket actual s =
    let cleaned = cleanup_expired r.now s in
    let id = ticket.request_id in
    if is_done ctx
    then (s, err context_done)
    else if is_empty_id id
    then (s, ok tt)
    else elim (lookup String-discrete id cleaned.reservations) [
      | none ↦ (cleaned, settled_before (lookup String-discrete id cleaned.settlements))
      | some res ↦ (commit_reservation r id res (normalize_actual_usage actual) cleaned, ok tt)
    ]

unfoldable pub refund_reservation : Readings → String → Reservation → QuotaStore → QuotaStore
unfolding release_hold record_settlement
refund_reservation r id res s = settle id r.now (release_hold res zero64 r.now s)

unfoldable pub refund :
    Context → Readings → QuotaTicket → QuotaStore → QuotaStore × Result (Unit {0})
unfolding cleanup_expired refund_reservation
refund ctx r ticket s =
    let cleaned = cleanup_expired r.now s in
    let id = ticket.request_id in
    if is_done ctx
    then (s, err context_done)
    else if is_empty_id id
    then (s, ok tt)
    else elim (lookup String-discrete id cleaned.reservations) [
      | none ↦ (cleaned, settled_before (lookup String-discrete id cleaned.settlements))
      | some res ↦ (refund_reservation r id res cleaned, ok tt)
    ]
