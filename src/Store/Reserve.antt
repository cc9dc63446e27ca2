-- ===== src/Store/Reserve.antt =====
-- `Reserve` of `MemoryQuotaStore` (store/store.go). Each operation holds the store's lock
-- throughout, so it is one step from a store to a store.
use llmgw.Base.{
  ℕ, suc, ℤ, String, String-discrete, if◌then◌else◌, Bool, true, false, ◌&&◌, Option, none, some,
  List, [], ◌∷◌, lookup, ite,
}
use llmgw.Store.Usage.{
  ScopeRef-discrete, LimitSpec-discrete, ScopedLimit, EstimatedUsage, EstimatedUsage-discrete,
  QuotaTicket, normalize_estimated_usage, normalize_reservation_ttl,
}
use llmgw.Store.Clock.{add_time}
use llmgw.Store.State.{
  ScopeReservation, Reservation, QuotaStore, Readings, resolve_scope_reservations, scoped_refs,
}
use llmgw.Store.Settlements.{is_empty_id}
use llmgw.Store.Holds.{Dimension, check_scope, apply_scope_hold}
use llmgw.Store.Outcome.{
  Result, ok, err, context_done, reservation_conflict, quota_exceeded, Context,
}
use llmgw.Store.Cleanup.{put_reservation, cleanup_expired}

abbrev pub same_scope : ScopeReservation → ScopeReservation → Bool
same_scope a b =
    ite (ScopeRef-discrete a.ref b.ref) true false
    && ite (LimitSpec-discrete a.limit b.limit) true false

unfoldable pub same_reservation_scopes : List ScopeReservation → List ScopeReservation → Bool
same_reservation_scopes [] [] = true
same_reservation_scopes (a ∷ as') (b ∷ bs) = same_scope a b && same_reservation_scopes as' bs
same_reservation_scopes _ _ = false

-- The first scope that refuses decides.
unfoldable pub check_scopes :
    QuotaStore → List ScopeReservation → EstimatedUsage → ℕ → Bool → Option Dimension
unfolding check_scope
check_scopes s [] estimate now top_up = none
check_scopes s (scope ∷ scopes) estimate now top_up =
    elim (check_scope s scope estimate now top_up) [
      | some d ↦ some d
      | none ↦ check_scopes s scopes estimate now top_up
    ]

unfoldable pub apply_holds :
    (ℕ → ℕ → ℕ) → List ScopeReservation → EstimatedUsage → ℕ → Bool → QuotaStore → QuotaStore
unfolding apply_scope_hold
apply_holds later [] estimate now top_up s = s
apply_holds later (scope ∷ scopes) estimate now top_up s =
    apply_holds (λ i. later (suc i)) scopes estimate now top_up
      (apply_scope_hold (later 0) scope estimate now top_up s)

abbrev pub new_reservation : String → List ScopeReservation → EstimatedUsage → ℕ → ℤ → Reservation
new_reservation id scopes estimate now ttl = record {
  ticket = record { request_id = id; scopes = scoped_refs scopes };
  held = estimate;
  scopes = scopes;
  expires = add_time now (normalize_reservation_ttl ttl);
}

-- A request without a reservation: every scope is checked before any is held.
unfoldable pub admit :
    Readings
    → String
    → List ScopeReservation
    → EstimatedUsage
    → ℤ
    → QuotaStore
    → QuotaStore × Result QuotaTicket
unfolding check_scopes apply_holds scoped_refs normalize_reservation_ttl
admit r id scopes estimate ttl s =
    let res = new_reservation id scopes estimate r.now ttl in
    elim (check_scopes s scopes estimate r.now false) [
      | some d ↦ (s, err (quota_exceeded d))
      | none ↦ (
        put_reservation id res (apply_holds r.later scopes estimate r.now false s),
        ok res.ticket,
      )
    ]

-- A retry of a reservation must ask for the same.
unfoldable pub replay :
    Reservation
    → List ScopeReservation
    → EstimatedUsage
    → QuotaStore
    → QuotaStore × Result QuotaTicket
unfolding same_reservation_scopes
replay existing scopes estimate s =
    if ite (EstimatedUsage-discrete existing.held estimate) true false
      && same_reservation_scopes existing.scopes scopes
    then (s, ok existing.ticket)
    else (s, err reservation_conflict)

-- `Reserve` once the store is cleaned.
unfoldable pub reserve_cleaned :
    Readings
    → String
    → List ScopeReservation
    → EstimatedUsage
    → ℤ
    → QuotaStore
    → QuotaStore × Result QuotaTicket
unfolding admit replay
reserve_cleaned r id scopes estimate ttl s = elim (lookup String-discrete id s.settlements) [
  | some _ ↦ (s, err reservation_conflict)
  | none ↦ elim (lookup String-discrete id s.reservations) [
    | some existing ↦ replay existing scopes estimate s
    | none ↦ admit r id scopes estimate ttl s
  ]
]

abbrev pub empty_ticket : QuotaTicket
empty_ticket = record { request_id = ""; scopes = [] }

unfoldable pub reserve :
    Context
    → Readings
    → String
    → List ScopedLimit
    → EstimatedUsage
    → ℤ
    → QuotaStore
    → QuotaStore × Result QuotaTicket
unfolding cleanup_expired reserve_cleaned normalize_estimated_usage resolve_scope_reservations
reserve ctx r id scopes estimate ttl s =
    if ctx.done_at_start
    then (s, err context_done)
    else if is_empty_id id
    then (s, ok empty_ticket)
    else if ctx.done_when_locked
    then (s, err context_done)
    else reserve_cleaned r id (resolve_scope_reservations scopes r.now)
        (normalize_estimated_usage estimate) ttl (cleanup_expired r.now s)
