-- ===== src/Store/TopUp.antt =====
-- `TopUp` of `MemoryQuotaStore` (store/store.go).
use llmgw.Base.{
  ℤ, String, String-discrete, if◌then◌else◌, Bool, true, ◌&&◌, none, some, lookup, eqb_ℤ,
}
use llmgw.Amounts.{zero64, saturating_add_nonnegative}
use llmgw.Store.Usage.{
  EstimatedUsage, QuotaTicket, estimated_total_tokens, normalize_estimated_usage,
  normalize_reservation_ttl,
}
use llmgw.Store.Clock.{add_time}
use llmgw.Store.State.{Reservation, QuotaStore, Readings}
use llmgw.Store.Settlements.{is_empty_id}
use llmgw.Store.Outcome.{
  Result, ok, err, context_done, reservation_not_found, quota_exceeded, Context, is_done,
}
use llmgw.Store.Cleanup.{put_reservation, cleanup_expired}
use llmgw.Store.Reserve.{check_scopes, apply_holds}

abbrev pub more_held : EstimatedUsage → EstimatedUsage → EstimatedUsage
more_held held delta = record {
  input_tokens = saturating_add_nonnegative held.input_tokens delta.input_tokens;
  reserved_output_tokens =
      saturating_add_nonnegative held.reserved_output_tokens delta.reserved_output_tokens;
  estimated_spend_micros =
      saturating_add_nonnegative held.estimated_spend_micros delta.estimated_spend_micros;
}

abbrev pub is_no_usage : EstimatedUsage → Bool
is_no_usage u = eqb_ℤ (estimated_total_tokens u) zero64 && eqb_ℤ u.estimated_spend_micros zero64

-- `TopUp` of a live reservation: nothing to add only renews it.
unfoldable pub top_up_reservation :
    Readings
    → String
    → Reservation
    → EstimatedUsage
    → ℤ
    → QuotaStore
    → QuotaStore × Result (Unit {0})
unfolding check_scopes apply_holds normalize_reservation_ttl estimated_total_tokens
    saturating_add_nonnegative
top_up_reservation r id res delta ttl s =
    let expires = add_time r.now (normalize_reservation_ttl ttl) in
    let renewed = put_reservation id (record res { expires = expires }) s in
    let grown = record res { held = more_held res.held delta; expires = expires } in
    if is_no_usage delta
    then (renewed, ok tt)
    else elim (check_scopes s res.scopes delta r.now true) [
      | some d ↦ (s, err (quota_exceeded d))
      | none ↦ (put_reservation id grown (apply_holds r.later res.scopes delta r.now true s), ok tt)
    ]

unfoldable pub top_up :
    Context
    → Readings
    → QuotaTicket
    → EstimatedUsage
    → ℤ
    → QuotaStore
    → QuotaStore × Result (Unit {0})
unfolding cleanup_expired top_up_reservation normalize_estimated_usage
top_up ctx r ticket delta ttl s =
    let cleaned = cleanup_expired r.now s in
    let id = ticket.request_id in
    if is_done ctx
    then (s, err context_done)
    else if is_empty_id id
    then (s, ok tt)
    else elim (lookup String-discrete id cleaned.reservations) [
      | none ↦ (cleaned, err reservation_not_found)
      | some res ↦ top_up_reservation r id res (normalize_estimated_usage delta) ttl cleaned
    ]
