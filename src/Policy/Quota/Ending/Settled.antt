-- ===== src/Policy/Quota/Ending/Settled.antt =====
-- However a request ends, its reservation does not stay (policy/quota.go, on the store of
-- store/store.go).
use llmgw.Base.{
  ℕ, ℤ, ◌≡◌, ◌∙◌, refl, ap, String, String-discrete, List, Option, none, some, Bool, true, false,
  lookup, remove, lookup-remove, ite-holds, Option-cases, inl, inr, arith,
}
use llmgw.Store.Usage.{EstimatedUsage, ActualUsage, QuotaTicket}
use llmgw.Store.State.{QuotaStore, Reservation, Readings}
use llmgw.Store.Settlements.{
  is_empty_id, record_settlement, push_settlement, cleanup_settlements, trim_settlements,
}
use llmgw.Store.Outcome.{Context, is_done}
use llmgw.Store.Cleanup.{cleanup_expired, drop_reservation}
use llmgw.Store.Settle.{settle, commit, commit_reservation, refund, refund_reservation}
use llmgw.Policy.Quota.{settle_reserved}
use llmgw.Policy.Quota.Ending.{settle_with}

-- No reservation has the given id.
abbrev pub IsGone : String → QuotaStore → Type 0
IsGone id s = lookup String-discrete id s.reservations ≡ none

lookup-removed :
    (id : String) (rs : List (String × Reservation))
    → lookup String-discrete id (remove String-discrete id rs) ≡ none
lookup-removed id rs =
    lookup-remove String-discrete id id rs
    ∙ ite-holds (λ x. x ≡ none) (String-discrete id id) none _ (λ _. refl) (λ n. absurd (n refl))

reservations-record_settlement :
    (id : String) (expired : Bool) (now : ℕ) (s : QuotaStore)
    → (record_settlement id expired now s).reservations ≡ s.reservations
unfolding record_settlement push_settlement cleanup_settlements trim_settlements
reservations-record_settlement id expired now s = ground arith

settle-IsGone : (id : String) (now : ℕ) (s : QuotaStore) → IsGone id (settle id now s)
settle-IsGone id now s =
    ap (lookup String-discrete id)
      (reservations-record_settlement id false now (drop_reservation id s))
    ∙ lookup-removed id s.reservations

module _ (ctx : Context) (r : Readings) (ticket : QuotaTicket) (s : QuotaStore) where
  commit-IsGone :
      (actual : ActualUsage)
      → is_done ctx ≡ false
      → is_empty_id ticket.request_id ≡ false
      → IsGone ticket.request_id (commit ctx r ticket actual s).0
  unfolding commit commit_reservation
  commit-IsGone actual h k =
      elim (Option-cases
        (lookup String-discrete ticket.request_id (cleanup_expired r.now s).reservations)) [
          | inl l ↦ rw (h, k, l, commit) l
          | inr (res, l) ↦ rw (h, k, l, commit) (settle-IsGone ticket.request_id r.now _)
        ]

  refund-IsGone :
      is_done ctx ≡ false
      → is_empty_id ticket.request_id ≡ false
      → IsGone ticket.request_id (refund ctx r ticket s).0
  unfolding refund refund_reservation
  refund-IsGone h k =
      elim (Option-cases
        (lookup String-discrete ticket.request_id (cleanup_expired r.now s).reservations)) [
          | inl l ↦ rw (h, k, l, refund) l
          | inr (res, l) ↦ rw (h, k, l, refund) (settle-IsGone ticket.request_id r.now _)
        ]

-- A committed settlement ends in a commit, after a top-up or without one, and another in a refund.
pub settle_with-IsGone :
    (first second : Context × Readings) (ticket : QuotaTicket) (held : EstimatedUsage) (ttl : ℤ)
    (o : Option (ActualUsage × Bool)) (s : QuotaStore)
    → is_done first.0 ≡ false
    → is_done second.0 ≡ false
    → is_empty_id ticket.request_id ≡ false
    → IsGone ticket.request_id (settle_with first second ticket held ttl o s).0
unfolding settle_reserved
settle_with-IsGone first second ticket held ttl none s h g k =
    refund-IsGone first.0 first.1 ticket s h k
settle_with-IsGone first second ticket held ttl (some (actual, true)) s h g k =
    commit-IsGone second.0 second.1 ticket _ actual g k
settle_with-IsGone first second ticket held ttl (some (actual, false)) s h g k =
    refund-IsGone first.0 first.1 ticket s h k
