-- ===== src/Policy/Quota/Ending/Used.antt =====
-- What a request is settled with when it ends (policy/quota.go, on the store of store/store.go).
use llmgw.Base.{
  ℤ, ◌≡◌, ◌≢◌, refl, sym, subst, Option, some, Bool, true, false, not, ◌||◌, ltb_ℤ, if-holds, ◌⊎◌,
  inl, inr, if◌then◌else◌,
}
use llmgw.Amounts.{zero64}
use llmgw.Store.Usage.{EstimatedUsage, ActualUsage, QuotaTicket}
use llmgw.Store.State.{QuotaStore, Readings}
use llmgw.Store.Settlements.{is_empty_id}
use llmgw.Store.Outcome.{Context, is_done, Result, ok}
use llmgw.Store.TopUp.{top_up}
use llmgw.Store.Settle.{commit, refund}
use llmgw.Gateway.Usage.{Usage}
use llmgw.Gateway.Dispatch.{
  ExecutionStage, no_stage, reserved, dispatched, first_byte, completed, failed, aborted,
}
use llmgw.Policy.Quota.{
  has_actual_usage, quota_top_up_delta, settled_quota_usage, settle_reserved, is_overage,
  is_started,
}
use llmgw.Policy.Quota.Ending.{
  RequestEnd, panics, fails, without_execution, finalizes, is_failed_call, or_settled, settled_by,
  settle_with, end_request,
}
use llmgw.Policy.Quota.Ending.Settled.{IsGone, settle_with-IsGone}
use llmgw.Policy.Quota.Ending.Uses.{
  CountsSomething, CountsNothing, CompletesAs, as_failed, as_done, Uses, panicked, denied, of_calls,
  of_execution,
}

module _ (first second : Context × Readings) (ticket : QuotaTicket) (held : EstimatedUsage)
    (ttl : ℤ) (s : QuotaStore) where
  -- The last call of the store is a Commit of the usage, on the store as it was or as a TopUp by what
  -- the usage exceeds the reservation by has left it.
  abbrev pub Committed : ActualUsage → QuotaStore × Result (Unit {0}) × Result (Unit {0}) → Type 0
  Committed a final =
      (before : QuotaStore) × ((before ≡ s)
        ⊎ (before ≡ (top_up first.0 first.1 ticket (quota_top_up_delta held a) ttl s).0))
      × (final.0 ≡ (commit second.0 second.1 ticket a before).0)
      × (final.2 ≡ (commit second.0 second.1 ticket a before).1)

  abbrev pub Refunded : QuotaStore × Result (Unit {0}) × Result (Unit {0}) → Type 0
  Refunded final =
      (final.0 ≡ (refund first.0 first.1 ticket s).0)
      × (final.2 ≡ (refund first.0 first.1 ticket s).1)

  -- Usage is committed; without any, the reservation is refunded, or nothing is committed.
  abbrev pub IsSettled :
      {P : Type 0}
      → (P → Usage → ℤ)
      → RequestEnd P
      → QuotaStore × Result (Unit {0}) × Result (Unit {0})
      → Type 0
  IsSettled spend e final =
      ((a : ActualUsage) × Uses spend e a × CountsSomething a × Committed a final)
      ⊎ ((e ≡ without_execution) × Refunded final)
      ⊎ ((a : ActualUsage) × Uses spend e a
          × CountsNothing a
          × (Refunded final ⊎ Committed a final))

  settle_with-Committed :
      (a : ActualUsage) → Committed a (settle_with first second ticket held ttl (some (a, true)) s)
  unfolding settle_reserved
  settle_with-Committed a =
      let delta = quota_top_up_delta held a in
      let topped = top_up first.0 first.1 ticket delta ttl s in
      let grown : QuotaStore × Result (Unit {0}) =
        if is_overage delta then topped else (s, ok tt) in
      (
        grown.0,
        if-holds (λ (g : QuotaStore × Result (Unit {0})). (g.0 ≡ s) ⊎ (g.0 ≡ topped.0))
            (is_overage delta) topped (s, ok tt) (λ _. inr refl) (λ _. inl refl),
        refl,
        refl,
      )

  settle_with-Refunded :
      (a : ActualUsage) → Refunded (settle_with first second ticket held ttl (some (a, false)) s)
  unfolding settle_reserved
  settle_with-Refunded a = (refl, refl)

  usage_cases :
      (a : ActualUsage)
      → ((has_actual_usage a ≡ true) × CountsSomething a)
        ⊎ ((has_actual_usage a ≡ false) × CountsNothing a)
  unfolding has_actual_usage
  usage_cases a =
      three (ltb_ℤ zero64 a.input_tokens) (ltb_ℤ zero64 a.output_tokens)
        (ltb_ℤ zero64 a.spend_micros)
    where
      three :
          (x y z : Bool)
          → (((x || y || z) ≡ true) × ((x ≡ true) ⊎ (y ≡ true) ⊎ (z ≡ true)))
            ⊎ (((x || y || z) ≡ false) × ((not x ≡ true) × (not y ≡ true) × (not z ≡ true)))
      three true y z = inl (refl, inl refl)
      three false true z = inl (refl, inr (inl refl))
      three false false true = inl (refl, inr (inr refl))
      three false false false = inr (refl, (refl, refl, refl))

  module _ {P : Type 0} (spend : P → Usage → ℤ) where
    settle_with-IsSettled :
        (e : RequestEnd P) (a : ActualUsage) (is_commit : Bool)
        → Uses spend e a
        → (has_actual_usage a ≡ false) ⊎ (is_commit ≡ true)
        → IsSettled spend e (settle_with first second ticket held ttl (some (a, is_commit)) s)
    settle_with-IsSettled e a true u k = elim (usage_cases a) [
      | inl (h, c) ↦ inl (a, u, c, settle_with-Committed a)
      | inr (h, c) ↦ inr (inr (a, u, c, inr (settle_with-Committed a)))
    ]
    settle_with-IsSettled e a false u (inr k) = absurd cc
    settle_with-IsSettled e a false u (inl k) = elim (usage_cases a) [
      | inl (h, c) ↦ absurd (true_false h k)
      | inr (h, c) ↦ inr (inr (a, u, c, inl (settle_with-Refunded a)))
    ]
      where
        true_false : {b : Bool} → b ≡ true → b ≢ false
        true_false p = λ q. cc

    completes : (c : Bool) (stage : ExecutionStage) → CompletesAs c stage (is_failed_call c stage)
    completes true stage = as_failed (inl refl)
    completes false no_stage = as_done refl (λ h. cc) (λ h. cc)
    completes false reserved = as_done refl (λ h. cc) (λ h. cc)
    completes false dispatched = as_done refl (λ h. cc) (λ h. cc)
    completes false first_byte = as_done refl (λ h. cc) (λ h. cc)
    completes false completed = as_done refl (λ h. cc) (λ h. cc)
    completes false failed = as_failed (inr (inr refl))
    completes false aborted = as_failed (inr (inl refl))

    used_or_not : (used : Bool) → (used ≡ false) ⊎ (used ≡ true)
    used_or_not true = inr refl
    used_or_not false = inl refl

    last_used : (a b used : Bool) → (used ≡ false) ⊎ ((a || b || used) ≡ true)
    last_used a b false = inl refl
    last_used true b true = inr refl
    last_used false true true = inr refl
    last_used false false true = inr refl

    finalizes-Uses :
        (c : Bool) (stage : ExecutionStage) (p : Option P) (u : Usage) (own : EstimatedUsage)
        (attempts : Bool → ActualUsage)
        → Uses spend (finalizes c stage p u own attempts) (
            or_settled
              (attempts (is_failed_call c stage))
              (settled_quota_usage spend stage p u own))
    finalizes-Uses c stage p u own attempts =
        let f = is_failed_call c stage in
        let e = finalizes c stage p u own attempts in
        elim (usage_cases (attempts f)) [
          | inl (h, k) ↦
              subst
                (λ b.
                  Uses spend e (if b then attempts f else settled_quota_usage spend stage p u own))
                (sym h) (of_calls c stage p u own attempts f (completes c stage) k)
          | inr (h, k) ↦
              subst
                (λ b.
                  Uses spend e (if b then attempts f else settled_quota_usage spend stage p u own))
                (sym h) (of_execution c stage p u own attempts f (completes c stage) k)
        ]

    settled_by-IsSettled :
        (e : RequestEnd P)
        → IsSettled spend e (settle_with first second ticket held ttl (settled_by spend e) s)
    unfolding settled_by
    settled_by-IsSettled (panics a) =
        settle_with-IsSettled (panics a) a _ (panicked a) (used_or_not (has_actual_usage a))
    settled_by-IsSettled (fails a) =
        settle_with-IsSettled (fails a) a _ (denied a) (used_or_not (has_actual_usage a))
    settled_by-IsSettled without_execution = inr (inl (refl, (refl, refl)))
    settled_by-IsSettled (finalizes c stage p u own attempts) =
        settle_with-IsSettled (finalizes c stage p u own attempts) _ _
          (finalizes-Uses c stage p u own attempts) (last_used (not c) (is_started stage) _)

-- However a request ends (its handler panics, fails, or returns no execution, or the execution is
-- finalized, with an error or not and at any stage): if it has used any tokens or money, the last call
-- of the store is a Commit of this usage, after a TopUp by what it exceeds the reservation by or
-- without one, and its answer is returned; otherwise the reservation is refunded, or a usage of nothing
-- committed. What is used is what the calls used, or, for an execution whose calls used nothing, what
-- it is settled with by its own usage and estimate. And after the settlement the store has no
-- reservation of the request, whatever these calls answer. Their contexts are live, and the request
-- has an id.
pub end_request-IsSettled :
    {P : Type 0} (spend : P → Usage → ℤ) (first second : Context × Readings) (ticket : QuotaTicket)
    (held : EstimatedUsage) (ttl : ℤ) (e : RequestEnd P) (s : QuotaStore)
    → is_done first.0 ≡ false
    → is_done second.0 ≡ false
    → is_empty_id ticket.request_id ≡ false
    → IsSettled first second ticket held ttl s spend e
        (end_request first second ticket held ttl spend e s)
      × IsGone ticket.request_id (end_request first second ticket held ttl spend e s).0
unfolding end_request
end_request-IsSettled spend first second ticket held ttl e s h g k = (
  settled_by-IsSettled first second ticket held ttl s spend e,
  settle_with-IsGone first second ticket held ttl (settled_by spend e) s h g k,
)
