-- ===== src/Policy/Quota/Ending.antt =====
-- How a request ends that holds a reservation (policy/quota.go, the end of Quota.Wrap). The store is the
-- one in memory; each of its calls has its context and its clock readings. The renewal of the
-- reservation, the metrics and the Finalize function of the inner handler are left out.
pub mod Settled
pub mod Uses
pub mod Used
use llmgw.Base.{ℤ, Option, none, some, Bool, true, false, ◌&&◌, ◌||◌, not, if◌then◌else◌}
use llmgw.Store.Usage.{EstimatedUsage, ActualUsage, QuotaTicket}
use llmgw.Store.State.{QuotaStore, Readings}
use llmgw.Store.Outcome.{Context, Result, ok}
use llmgw.Store.Settle.{refund}
use llmgw.Gateway.Usage.{Usage}
use llmgw.Gateway.Dispatch.{
  ExecutionStage, no_stage, reserved, dispatched, first_byte, completed, failed, aborted,
}
use llmgw.Policy.Quota.{
  has_actual_usage, settled_quota_usage, QuotaSettlement, settle_reserved, is_broken, is_started,
}

-- The handler panics, fails, returns no execution, or returns one that is finalized later, with the
-- error and the usage of its call, at a stage. `attempts` is `TotalAttemptUsage`, for an execution after
-- `CompleteResultUsage` with the given flag; `own_estimate` is `singleAttemptReserve`.
pub data RequestEnd (P : Type 0) : Type 0 where
  panics : (attempts : ActualUsage) → RequestEnd P
  fails : (attempts : ActualUsage) → RequestEnd P
  without_execution : RequestEnd P
  finalizes :
      (call_failed : Bool) (stage : ExecutionStage) (pricing : Option P) (actual : Usage)
      (own_estimate : EstimatedUsage) (attempts : Bool → ActualUsage)
      → RequestEnd P

-- Whether the result of an execution is completed as a failed one.
abbrev pub is_failed_call : Bool → ExecutionStage → Bool
is_failed_call call_failed stage = call_failed || is_broken stage

-- What the attempts used, or else what the execution is settled with.
abbrev pub or_settled : ActualUsage → ActualUsage → ActualUsage
or_settled attempts own = if has_actual_usage attempts then attempts else own

module _ {P : Type 0} (spend : P → Usage → ℤ) where
  -- What is settled, and whether it is committed; nothing without an execution.
  unfoldable pub settled_by : RequestEnd P → Option (ActualUsage × Bool)
  unfolding has_actual_usage settled_quota_usage
  settled_by (panics attempts) = some (attempts, has_actual_usage attempts)
  settled_by (fails attempts) = some (attempts, has_actual_usage attempts)
  settled_by without_execution = none
  settled_by (finalizes call_failed stage pricing actual own_estimate attempts) =
      let total =
        or_settled (attempts (is_failed_call call_failed stage))
          (settled_quota_usage spend stage pricing actual own_estimate) in
      some (total, not call_failed || is_started stage || has_actual_usage total)

module _ (first second : Context × Readings) (ticket : QuotaTicket) (held : EstimatedUsage)
    (ttl : ℤ) where
  -- Without an execution, the reservation is refunded.
  abbrev pub settle_with :
      Option (ActualUsage × Bool) → QuotaStore → QuotaStore × Result (Unit {0}) × Result (Unit {0})
  settle_with none s =
      let settled = refund first.0 first.1 ticket s in (settled.0, ok tt, settled.1)
  settle_with (some (actual, is_commit)) s =
      settle_reserved first second
        (record { ticket = ticket; held = held; actual = actual; ttl = ttl; is_commit = is_commit })
        s

  unfoldable pub end_request :
      {P : Type 0}
      → (P → Usage → ℤ)
      → RequestEnd P
      → QuotaStore
      → QuotaStore × Result (Unit {0}) × Result (Unit {0})
  unfolding settled_by settle_reserved refund
  end_request spend e s = settle_with (settled_by spend e) s
