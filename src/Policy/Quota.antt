-- ===== src/Policy/Quota.antt =====
-- The arithmetic of the quota policy (policy/quota.go) and the settlement of a reservation. `spend`
-- stands for `Pricing.SpendMicrosForUsage`, a float64 computation, on the prices `P` of a route.
pub mod Credit
pub mod Lifetime
pub mod Attempts
pub mod Ending
use llmgw.Base.{
  ℤ, pos, String, List, [], ◌∷◌, Option, none, some, Bool, true, false, ◌&&◌, ◌||◌, ltb_ℤ, leb_ℤ,
  eqb_ℤ, max_ℤ, min_ℤ, ◌+ℤ◌, ◌-ℤ◌, ◌*ℤ◌, ◌/ℤ◌, if◌then◌else◌,
}
use llmgw.Amounts.{zero64, max64, positive_token_total}
use llmgw.Store.Usage.{
  EstimatedUsage, ActualUsage, QuotaTicket, ScopedLimit, LimitSpec, estimated_total_tokens,
}
use llmgw.Store.State.{QuotaStore, Readings}
use llmgw.Store.Outcome.{Context, StoreError, Result, ok, err}
use llmgw.Store.TopUp.{top_up}
use llmgw.Store.Settle.{commit, refund}
use llmgw.Gateway.Route.{Route}
use llmgw.Gateway.Usage.{Usage, is_zero_usage}
use llmgw.Gateway.Dispatch.{
  ExecutionStage, no_stage, reserved, dispatched, first_byte, completed, failed, aborted,
}
use llmgw.Policy.Breaker.{thirty_seconds, route_attempt_count}

abbrev pub is_limited : LimitSpec → Bool
is_limited l =
    ltb_ℤ zero64 l.rpm
    || ltb_ℤ zero64 l.tpm
    || ltb_ℤ zero64 l.max_parallel
    || ltb_ℤ zero64 l.max_spend_micros
    || ltb_ℤ zero64 l.soft_spend_micros
    || ltb_ℤ zero64 l.daily_tokens
    || ltb_ℤ zero64 l.monthly_tokens

unfoldable pub has_quota_accounting : List ScopedLimit → Bool
has_quota_accounting [] = false
has_quota_accounting (scope ∷ scopes) = is_limited scope.limits || has_quota_accounting scopes

unfoldable pub has_actual_usage : ActualUsage → Bool
has_actual_usage u =
    ltb_ℤ zero64 u.input_tokens || ltb_ℤ zero64 u.output_tokens || ltb_ℤ zero64 u.spend_micros

abbrev pub settlement_buffer : ℤ
settlement_buffer = pos 10_000_000_000

abbrev pub timeout_of : Route → ℤ
timeout_of route = if leb_ℤ route.timeout zero64 then thirty_seconds else route.timeout

-- The loop of `quotaReservationTTL`, which stops at a sum that would not fit.
unfoldable pub required_ttl : ℤ → List Route → ℤ
unfolding route_attempt_count
required_ttl required [] = required
required_ttl required (route ∷ candidates) =
    let tries = route_attempt_count route.retries in
    let rest = required_ttl (required +ℤ timeout_of route *ℤ tries) candidates in
    if ltb_ℤ ((max64 -ℤ required) /ℤ tries) (timeout_of route) then max64 else rest

unfoldable pub quota_reservation_ttl : List Route → ℤ → ℤ
unfolding required_ttl
quota_reservation_ttl candidates configured =
    let required = required_ttl settlement_buffer candidates in
    if ltb_ℤ configured required then required else configured

-- What an actual usage exceeds its reservation by.
unfoldable pub quota_top_up_delta : EstimatedUsage → ActualUsage → EstimatedUsage
quota_top_up_delta held actual =
    let held_tokens = positive_token_total held.input_tokens held.reserved_output_tokens in
    let actual_tokens = positive_token_total actual.input_tokens actual.output_tokens in
    record {
      input_tokens =
          if ltb_ℤ held_tokens actual_tokens then actual_tokens -ℤ held_tokens else zero64;
      reserved_output_tokens = zero64;
      estimated_spend_micros =
          if ltb_ℤ held.estimated_spend_micros actual.spend_micros
          then actual.spend_micros -ℤ held.estimated_spend_micros
          else zero64;
    }

-- What a request wants beyond the credit that is available to it, and the credit that is left.
unfoldable pub consume_reservation_credit :
    EstimatedUsage → EstimatedUsage → EstimatedUsage × EstimatedUsage
consume_reservation_credit want available =
    let want_tokens = positive_token_total want.input_tokens want.reserved_output_tokens in
    let available_tokens =
      positive_token_total available.input_tokens available.reserved_output_tokens in
    let used_tokens = min_ℤ want_tokens available_tokens in
    let applied_tokens = want_tokens -ℤ used_tokens in
    let applied_input = min_ℤ want.input_tokens applied_tokens in
    let used_spend =
      min_ℤ (max_ℤ want.estimated_spend_micros zero64)
        (max_ℤ available.estimated_spend_micros zero64) in
    (
      record {
        input_tokens = applied_input;
        reserved_output_tokens = applied_tokens -ℤ applied_input;
        estimated_spend_micros = max_ℤ (want.estimated_spend_micros -ℤ used_spend) zero64;
      },
      record {
        input_tokens = available_tokens -ℤ used_tokens;
        reserved_output_tokens = zero64;
        estimated_spend_micros = max_ℤ (available.estimated_spend_micros -ℤ used_spend) zero64;
      },
    )

abbrev pub is_aborted : ExecutionStage → Bool
is_aborted aborted = true
is_aborted _ = false

abbrev pub is_started : ExecutionStage → Bool
is_started first_byte = true
is_started aborted = true
is_started _ = false

abbrev pub is_broken : ExecutionStage → Bool
is_broken aborted = true
is_broken failed = true
is_broken _ = false

-- The input and output tokens of `settledQuotaUsage`.
unfoldable pub settled_tokens : ExecutionStage → Usage → EstimatedUsage → ℤ × ℤ
settled_tokens stage actual held =
    let idle = is_zero_usage actual in
    let i0 = if idle then held.input_tokens else actual.input_tokens in
    let o0 = if idle then held.reserved_output_tokens else actual.output_tokens in
    let i1 = if eqb_ℤ i0 zero64 && is_started stage then held.input_tokens else i0 in
    let o1 = if eqb_ℤ o0 zero64 && is_broken stage then held.reserved_output_tokens else o0 in
    let i2 =
      if eqb_ℤ i1 zero64 && ltb_ℤ zero64 actual.total_tokens
      then actual.total_tokens -ℤ actual.output_tokens
      else i1 in
    let o2 =
      if eqb_ℤ o1 zero64 && ltb_ℤ i2 actual.total_tokens then actual.total_tokens -ℤ i2 else o1 in
    (if ltb_ℤ i2 zero64 then zero64 else i2, if ltb_ℤ o2 zero64 then zero64 else o2)

module _ {P : Type 0} (spend : P → Usage → ℤ) where
  abbrev pub spend_if : Option P → Usage → ℤ
  spend_if none usage = zero64
  spend_if (some pricing) usage = spend pricing usage

  unfoldable pub estimated_usage_for_route : Option P → Usage → EstimatedUsage
  estimated_usage_for_route pricing estimate = record {
    input_tokens = estimate.input_tokens;
    reserved_output_tokens = estimate.output_tokens;
    estimated_spend_micros = spend_if pricing estimate;
  }

  -- The prices are those of the execution's route, if it has one.
  unfoldable pub settled_quota_usage :
      ExecutionStage → Option P → Usage → EstimatedUsage → ActualUsage
  unfolding settled_tokens
  settled_quota_usage stage pricing actual held =
      let tokens = settled_tokens stage actual held in
      record {
        input_tokens = tokens.0;
        output_tokens = tokens.1;
        spend_micros = spend_if pricing (record actual {
          input_tokens = tokens.0;
          output_tokens = tokens.1;
          total_tokens = positive_token_total tokens.0 tokens.1;
        });
      }

pub record QuotaSettlement : Type 0 where
  pub ticket : QuotaTicket
  pub held : EstimatedUsage
  pub actual : ActualUsage
  pub ttl : ℤ
  pub is_commit : Bool

abbrev pub is_overage : EstimatedUsage → Bool
is_overage delta =
    ltb_ℤ zero64 (estimated_total_tokens delta) || ltb_ℤ zero64 delta.estimated_spend_micros

-- `settleReserved` on the memory store. Each store call has its context and its clock readings.
-- A top-up that fails does not keep the usage from being committed.
unfoldable pub settle_reserved :
    Context × Readings
    → Context × Readings
    → QuotaSettlement
    → QuotaStore
    → QuotaStore × Result (Unit {0}) × Result (Unit {0})
unfolding top_up commit refund quota_top_up_delta
settle_reserved first second settlement s =
    if settlement.is_commit
    then (let delta = quota_top_up_delta settlement.held settlement.actual in
        let grown =
          if is_overage delta
          then top_up first.0 first.1 settlement.ticket delta settlement.ttl s
          else (s, ok tt) in
        let settled = commit second.0 second.1 settlement.ticket settlement.actual grown.0 in
        (settled.0, grown.1, settled.1))
    else (let settled = refund first.0 first.1 settlement.ticket s in (settled.0, ok tt, settled.1))
