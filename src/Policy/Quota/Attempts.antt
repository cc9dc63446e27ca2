-- ===== src/Policy/Quota/Attempts.antt =====
-- The reservation of provider calls (policy/quota.go, the functions that Quota.Wrap gives to
-- SetAttemptReservation, SetAttemptReservationRelease and SetAttemptReservationReconcile). Each runs
-- under the reservation's lock, so it is one step. The answer of the store to a top-up is an argument;
-- the metrics are left out.
pub mod Money
pub mod Kept
pub mod Spend
use llmgw.Base.{
  ℤ, pos, String, String-discrete, List, [], ◌∷◌, Option, none, some, Bool, true, false, ◌&&◌, ◌||◌,
  not, ltb_ℤ, eqb_ℤ, ◌-ℤ◌, ite, lookup, if◌then◌else◌,
}
use llmgw.Amounts.{zero64, positive_token_total}
use llmgw.Store.Usage.{EstimatedUsage, ActualUsage, estimated_total_tokens}
use llmgw.Gateway.Errors.{
  Failure, ContextError, new_error, with_disposition, as_failure, disallow_fallback,
}
use llmgw.Gateway.Usage.{Usage, is_zero_usage}
use llmgw.Policy.Quota.{consume_reservation_credit, estimated_usage_for_route, is_overage}

-- `attempts` are the calls with their estimates, and `credit` what is held and not used by one.
pub record AttemptReservations : Type 0 where
  pub reserve : EstimatedUsage
  pub credit : EstimatedUsage
  pub attempts : List (String × EstimatedUsage)

abbrev pub no_usage : EstimatedUsage
no_usage = record {
  input_tokens = zero64;
  reserved_output_tokens = zero64;
  estimated_spend_micros = zero64;
}

abbrev pub no_reservations : AttemptReservations
no_reservations = record { reserve = no_usage; credit = no_usage; attempts = [] }

-- An error of the store, with ctx.Err() if that is its cause.
abbrev pub quota_store_unavailable : Failure
quota_store_unavailable = as_failure (
    with_disposition false false false (
      new_error (pos 503) "server_error" "quota_store_unavailable"
        "quota admission is temporarily unavailable"))

abbrev pub api_or_unavailable : Failure → Failure
api_or_unavailable e = elim e.api_error [ none ↦ quota_store_unavailable | some _ ↦ e ]

unfoldable pub quota_admission_error : Option ContextError → Failure → Failure
quota_admission_error (some c) e = e
quota_admission_error none e = api_or_unavailable e

-- What a call is estimated to use: by its route's estimate, or else by the request's.
module _ {P : Type 0} (spend : P → Usage → ℤ) where
  unfoldable pub attempt_delta : Option P → Usage → Usage → EstimatedUsage
  unfolding estimated_usage_for_route
  attempt_delta pricing route_estimate request_estimate =
      let delta = estimated_usage_for_route spend pricing route_estimate in
      if eqb_ℤ (estimated_total_tokens delta) zero64
        && eqb_ℤ delta.estimated_spend_micros zero64
        && not (is_zero_usage request_estimate)
      then estimated_usage_for_route spend pricing request_estimate
      else delta

abbrev pub add_usage : EstimatedUsage → EstimatedUsage → EstimatedUsage
add_usage u d = record {
  input_tokens = positive_token_total u.input_tokens d.input_tokens;
  reserved_output_tokens = positive_token_total u.reserved_output_tokens d.reserved_output_tokens;
  estimated_spend_micros = positive_token_total u.estimated_spend_micros d.estimated_spend_micros;
}

-- delete(reservedAttempts, id): no two entries have one key.
abbrev pub delete_attempt : String → List (String × EstimatedUsage) → List (String × EstimatedUsage)
delete_attempt id [] = []
delete_attempt id ((key, u) ∷ attempts) =
    ite (String-discrete id key) attempts ((key, u) ∷ delete_attempt id attempts)

-- A top-up that is needed, and the store refuses it.
abbrev pub refused_by : EstimatedUsage → Option Failure → Option Failure
refused_by delta answer = if is_overage delta then answer else none

abbrev pub reserved_with :
    Option Failure
    → String
    → EstimatedUsage
    → EstimatedUsage × EstimatedUsage
    → AttemptReservations
    → AttemptReservations × Option Failure
reserved_with (some e) id delta split s = (s, some e)
reserved_with none id delta split s = (
  record {
    reserve = add_usage s.reserve split.0;
    credit = split.1;
    attempts = (id, delta) ∷ s.attempts;
  },
  none,
)

abbrev pub reserved_once :
    Option EstimatedUsage
    → String
    → EstimatedUsage
    → Option Failure
    → AttemptReservations
    → AttemptReservations × Option Failure
reserved_once (some _) id delta answer s = (s, none)
reserved_once none id delta answer s =
    let split = consume_reservation_credit delta s.credit in
    reserved_with (refused_by split.0 answer) id delta split s

-- A call is reserved once. `answer` is the store's error, as `quotaAdmissionError` gives it.
unfoldable pub reserve_attempt :
    String
    → EstimatedUsage
    → Option Failure
    → AttemptReservations
    → AttemptReservations × Option Failure
unfolding consume_reservation_credit positive_token_total
reserve_attempt id delta answer s =
    reserved_once (lookup String-discrete id s.attempts) id delta answer s

abbrev pub released_from :
    Option EstimatedUsage → String → AttemptReservations → AttemptReservations
released_from none id s = s
released_from (some estimate) id s = record s {
  credit = add_usage s.credit estimate;
  attempts = delete_attempt id s.attempts;
}

unfoldable pub release_attempt : String → AttemptReservations → AttemptReservations
unfolding positive_token_total
release_attempt id s = released_from (lookup String-discrete id s.attempts) id s

-- The excess of a number over another one.
abbrev pub excess : ℤ → ℤ → ℤ
excess a b = if ltb_ℤ b a then a -ℤ b else zero64

abbrev pub overage_of : EstimatedUsage → ActualUsage → EstimatedUsage
overage_of estimate actual = record {
  input_tokens =
      excess (positive_token_total actual.input_tokens actual.output_tokens)
        (positive_token_total estimate.input_tokens estimate.reserved_output_tokens);
  reserved_output_tokens = zero64;
  estimated_spend_micros = excess actual.spend_micros estimate.estimated_spend_micros;
}

abbrev pub add_excess : ℤ → ℤ → ℤ → ℤ
add_excess credit a b = if ltb_ℤ b a then positive_token_total credit (a -ℤ b) else credit

abbrev pub unused_credit : EstimatedUsage → EstimatedUsage → ActualUsage → EstimatedUsage
unused_credit credit estimate actual = record credit {
  input_tokens =
      add_excess credit.input_tokens
        (positive_token_total estimate.input_tokens estimate.reserved_output_tokens)
        (positive_token_total actual.input_tokens actual.output_tokens);
  estimated_spend_micros =
      add_excess credit.estimated_spend_micros estimate.estimated_spend_micros actual.spend_micros;
}

abbrev pub reconciled_with :
    Option Failure
    → String
    → EstimatedUsage
    → ActualUsage
    → AttemptReservations
    → AttemptReservations × Option Failure
reconciled_with (some e) id estimate actual s = (s, some (disallow_fallback e))
reconciled_with none id estimate actual s =
    let overage = overage_of estimate actual in
    (
      record {
        reserve = if is_overage overage then add_usage s.reserve overage else s.reserve;
        credit = unused_credit s.credit estimate actual;
        attempts = delete_attempt id s.attempts;
      },
      none,
    )

abbrev pub reconciled :
    Option EstimatedUsage
    → String
    → ActualUsage
    → Option Failure
    → AttemptReservations
    → AttemptReservations × Option Failure
reconciled none id actual answer s = (s, none)
reconciled (some estimate) id actual answer s =
    reconciled_with (refused_by (overage_of estimate actual) answer) id estimate actual s

unfoldable pub reconcile_attempt :
    String
    → ActualUsage
    → Option Failure
    → AttemptReservations
    → AttemptReservations × Option Failure
unfolding positive_token_total
reconcile_attempt id actual answer s =
    reconciled (lookup String-discrete id s.attempts) id actual answer s

pub data ReservationOperation : Type 0 where
  reserves : String → EstimatedUsage → (answer : Option Failure) → ReservationOperation
  releases : String → ReservationOperation
  reconciles : String → ActualUsage → (answer : Option Failure) → ReservationOperation

unfoldable pub perform :
    ReservationOperation → AttemptReservations → AttemptReservations × Option Failure
unfolding reserve_attempt release_attempt reconcile_attempt
perform (reserves id delta answer) s = reserve_attempt id delta answer s
perform (releases id) s = (release_attempt id s, none)
perform (reconciles id actual answer) s = reconcile_attempt id actual answer s
