-- ===== src/Examples/Quotas.antt =====
-- The arithmetic of policy/quota.go at concrete amounts, and a denied reservation.
use Prim.Native.Nat.{min, max}
use llmgw.Base.{
  ℕ, List, none, String-discrete, lookup, ◌-ℤ◌, ◌+ℤ◌, ◌+◌, ◌-◌, ◌≡◌, refl, pos, max_int64, [], ◌∷◌,
  arith,
}
use llmgw.Amounts.{zero64, positive_token_total, saturating_usage_add}
use llmgw.Store.Usage.{EstimatedUsage, ActualUsage, estimated_total_tokens}
use llmgw.Policy.Quota.{consume_reservation_credit, quota_top_up_delta, quota_reservation_ttl}
use llmgw.Policy.Quota.Credit.{tokens_of, consume_reservation_credit_lem, quota_top_up_delta_lem}
use llmgw.Policy.Quota.Lifetime.{quota_reservation_ttl_lem, time_of_all}
use llmgw.Examples.Routers.{slow_route}
use llmgw.Policy.Quota.Attempts.{
  no_reservations, ReservationOperation, reserves, releases, reconciles, perform,
}
use llmgw.Policy.Quota.Attempts.Kept.{spend_of, spends_of}
use llmgw.Policy.Quota.Attempts.Spend.{perform_all, settled_by, StaysBelow, perform_all-conserves}

abbrev wanted : EstimatedUsage
wanted = record {
  input_tokens = pos 100;
  reserved_output_tokens = pos 400;
  estimated_spend_micros = pos 50;
}

abbrev credit : EstimatedUsage
credit = record {
  input_tokens = pos 300;
  reserved_output_tokens = zero64;
  estimated_spend_micros = pos 80;
}

consume_reservation_credit_example :
    (positive_token_total
        (consume_reservation_credit wanted credit).0.input_tokens
        (consume_reservation_credit wanted credit).0.reserved_output_tokens
      ≡ pos (tokens_of (pos 100) (pos 400) - tokens_of (pos 300) zero64))
    × (positive_token_total
          (consume_reservation_credit wanted credit).1.input_tokens
          (consume_reservation_credit wanted credit).1.reserved_output_tokens
        ≡ pos (tokens_of (pos 300) zero64 - tokens_of (pos 100) (pos 400)))
    × ((consume_reservation_credit wanted credit).0.estimated_spend_micros ≡ pos (50 - 80))
    × ((consume_reservation_credit wanted credit).1.estimated_spend_micros ≡ pos (80 - 50))
consume_reservation_credit_example =
    consume_reservation_credit_lem wanted credit 100 refl (omega arith, omega arith, omega arith)
      (omega arith, omega arith, omega arith)

abbrev used : ActualUsage
used = record { input_tokens = pos 120; output_tokens = pos 450; spend_micros = pos 70 }

quota_top_up_delta_example :
    (estimated_total_tokens (quota_top_up_delta wanted used)
      ≡ pos (tokens_of (pos 120) (pos 450) - tokens_of (pos 100) (pos 400)))
    × ((quota_top_up_delta wanted used).estimated_spend_micros ≡ pos (70 - 50))
quota_top_up_delta_example =
    quota_top_up_delta_lem wanted used 50 70 (omega arith, omega arith, omega arith) (omega arith)
      (omega arith) refl refl (omega arith)

quota_reservation_ttl_example :
    quota_reservation_ttl (slow_route ∷ []) (pos 60_000_000_000)
    ≡ pos (max 60_000_000_000 (min max_int64 (10_000_000_000 + time_of_all (slow_route ∷ []))))
quota_reservation_ttl_example =
    quota_reservation_ttl_lem (slow_route ∷ []) (pos 60_000_000_000)
      (record { timeout = omega arith; retries = omega arith }, tt) (omega arith)

-- The first call fails without being billed, and the second costs more than its estimate.
abbrev costs : ℕ → EstimatedUsage
costs n = record {
  input_tokens = pos 10;
  reserved_output_tokens = pos 20;
  estimated_spend_micros = pos n;
}

abbrev two_calls : List ReservationOperation
two_calls =
    reserves "r:1" (costs 50) none
    ∷ releases "r:1"
    ∷ reserves "r:2" (costs 60) none
    ∷ reconciles "r:2"
        (record { input_tokens = pos 10; output_tokens = pos 25; spend_micros = pos 70 }) none
    ∷ []

two_calls_held : spend_of (perform_all two_calls no_reservations).reserve ≡ 70
unfolding perform_all String-discrete lookup ◌-ℤ◌ ◌+ℤ◌ estimated_total_tokens saturating_usage_add
two_calls_held = refl

two_calls-StaysBelow : StaysBelow two_calls no_reservations
unfolding perform String-discrete lookup ◌-ℤ◌ ◌+ℤ◌ estimated_total_tokens saturating_usage_add
two_calls-StaysBelow = (
  (50, refl, omega arith),
  omega arith,
  (
    tt,
    omega arith,
    ((60, refl, omega arith), omega arith, ((70, refl, omega arith), omega arith, tt)),
  ),
)

perform_all-conserves_example :
    spend_of (perform_all two_calls no_reservations).reserve
    ≡ spend_of (perform_all two_calls no_reservations).credit
      + spends_of (perform_all two_calls no_reservations).attempts
      + settled_by two_calls no_reservations
perform_all-conserves_example = perform_all-conserves two_calls two_calls-StaysBelow
