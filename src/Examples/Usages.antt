-- ===== src/Examples/Usages.antt =====
-- Usage reports and charges of gateway/usage.go at concrete counts.
use Prim.Native.Nat.{min, max}
use llmgw.Base.{
  ◌+◌, ◌≤◌, ◌≡◌, refl, ℤ, pos, pos_part, ◌+ℤ◌, ◌-ℤ◌, max_int64, String-discrete, lookup, insert, [],
  ◌∷◌, some, true, false, arith,
}
use llmgw.Amounts.{saturating_usage_add}
use llmgw.Amounts.Laws.{capped_sum}
use llmgw.Store.Usage.{ActualUsage}
use llmgw.Gateway.Usage.{Usage, zero_usage, normalize_attempt_usage}
use llmgw.Gateway.Usage.Totals.{normalize_attempt_usage-balances}
use llmgw.Gateway.Usage.Accumulator.{
  Entries, charge_of, begin, complete, total_charge, no_actual_usage,
}
use llmgw.Gateway.Usage.Charges.{
  begins, cancels, completes, run, run-charge_of, sum_of, capped, total_charge_lem,
}

-- 20 tokens of the total are reported neither as input nor as output.
abbrev report : Usage
report = record zero_usage {
  input_tokens = pos 100;
  output_tokens = pos 30;
  total_tokens = pos 150;
}

normalize_attempt_usage-balances_example :
    ((normalize_attempt_usage report).total_tokens
      ≡ capped_sum
          (normalize_attempt_usage report).input_tokens
          (normalize_attempt_usage report).output_tokens)
    × ((normalize_attempt_usage report).total_tokens ≡ pos (max 150 (min max_int64 (100 + 30))))
    × (100 ≤ pos_part (normalize_attempt_usage report).input_tokens)
    × (30 ≤ pos_part (normalize_attempt_usage report).output_tokens)
normalize_attempt_usage-balances_example =
    normalize_attempt_usage-balances report
      (record { input = omega arith; output = omega arith; total = omega arith })

-- One micro for each token.
abbrev flat_spend : ℤ → Usage → ℤ
flat_spend price usage = usage.total_tokens

abbrev one_call : Entries ℤ
one_call = complete flat_spend "a" report false (begin flat_spend "a" (pos 1) report [])

abbrev one_charge : ActualUsage
one_charge = record { input_tokens = pos 100; output_tokens = pos 50; spend_micros = pos 150 }

one_call-charged : charge_of "a" one_call ≡ some one_charge
unfolding charge_of complete begin String-discrete lookup insert saturating_usage_add ◌-ℤ◌ ◌+ℤ◌
one_call-charged = refl

run-charge_of_example :
    charge_of "a" (
      run flat_spend one_call
        (cancels "a" ∷ completes "a" zero_usage true ∷ begins "b" (pos 1) report ∷ []))
    ≡ some one_charge
run-charge_of_example =
    run-charge_of flat_spend "a" one_charge one_call
      (cancels "a" ∷ completes "a" zero_usage true ∷ begins "b" (pos 1) report ∷ [])
      one_call-charged

abbrev two_calls : Entries ℤ
two_calls =
    ("a", record { estimate = report; pricing = pos 1; charge = one_charge; final = true })
    ∷ ("b", record { estimate = report; pricing = pos 1; charge = one_charge; final = false })
    ∷ []

total_charge_example :
    ((total_charge no_actual_usage two_calls).input_tokens
      ≡ capped (sum_of (λ c. c.input_tokens) two_calls))
    × ((total_charge no_actual_usage two_calls).output_tokens
        ≡ capped (sum_of (λ c. c.output_tokens) two_calls))
    × ((total_charge no_actual_usage two_calls).spend_micros
        ≡ capped (sum_of (λ c. c.spend_micros) two_calls))
total_charge_example = total_charge_lem two_calls (
  record { input = omega arith; output = omega arith; spend = omega arith },
  (record { input = omega arith; output = omega arith; spend = omega arith }, tt),
)
