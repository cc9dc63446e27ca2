-- ===== src/Gateway/Usage/Accumulator.antt =====
-- The usage of all the provider calls of a request (`AttemptUsageAccumulator`, gateway/usage.go).
-- Each method runs under the accumulator's lock. `spend` stands for `Pricing.SpendMicrosForUsage`,
-- a float64 computation, on the prices `P` of a route.
use llmgw.Base.{
  ℤ, String, String-discrete, List, [], ◌∷◌, Option, none, some, Bool, true, false, eqb_ℤ, lookup,
  insert, remove, if◌then◌else◌,
}
use llmgw.Amounts.{zero64, saturating_usage_add}
use llmgw.Store.Usage.{ActualUsage}
use llmgw.Store.Settlements.{is_empty_id}
use llmgw.Gateway.Usage.{Usage, normalize_attempt_usage}
use llmgw.Gateway.Usage.Reconcile.{reconcile_reported_usage, retain_estimated_auxiliary_usage}

pub record AttemptUsageEntry (P : Type 0) : Type 0 where
  pub estimate : Usage
  pub pricing : P
  pub charge : ActualUsage
  pub final : Bool

abbrev pub Entries : Type 0 → Type 0
Entries P = List (String × AttemptUsageEntry P)

abbrev pub no_actual_usage : ActualUsage
no_actual_usage = record { input_tokens = zero64; output_tokens = zero64; spend_micros = zero64 }

-- An aborted call is charged its estimate in each dimension that it did not report.
unfoldable pub filled_usage : Usage → Usage → Usage
unfolding retain_estimated_auxiliary_usage
filled_usage u estimate =
    let i = if eqb_ℤ u.input_tokens zero64 then estimate.input_tokens else u.input_tokens in
    let o = if eqb_ℤ u.output_tokens zero64 then estimate.output_tokens else u.output_tokens in
    retain_estimated_auxiliary_usage
      (record u { input_tokens = i; output_tokens = o; total_tokens = saturating_usage_add i o })
      estimate

unfoldable pub completed_usage : Usage → Usage → Bool → Usage
unfolding reconcile_reported_usage filled_usage
completed_usage usage estimate partial =
    let normalized = reconcile_reported_usage usage estimate in
    if partial then filled_usage normalized estimate else normalized

abbrev pub with_charge : ActualUsage → ActualUsage → ActualUsage
with_charge total charge = record {
  input_tokens = saturating_usage_add total.input_tokens charge.input_tokens;
  output_tokens = saturating_usage_add total.output_tokens charge.output_tokens;
  spend_micros = saturating_usage_add total.spend_micros charge.spend_micros;
}

-- `total`: the charges of all calls, final or estimated.
unfoldable pub total_charge : {P : Type 0} → ActualUsage → Entries P → ActualUsage
total_charge total [] = total
total_charge total ((id, entry) ∷ entries) = total_charge (with_charge total entry.charge) entries

abbrev pub final_charge : {P : Type 0} → Option (AttemptUsageEntry P) → Option ActualUsage
final_charge none = none
final_charge (some entry) = if entry.final then some entry.charge else none

-- `charge`: what the call is finally charged.
unfoldable pub charge_of : {P : Type 0} → String → Entries P → Option ActualUsage
charge_of id entries =
    if is_empty_id id then none else final_charge (lookup String-discrete id entries)

module _ {P : Type 0} (spend : P → Usage → ℤ) where
  unfoldable pub charge_for_usage : P → Usage → ActualUsage
  unfolding normalize_attempt_usage
  charge_for_usage pricing usage =
      let normalized = normalize_attempt_usage usage in
      record {
        input_tokens = normalized.input_tokens;
        output_tokens = normalized.output_tokens;
        spend_micros = spend pricing normalized;
      }

  abbrev pub new_entry : P → Usage → AttemptUsageEntry P
  new_entry pricing estimate = record {
    estimate = estimate;
    pricing = pricing;
    charge = charge_for_usage pricing estimate;
    final = false;
  }

  -- The estimate and the prices are those of the call's route.
  unfoldable pub begin : String → P → Usage → Entries P → Entries P
  unfolding charge_for_usage normalize_attempt_usage
  begin id pricing estimate entries =
      if is_empty_id id then entries else elim (lookup String-discrete id entries) [
        | some _ ↦ entries
        | none ↦
            insert String-discrete id (new_entry pricing (normalize_attempt_usage estimate)) entries
      ]

  unfoldable pub cancel : String → Entries P → Entries P
  cancel id entries = if is_empty_id id then entries else elim (lookup String-discrete id entries) [
    | some entry ↦ if entry.final then entries else remove String-discrete id entries
    | none ↦ entries
  ]

  abbrev pub completed_entry : AttemptUsageEntry P → Usage → Bool → AttemptUsageEntry P
  completed_entry entry usage partial = record entry {
    charge = charge_for_usage entry.pricing (completed_usage usage entry.estimate partial);
    final = true;
  }

  unfoldable pub complete : String → Usage → Bool → Entries P → Entries P
  unfolding charge_for_usage completed_usage
  complete id usage partial entries =
      if is_empty_id id then entries else elim (lookup String-discrete id entries) [
        | none ↦ entries
        | some entry ↦
            if entry.final
            then entries
            else insert String-discrete id (completed_entry entry usage partial) entries
      ]
