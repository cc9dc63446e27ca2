-- ===== src/Policy/Estimate.antt =====
-- What a candidate route is estimated to use (policy/token.go). The tokenizer and the counters and
-- builders of the providers are parameters: what each answers for a candidate.
pub mod Output
pub mod Reserved
use llmgw.Base.{
  ℕ, zero, suc, ◌+◌, ◌/◌, ℤ, pos, String, String-discrete, List, [], ◌∷◌, Option, none, some, Bool,
  true, false, ◌&&◌, ltb_ℤ, leb_ℤ, eqb_ℤ, max_ℤ, ◌/ℤ◌, if◌then◌else◌, lookup, insert,
}
use llmgw.Amounts.{zero64, saturating_add, saturating_multiply, saturating_token_margin}
use llmgw.Gateway.Route.{embeddings}
use llmgw.Gateway.Usage.{Usage, zero_usage}
use llmgw.Gateway.Usage.Reconcile.{count_at, reconcile_reported_usage}
use llmgw.Policy.Candidate.{UnitPricing, TokenHints, Candidate, effective_or, requested_output}

pub data Built : Type 0 where
  no_builder : Built
  build_failed : Built
  built : Option ℤ → Built

-- `counted_tokens` is `countTokens` of the request's text, which is 0 where the tokenizer fails, and
-- `text_bytes` the length of that text. `counter` is what the provider's counter reports, if it has
-- one that does not fail.
pub record Counting : Type 0 where
  pub counted_tokens : ℤ
  pub is_approximate : Bool
  pub text_bytes : ℕ
  pub prompt_runes : ℕ
  pub builder : Built
  pub counter : Option Usage

abbrev pub if_zero : ℤ → ℤ → ℤ
if_zero n other = if eqb_ℤ n zero64 then other else n

abbrev pub body_estimate : ℤ → ℤ
body_estimate bytes = if ltb_ℤ zero64 bytes then if_zero (bytes /ℤ pos 4) (pos 1) else zero64

abbrev pub prompt_estimate : ℕ → ℤ
prompt_estimate zero = zero64
prompt_estimate (suc runes) = pos (suc runes / 4 + 1)

-- The input tokens of `estimateUsage`: the first estimate that is not 0.
unfoldable pub estimated_input : Counting → Candidate → ℤ
unfolding saturating_token_margin
estimated_input k c =
    let counted =
      if ltb_ℤ zero64 k.counted_tokens && k.is_approximate
      then saturating_token_margin k.counted_tokens (pos 5) (pos 4)
      else k.counted_tokens in
    if_zero counted (
      if_zero (pos k.text_bytes) (
        if_zero c.hints.estimated_input_tokens (
          if_zero (body_estimate c.body_bytes) (if_zero (prompt_estimate k.prompt_runes) (pos 1)))))

abbrev pub is_embeddings : Candidate → Bool
is_embeddings c = elim c.operation [ embeddings ↦ true | _ ↦ false ]

unfoldable pub estimate_usage : Counting → Candidate → Usage
unfolding estimated_input saturating_add
estimate_usage k c =
    let input = estimated_input k c in
    let output = if is_embeddings c then zero64 else c.hints.max_output_tokens in
    record zero_usage {
      input_tokens = input;
      output_tokens = output;
      total_tokens = saturating_add input output;
    }

abbrev pub with_minimum_total : Usage → Usage
with_minimum_total u = record u {
  total_tokens =
      if ltb_ℤ u.total_tokens (saturating_add u.input_tokens u.output_tokens)
      then saturating_add u.input_tokens u.output_tokens
      else u.total_tokens;
}

-- The output that a call may ask for.
abbrev pub reserved_output : Candidate → ℤ
reserved_output c =
    let asked = requested_output c in
    let declared = if leb_ℤ asked zero64 then c.route.capabilities.max_output_tokens else asked in
    let requested = if leb_ℤ declared zero64 then pos 256 else declared in
    let multiplier =
      if leb_ℤ c.hints.output_multiplicity zero64 then pos 1 else c.hints.output_multiplicity in
    saturating_multiply requested multiplier

unfoldable pub reserve_candidate_output : Usage → Candidate → Usage
unfolding saturating_add saturating_multiply
reserve_candidate_output u c =
    if is_embeddings c
    then record u { output_tokens = zero64; total_tokens = max_ℤ u.total_tokens u.input_tokens }
    else with_minimum_total (record u {
      output_tokens =
          if ltb_ℤ u.output_tokens (reserved_output c) then reserved_output c else u.output_tokens;
    })

abbrev pub surcharge_of : Candidate → ℤ
surcharge_of c =
    saturating_add (saturating_multiply c.hints.vision_input_parts c.vision_input_token_surcharge)
      (saturating_multiply c.hints.audio_input_parts c.audio_input_token_surcharge)

unfoldable pub add_multimodal_surcharges : Usage → Candidate → Usage
unfolding saturating_add saturating_multiply
add_multimodal_surcharges u c = with_minimum_total (record u {
  input_tokens = saturating_add u.input_tokens (surcharge_of c);
  total_tokens = saturating_add u.total_tokens (surcharge_of c);
})

abbrev pub reserve_units : String → Option UnitPricing → List (String × ℤ) → List (String × ℤ)
reserve_units unit none details = details
reserve_units unit (some pricing) details =
    if leb_ℤ pricing.max_units_per_request zero64
    then details
    else if ltb_ℤ (count_at unit details) pricing.max_units_per_request
    then insert String-discrete unit pricing.max_units_per_request details
    else details

abbrev pub reserve_all_units :
    (String → Option UnitPricing) → List String → List (String × ℤ) → List (String × ℤ)
reserve_all_units prices [] details = details
reserve_all_units prices (unit ∷ units) details =
    reserve_all_units prices units (reserve_units unit (prices unit) details)

unfoldable pub add_provider_unit_reservations : Usage → Candidate → Usage
add_provider_unit_reservations u c = record u {
  provider_details = reserve_all_units c.units c.hints.provider_units u.provider_details;
}

abbrev pub counted_usage : Option Usage → Usage → Usage
counted_usage none estimate = estimate
counted_usage (some counted) estimate = reconcile_reported_usage counted estimate

abbrev pub with_cache_writes : Candidate → Usage → Usage
with_cache_writes c u =
    if c.hints.may_write_prompt_cache then record u { cache_write_tokens = u.input_tokens } else u

-- `materializeCandidate`, but for the failure of a builder: the candidate has its effective maximum.
unfoldable pub candidate_estimate : Counting → Candidate → Usage
unfolding estimate_usage reconcile_reported_usage reserve_candidate_output add_multimodal_surcharges
    add_provider_unit_reservations
candidate_estimate k c =
    let counted = counted_usage k.counter (estimate_usage k c) in
    let charged = add_multimodal_surcharges (reserve_candidate_output counted c) c in
    add_provider_unit_reservations (with_cache_writes c charged) c

abbrev pub effective_of : Built → Option (Option ℤ)
effective_of no_builder = some none
effective_of build_failed = none
effective_of (built effective) = some effective

abbrev pub with_estimate : Counting → Candidate → Option (Option ℤ) → Option Candidate
with_estimate k c none = none
with_estimate k c (some effective) =
    let known = record c { effective = effective } in
    some (record known { estimate = candidate_estimate k known })

unfoldable pub materialize_candidate : Counting → Candidate → Option Candidate
unfolding candidate_estimate
materialize_candidate k c = with_estimate k c (effective_of k.builder)

abbrev pub max_unit_counts : List (String × ℤ) → List (String × ℤ) → List (String × ℤ)
max_unit_counts acc [] = acc
max_unit_counts acc ((unit, count) ∷ counts) =
    max_unit_counts
      (if ltb_ℤ (count_at unit acc) count then insert String-discrete unit count acc else acc)
      counts

abbrev pub max_usage : Usage → Usage → Usage
max_usage acc u = record acc {
  input_tokens = max_ℤ acc.input_tokens u.input_tokens;
  output_tokens = max_ℤ acc.output_tokens u.output_tokens;
  total_tokens = max_ℤ acc.total_tokens u.total_tokens;
  provider_details = max_unit_counts acc.provider_details u.provider_details;
}

unfoldable pub max_estimate_from : Usage → List Candidate → Usage
max_estimate_from acc [] = acc
max_estimate_from acc (c ∷ candidates) = max_estimate_from (max_usage acc c.estimate) candidates

unfoldable pub max_estimate : List Candidate → Usage
unfolding max_estimate_from saturating_add
max_estimate candidates =
    let out = max_estimate_from zero_usage candidates in
    record out {
      total_tokens =
          if eqb_ℤ out.total_tokens zero64
          then saturating_add out.input_tokens out.output_tokens
          else out.total_tokens;
    }
