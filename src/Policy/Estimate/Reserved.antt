-- ===== src/Policy/Estimate/Reserved.antt =====
-- What an estimate reserves (policy/token.go).
use Prim.Native.Nat.{min}
use llmgw.Gateway.Route.{Operation, chat_completions, responses, completions, embeddings}
use llmgw.Base.{
  ℕ, ◌*◌, ◌≤◌, ◌≢◌, refl, subst, pos, max_int64, true, ◌≡◌, ℤ, List, [], ◌∷◌, false, ltb_ℤ, max_ℤ,
  ◌≤ℤ◌, le_ℤ_trans, max_ℤ-left, max_ℤ-right, if◌then◌else◌, if-holds, All,
}
use llmgw.Amounts.{saturating_add}
use llmgw.Gateway.Usage.{Usage, zero_usage}
use llmgw.Policy.Candidate.{Candidate}
use llmgw.Policy.Estimate.{
  Counting, is_embeddings, with_minimum_total, reserved_output, surcharge_of,
  reserve_candidate_output, add_multimodal_surcharges, with_cache_writes, candidate_estimate,
  add_provider_unit_reservations, counted_usage, estimate_usage, max_usage, max_estimate_from,
  max_estimate,
}
use llmgw.Policy.Estimate.Output.{MayHave, HasAnswers, reserved_output_lem}

-- Every operation but the one that makes embeddings.
other_operation :
    (op : Operation) → op ≢ embeddings → elim op [ embeddings ↦ true | _ ↦ false ] ≡ false
other_operation chat_completions n = refl
other_operation responses n = refl
other_operation completions n = refl
other_operation embeddings n = absurd (n refl)

-- The larger of two, as the code writes it.
if_less-bounds : (m t : ℤ) → m ≤ℤ (if ltb_ℤ t m then m else t)
if_less-bounds m t = max_ℤ-right t m

abbrev Total : Usage → Type 0
Total u = saturating_add u.input_tokens u.output_tokens ≤ℤ u.total_tokens

with_minimum_total-Total : (u : Usage) → Total (with_minimum_total u)
with_minimum_total-Total u =
    if_less-bounds (saturating_add u.input_tokens u.output_tokens) u.total_tokens

reserve_candidate_output-reserves :
    (u : Usage) (c : Candidate)
    → is_embeddings c ≡ false
    → reserved_output c ≤ℤ (reserve_candidate_output u c).output_tokens
unfolding reserve_candidate_output
reserve_candidate_output-reserves u c h =
    rw (h, reserve_candidate_output) (if_less-bounds (reserved_output c) u.output_tokens)

add_multimodal_surcharges-Total :
    (u : Usage) (c : Candidate) → Total (add_multimodal_surcharges u c)
unfolding add_multimodal_surcharges
add_multimodal_surcharges-Total u c = with_minimum_total-Total (record u {
  input_tokens = saturating_add u.input_tokens (surcharge_of c);
  total_tokens = saturating_add u.total_tokens (surcharge_of c);
})

with_cache_writes-Total : (c : Candidate) (u : Usage) → Total u → Total (with_cache_writes c u)
with_cache_writes-Total c u h = if-holds Total c.hints.may_write_prompt_cache _ u (λ _. h) (λ _. h)

with_cache_writes-output :
    (c : Candidate) (u : Usage) (n : ℤ)
    → n ≤ℤ u.output_tokens
    → n ≤ℤ (with_cache_writes c u).output_tokens
with_cache_writes-output c u n h =
    if-holds (λ (v : Usage). n ≤ℤ v.output_tokens) c.hints.may_write_prompt_cache _ u (λ _. h)
      (λ _. h)

candidate_estimate-reserves :
    (k : Counting) (c : Candidate)
    → is_embeddings c ≡ false
    → reserved_output c ≤ℤ (candidate_estimate k c).output_tokens
unfolding candidate_estimate add_provider_unit_reservations add_multimodal_surcharges
candidate_estimate-reserves k c h =
    let counted = counted_usage k.counter (estimate_usage k c) in
    with_cache_writes-output c (add_multimodal_surcharges (reserve_candidate_output counted c) c)
      (reserved_output c) (reserve_candidate_output-reserves counted c h)

candidate_estimate-Total : (k : Counting) (c : Candidate) → Total (candidate_estimate k c)
unfolding candidate_estimate add_provider_unit_reservations
candidate_estimate-Total k c =
    let counted = counted_usage k.counter (estimate_usage k c) in
    with_cache_writes-Total c (add_multimodal_surcharges (reserve_candidate_output counted c) c)
      (add_multimodal_surcharges-Total (reserve_candidate_output counted c) c)

-- The estimate of a candidate covers what a call may use, unless the operation makes embeddings: its
-- output tokens are at least what one answer may have times the number of answers, cut off at the
-- largest int64. One answer may have the effective maximum, if there is a positive one, or else the
-- requested one, or else that of the route, or else 256 tokens; and there is one answer if no positive
-- number is requested. The total of the estimate is at least the sum of its input and output tokens,
-- likewise cut off. This holds whatever the tokenizer and the provider's counter report.
pub candidate_estimate-covers :
    (k : Counting) (c : Candidate) (maximum answers : ℕ)
    → MayHave c.effective c.hints.max_output_tokens c.route.capabilities.max_output_tokens maximum
    → HasAnswers c.hints.output_multiplicity answers
    → maximum ≤ max_int64
    → answers ≤ max_int64
    → c.operation ≢ embeddings
    → (pos (min max_int64 (maximum * answers)) ≤ℤ (candidate_estimate k c).output_tokens)
      × (saturating_add (candidate_estimate k c).input_tokens (candidate_estimate k c).output_tokens
          ≤ℤ (candidate_estimate k c).total_tokens)
candidate_estimate-covers k c maximum answers m a i j o = (
  subst (λ n. n ≤ℤ (candidate_estimate k c).output_tokens)
      (reserved_output_lem c maximum answers m a i j)
      (candidate_estimate-reserves k c (other_operation c.operation o)),
  candidate_estimate-Total k c,
)

module _ (c : Candidate) where
  -- The maximum of estimates is at least one of them.
  abbrev pub CoversTokens : Usage → Type 0
  CoversTokens u =
      (c.estimate.input_tokens ≤ℤ u.input_tokens) × (c.estimate.output_tokens ≤ℤ u.output_tokens)

max_usage-grows :
    (c d : Candidate) (acc : Usage) → CoversTokens c acc → CoversTokens c (max_usage acc d.estimate)
max_usage-grows c d acc (i, o) = (
  le_ℤ_trans c.estimate.input_tokens acc.input_tokens
      (max_ℤ acc.input_tokens d.estimate.input_tokens) i
      (max_ℤ-left acc.input_tokens d.estimate.input_tokens),
  le_ℤ_trans c.estimate.output_tokens acc.output_tokens
      (max_ℤ acc.output_tokens d.estimate.output_tokens) o
      (max_ℤ-left acc.output_tokens d.estimate.output_tokens),
)

max_estimate_from-grows :
    (c : Candidate) (acc : Usage) (ds : List Candidate)
    → CoversTokens c acc
    → CoversTokens c (max_estimate_from acc ds)
unfolding max_estimate_from
max_estimate_from-grows c acc [] h = h
max_estimate_from-grows c acc (d ∷ ds) h =
    max_estimate_from-grows c (max_usage acc d.estimate) ds (max_usage-grows c d acc h)

max_estimate_from-covers :
    (acc : Usage) (cs : List Candidate) → All (λ c. CoversTokens c (max_estimate_from acc cs)) cs
unfolding max_estimate_from
max_estimate_from-covers acc [] = tt
max_estimate_from-covers acc (c ∷ cs) = (
  max_estimate_from-grows c (max_usage acc c.estimate) cs (
    max_ℤ-right acc.input_tokens c.estimate.input_tokens,
    max_ℤ-right acc.output_tokens c.estimate.output_tokens,
  ),
  max_estimate_from-covers (max_usage acc c.estimate) cs,
)

-- The estimate of a request is at least the estimate of every candidate route, in input and in output
-- tokens.
pub max_estimate-covers :
    (candidates : List Candidate) → All (λ c. CoversTokens c (max_estimate candidates)) candidates
unfolding max_estimate
max_estimate-covers candidates = max_estimate_from-covers zero_usage candidates
