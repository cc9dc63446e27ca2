-- ===== src/Gateway/Usage.antt =====
-- The usage of a provider call, and its normalisation (gateway/types.go and gateway/usage.go). A
-- map of counters is an association list, in which nil and the empty map are the empty list.
pub mod Reconcile
pub mod Accumulator
pub mod Totals
pub mod Charges
use llmgw.Base.{
  ℤ, pos, String, String-discrete, List, [], ◌∷◌, Option, none, some, Bool, true, false, ◌&&◌,
  ltb_ℤ, leb_ℤ, eqb_ℤ, max_ℤ, ◌-ℤ◌, if◌then◌else◌,
}
use llmgw.Amounts.{zero64, nonneg, saturating_usage_add}

pub record UsageDetails : Type 0 where
  pub text_tokens : ℤ
  pub audio_tokens : ℤ
  pub reasoning_tokens : ℤ
  pub tool_tokens : ℤ
  pub cached_tokens : ℤ
  pub by_modality : List (String × ℤ)

pub record Usage : Type 0 where
  pub input_tokens : ℤ
  pub output_tokens : ℤ
  pub total_tokens : ℤ
  pub cache_read_tokens : ℤ
  pub cache_write_tokens : ℤ
  pub input_details : Option UsageDetails
  pub output_details : Option UsageDetails
  pub provider_details : List (String × ℤ)

abbrev pub zero_usage : Usage
zero_usage = record {
  input_tokens = zero64;
  output_tokens = zero64;
  total_tokens = zero64;
  cache_read_tokens = zero64;
  cache_write_tokens = zero64;
  input_details = none;
  output_details = none;
  provider_details = [];
}

abbrev pub zero_details : UsageDetails
zero_details = record {
  text_tokens = zero64;
  audio_tokens = zero64;
  reasoning_tokens = zero64;
  tool_tokens = zero64;
  cached_tokens = zero64;
  by_modality = [];
}

-- The counters above zero.
unfoldable pub positive_counts : List (String × ℤ) → List (String × ℤ)
positive_counts [] = []
positive_counts ((unit, count) ∷ counts) =
    let rest = positive_counts counts in if ltb_ℤ zero64 count then (unit, count) ∷ rest else rest

abbrev pub is_empty : List (String × ℤ) → Bool
is_empty [] = true
is_empty (c ∷ counts) = false

unfoldable pub positive_details : UsageDetails → UsageDetails
unfolding positive_counts
positive_details d = record {
  text_tokens = max_ℤ d.text_tokens zero64;
  audio_tokens = max_ℤ d.audio_tokens zero64;
  reasoning_tokens = max_ℤ d.reasoning_tokens zero64;
  tool_tokens = max_ℤ d.tool_tokens zero64;
  cached_tokens = max_ℤ d.cached_tokens zero64;
  by_modality = positive_counts d.by_modality;
}

abbrev pub is_zero_details : UsageDetails → Bool
is_zero_details d =
    eqb_ℤ d.text_tokens zero64
    && (eqb_ℤ d.audio_tokens zero64
        && (eqb_ℤ d.reasoning_tokens zero64
            && (eqb_ℤ d.tool_tokens zero64
                && (eqb_ℤ d.cached_tokens zero64 && is_empty d.by_modality))))

unfoldable pub normalize_usage_details : Option UsageDetails → Option UsageDetails
unfolding positive_details
normalize_usage_details none = none
normalize_usage_details (some details) =
    let normalized = positive_details details in
    if is_zero_details normalized then none else some normalized

abbrev pub cached_of : Option UsageDetails → ℤ
cached_of none = zero64
cached_of (some d) = d.cached_tokens

-- The input and output tokens that a total implies, if one of the two is not reported.
abbrev pub implied : ℤ → ℤ → ℤ → ℤ
implied count total other =
    if eqb_ℤ count zero64 && ltb_ℤ other total then total -ℤ other else count

-- Tokens that only the total counts are output tokens.
unfoldable pub explained : ℤ → ℤ → ℤ → ℤ × ℤ
explained input output total =
    let sum = saturating_usage_add input output in
    let more = saturating_usage_add output (total -ℤ sum) in
    let all = saturating_usage_add input more in
    if ltb_ℤ sum total
    then (more, if ltb_ℤ total all then all else total)
    else (output, if ltb_ℤ total sum then sum else total)

-- The token counts of `normalizeAttemptUsage`, once none is negative: input, output and total.
unfoldable pub balanced_tokens : ℤ → ℤ → ℤ → ℤ × ℤ × ℤ
unfolding explained
balanced_tokens input output total =
    let i = implied input total output in
    let o = implied output total i in let rest = explained i o total in (i, rest.0, rest.1)

unfoldable pub normalize_attempt_usage : Usage → Usage
unfolding normalize_usage_details positive_counts balanced_tokens
normalize_attempt_usage u =
    let inputs = normalize_usage_details u.input_details in
    let cache_read = nonneg u.cache_read_tokens in
    let tokens =
      balanced_tokens (nonneg u.input_tokens) (nonneg u.output_tokens) (nonneg u.total_tokens) in
    record {
      input_tokens = tokens.0;
      output_tokens = tokens.1;
      total_tokens = tokens.2;
      cache_read_tokens = if eqb_ℤ cache_read zero64 then cached_of inputs else cache_read;
      cache_write_tokens = nonneg u.cache_write_tokens;
      input_details = inputs;
      output_details = normalize_usage_details u.output_details;
      provider_details = positive_counts u.provider_details;
    }

-- `Usage.IsZero`.
unfoldable pub is_zero_usage : Usage → Bool
is_zero_usage u =
    eqb_ℤ u.input_tokens zero64
    && (eqb_ℤ u.output_tokens zero64
        && (eqb_ℤ u.total_tokens zero64
            && (eqb_ℤ u.cache_read_tokens zero64
                && (eqb_ℤ u.cache_write_tokens zero64
                    && (is_absent u.input_details
                        && (is_absent u.output_details && is_empty u.provider_details))))))
  where
    is_absent : Option UsageDetails → Bool
    is_absent none = true
    is_absent (some d) = false
