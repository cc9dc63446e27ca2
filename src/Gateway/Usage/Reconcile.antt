-- ===== src/Gateway/Usage/Reconcile.antt =====
-- How reported usage, malformed usage and an estimate are brought together (gateway/usage.go).
use llmgw.Base.{
  ℤ, String, String-discrete, List, [], ◌∷◌, Option, none, some, Bool, ◌&&◌, ◌||◌, not, ltb_ℤ,
  max_ℤ, lookup, insert, remove, if◌then◌else◌,
}
use llmgw.Amounts.{zero64}
use llmgw.Gateway.Usage.{
  UsageDetails, Usage, zero_details, normalize_usage_details, normalize_attempt_usage,
}

-- m[unit], which is 0 for a missing key.
abbrev pub count_of : Option ℤ → ℤ
count_of none = zero64
count_of (some n) = n

abbrev pub count_at : String → List (String × ℤ) → ℤ
count_at unit counts = count_of (lookup String-discrete unit counts)

-- m[unit] = count for every entry of the second map.
unfoldable pub overlay_counts : List (String × ℤ) → List (String × ℤ) → List (String × ℤ)
overlay_counts base [] = base
overlay_counts base ((unit, count) ∷ reported) =
    overlay_counts (insert String-discrete unit count base) reported

unfoldable pub max_counts : List (String × ℤ) → List (String × ℤ) → List (String × ℤ)
max_counts actual [] = actual
max_counts actual ((unit, reserved) ∷ estimate) =
    max_counts (insert String-discrete unit (max_ℤ (count_at unit actual) reserved) actual) estimate

-- A negative count gives way to what the fallback has of the unit, or goes.
unfoldable pub restore_counts :
    List (String × ℤ) → List (String × ℤ) → List (String × ℤ) → List (String × ℤ)
restore_counts current [] fallback = current
restore_counts current ((unit, count) ∷ reported) fallback =
    let reserved = count_at unit fallback in
    let next =
      if not (ltb_ℤ count zero64)
      then current
      else if ltb_ℤ zero64 reserved
      then insert String-discrete unit reserved current
      else remove String-discrete unit current in
    restore_counts next reported fallback

abbrev pub if_positive : ℤ → ℤ → ℤ
if_positive reported base = if ltb_ℤ zero64 reported then reported else base

abbrev pub details_or_zero : Option UsageDetails → UsageDetails
details_or_zero none = zero_details
details_or_zero (some d) = d

abbrev pub overlaid : UsageDetails → UsageDetails → UsageDetails
overlaid b r = record {
  text_tokens = if_positive r.text_tokens b.text_tokens;
  audio_tokens = if_positive r.audio_tokens b.audio_tokens;
  reasoning_tokens = if_positive r.reasoning_tokens b.reasoning_tokens;
  tool_tokens = if_positive r.tool_tokens b.tool_tokens;
  cached_tokens = if_positive r.cached_tokens b.cached_tokens;
  by_modality = overlay_counts b.by_modality r.by_modality;
}

unfoldable pub overlay_usage_details :
    Option UsageDetails → Option UsageDetails → Option UsageDetails
unfolding overlay_counts
overlay_usage_details base none = base
overlay_usage_details base (some reported) = some (overlaid (details_or_zero base) reported)

unfoldable pub overlay_positive_usage_details : Usage → Usage → Usage
unfolding overlay_counts overlay_usage_details
overlay_positive_usage_details base reported = record base {
  cache_read_tokens = if_positive reported.cache_read_tokens base.cache_read_tokens;
  cache_write_tokens = if_positive reported.cache_write_tokens base.cache_write_tokens;
  input_details = overlay_usage_details base.input_details reported.input_details;
  output_details = overlay_usage_details base.output_details reported.output_details;
  provider_details = overlay_counts base.provider_details reported.provider_details;
}

-- A field whose reported value is negative becomes the fallback's, if there is a fallback.
abbrev pub restored : ℤ → ℤ → Option ℤ → ℤ
restored reported current none = current
restored reported current (some reserved) = if ltb_ℤ reported zero64 then reserved else current

abbrev pub field_of : (UsageDetails → ℤ) → Option UsageDetails → Option ℤ
field_of f none = none
field_of f (some d) = some (f d)

-- Details that were nil start as zero ones: the final normalisation makes zero details nil again.
abbrev pub restored_details : UsageDetails → UsageDetails → Option UsageDetails → UsageDetails
restored_details c r fallback = record {
  text_tokens = restored r.text_tokens c.text_tokens (field_of (λ d. d.text_tokens) fallback);
  audio_tokens = restored r.audio_tokens c.audio_tokens (field_of (λ d. d.audio_tokens) fallback);
  reasoning_tokens =
      restored r.reasoning_tokens c.reasoning_tokens (field_of (λ d. d.reasoning_tokens) fallback);
  tool_tokens = restored r.tool_tokens c.tool_tokens (field_of (λ d. d.tool_tokens) fallback);
  cached_tokens =
      restored r.cached_tokens c.cached_tokens (field_of (λ d. d.cached_tokens) fallback);
  by_modality = restore_counts c.by_modality r.by_modality (details_or_zero fallback).by_modality;
}

unfoldable pub restore_malformed_usage_details :
    Option UsageDetails → Option UsageDetails → Option UsageDetails → Option UsageDetails
unfolding restore_counts normalize_usage_details
restore_malformed_usage_details current none fallback = current
restore_malformed_usage_details current (some reported) fallback = normalize_usage_details (
    some (
      restored_details (details_or_zero (normalize_usage_details current)) reported
        (normalize_usage_details fallback)))

abbrev pub if_negative : ℤ → ℤ → ℤ → ℤ
if_negative reported fallback current = if ltb_ℤ reported zero64 then fallback else current

unfoldable pub restore_malformed_auxiliary_usage : Usage → Usage → Usage → Usage
unfolding restore_counts restore_malformed_usage_details normalize_attempt_usage
restore_malformed_auxiliary_usage usage reported fallback = normalize_attempt_usage (record usage {
  cache_read_tokens =
      if_negative reported.cache_read_tokens fallback.cache_read_tokens usage.cache_read_tokens;
  cache_write_tokens =
      if_negative reported.cache_write_tokens fallback.cache_write_tokens usage.cache_write_tokens;
  input_details =
      restore_malformed_usage_details usage.input_details reported.input_details
        fallback.input_details;
  output_details =
      restore_malformed_usage_details usage.output_details reported.output_details
        fallback.output_details;
  provider_details =
      restore_counts usage.provider_details reported.provider_details fallback.provider_details;
})

abbrev pub has_positive_tokens : Usage → Bool
has_positive_tokens u =
    ltb_ℤ zero64 u.input_tokens || ltb_ℤ zero64 u.output_tokens || ltb_ℤ zero64 u.total_tokens

abbrev pub has_negative_tokens : Usage → Bool
has_negative_tokens u =
    ltb_ℤ u.input_tokens zero64 || ltb_ℤ u.output_tokens zero64 || ltb_ℤ u.total_tokens zero64

-- The fallback, with the token counts that were reported well.
abbrev pub reconciled_tokens : Usage → Usage → Usage → Usage
reconciled_tokens reported normalized fallback =
    if has_positive_tokens reported
    then record fallback {
      input_tokens =
          if_negative reported.input_tokens fallback.input_tokens normalized.input_tokens;
      output_tokens =
          if_negative reported.output_tokens fallback.output_tokens normalized.output_tokens;
      total_tokens =
          if_negative reported.total_tokens fallback.total_tokens normalized.total_tokens;
    }
    else fallback

unfoldable pub reconcile_reported_usage : Usage → Usage → Usage
unfolding normalize_attempt_usage restore_malformed_auxiliary_usage overlay_positive_usage_details
reconcile_reported_usage reported fallback =
    let normalized = normalize_attempt_usage reported in
    let reserve = normalize_attempt_usage fallback in
    if has_positive_tokens reported && not (has_negative_tokens reported)
    then restore_malformed_auxiliary_usage normalized reported reserve
    else normalize_attempt_usage
        (overlay_positive_usage_details (reconciled_tokens reported normalized reserve) normalized)

abbrev pub max_details : UsageDetails → UsageDetails → UsageDetails
max_details a e = record {
  text_tokens = max_ℤ a.text_tokens e.text_tokens;
  audio_tokens = max_ℤ a.audio_tokens e.audio_tokens;
  reasoning_tokens = max_ℤ a.reasoning_tokens e.reasoning_tokens;
  tool_tokens = max_ℤ a.tool_tokens e.tool_tokens;
  cached_tokens = max_ℤ a.cached_tokens e.cached_tokens;
  by_modality = max_counts a.by_modality e.by_modality;
}

unfoldable pub max_usage_details : Option UsageDetails → Option UsageDetails → Option UsageDetails
unfolding normalize_usage_details max_counts
max_usage_details actual estimate = elim (normalize_usage_details estimate) [
  | none ↦ normalize_usage_details actual
  | some e ↦ elim (normalize_usage_details actual) [
    | none ↦ some e
    | some a ↦ some (max_details a e)
  ]
]

unfoldable pub retain_estimated_auxiliary_usage : Usage → Usage → Usage
unfolding max_counts max_usage_details normalize_attempt_usage
retain_estimated_auxiliary_usage usage estimate = normalize_attempt_usage (record usage {
  cache_read_tokens = max_ℤ usage.cache_read_tokens estimate.cache_read_tokens;
  cache_write_tokens = max_ℤ usage.cache_write_tokens estimate.cache_write_tokens;
  input_details = max_usage_details usage.input_details estimate.input_details;
  output_details = max_usage_details usage.output_details estimate.output_details;
  provider_details = max_counts usage.provider_details estimate.provider_details;
})
