-- ===== src/Policy/Request/Scopes.antt =====
-- The scopes of a request's quota, and the candidates that they allow (policy/request.go,
-- ResolveScopes, with Snapshot.ResolveQuotaScopes of gateway/config.go); and the sequence of the request
-- policies (app/app.go).
use llmgw.Base.{
  ℕ, ℤ, pos, String, List, [], ◌∷◌, Option, none, some, Bool, true, false, not, ◌&&◌, ◌||◌, ltb_ℤ,
  eqb_ℤ, if◌then◌else◌,
}
use llmgw.Amounts.{zero64}
use llmgw.Store.Usage.{LimitSpec, ScopedLimit, scope_key}
use llmgw.Store.Settlements.{is_empty_id}
use llmgw.Gateway.Errors.{
  Failure, ContextError, new_error, with_disposition, as_failure, context_failure,
  unsupported_operation_error,
}
use llmgw.Gateway.Dispatch.{Preflight, candidates_left, rejected, preflight_candidates}
use llmgw.Policy.Candidate.{UnitPricing, Candidate, requested_output}
use llmgw.Policy.Estimate.{Counting, max_estimate}
use llmgw.Policy.Request.{
  RequestState, Passage, passes, denied, Resolved, forbidden, filter, is_any, allowed_by,
  replace_candidates, with_candidates, resolve_candidates, narrowed, metadata_validation,
  require_user, request_size,
}
use llmgw.Policy.Request.Access.{acl, token_validation, with_estimate_of}

-- What the store of limits answers: a failure comes with ctx.Err(), if that is its cause.
pub data LimitAnswer : Type 0 where
  found : LimitSpec → LimitAnswer
  not_found : LimitAnswer
  store_failed : Option ContextError → LimitAnswer

-- `store_limits` is the store of limits, if there is one. `quota_keys` and `profiles` are those of the
-- configuration; a missing key reads as the empty name.
pub record LimitSources : Type 0 where
  pub store_limits : Option (String → LimitAnswer)
  pub quota_keys : String → String
  pub profiles : String → Option LimitSpec

abbrev pub key_scope : String → LimitSpec → ScopedLimit
key_scope key_id limit = record { ref = record { kind = scope_key; id = key_id }; limits = limit }

abbrev pub scopes_of : String → Option LimitSpec → List ScopedLimit
scopes_of key_id none = []
scopes_of key_id (some limit) = key_scope key_id limit ∷ []

-- `ResolveQuotaScopes` and `lookupQuotaLimit` of the snapshot.
unfoldable pub resolve_quota_scopes : LimitSources → String → List ScopedLimit
resolve_quota_scopes sources key_id =
    if is_empty_id key_id || is_empty_id (sources.quota_keys key_id)
    then []
    else scopes_of key_id (sources.profiles (sources.quota_keys key_id))

pub data Scoping : Type 0 where
  scoped : List ScopedLimit → Scoping
  unscoped : Failure → Scoping

abbrev pub limits_unavailable : Failure
limits_unavailable = as_failure (
    with_disposition false false false (
      new_error (pos 503) "server_error" "quota_limit_store_unavailable"
        "quota limit service is temporarily unavailable"))

abbrev pub scoped_by : LimitSources → String → LimitAnswer → Scoping
scoped_by sources key_id (found limit) = scoped (key_scope key_id limit ∷ [])
scoped_by sources key_id not_found = scoped (resolve_quota_scopes sources key_id)
scoped_by sources key_id (store_failed none) = unscoped limits_unavailable
scoped_by sources key_id (store_failed (some c)) = unscoped (context_failure c)

-- `resolve`.
unfoldable pub resolve_scopes_of : LimitSources → String → Scoping
unfolding resolve_quota_scopes
resolve_scopes_of sources key_id =
    if is_empty_id key_id then scoped [] else elim sources.store_limits [
      | none ↦ scoped (resolve_quota_scopes sources key_id)
      | some get ↦ scoped_by sources key_id (get key_id)
    ]

abbrev pub within : ℤ → ℤ → Bool
within limit n = not (ltb_ℤ zero64 limit && ltb_ℤ limit n)

-- The output tokens that a candidate counts with: its estimate, if none are asked for.
abbrev pub output_asked : Candidate → ℤ
output_asked c =
    if eqb_ℤ (requested_output c) zero64 then c.estimate.output_tokens else requested_output c

unfoldable pub candidate_allowed_by_scopes : String → Candidate → List ScopedLimit → Bool
candidate_allowed_by_scopes model c [] = true
candidate_allowed_by_scopes model c (scope ∷ scopes) =
    allowed_by scope.limits.model_allowlist model
    && allowed_by scope.limits.provider_allowlist c.route.provider
    && within scope.limits.max_input_tokens c.estimate.input_tokens
    && within scope.limits.max_output_tokens (output_asked c)
    && candidate_allowed_by_scopes model c scopes

unfoldable pub hard_spend_enabled : List ScopedLimit → Bool
hard_spend_enabled [] = false
hard_spend_enabled (scope ∷ scopes) =
    ltb_ℤ zero64 scope.limits.max_spend_micros || hard_spend_enabled scopes

abbrev pub is_priced : Option UnitPricing → Bool
is_priced none = false
is_priced (some pricing) =
    ltb_ℤ zero64 pricing.micros_per_unit && ltb_ℤ zero64 pricing.max_units_per_request

abbrev pub all_priced : (String → Option UnitPricing) → List String → Bool
all_priced prices [] = true
all_priced prices (unit ∷ units) = is_priced (prices unit) && all_priced prices units

unfoldable pub candidate_has_required_unit_pricing :
    List String → Candidate → List ScopedLimit → Bool
unfolding hard_spend_enabled
candidate_has_required_unit_pricing units c scopes =
    not (is_any units) || not (hard_spend_enabled scopes) || all_priced c.units units

abbrev pub is_allowed : RequestState → List ScopedLimit → Candidate → Bool
is_allowed state scopes c =
    candidate_allowed_by_scopes state.model c scopes
    && candidate_has_required_unit_pricing state.provider_units c scopes

abbrev pub none_allowed : RequestState → List ScopedLimit → Failure
none_allowed state scopes =
    if hard_spend_enabled scopes && is_any state.provider_units
    then as_failure (
        unsupported_operation_error
          "hard spend quotas require pricing and a positive per-request reservation bound")
    else forbidden "request is not allowed by quota scope policy"

abbrev pub with_scopes : List ScopedLimit → Passage → Passage
with_scopes scopes (denied e) = denied e
with_scopes scopes (passes state) = passes (record state { scopes = scopes })

abbrev pub scope_passage : Resolved → RequestState → Scoping → Passage
scope_passage router state (unscoped e) = denied e
scope_passage router state (scoped []) = passes state
scope_passage router state (scoped (scope ∷ scopes)) =
    narrowed router (resolve_candidates router state) (λ candidates.
      let filtered = filter (is_allowed state (scope ∷ scopes)) candidates in
      with_estimate_of filtered (
        with_scopes (scope ∷ scopes)
          (with_candidates (none_allowed state (scope ∷ scopes)) filtered state)))

-- `subjectForState`, when no subject is bound.
abbrev pub with_subject : RequestState → RequestState
with_subject state =
    if is_empty_id state.subject
    then record state {
      subject = if is_empty_id state.meta_principal then "anonymous" else state.meta_principal;
    }
    else state

-- `ResolveScopes`.
unfoldable pub resolve_scopes : LimitSources → Resolved → RequestState → Passage
unfolding resolve_scopes_of candidate_allowed_by_scopes candidate_has_required_unit_pricing
    max_estimate
resolve_scopes sources router state =
    let bound = with_subject state in
    scope_passage router bound (resolve_scopes_of sources bound.subject)

-- `CandidatePreflight`, on the candidates of a request.
abbrev pub preflighted : RequestState → Preflight Candidate → Passage
preflighted state (candidates_left candidates) = passes (replace_candidates candidates state)
preflighted state (rejected e) = denied e

unfoldable pub candidate_preflight :
    (Candidate → Option Failure) → Resolved → RequestState → Passage
unfolding preflight_candidates
candidate_preflight check router state =
    narrowed router (resolve_candidates router state)
      (λ candidates. preflighted state (preflight_candidates check candidates))

abbrev pub and_then : Passage → (RequestState → Passage) → Passage
and_then (denied e) next = denied e
and_then (passes state) next = next state

-- The policies between authentication and the quota reservation.
module _ (bytes_of : String → List ℕ) (needs_user needs_project : Bool)
    (count : Candidate → Counting) (check : Candidate → Option Failure) (sources : LimitSources)
    (router : Resolved) where
  unfoldable pub request_policies : RequestState → Passage
  unfolding metadata_validation require_user request_size token_validation acl candidate_preflight
      resolve_scopes
  request_policies state =
      let identified = metadata_validation bytes_of state in
      let required = and_then identified (λ s. require_user needs_user needs_project s) in
      let sized = and_then required (λ s. request_size router s) in
      let validated = and_then sized (λ s. token_validation count router s) in
      let permitted = and_then validated (λ s. acl router s) in
      let flown = and_then permitted (λ s. candidate_preflight check router s) in
      and_then flown (λ s. resolve_scopes sources router s)
