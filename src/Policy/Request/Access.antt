-- ===== src/Policy/Request/Access.antt =====
-- The access list of a principal (policy/request.go) and the limits on tokens of a route
-- (TokenValidation of policy/token.go).
use llmgw.Base.{
  pos, List, [], ◌∷◌, Option, none, some, Bool, true, false, not, ◌&&◌, ltb_ℤ, if◌then◌else◌,
}
use llmgw.Amounts.{zero64}
use llmgw.Store.Settlements.{is_empty_id}
use llmgw.Gateway.Errors.{Failure, as_failure, unsupported_operation_error}
use llmgw.Policy.Candidate.{Candidate, requested_output}
use llmgw.Policy.Estimate.{Counting, materialize_candidate, max_estimate}
use llmgw.Policy.Request.{
  Principal, RequestState, Passage, passes, denied, Resolved, invalid_request, forbidden, contains,
  filter, is_any, allowed_by, with_candidates, resolve_candidates, narrowed,
}

abbrev pub serves : Principal → Candidate → Bool
serves p c = contains p.providers c.route.provider

-- The checks of the principal's models and projects, and then `go`.
abbrev pub if_permitted : Principal → RequestState → Passage → Passage
if_permitted p state go =
    if not (allowed_by p.models state.model)
    then denied (forbidden "model not allowed for this token")
    else if is_any p.projects && is_empty_id state.project
    then denied (forbidden "project is required for this token")
    else if not (allowed_by p.projects state.project)
    then denied (forbidden "project not allowed for this token")
    else go

abbrev pub acl_for : Resolved → Option Principal → RequestState → Passage
acl_for router none state = passes state
acl_for router (some p) state = if_permitted p state (
    if is_any p.providers
    then narrowed router (resolve_candidates router state) (λ candidates.
      with_candidates (forbidden "provider not allowed for this token")
        (filter (serves p) candidates) state)
    else passes state)

-- `ACL`.
unfoldable pub acl : Resolved → RequestState → Passage
acl router state = acl_for router state.principal state

abbrev pub exceeds_input : Candidate → Bool
exceeds_input c =
    ltb_ℤ zero64 c.route.capabilities.max_input_tokens
    && ltb_ℤ c.route.capabilities.max_input_tokens c.estimate.input_tokens

abbrev pub exceeds_output : Candidate → Bool
exceeds_output c =
    ltb_ℤ zero64 c.route.capabilities.max_output_tokens
    && ltb_ℤ c.route.capabilities.max_output_tokens (requested_output c)

-- The candidates that are within their route's limits, and whether one was rejected for its input or
-- for its output.
pub record Validated : Type 0 where
  pub filtered : List Candidate
  pub rejected_input : Bool
  pub rejected_output : Bool

abbrev pub validated_with : Option Candidate → Validated → Validated
validated_with none v = v
validated_with (some c) v =
    if exceeds_input c
    then record v { rejected_input = true }
    else if exceeds_output c
    then record v { rejected_output = true }
    else record v { filtered = c ∷ v.filtered }

unfoldable pub validate_tokens : (Candidate → Counting) → List Candidate → Validated
unfolding materialize_candidate
validate_tokens count [] = record { filtered = []; rejected_input = false; rejected_output = false }
validate_tokens count (c ∷ candidates) =
    validated_with (materialize_candidate (count c) c) (validate_tokens count candidates)

abbrev pub no_validated : Validated → Failure
no_validated v =
    if v.rejected_input
    then invalid_request (pos 400) "max_input_tokens_exceeded"
        "estimated input tokens exceed configured maximum"
    else if v.rejected_output
    then invalid_request (pos 400) "max_output_tokens_exceeded"
        "requested max output tokens exceed configured maximum"
    else as_failure (unsupported_operation_error "no resolved route passed token validation")

abbrev pub with_estimate_of : List Candidate → Passage → Passage
with_estimate_of candidates (denied e) = denied e
with_estimate_of candidates (passes state) =
    passes (record state { estimate = max_estimate candidates })

-- `TokenValidation`; `count` gives what the tokenizers, counters and builders answer for a candidate.
unfoldable pub token_validation : (Candidate → Counting) → Resolved → RequestState → Passage
unfolding validate_tokens max_estimate
token_validation count router state =
    narrowed router (resolve_candidates router state) (λ candidates.
      let v = validate_tokens count candidates in
      with_estimate_of v.filtered (with_candidates (no_validated v) v.filtered state))
