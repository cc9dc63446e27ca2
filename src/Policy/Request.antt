-- ===== src/Policy/Request.antt =====
-- The request policies (policy/request.go, and TokenValidation of policy/token.go), in the order in
-- which app/app.go runs them. Each narrows the candidate routes, and passes the request on or denies it.
-- The name of an error's parameter is left out. Authentication is not modelled: `principal` and
-- `subject` are what it has bound.
pub mod Access
pub mod Scopes
pub mod Narrowing
use llmgw.Base.{
  ℕ, ◌+◌, ltb, leb, ℤ, pos, String, String-discrete, List, [], ◌∷◌, Option, none, some, Bool, true,
  false, not, ◌&&◌, ◌||◌, ◌==◌, ltb_ℤ, leb_ℤ, eqb_ℤ, ite, length, if◌then◌else◌,
}
use llmgw.Amounts.{zero64}
use llmgw.Store.Usage.{LimitSpec, ScopedLimit, ScopeKind, scope_key, ScopeRef}
use llmgw.Store.Settlements.{is_empty_id}
use llmgw.Gateway.Errors.{
  ApiError, Failure, ContextError, new_error, with_disposition, as_failure, context_failure,
  unsupported_operation_error,
}
use llmgw.Gateway.Usage.{Usage}
use llmgw.Policy.Candidate.{UnitPricing, Candidate, requested_output}
use llmgw.Policy.Estimate.{Counting, materialize_candidate, max_estimate}

pub record Principal : Type 0 where
  pub providers : List String
  pub models : List String
  pub projects : List String

-- `resolved` says whether the candidates are those of the router yet, or narrowed already.
pub record RequestState : Type 0 where
  pub principal : Option Principal
  pub meta_principal : String
  pub subject : String
  pub model : String
  pub user : String
  pub project : String
  pub body_bytes : ℤ
  pub provider_units : List String
  pub candidates : List Candidate
  pub resolved : Bool
  pub scopes : List ScopedLimit
  pub estimate : Usage

pub data Passage : Type 0 where
  passes : RequestState → Passage
  denied : Failure → Passage

pub data Resolved : Type 0 where
  resolved_to : List Candidate → Resolved
  unresolved : Failure → Resolved

abbrev pub invalid_request : ℤ → String → String → Failure
invalid_request status code message =
    as_failure (new_error status "invalid_request_error" code message)

abbrev pub forbidden : String → Failure
forbidden message = as_failure (new_error (pos 403) "permission_error" "forbidden" message)

-- `lo.Contains` and `lo.Filter`.
abbrev pub contains : List String → String → Bool
contains [] name = false
contains (x ∷ xs) name = ite (String-discrete x name) true (contains xs name)

abbrev pub filter : (Candidate → Bool) → List Candidate → List Candidate
filter test [] = []
filter test (c ∷ candidates) = if test c then c ∷ filter test candidates else filter test candidates

abbrev pub is_any : List String → Bool
is_any [] = false
is_any (x ∷ xs) = true

-- No list allows everything.
abbrev pub allowed_by : List String → String → Bool
allowed_by allowlist name = not (is_any allowlist) || contains allowlist name

-- `ReplaceCandidates`.
abbrev pub replace_candidates : List Candidate → RequestState → RequestState
replace_candidates candidates state = record state { candidates = candidates; resolved = true }

-- With candidates left, the request goes on with them.
abbrev pub with_candidates : Failure → List Candidate → RequestState → Passage
with_candidates e [] state = denied e
with_candidates e (c ∷ candidates) state = passes (replace_candidates (c ∷ candidates) state)

-- The error of an identity that would not do for a header, of which the bytes are given.
abbrev pub is_control : ℕ → Bool
is_control byte = ltb byte 32 || byte == 127

abbrev pub any_control : List ℕ → Bool
any_control [] = false
any_control (byte ∷ bytes) = is_control byte || any_control bytes

unfoldable pub validate_forwarded_identity : List ℕ → Option Failure
validate_forwarded_identity bytes =
    if ltb 512 (length bytes)
    then some (invalid_request (pos 400) "invalid_metadata" "exceeds the maximum length")
    else if any_control bytes
    then some (invalid_request (pos 400) "invalid_metadata" "contains invalid control characters")
    else none

abbrev pub identity_passage : Option Failure → Option Failure → RequestState → Passage
identity_passage (some e) project state = denied e
identity_passage none (some e) state = denied e
identity_passage none none state = passes state

-- `MetadataValidation`; `bytes_of` gives the bytes of a string.
unfoldable pub metadata_validation : (String → List ℕ) → RequestState → Passage
unfolding validate_forwarded_identity
metadata_validation bytes_of state =
    identity_passage (validate_forwarded_identity (bytes_of state.user))
      (validate_forwarded_identity (bytes_of state.project)) state

-- `RequireUser`, with the two settings of the snapshot.
unfoldable pub require_user : Bool → Bool → RequestState → Passage
require_user needs_user needs_project state =
    if needs_user && is_empty_id state.user
    then denied (invalid_request (pos 400) "missing_user" "user is required")
    else if needs_project && is_empty_id state.project
    then denied (invalid_request (pos 400) "missing_project" "project is required")
    else passes state

-- `router` is what the router resolves the request to.
module _ (router : Resolved) where
  abbrev pub resolve_candidates : RequestState → Resolved
  resolve_candidates state = if state.resolved then resolved_to state.candidates else router

  abbrev pub narrowed : Resolved → (List Candidate → Passage) → Passage
  narrowed (unresolved e) go = denied e
  narrowed (resolved_to candidates) go = go candidates

  abbrev pub fits_body : RequestState → Candidate → Bool
  fits_body state c = eqb_ℤ c.max_body_bytes zero64 || leb_ℤ state.body_bytes c.max_body_bytes

  -- `RequestSize`.
  unfoldable pub request_size : RequestState → Passage
  request_size state = narrowed (resolve_candidates state) (λ candidates.
      with_candidates
        (invalid_request (pos 413) "body_too_large" "request body exceeds route maximum")
        (filter (fits_body state) candidates) state)
