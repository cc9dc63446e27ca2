-- ===== src/Gateway/Errors.antt =====
-- The errors of a request, and what may follow them (gateway/gateway.go). Response headers and the
-- parameter name of an error are left out.
use llmgw.Base.{
  ℤ, pos, String, Option, none, some, Bool, true, false, not, ◌&&◌, ◌||◌, ltb_ℤ, leb_ℤ, eqb_ℤ,
  if◌then◌else◌,
}

pub record ApiError : Type 0 where
  pub status : ℤ
  pub type : String
  pub code : String
  pub message : String
  pub retryable : Bool
  pub fallback : Bool
  pub circuit_failure : Bool
  pub disposition_set : Bool

-- What the code finds in the chain of an error: the first `APIError` (`errors.As`), whether
-- `context.Canceled` is in it (`errors.Is`), and the metadata that the attempt's usage is not billed.
pub record Failure : Type 0 where
  pub api_error : Option ApiError
  pub is_canceled : Bool
  pub is_unbillable : Bool

-- ctx.Err(), when it is not nil.
pub data ContextError : Type 0 where
  canceled deadline_exceeded : ContextError

abbrev pub new_error : ℤ → String → String → String → ApiError
new_error status type code message = record {
  status = status;
  type = type;
  code = code;
  message = message;
  retryable = false;
  fallback = false;
  circuit_failure = false;
  disposition_set = false;
}

abbrev pub with_disposition : Bool → Bool → Bool → ApiError → ApiError
with_disposition retryable fallback circuit_failure e = record e {
  retryable = retryable;
  fallback = fallback;
  circuit_failure = circuit_failure;
  disposition_set = true;
}

abbrev pub as_failure : ApiError → Failure
as_failure e = record { api_error = some e; is_canceled = false; is_unbillable = false }

abbrev pub context_failure : ContextError → Failure
context_failure canceled = record { api_error = none; is_canceled = true; is_unbillable = false }
context_failure deadline_exceeded = record {
  api_error = none;
  is_canceled = false;
  is_unbillable = false;
}

abbrev pub map_api : (ApiError → ApiError) → Failure → Failure
map_api f e = elim e.api_error [ none ↦ e | some api ↦ record e { api_error = some (f api) } ]

abbrev pub allow_fallback : Failure → Failure
allow_fallback e = map_api (λ api. record api { fallback = true; disposition_set = true }) e

abbrev pub disallow_fallback : Failure → Failure
disallow_fallback e = map_api (λ api. record api { fallback = false; disposition_set = true }) e

abbrev pub internal_error : ApiError
internal_error = new_error (pos 500) "server_error" "internal_error" "internal server error"

-- `AsAPIError`, on an error that is not nil.
abbrev pub as_api_error : Failure → ApiError
as_api_error e = elim e.api_error [ none ↦ internal_error | some api ↦ api ]

abbrev pub rate_limited : String → ApiError
rate_limited message =
    with_disposition false true false
      (new_error (pos 429) "rate_limit_error" "rate_limit_exceeded" message)

abbrev pub unsupported_operation_error : String → ApiError
unsupported_operation_error message =
    new_error (pos 400) "invalid_request_error" "unsupported_operation" message

-- The message of an upstream status stands without its number.
unfoldable pub provider_status_error : ℤ → ApiError
provider_status_error status =
    if ltb_ℤ status (pos 200)
      || (leb_ℤ (pos 300) status && ltb_ℤ status (pos 400))
      || ltb_ℤ (pos 599) status
    then with_disposition false true true (
        new_error (pos 502) "upstream_error" "unexpected_upstream_status"
          "upstream returned an unexpected HTTP status")
    else if eqb_ℤ status (pos 401) || eqb_ℤ status (pos 403)
    then with_disposition false true true (
        new_error (pos 502) "upstream_error" "upstream_authentication_failed"
          "upstream route authentication failed")
    else if leb_ℤ (pos 500) status
    then with_disposition true true true
        (new_error status "upstream_error" "upstream_status" "upstream returned status")
    else if eqb_ℤ status (pos 429)
    then with_disposition false true false
        (new_error status "rate_limit_error" "upstream_rate_limit" "upstream rate limit exceeded")
    else new_error status "upstream_error" "upstream_status" "upstream rejected the request"

abbrev pub is_transient_status : ℤ → Bool
is_transient_status status =
    eqb_ℤ status (pos 408)
    || eqb_ℤ status (pos 409)
    || eqb_ℤ status (pos 425)
    || eqb_ℤ status (pos 429)

abbrev pub api_fallback_eligible : ApiError → Bool
api_fallback_eligible e =
    if e.disposition_set
    then e.fallback
    else leb_ℤ (pos 500) e.status || e.fallback || is_transient_status e.status

-- May another route be tried after the error?
unfoldable pub fallback_eligible : Option Failure → Bool
fallback_eligible none = false
fallback_eligible (some e) = elim e.api_error [ none ↦ true | some api ↦ api_fallback_eligible api ]

-- What a provider's answer is checked for. A body or stream that is there is `has_body`; `prefetch`
-- is the outcome of reading the first byte of a stream.
pub record ProviderResult : Type 0 where
  pub status_code : ℤ
  pub is_stream : Bool
  pub has_body : Bool
  pub prefetch : Option Failure

abbrev pub empty_result : String → ApiError
empty_result message =
    with_disposition false true true (new_error (pos 502) "upstream_error" "empty_result" message)

abbrev pub disposed : ApiError → ApiError
disposed e = if e.disposition_set then e else with_disposition false true true e

unfoldable pub validate_provider_result : Option ProviderResult → Option Failure
unfolding provider_status_error
validate_provider_result none = some (as_failure (empty_result "provider returned no result"))
validate_provider_result (some r) =
    let status = if eqb_ℤ r.status_code (pos 0) then pos 200 else r.status_code in
    if ltb_ℤ status (pos 200) || leb_ℤ (pos 300) status
    then some (as_failure (provider_status_error status))
    else if not r.is_stream && not r.has_body
    then some (as_failure (empty_result "provider returned no response body"))
    else elim r.prefetch [ none ↦ none | some e ↦ some (map_api disposed e) ]
