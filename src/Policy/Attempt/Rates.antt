-- ===== src/Policy/Attempt/Rates.antt =====
-- The rates of a route (policy/attempt.go: checkRates, rateKind, rateAdmissionError, safeUsageTotal).
-- What the store of rates answers to a request is an argument.
pub mod Requests
pub mod Denials
use llmgw.Base.{
  ◌≡◌, ◌↔◌, refl, ℤ, pos, String, List, [], ◌∷◌, ◌++◌, Option, none, some, Bool, true, false, not,
  ltb_ℤ, leb_ℤ, if◌then◌else◌, if-holds, All, ◌⊎◌, inl, inr,
}
use llmgw.Amounts.{zero64, saturating_add}
use llmgw.Gateway.Route.{Route}
use llmgw.Gateway.Usage.{Usage}
use llmgw.Gateway.Errors.{
  Failure, ContextError, new_error, with_disposition, as_failure, context_failure, rate_limited,
  fallback_eligible,
}

-- The key of a bucket is its kind and the route's name.
pub data RateKind : Type 0 where
  rpm tpm : RateKind

-- A limit has its rate as its burst, and a minute as its period.
pub record RateRequest : Type 0 where
  pub kind : RateKind
  pub route : String
  pub rate : ℤ
  pub n : ℤ

-- An error of the store: it has the status 429, and names the bucket if it refuses a batch; or it is
-- ctx.Err(); or it is another one.
pub data RateAnswer : Type 0 where
  admits : RateAnswer
  over_limit : Option RateKind → RateAnswer
  interrupted : ContextError → RateAnswer
  broken : RateAnswer

unfoldable pub safe_usage_total : Usage → ℤ
unfolding saturating_add
safe_usage_total usage =
    let combined = saturating_add usage.input_tokens usage.output_tokens in
    if ltb_ℤ combined usage.total_tokens then usage.total_tokens else combined

-- The tokens that a call counts with: by its route's estimate, or else by the request's, or one.
abbrev pub rate_tokens : Usage → Usage → ℤ
rate_tokens route_estimate request_estimate =
    let own = safe_usage_total route_estimate in
    let delta = if leb_ℤ own zero64 then safe_usage_total request_estimate else own in
    if leb_ℤ delta zero64 then pos 1 else delta

abbrev pub rate_request : RateKind → Route → ℤ → ℤ → List RateRequest
rate_request kind route rate n =
    if ltb_ℤ zero64 rate
    then record { kind = kind; route = route.name; rate = rate; n = n } ∷ []
    else []

unfoldable pub rate_requests : Route → Usage → Usage → List RateRequest
unfolding safe_usage_total
rate_requests route route_estimate request_estimate =
    rate_request rpm route route.limits.rpm (pos 1)
    ++ rate_request tpm route route.limits.tpm (rate_tokens route_estimate request_estimate)

abbrev pub limit_message : Option RateKind → String
limit_message none = "route limit exceeded"
limit_message (some rpm) = "rpm limit exceeded"
limit_message (some tpm) = "tpm limit exceeded"

abbrev pub rate_store_unavailable : Failure
rate_store_unavailable = as_failure (
    with_disposition false false false (
      new_error (pos 503) "server_error" "rate_store_unavailable"
        "rate limit service is temporarily unavailable"))

-- `rateAdmissionError`, for a request of the given kind.
unfoldable pub rate_admission_error : Option RateKind → RateAnswer → Option Failure
rate_admission_error kind admits = none
rate_admission_error kind (over_limit none) = some (as_failure (rate_limited (limit_message kind)))
rate_admission_error kind (over_limit (some k)) =
    some (as_failure (rate_limited (limit_message (some k))))
rate_admission_error kind (interrupted c) = some (context_failure c)
rate_admission_error kind broken = some rate_store_unavailable

-- The store of rates: none, one that admits single requests, or one that admits a batch.
pub data RateStore : Type 0 where
  no_rates : RateStore
  single : (RateRequest → RateAnswer) → RateStore
  batch : (List RateRequest → RateAnswer) → RateStore

abbrev pub first_error : Option Failure → Option Failure → Option Failure
first_error (some e) rest = some e
first_error none rest = rest

unfoldable pub allow_each : (RateRequest → RateAnswer) → List RateRequest → Option Failure
unfolding rate_admission_error
allow_each allow [] = none
allow_each allow (r ∷ requests) =
    first_error (rate_admission_error (some r.kind) (allow r)) (allow_each allow requests)

-- The kind that an error of a batch is reported with, if it names none.
abbrev pub batch_kind : List RateRequest → Option RateKind
batch_kind (r ∷ []) = some r.kind
batch_kind _ = none

abbrev pub allow_batch : (List RateRequest → RateAnswer) → List RateRequest → Option Failure
allow_batch allow [] = none
allow_batch allow (r ∷ requests) =
    rate_admission_error (batch_kind (r ∷ requests)) (allow (r ∷ requests))

unfoldable pub check_rates : RateStore → Route → Usage → Usage → Option Failure
unfolding rate_requests allow_each rate_admission_error
check_rates no_rates route route_estimate request_estimate = none
check_rates (single allow) route route_estimate request_estimate =
    allow_each allow (rate_requests route route_estimate request_estimate)
check_rates (batch allow) route route_estimate request_estimate =
    allow_batch allow (rate_requests route route_estimate request_estimate)
