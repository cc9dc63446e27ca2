-- ===== src/Policy/Attempt/Rates/Denials.antt =====
-- What the rates of a route let through, and how they deny (policy/attempt.go).
use llmgw.Base.{◌≡◌, ◌↔◌, refl, List, [], ◌∷◌, Option, none, some, All}
use llmgw.Gateway.Route.{Route}
use llmgw.Gateway.Usage.{Usage}
use llmgw.Gateway.Errors.{Failure}
use llmgw.Policy.Attempt.Rates.{
  RateKind, RateRequest, RateAnswer, admits, over_limit, interrupted, broken, RateStore, no_rates,
  single, batch, rate_requests, rate_admission_error, allow_each, allow_batch, batch_kind,
  first_error, check_rates,
}
use llmgw.Policy.Attempt.Rates.Requests.{
  tokens_of, counted_tokens, AreInt64, Asks, rate_requests-Asks,
}

-- The store admits all the given requests: each on its own, or all at once. One that admits batches is
-- not asked about none.
abbrev pub Admits : RateStore → List RateRequest → Type 0
Admits no_rates requests = Unit
Admits (single allow) requests = All (λ r. allow r ≡ admits) requests
Admits (batch allow) [] = Unit
Admits (batch allow) (r ∷ requests) = allow (r ∷ requests) ≡ admits

rate_admission_error-none :
    (kind : Option RateKind) (a : RateAnswer) → rate_admission_error kind a ≡ none → a ≡ admits
unfolding rate_admission_error
rate_admission_error-none kind admits h = refl
rate_admission_error-none kind (over_limit none) h = absurd cc
rate_admission_error-none kind (over_limit (some k)) h = absurd cc
rate_admission_error-none kind (interrupted c) h = absurd cc
rate_admission_error-none kind broken h = absurd cc

admits-none :
    (kind : Option RateKind) (a : RateAnswer) → a ≡ admits → rate_admission_error kind a ≡ none
unfolding rate_admission_error
admits-none kind a h = rw h refl

first_error-none : (a b : Option Failure) → first_error a b ≡ none → (a ≡ none) × (b ≡ none)
first_error-none none b h = (refl, h)
first_error-none (some e) b h = absurd cc

allow_each_iff :
    (allow : RateRequest → RateAnswer) (requests : List RateRequest)
    → (allow_each allow requests ≡ none) ↔ All (λ r. allow r ≡ admits) requests
unfolding allow_each
allow_each_iff allow [] = (λ _. tt, λ _. refl)
allow_each_iff allow (r ∷ requests) = (
  λ h.
      let p =
        first_error-none (rate_admission_error (some r.kind) (allow r)) (allow_each allow requests)
          h in
      (
        rate_admission_error-none (some r.kind) (allow r) p.0,
        (allow_each_iff allow requests).0 p.1,
      ),
  λ (a, all_admitted).
      rw (admits-none (some r.kind) (allow r) a) ((allow_each_iff allow requests).1 all_admitted),
)

allow_batch_iff :
    (allow : List RateRequest → RateAnswer) (requests : List RateRequest)
    → (allow_batch allow requests ≡ none) ↔ Admits (batch allow) requests
allow_batch_iff allow [] = (λ _. tt, λ _. refl)
allow_batch_iff allow (r ∷ requests) = (
  rate_admission_error-none (batch_kind (r ∷ requests)) (allow (r ∷ requests)),
  admits-none (batch_kind (r ∷ requests)) (allow (r ∷ requests)),
)

check_rates-Admits :
    (store : RateStore) (route : Route) (e f : Usage)
    → (check_rates store route e f ≡ none) ↔ Admits store (rate_requests route e f)
unfolding check_rates
check_rates-Admits no_rates route e f = (λ _. tt, λ _. refl)
check_rates-Admits (single allow) route e f = allow_each_iff allow (rate_requests route e f)
check_rates-Admits (batch allow) route e f = allow_batch_iff allow (rate_requests route e f)

-- The limits of a route make one request of a call for each limit that is set: for the calls, with 1,
-- and for the tokens, with the count of the route's estimate, or else of the request's, or else with 1.
-- The call passes exactly when the store admits all of them: each on its own, or as one batch, of which
-- the store is not asked if no limit is set. Without a store every call passes. The estimates are int64
-- values.
pub check_rates_iff :
    (store : RateStore) (route : Route) (route_estimate request_estimate : Usage)
    → AreInt64 route_estimate
    → AreInt64 request_estimate
    → (requests : List RateRequest) × Asks route
        (counted_tokens (tokens_of route_estimate) (tokens_of request_estimate))
        requests
      × ((check_rates store route route_estimate request_estimate ≡ none) ↔ Admits store requests)
check_rates_iff store route e f h k =
    (rate_requests route e f, rate_requests-Asks route e f h k, check_rates-Admits store route e f)
