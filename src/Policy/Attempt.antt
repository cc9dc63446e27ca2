-- ===== src/Policy/Attempt.antt =====
-- The attempt policy (policy/attempt.go): the errors it retries, the loop of provider calls, and
-- the order of what it does around them. The breaker, the quota reservation, the rates and the
-- provider are oracles of the number of the retry: what each answers when it is asked. Other
-- requests may change them between two retries.
pub mod Phases
pub mod Protocol
pub mod Rates
pub mod Retry
pub mod Stream
use llmgw.Base.{
  ℕ, zero, suc, ℤ, pos, negsuc, List, [], ◌∷◌, ◌++◌, Option, none, some, Bool, true, false, not,
  ◌||◌, ◌==◌, if◌then◌else◌,
}
use llmgw.Gateway.Errors.{
  Failure, ContextError, canceled, deadline_exceeded, new_error, as_failure, context_failure,
}
use llmgw.Gateway.Dispatch.{Invocation, returned, failed_with}
use llmgw.Policy.Breaker.{route_attempt_count}

-- An error that is not an `APIError` counts as transient.
unfoldable pub retryable : Failure → Option ContextError → Bool
retryable e (some canceled) = false
retryable e (some deadline_exceeded) = true
retryable e none = elim e.api_error [ none ↦ true | some api ↦ api.retryable ]

unfoldable pub circuit_failure : Failure → Option ContextError → Bool
circuit_failure e (some canceled) = false
circuit_failure e (some deadline_exceeded) = true
circuit_failure e none = elim e.api_error [
  | none ↦ not e.is_canceled
  | some api ↦ api.circuit_failure
]

-- What the breaker answers: an admission with its time, a refusal, or an error.
pub data Allowance : Type 0 where
  allowed : (started_at : ℕ) → Allowance
  refused : Allowance
  unavailable : Failure → Allowance

-- What the policy does, in order. Times are those of the breaker's admissions.
pub data Event : Type 0 where
  acquired : Event
  called : (retry : ℕ) → (started_at : ℕ) → Event
  reservation_released : (retry : ℕ) → Event
  breaker_succeeded : (started_at : ℕ) → Event
  breaker_failed : (started_at : ℕ) → Event
  stream_handed : (started_at : ℕ) → Event
  released : Event

-- `answered` is a result with no error; `given_up` is the return after the loop, with `lastErr`.
pub data Outcome : Type 0 where
  answered : (retry : ℕ) → (is_stream : Bool) → Outcome
  failed : Failure → Outcome
  given_up : Outcome

abbrev pub circuit_open : Failure
circuit_open =
    as_failure (new_error (pos 503) "server_error" "circuit_open" "route circuit is open")

-- One turn of the loop returns, or goes on to the next.
pub data Turn : Type 0 where
  ends : List Event → Outcome → Turn
  goes_on : List Event → Turn

abbrev pub when : Bool → Event → List Event
when b e = if b then e ∷ [] else []

-- What a failed call is followed by.
abbrev pub after_failure : ℕ → ℕ → Failure → Option ContextError → List Event
after_failure retry started_at e context =
    when e.is_unbillable (reservation_released retry)
    ++ when (circuit_failure e context) (breaker_failed started_at)

abbrev pub called_turn : Bool → ℕ → ℕ → Invocation → Turn
called_turn is_last retry started_at (returned is_stream) =
    ends
      (called retry started_at
        ∷ (if is_stream then stream_handed started_at else breaker_succeeded started_at)
        ∷ [])
      (answered retry is_stream)
called_turn is_last retry started_at (failed_with e context) =
    let events = called retry started_at ∷ after_failure retry started_at e context in
    if not (retryable e context) || is_last then ends events (failed e) else goes_on events

abbrev pub rated_turn : Bool → ℕ → ℕ → Option Failure → Invocation → Turn
rated_turn is_last retry started_at (some e) call =
    ends (reservation_released retry ∷ []) (failed e)
rated_turn is_last retry started_at none call = called_turn is_last retry started_at call

abbrev pub reserved_turn : Bool → ℕ → ℕ → Option Failure → Option Failure → Invocation → Turn
reserved_turn is_last retry started_at (some e) rate call = ends [] (failed e)
reserved_turn is_last retry started_at none rate call =
    rated_turn is_last retry started_at rate call

abbrev pub allowed_turn : Bool → ℕ → Allowance → Option Failure → Option Failure → Invocation → Turn
allowed_turn is_last retry (allowed started_at) reserve rate call =
    reserved_turn is_last retry started_at reserve rate call
allowed_turn is_last retry refused reserve rate call = ends [] (failed circuit_open)
allowed_turn is_last retry (unavailable e) reserve rate call = ends [] (failed e)

-- The loop runs at most this often.
abbrev pub turns : ℤ → ℕ
turns (pos n) = n
turns (negsuc n) = 0

abbrev pub is_none_left : ℕ → Bool
is_none_left zero = true
is_none_left (suc n) = false

-- The release of the slots is deferred, unless a stream has taken it over.
abbrev pub deferred : List Event → Outcome → List Event × Outcome
deferred events (answered retry true) = (events, answered retry true)
deferred events (answered retry false) = (events ++ (released ∷ []), answered retry false)
deferred events (failed e) = (events ++ (released ∷ []), failed e)
deferred events given_up = (events ++ (released ∷ []), given_up)

module _ (allowances : ℕ → Allowance) (reserves rates : ℕ → Option Failure)
    (calls : ℕ → Invocation) where
  -- The loop with n turns left, of which the first is the given retry.
  unfoldable pub retry_from : ℕ → ℕ → List Event × Outcome
  unfolding retryable circuit_failure
  retry_from zero retry = ([], given_up)
  retry_from (suc n) retry =
      elim (allowed_turn (is_none_left n) retry (allowances retry) (reserves retry) (rates retry)
        (calls retry)) [
          | ends events outcome ↦ (events, outcome)
          | goes_on events ↦ (let rest = retry_from n (suc retry) in (events ++ rest.0, rest.1))
        ]

  -- The source asks the breaker for the first call before it acquires the slots.
  abbrev pub slotted : ℤ → Allowance → Option Failure → List Event × Outcome
  slotted retries (allowed started_at) none =
      let loop = retry_from (turns (route_attempt_count retries)) 0 in
      deferred (acquired ∷ loop.0) loop.1
  slotted retries (allowed started_at) (some e) = ([], failed e)
  slotted retries refused slots = ([], failed circuit_open)
  slotted retries (unavailable e) slots = ([], failed e)

  -- `AttemptLimits.WrapAttempt` on a route with the given retries: `context` is ctx.Err() at the
  -- start, and `slots` the error of acquiring the slots.
  unfoldable pub wrap_attempt : ℤ → Option ContextError → Option Failure → List Event × Outcome
  unfolding retry_from route_attempt_count
  wrap_attempt retries (some c) slots = ([], failed (context_failure c))
  wrap_attempt retries none slots = slotted retries (allowances 0) slots
