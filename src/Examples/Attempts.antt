-- ===== src/Examples/Attempts.antt =====
-- A route that is tried twice, and a stream (policy/attempt.go).
use llmgw.Base.{
  false, arith, ℕ, zero, suc, ◌+ℤ◌, ◌≡◌, ◌↔◌, refl, pos, List, [], ◌∷◌, Option, none, some, true,
}
use llmgw.Gateway.Errors.{Failure, with_disposition, new_error, as_failure}
use llmgw.Gateway.Dispatch.{Invocation, returned, failed_with}
use llmgw.Gateway.Prefetch.{eof}
use llmgw.Policy.Attempt.{
  Allowance, allowed, acquired, called, breaker_failed, breaker_succeeded, stream_handed, released,
  answered, wrap_attempt,
}
use llmgw.Policy.Attempt.Phases.{AttemptFollows}
use llmgw.Policy.Attempt.Protocol.{wrap_attempt-Follows}
use llmgw.Policy.Attempt.Retry.{Answers, wrap_attempt_iff}
use llmgw.Policy.Attempt.Stream.{StreamStep, reads, closes, stream_succeeded, new_stream, run_steps}
use llmgw.Policy.Attempt.Stream.Outcomes.{Reports, run_steps-Reports}
use llmgw.Policy.Attempt.Stream.Release.{IsBalanced, with_stream, attempt-IsBalanced}
use llmgw.Gateway.Route.{Route}
use llmgw.Gateway.Usage.{Usage, zero_usage}
use llmgw.Policy.Attempt.Rates.{
  RateKind, RateRequest, rpm, tpm, RateAnswer, admits, over_limit, RateStore, single, check_rates,
}
use llmgw.Policy.Attempt.Rates.Requests.{Asks, counted_tokens, tokens_of}
use llmgw.Policy.Attempt.Rates.Denials.{Admits, check_rates_iff}
use llmgw.Examples.Routers.{slow_route}

abbrev overloaded : Failure
overloaded = as_failure (
    with_disposition true true true
      (new_error (pos 503) "upstream_error" "upstream_status" "upstream returned status"))

-- The k-th admission is at the time 10 + k.
abbrev admissions : ℕ → Allowance
admissions zero = allowed 10
admissions (suc k) = allowed 11

abbrev no_refusal : ℕ → Option Failure
no_refusal k = none

-- The first call fails, and the second returns a stream.
abbrev second_streams : ℕ → Invocation
second_streams zero = failed_with overloaded none
second_streams (suc k) = returned true

second_streams_run :
    wrap_attempt admissions no_refusal no_refusal second_streams (pos 2) none none ≡ (
      acquired ∷ called 0 10 ∷ breaker_failed 10 ∷ called 1 11 ∷ stream_handed 11 ∷ [],
      answered 1 true,
    )
unfolding wrap_attempt ◌+ℤ◌
second_streams_run = refl

wrap_attempt-Follows_example :
    AttemptFollows admissions no_refusal 3
      (wrap_attempt admissions no_refusal no_refusal second_streams (pos 2) none none)
wrap_attempt-Follows_example =
    wrap_attempt-Follows admissions no_refusal no_refusal second_streams (pos 2) none none

wrap_attempt_iff_example :
    ((wrap_attempt admissions no_refusal no_refusal second_streams (pos 2) none none).1
      ≡ answered 1 true)
    ↔ Answers admissions no_refusal no_refusal second_streams 3 0 1 true
wrap_attempt_iff_example =
    wrap_attempt_iff admissions no_refusal no_refusal second_streams (pos 2) 1 true

-- Two reads, the second at the end of the stream, and a close.
abbrev read_to_end : List StreamStep
read_to_end = reads 5 none none ∷ reads 0 (some eof) none ∷ closes none ∷ []

read_to_end_run : (run_steps 11 read_to_end new_stream).1 ≡ released ∷ breaker_succeeded 11 ∷ []
unfolding run_steps
read_to_end_run = refl

run_steps-Reports_example : Reports 11 false read_to_end (run_steps 11 read_to_end new_stream).1
run_steps-Reports_example = run_steps-Reports 11 read_to_end

attempt-IsBalanced_example : IsBalanced (
    with_stream 11 read_to_end
      (wrap_attempt admissions no_refusal no_refusal second_streams (pos 2) none none))
attempt-IsBalanced_example =
    attempt-IsBalanced admissions no_refusal no_refusal second_streams (pos 2) none none 11
      read_to_end stream_succeeded refl

-- A store that admits the first limit of a route, and refuses the second.
abbrev answer_to : RateKind → RateAnswer
answer_to rpm = admits
answer_to tpm = over_limit none

abbrev refuses_tokens : RateStore
refuses_tokens = single (λ r. answer_to r.kind)

abbrev limited_route : Route
limited_route = record slow_route {
  limits = record slow_route.limits { rpm = pos 5; tpm = pos 100 };
}

abbrev token_estimate : Usage
token_estimate = record zero_usage {
  input_tokens = pos 30;
  output_tokens = pos 20;
  total_tokens = pos 40;
}

check_rates_iff_example :
    (requests : List RateRequest) × Asks limited_route
      (counted_tokens (tokens_of token_estimate) (tokens_of zero_usage))
      requests
    × ((check_rates refuses_tokens limited_route token_estimate zero_usage ≡ none)
        ↔ Admits refuses_tokens requests)
check_rates_iff_example =
    check_rates_iff refuses_tokens limited_route token_estimate zero_usage
      (omega arith, omega arith, omega arith) (omega arith, omega arith, omega arith)
