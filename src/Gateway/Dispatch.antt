-- ===== src/Gateway/Dispatch.antt =====
-- The engine's loop over the candidate routes, and the preflight that filters them
-- (gateway/gateway.go). Providers are registered by name; `invoke k` is what the call of the k-th
-- candidate, through the attempt interceptors, answers when it is made.
pub mod Eligible
pub mod Fallback
use llmgw.Base.{
  ℕ, suc, ◌+◌, ℤ, pos, String, List, [], ◌∷◌, Option, none, some, Bool, true, false, if◌then◌else◌,
}
use llmgw.Gateway.Route.{Operation, Route}
use llmgw.Gateway.Router.{ResolvedRoute}
use llmgw.Gateway.Errors.{
  ApiError, Failure, ContextError, new_error, as_failure, unsupported_operation_error,
  fallback_eligible,
}

-- `no_stage` is the empty stage of a nil execution.
pub data ExecutionStage : Type 0 where
  no_stage reserved dispatched first_byte completed failed aborted : ExecutionStage

-- A call returns a response, a stream or not, or fails; then ctx.Err() is read.
pub data Invocation : Type 0 where
  returned : (is_stream : Bool) → Invocation
  failed_with : Failure → Option ContextError → Invocation

pub data Dispatched : Type 0 where
  executed : (number : ℕ) → ResolvedRoute → ExecutionStage → Dispatched
  stopped : ContextError → Dispatched
  unserved : Failure → Dispatched

abbrev pub unknown_provider : Failure
unknown_provider =
    as_failure
      (new_error (pos 502) "server_error" "unknown_provider" "route provider is not registered")

abbrev pub unsupported_by_provider : Failure
unsupported_by_provider =
    as_failure (unsupported_operation_error "provider does not support requested operation")

abbrev pub no_route : Failure
no_route =
    as_failure (new_error (pos 502) "server_error" "no_route" "no route could complete the request")

abbrev pub last_or_no_route : Option Failure → Failure
last_or_no_route none = no_route
last_or_no_route (some e) = e

-- A stream has had its first byte by then.
abbrev pub stage_of : Bool → ExecutionStage
stage_of is_stream = if is_stream then first_byte else dispatched

-- What becomes of a candidate: it is passed over with an error, or it ends the loop.
pub data Verdict : Type 0 where
  passes : Failure → Verdict
  ends : Dispatched → Verdict

abbrev pub judged : ℕ → ResolvedRoute → Invocation → Verdict
judged number route (returned is_stream) = ends (executed number route (stage_of is_stream))
judged number route (failed_with e (some c)) = ends (stopped c)
judged number route (failed_with e none) =
    if fallback_eligible (some e) then passes e else ends (unserved e)

abbrev pub offered : Option (Operation → Bool) → (ℕ → Invocation) → ℕ → ResolvedRoute → Verdict
offered none invoke number route = passes unknown_provider
offered (some supports) invoke number route =
    if supports route.request.operation
    then judged number route (invoke number)
    else passes unsupported_by_provider

module _ (providers : String → Option (Operation → Bool)) (invoke : ℕ → Invocation) where
  unfoldable pub verdict : ℕ → ResolvedRoute → Verdict
  unfolding fallback_eligible
  verdict number route = offered (providers route.route.provider) invoke number route

  -- The loop from the candidate with the given number on.
  unfoldable pub dispatch_from : ℕ → Option Failure → List ResolvedRoute → Dispatched
  unfolding verdict
  dispatch_from number last [] = unserved (last_or_no_route last)
  dispatch_from number last (route ∷ candidates) = elim (verdict number route) [
    | passes e ↦ dispatch_from (suc number) (some e) candidates
    | ends d ↦ d
  ]

  unfoldable pub dispatch : List ResolvedRoute → Dispatched
  unfolding dispatch_from
  dispatch candidates = dispatch_from 1 none candidates

pub data Preflight (C : Type 0) : Type 0 where
  candidates_left : List C → Preflight C
  rejected : Failure → Preflight C

abbrev pub no_preflight_route : Failure
no_preflight_route =
    as_failure (unsupported_operation_error "no resolved route passed provider preflight")

abbrev pub last_or_no_preflight : Option Failure → Failure
last_or_no_preflight none = no_preflight_route
last_or_no_preflight (some e) = e

-- The outcome of a candidate's check: none if the provider has none, or it passes.
module _ {C : Type 0} (preflight : C → Option Failure) where
  abbrev pub and_left_with : C → Preflight C × Option Failure → Preflight C × Option Failure
  and_left_with route (candidates_left routes, last) = (candidates_left (route ∷ routes), last)
  and_left_with route (rejected e, last) = (rejected e, last)

  unfoldable pub preflight_from : Option Failure → List C → Preflight C × Option Failure
  unfolding fallback_eligible
  preflight_from last [] = (candidates_left [], last)
  preflight_from last (route ∷ candidates) = elim (preflight route) [
    | none ↦ and_left_with route (preflight_from last candidates)
    | some e ↦
        let rest = preflight_from (some e) candidates in
        if fallback_eligible (some e) then rest else (rejected e, some e)
  ]

  abbrev pub with_some : Preflight C × Option Failure → Preflight C
  with_some (candidates_left [], last) = rejected (last_or_no_preflight last)
  with_some (candidates_left (route ∷ routes), last) = candidates_left (route ∷ routes)
  with_some (rejected e, last) = rejected e

  -- `CandidatePreflight.Wrap`, up to the call of the next handler.
  unfoldable pub preflight_candidates : List C → Preflight C
  unfolding preflight_from
  preflight_candidates candidates = with_some (preflight_from none candidates)
