-- ===== src/Examples/Gateways.antt =====
-- A dispatch that falls back, and a stream whose first byte comes late (gateway/gateway.go).
use llmgw.Base.{
  ℕ, zero, suc, ◌≡◌, ◌↔◌, refl, String, List, [], ◌∷◌, Option, none, some, Bool, true, false,
}
use llmgw.Gateway.Route.{Operation}
use llmgw.Gateway.Router.{ResolvedRoute}
use llmgw.Gateway.Errors.{ContextError, rate_limited, as_failure}
use llmgw.Gateway.Dispatch.{Invocation, returned, failed_with, executed, dispatched, dispatch}
use llmgw.Gateway.Dispatch.Fallback.{Reaches, dispatch_iff}
use llmgw.Gateway.Prefetch.{eof, Chunk, PrefetchedReader}
use llmgw.Examples.Routers.{slow_route, fast_route, offer}

abbrev registered : String → Option (Operation → Bool)
registered name = some (λ op. true)

-- The first call is limited, and the second returns.
abbrev first_limited : ℕ → Invocation
first_limited zero = returned false
first_limited (suc zero) = failed_with (as_failure (rate_limited "rpm limit exceeded")) none
first_limited (suc (suc k)) = returned false

abbrev two_candidates : List ResolvedRoute
two_candidates = offer slow_route ∷ offer fast_route ∷ []

first_limited_run :
    dispatch registered first_limited two_candidates ≡ executed 2 (offer fast_route) dispatched
unfolding dispatch
first_limited_run = refl

dispatch_iff_example :
    (dispatch registered first_limited two_candidates ≡ executed 2 (offer fast_route) dispatched)
    ↔ Reaches registered first_limited 1 two_candidates 2 (offer fast_route) dispatched
dispatch_iff_example =
    dispatch_iff registered first_limited two_candidates 2 (offer fast_route) dispatched

abbrev chunk : List ℕ → Chunk
chunk bytes = record { bytes = bytes; error = none }

-- An empty read, five bytes, and three bytes with the end.
abbrev late_stream : List Chunk
late_stream =
    chunk []
    ∷ chunk (1 ∷ 2 ∷ 3 ∷ 4 ∷ 5 ∷ [])
    ∷ record { bytes = 6 ∷ 7 ∷ 8 ∷ []; error = some eof }
    ∷ []

abbrev live : ℕ → Option ContextError
live k = none

abbrev late_reader : PrefetchedReader
late_reader = record {
  reader = 1 ∷ 2 ∷ 3 ∷ 4 ∷ 5 ∷ [];
  pending_err = none;
  tail = record { bytes = 6 ∷ 7 ∷ 8 ∷ []; error = some eof } ∷ [];
}

abbrev sizes : List ℕ
sizes = 2 ∷ 2 ∷ []
