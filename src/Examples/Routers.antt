-- ===== src/Examples/Routers.antt =====
-- Two routes of one model, and a request for it (gateway/gateway.go).
use llmgw.Base.{
  ℕ, ◌%◌, ◌≡◌, refl, pos, String, String-discrete, List, [], ◌∷◌, none, some, true, false, arith,
}
use llmgw.Amounts.{zero64}
use llmgw.Gateway.Route.{Operation-discrete, chat_completions, Route, Capability}
use llmgw.Gateway.Router.{Request, ResolvedRoute, Providers, prepare_route, ready, prepared_request}
use llmgw.Gateway.Router.Prepare.{IsFit, prepare_route-IsFit}
use llmgw.Gateway.Router.Order.{Snapshot, resolve, resolved, rotate_weighted}
use llmgw.Gateway.Router.Rotation.{IsFirst, weights, rotate_weighted-IsFirst}
use llmgw.Gateway.Router.Descending.{IsDescending}
use llmgw.Gateway.Router.Priority.{resolve-IsDescending}

abbrev chat : Capability
chat = record {
  operations = chat_completions ∷ [];
  streaming = true;
  tool_calling = false;
  structured_output = false;
  vision_input = false;
  audio = false;
  reasoning = false;
  max_input_tokens = zero64;
  max_output_tokens = pos 4096;
}

abbrev pub slow_route : Route
slow_route = record {
  name = "slow";
  provider = "p";
  backend = "";
  model = "m";
  upstream_model = "m-1";
  base_url = "";
  api_version = "";
  priority = pos 1;
  weight = pos 30;
  retries = pos 2;
  timeout = pos 45_000_000_000;
  limits = record {
    rpm = zero64;
    tpm = zero64;
    concurrency = zero64;
    provider_concurrency = zero64;
  };
  circuit = record { failures = pos 3; cooldown = zero64 };
  capabilities = chat;
}

abbrev pub fast_route : Route
fast_route = record slow_route { name = "fast"; weight = pos 70 }

abbrev no_planners : Providers
no_planners = record { planner = λ name. none; supports = λ name op. true }

abbrev request : Request
request = record {
  execution_id = "e";
  request_id = "";
  provider = "";
  operation = chat_completions;
  model = "m";
  stream = true;
  hints = record {
    max_output_tokens = pos 100;
    requires_tools = false;
    requires_structured_output = false;
    requires_vision = false;
    requires_audio = false;
    requires_reasoning = false;
  };
}

abbrev pub offer : Route → ResolvedRoute
offer route = record {
  route = route;
  request = prepared_request route request chat_completions;
  bridge_from = none;
}

abbrev two_routes : Snapshot
two_routes = record { routes = []; routes_by_model = some (λ model. fast_route ∷ slow_route ∷ []) }

abbrev hash : String → String → ℕ
hash alias id = 175

slow_route-fits : prepare_route no_planners slow_route request ≡ ready (offer slow_route)
unfolding prepare_route String-discrete Operation-discrete
slow_route-fits = refl

prepare_route-IsFit_example : IsFit slow_route request (offer slow_route)
prepare_route-IsFit_example =
    prepare_route-IsFit no_planners slow_route request (offer slow_route) slow_route-fits

-- 175 modulo 100 is 75, which is in the share of the second route.
rotate_weighted-IsFirst_example :
    IsFirst
      (175 % weights (offer fast_route ∷ offer slow_route ∷ []))
      (offer fast_route ∷ offer slow_route ∷ [])
      (rotate_weighted hash "m" (offer fast_route ∷ offer slow_route ∷ []) "e")
rotate_weighted-IsFirst_example =
    rotate_weighted-IsFirst hash "m" (offer fast_route ∷ offer slow_route ∷ []) "e" (omega arith)
      (omega arith) (omega arith)

-- The priority of the slow route is raised.
abbrev raised : Route
raised = record slow_route { priority = pos 2 }

abbrev raised_snapshot : Snapshot
raised_snapshot = record { routes = fast_route ∷ raised ∷ []; routes_by_model = none }

raised_order :
    resolve hash no_planners raised_snapshot request
    ≡ resolved (offer raised ∷ offer fast_route ∷ [])
unfolding resolve String-discrete Operation-discrete
raised_order = refl

resolve-IsDescending_example : IsDescending (offer raised ∷ offer fast_route ∷ [])
resolve-IsDescending_example =
    resolve-IsDescending hash no_planners raised_snapshot request
      (offer raised ∷ offer fast_route ∷ []) raised_order
