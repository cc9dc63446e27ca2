-- ===== src/Gateway/Router.antt =====
-- The router (gateway/gateway.go): which routes can take a request, and in which order they are
-- tried. The providers' bridge planners and the 64-bit FNV-1a hash are parameters.
pub mod Prepare
pub mod Order
pub mod Rotation
pub mod Resolution
pub mod Descending
pub mod Priority
use Prim.Native.Nat.{Ordering}
use Prim.Native.String.{compare}
use llmgw.Base.{
  ℕ, zero, suc, ◌+◌, ◌-◌, ◌%◌, ◌==◌, ℤ, pos, pos_part, String, String-discrete, List, [], ◌∷◌, ◌++◌,
  Option, none, some, ◌⊎◌, inl, inr, Bool, true, false, not, ◌&&◌, ◌||◌, ltb, leb, ltb_ℤ, leb_ℤ,
  eqb_ℤ, take, drop, length, ite, if◌then◌else◌,
}
use llmgw.Amounts.{zero64}
use llmgw.Gateway.Route.{Operation, Operation-discrete, Capability, Route}
use llmgw.Store.Settlements.{is_empty_id}

pub record RequestHints : Type 0 where
  pub max_output_tokens : ℤ
  pub requires_tools : Bool
  pub requires_structured_output : Bool
  pub requires_vision : Bool
  pub requires_audio : Bool
  pub requires_reasoning : Bool

-- The fields that routing reads, with the two identities of the request's metadata.
pub record Request : Type 0 where
  pub execution_id : String
  pub request_id : String
  pub provider : String
  pub operation : Operation
  pub model : String
  pub stream : Bool
  pub hints : RequestHints

pub record ResolvedRoute : Type 0 where
  pub route : Route
  pub request : Request
  pub bridge_from : Option Operation

pub data Refusal : Type 0 where
  provider_mismatch unsupported_operation invalid_bridge_plan no_streaming no_tool_calling
        no_structured_output no_vision_input no_audio no_reasoning too_many_output_tokens :
      Refusal
  planner_refusal : String → Refusal

pub data Preparation : Type 0 where
  ready : ResolvedRoute → Preparation
  refused : Refusal → Preparation

-- What the planner of a provider answers: a target (none if it is no known operation), a reason and
-- whether there is a plan.
abbrev pub Plan : Type 0
Plan = Option Operation × String × Bool

-- The registered providers: by name, the planner of one that has a planner, and what it supports.
pub record Providers : Type 0 where
  pub planner : String → Option (Route → Request → Plan)
  pub supports : String → Operation → Bool

unfoldable pub supports_operation : List Operation → Operation → Bool
supports_operation [] op = false
supports_operation (o ∷ operations) op =
    ite (Operation-discrete o op) true (supports_operation operations op)

-- The operation that is sent, and the one that it replaces: through the provider's planner, if the
-- route does not support the request's own operation.
abbrev pub checked_target :
    Providers → Route → Operation → Option Operation → (Operation × Option Operation) ⊎ Refusal
checked_target providers route from none = inr invalid_bridge_plan
checked_target providers route from (some target) =
    if supports_operation route.capabilities.operations target
      && providers.supports route.provider target
    then inl (target, some from)
    else inr invalid_bridge_plan

abbrev pub planned : Providers → Route → Operation → Plan → (Operation × Option Operation) ⊎ Refusal
planned providers route from plan =
    if not plan.2
    then inr (if is_empty_id plan.1 then unsupported_operation else planner_refusal plan.1)
    else checked_target providers route from plan.0

abbrev pub bridged :
    Providers
    → Route
    → Request
    → Option (Route → Request → Plan)
    → (Operation × Option Operation) ⊎ Refusal
bridged providers route env none = inr unsupported_operation
bridged providers route env (some plan_bridge) =
    planned providers route env.operation (plan_bridge route env)

unfoldable pub target_operation :
    Providers → Route → Request → (Operation × Option Operation) ⊎ Refusal
unfolding supports_operation
target_operation providers route env =
    if supports_operation route.capabilities.operations env.operation
    then inl (env.operation, none)
    else bridged providers route env (providers.planner route.provider)

-- The first requirement of the request that the route does not meet.
unfoldable pub unmet : Capability → Request → Option Refusal
unmet c env =
    let most = env.hints.max_output_tokens in
    if env.stream && not c.streaming
    then some no_streaming
    else if env.hints.requires_tools && not c.tool_calling
    then some no_tool_calling
    else if env.hints.requires_structured_output && not c.structured_output
    then some no_structured_output
    else if env.hints.requires_vision && not c.vision_input
    then some no_vision_input
    else if env.hints.requires_audio && not c.audio
    then some no_audio
    else if env.hints.requires_reasoning && not c.reasoning
    then some no_reasoning
    else if ltb_ℤ zero64 most
        && (ltb_ℤ zero64 c.max_output_tokens && ltb_ℤ c.max_output_tokens most)
    then some too_many_output_tokens
    else none

abbrev pub prepared_request : Route → Request → Operation → Request
prepared_request route env operation = record env {
  model = if is_empty_id route.upstream_model then route.model else route.upstream_model;
  operation = operation;
}

abbrev pub is_other_provider : Route → Request → Bool
is_other_provider route env =
    not (is_empty_id env.provider)
    && not (ite (String-discrete route.provider env.provider) true false)

unfoldable pub prepare_route : Providers → Route → Request → Preparation
unfolding target_operation unmet
prepare_route providers route env =
    if is_other_provider route env
    then refused provider_mismatch
    else elim (target_operation providers route env) [
      | inr r ↦ refused r
      | inl t ↦ elim (unmet route.capabilities env) [
        | some r ↦ refused r
        | none ↦
            ready (record {
              route = route;
              request = prepared_request route env t.0;
              bridge_from = t.1;
            })
      ]
    ]
