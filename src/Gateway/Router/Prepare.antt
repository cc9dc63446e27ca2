-- ===== src/Gateway/Router/Prepare.antt =====
-- What a route that is offered a request can do (gateway/gateway.go).
use llmgw.Base.{
  ◌≡◌, refl, ◌⊎◌, inl, inr, Bool-cases, subst, Option-cases, true, false, Option, none, some, ltb_ℤ,
  arith,
}
use llmgw.Amounts.{zero64}
use llmgw.Gateway.Route.{Route, Operation, Capability}
use llmgw.Gateway.Router.{
  Request, ResolvedRoute, Providers, ready, Refusal, Plan, planned, bridged, unmet,
  supports_operation, target_operation, prepare_route, is_other_provider,
}

-- The capabilities cover what the request asks for.
pub record Meets (c : Capability) (env : Request) : Type 0 where
  pub streaming : env.stream ≡ true → c.streaming ≡ true
  pub tools : env.hints.requires_tools ≡ true → c.tool_calling ≡ true
  pub structured : env.hints.requires_structured_output ≡ true → c.structured_output ≡ true
  pub vision : env.hints.requires_vision ≡ true → c.vision_input ≡ true
  pub audio : env.hints.requires_audio ≡ true → c.audio ≡ true
  pub reasoning : env.hints.requires_reasoning ≡ true → c.reasoning ≡ true
  pub output :
      ltb_ℤ zero64 c.max_output_tokens ≡ true
      → ltb_ℤ zero64 env.hints.max_output_tokens ≡ true
      → ltb_ℤ c.max_output_tokens env.hints.max_output_tokens ≡ false

unmet-Meets : (c : Capability) (env : Request) → unmet c env ≡ none → Meets c env
unfolding unmet
unmet-Meets c env h = record {
  streaming = λ e. ground arith;
  tools = λ e. ground arith;
  structured = λ e. ground arith;
  vision = λ e. ground arith;
  audio = λ e. ground arith;
  reasoning = λ e. ground arith;
  output = λ p q. ground arith;
}

planned-supported :
    (providers : Providers) (route : Route) (from op : Operation) (plan : Plan)
    (bridge : Option Operation)
    → planned providers route from plan ≡ inl (op, bridge)
    → supports_operation route.capabilities.operations op ≡ true
planned-supported providers route from op (none, reason, ok) bridge h = ground arith
planned-supported providers route from op (some target, reason, ok) bridge h = ground arith

bridged-supported :
    (providers : Providers) (route : Route) (env : Request) (op : Operation)
    (planner : Option (Route → Request → Plan)) (bridge : Option Operation)
    → bridged providers route env planner ≡ inl (op, bridge)
    → supports_operation route.capabilities.operations op ≡ true
bridged-supported providers route env op none bridge h = ground arith
bridged-supported providers route env op (some plan) bridge h =
    planned-supported providers route env.operation op (plan route env) bridge h

target_operation-supported :
    (providers : Providers) (route : Route) (env : Request) (op : Operation)
    (bridge : Option Operation)
    → target_operation providers route env ≡ inl (op, bridge)
    → supports_operation route.capabilities.operations op ≡ true
unfolding target_operation
target_operation-supported providers route env op bridge h =
    elim (Bool-cases (supports_operation route.capabilities.operations env.operation)) [
      | inl p ↦ ground (arith, p, rw (p, target_operation) at h)
      | inr p ↦
          bridged-supported providers route env op (providers.planner route.provider) bridge
            (rw (p, target_operation) at h)
    ]

-- What `prepareRoute` promises of a route that it accepts.
pub record IsFit (route : Route) (env : Request) (r : ResolvedRoute) : Type 0 where
  pub same : r.route ≡ route
  pub provider : is_other_provider route env ≡ false
  pub meets : Meets route.capabilities env
  pub operation : supports_operation route.capabilities.operations r.request.operation ≡ true

ready_inj : (a b : ResolvedRoute) → ready a ≡ ready b → a ≡ b
ready_inj a b h = cc

IsFit-target :
    (providers : Providers) (route : Route) (env : Request) (r : ResolvedRoute)
    (t : (Operation × Option Operation) ⊎ Refusal)
    → target_operation providers route env ≡ t
    → is_other_provider route env ≡ false
    → prepare_route providers route env ≡ ready r
    → IsFit route env r
unfolding prepare_route
IsFit-target providers route env r (inr reason) t o h =
    absurd (ground (arith, rw (o, t, prepare_route) at h))
IsFit-target providers route env r (inl (op, bridge)) t o h =
    elim (Option-cases (unmet route.capabilities env)) [
      | inr (reason, u) ↦ absurd (ground (arith, rw (o, t, u, prepare_route) at h))
      | inl u ↦
          subst (λ x. IsFit route env x) (ready_inj _ _ (rw (o, t, u, prepare_route) at h))
            (record {
              same = refl;
              provider = o;
              meets = unmet-Meets route.capabilities env u;
              operation = target_operation-supported providers route env op bridge t;
            })
    ]

-- A route that is accepted for a request is of the provider that the request names, if it names one;
-- it supports the operation that is sent to it, bridged or not, and everything else that the request
-- requires, and the requested output fits its maximum.
pub prepare_route-IsFit :
    (providers : Providers) (route : Route) (env : Request) (r : ResolvedRoute)
    → prepare_route providers route env ≡ ready r
    → IsFit route env r
unfolding prepare_route
prepare_route-IsFit providers route env r h = elim (Bool-cases (is_other_provider route env)) [
  | inl o ↦ absurd (ground (arith, rw (o, prepare_route) at h))
  | inr o ↦ IsFit-target providers route env r (target_operation providers route env) refl o h
]
