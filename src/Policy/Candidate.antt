-- ===== src/Policy/Candidate.antt =====
-- A candidate route as the request policies see it (policy/token.go, policy/request.go; its fields are
-- in gateway/gateway.go and gateway/types.go).
use llmgw.Base.{ℤ, String, List, Option, none, some, Bool, ltb_ℤ, if◌then◌else◌}
use llmgw.Amounts.{zero64}
use llmgw.Gateway.Route.{Operation, Route}
use llmgw.Gateway.Usage.{Usage}

pub record UnitPricing : Type 0 where
  pub micros_per_unit : ℤ
  pub max_units_per_request : ℤ

-- The hints of a request that estimates read.
pub record TokenHints : Type 0 where
  pub max_output_tokens : ℤ
  pub output_multiplicity : ℤ
  pub estimated_input_tokens : ℤ
  pub vision_input_parts : ℤ
  pub audio_input_parts : ℤ
  pub may_write_prompt_cache : Bool
  pub provider_units : List String

-- `effective` is the effective maximum of output tokens, once a builder has given one; `units` are
-- the prices of the route's hosted tools.
pub record Candidate : Type 0 where
  pub route : Route
  pub operation : Operation
  pub hints : TokenHints
  pub body_bytes : ℤ
  pub max_body_bytes : ℤ
  pub vision_input_token_surcharge : ℤ
  pub audio_input_token_surcharge : ℤ
  pub units : String → Option UnitPricing
  pub effective : Option ℤ
  pub estimate : Usage

abbrev pub effective_or : Option ℤ → ℤ → ℤ
effective_or none requested = requested
effective_or (some m) requested = if ltb_ℤ zero64 m then m else requested

-- The output tokens that the request asks for, on this route.
abbrev pub requested_output : Candidate → ℤ
requested_output c = effective_or c.effective c.hints.max_output_tokens
