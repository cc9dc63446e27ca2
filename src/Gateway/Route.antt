-- ===== src/Gateway/Route.antt =====
-- Routes, requests and their capabilities (gateway/config.go and gateway/types.go): the fields that
-- the modelled code reads. Credentials, headers and prices of a route are left out.
use llmgw.Base.{ℤ, String, List, Bool}

pub data Operation : Type 0 where
  chat_completions responses completions embeddings : Operation

unfoldable pub Operation-discrete : Discrete Operation
Operation-discrete = hlevel

pub record LimitConfig : Type 0 where
  pub rpm : ℤ
  pub tpm : ℤ
  pub concurrency : ℤ
  pub provider_concurrency : ℤ

pub record CircuitConfig : Type 0 where
  pub failures : ℤ
  pub cooldown : ℤ

pub record Capability : Type 0 where
  pub operations : List Operation
  pub streaming : Bool
  pub tool_calling : Bool
  pub structured_output : Bool
  pub vision_input : Bool
  pub audio : Bool
  pub reasoning : Bool
  pub max_input_tokens : ℤ
  pub max_output_tokens : ℤ

pub record Route : Type 0 where
  pub name : String
  pub provider : String
  pub backend : String
  pub model : String
  pub upstream_model : String
  pub base_url : String
  pub api_version : String
  pub priority : ℤ
  pub weight : ℤ
  pub retries : ℤ
  pub timeout : ℤ
  pub limits : LimitConfig
  pub circuit : CircuitConfig
  pub capabilities : Capability
