-- ===== src/Examples/Requests.antt =====
-- A request of a principal for two routes (policy/request.go, policy/token.go).
use Prim.Native.Nat.{min}
use llmgw.Base.{
  ◌*◌, max_int64, inl, arith, ℕ, ◌≡◌, refl, ◌≤ℤ◌, pos, String, List, [], ◌∷◌, Option, none, some,
  true, false, All, String-discrete,
}
use llmgw.Amounts.{zero64, saturating_add}
use llmgw.Gateway.Route.{chat_completions}
use llmgw.Gateway.Usage.{zero_usage}
use llmgw.Gateway.Errors.{Failure}
use llmgw.Policy.Candidate.{Candidate}
use llmgw.Policy.Estimate.{Counting, no_builder, candidate_estimate, max_estimate}
use llmgw.Policy.Estimate.Output.{of_request, many}
use llmgw.Policy.Estimate.Reserved.{candidate_estimate-covers, CoversTokens, max_estimate-covers}
use llmgw.Policy.Request.{RequestState, passes, Resolved, resolved_to}
use llmgw.Policy.Request.Scopes.{LimitSources, found, request_policies}
use llmgw.Policy.Request.Narrowing.Meaning.{IsAdmitted}
use llmgw.Policy.Request.Narrowing.Admitted.{request_policies-IsAdmitted}
use llmgw.Examples.Stores.{key_limit}
use llmgw.Examples.Routers.{slow_route, fast_route}

abbrev candidate : Candidate
candidate = record {
  route = slow_route;
  operation = chat_completions;
  hints = record {
    max_output_tokens = pos 100;
    output_multiplicity = pos 2;
    estimated_input_tokens = zero64;
    vision_input_parts = zero64;
    audio_input_parts = zero64;
    may_write_prompt_cache = false;
    provider_units = [];
  };
  body_bytes = pos 400;
  max_body_bytes = pos 1000;
  vision_input_token_surcharge = zero64;
  audio_input_token_surcharge = zero64;
  units = λ unit. none;
  effective = none;
  estimate = zero_usage;
}

abbrev counting : Counting
counting = record {
  counted_tokens = pos 90;
  is_approximate = false;
  text_bytes = 380;
  prompt_runes = 380;
  builder = no_builder;
  counter = none;
}

candidate_estimate-covers_example :
    (pos (min max_int64 (100 * 2)) ≤ℤ (candidate_estimate counting candidate).output_tokens)
    × (saturating_add
          (candidate_estimate counting candidate).input_tokens
          (candidate_estimate counting candidate).output_tokens
        ≤ℤ (candidate_estimate counting candidate).total_tokens)
candidate_estimate-covers_example =
    candidate_estimate-covers counting candidate 100 2 (of_request 99 (inl refl) refl) (many 1 refl)
      (omega arith) (omega arith) (λ h. cc)

max_estimate-covers_example :
    All (λ c. CoversTokens c (max_estimate (candidate ∷ []))) (candidate ∷ [])
max_estimate-covers_example = max_estimate-covers (candidate ∷ [])

-- The slow route takes the body; the other route does not.
abbrev small_candidate : Candidate
small_candidate = record candidate { route = fast_route; max_body_bytes = pos 300 }

abbrev router : Resolved
router = resolved_to (small_candidate ∷ candidate ∷ [])

abbrev request_state : RequestState
request_state = record {
  principal = some (record { providers = "p" ∷ []; models = []; projects = [] });
  meta_principal = "alice";
  subject = "k1";
  model = "m";
  user = "alice";
  project = "";
  body_bytes = pos 400;
  provider_units = [];
  candidates = [];
  resolved = false;
  scopes = [];
  estimate = zero_usage;
}

abbrev sources : LimitSources
sources = record {
  store_limits = some (λ key_id. found key_limit.limits);
  quota_keys = λ key_id. "";
  profiles = λ name. none;
}

abbrev no_bytes : String → List ℕ
no_bytes text = []

abbrev count : Candidate → Counting
count c = counting

abbrev no_preflight : Candidate → Option Failure
no_preflight c = none

abbrev passed : RequestState
passed = record request_state {
  candidates = record candidate { estimate = candidate_estimate counting candidate } ∷ [];
  resolved = true;
  scopes = key_limit ∷ [];
  estimate =
      max_estimate (record candidate { estimate = candidate_estimate counting candidate } ∷ []);
}

passed_run :
    request_policies no_bytes true false count no_preflight sources router request_state
    ≡ passes passed
unfolding request_policies String-discrete
passed_run = refl

request_policies-IsAdmitted_example :
    All (IsAdmitted no_preflight request_state passed.scopes) passed.candidates
request_policies-IsAdmitted_example =
    request_policies-IsAdmitted no_bytes true false count no_preflight sources router request_state
      passed refl passed_run
