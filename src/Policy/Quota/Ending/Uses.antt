-- ===== src/Policy/Quota/Ending/Uses.antt =====
-- What a request has used when it ends (policy/quota.go).
use llmgw.Base.{ℤ, ◌≡◌, ◌≢◌, ◌≤ℤ◌, Option, Bool, true, false, ltb_ℤ, ◌⊎◌}
use llmgw.Amounts.{zero64}
use llmgw.Store.Usage.{EstimatedUsage, ActualUsage}
use llmgw.Gateway.Usage.{Usage}
use llmgw.Gateway.Dispatch.{ExecutionStage, failed, aborted}
use llmgw.Policy.Quota.{settled_quota_usage}
use llmgw.Policy.Quota.Ending.{RequestEnd, panics, fails, finalizes}

-- Tokens or money.
abbrev pub CountsSomething : ActualUsage → Type 0
CountsSomething u =
    (ltb_ℤ zero64 u.input_tokens ≡ true)
    ⊎ (ltb_ℤ zero64 u.output_tokens ≡ true)
    ⊎ (ltb_ℤ zero64 u.spend_micros ≡ true)

abbrev pub CountsNothing : ActualUsage → Type 0
CountsNothing u =
    (u.input_tokens ≤ℤ zero64) × (u.output_tokens ≤ℤ zero64) × (u.spend_micros ≤ℤ zero64)

-- An execution whose call failed, or that was aborted or failed, completes as a failed one.
pub data CompletesAs (call_failed : Bool) (stage : ExecutionStage) : Bool → Type 0 where
  as_failed :
      (call_failed ≡ true) ⊎ (stage ≡ aborted) ⊎ (stage ≡ failed)
      → CompletesAs call_failed stage true
  as_done :
      call_failed ≡ false → stage ≢ aborted → stage ≢ failed → CompletesAs call_failed stage false

module _ {P : Type 0} (spend : P → Usage → ℤ) where
  -- What a request has used: what its calls did, or else, for an execution, what it is estimated at.
  pub data Uses : RequestEnd P → ActualUsage → Type 0 where
    panicked : (a : ActualUsage) → Uses (panics a) a
    denied : (a : ActualUsage) → Uses (fails a) a
    of_calls :
        (c : Bool) (stage : ExecutionStage) (p : Option P) (u : Usage) (own : EstimatedUsage)
        (attempts : Bool → ActualUsage) (f : Bool)
        → CompletesAs c stage f
        → CountsSomething (attempts f)
        → Uses (finalizes c stage p u own attempts) (attempts f)
    of_execution :
        (c : Bool) (stage : ExecutionStage) (p : Option P) (u : Usage) (own : EstimatedUsage)
        (attempts : Bool → ActualUsage) (f : Bool)
        → CompletesAs c stage f
        → CountsNothing (attempts f)
        → Uses (finalizes c stage p u own attempts) (settled_quota_usage spend stage p u own)
