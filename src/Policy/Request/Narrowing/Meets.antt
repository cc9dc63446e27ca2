-- ===== src/Policy/Request/Narrowing/Meets.antt =====
-- What the request policies ask of a candidate, in their own terms (policy/request.go, policy/token.go).
use llmgw.Base.{
  ◌≡◌, ◌≤ℤ◌, ℤ, String, List, [], ◌∷◌, Option, none, some, true, false, ltb_ℤ, eqb_ℤ, All, ◌⊎◌,
}
use llmgw.Amounts.{zero64}
use llmgw.Store.Usage.{ScopedLimit}
use llmgw.Policy.Candidate.{UnitPricing, Candidate}
use llmgw.Policy.Request.{Principal}

abbrev pub IsIn : String → List String → Type 0
IsIn name [] = ⊥
IsIn name (x ∷ xs) = (x ≡ name) ⊎ IsIn name xs

-- A list allows what it holds, and an empty one everything.
abbrev pub Allows : List String → String → Type 0
Allows xs name = (xs ≡ []) ⊎ IsIn name xs

-- A limit that is not positive is none.
abbrev pub IsBelow : ℤ → ℤ → Type 0
IsBelow n limit = (limit ≤ℤ zero64) ⊎ (n ≤ℤ limit)

-- The output tokens that a request asks for: a positive effective maximum, or else its own number.
pub data AsksFor (effective : Option ℤ) (asked : ℤ) : ℤ → Type 0 where
  by_builder : (m : ℤ) → effective ≡ some m → ltb_ℤ zero64 m ≡ true → AsksFor effective asked m
  by_request :
      (effective ≡ none) ⊎ ((m : ℤ) × (effective ≡ some m) × (m ≤ℤ zero64))
      → AsksFor effective asked asked

abbrev pub Asked : Candidate → ℤ → Type 0
Asked c n = AsksFor c.effective c.hints.max_output_tokens n

-- The output tokens that a candidate counts with: what is asked for, or its estimate if that is 0.
pub data Counts (c : Candidate) : ℤ → Type 0 where
  as_asked : (n : ℤ) → Asked c n → eqb_ℤ n zero64 ≡ false → Counts c n
  as_estimated : Asked c zero64 → Counts c c.estimate.output_tokens

abbrev pub IsPriced : Candidate → String → Type 0
IsPriced c unit =
    (p : UnitPricing) × (c.units unit ≡ some p)
    × (ltb_ℤ zero64 p.micros_per_unit ≡ true)
    × (ltb_ℤ zero64 p.max_units_per_request ≡ true)

-- One scope of the quota allows the candidate.
abbrev pub ScopeAllows : String → Candidate → ScopedLimit → Type 0
ScopeAllows model c scope =
    Allows scope.limits.model_allowlist model
    × Allows scope.limits.provider_allowlist c.route.provider
    × IsBelow c.estimate.input_tokens scope.limits.max_input_tokens
    × ((n : ℤ) × Counts c n × IsBelow n scope.limits.max_output_tokens)

-- Spending is not limited, or each hosted tool of the request has its price and its bound.
abbrev pub IsCovered : List String → Candidate → List ScopedLimit → Type 0
IsCovered units c scopes =
    All (λ scope. scope.limits.max_spend_micros ≤ℤ zero64) scopes ⊎ All (IsPriced c) units

abbrev pub PermitsAll : Option Principal → String → String → Candidate → Type 0
PermitsAll none model project c = Unit
PermitsAll (some p) model project c =
    Allows p.models model × Allows p.projects project × Allows p.providers c.route.provider
