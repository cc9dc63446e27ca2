-- ===== src/Policy/Request/Narrowing/Meaning.antt =====
-- What the tests of the request policies mean (policy/request.go, policy/token.go).
use llmgw.Base.{
  subst, ◌≡◌, ◌≢◌, ◌≤ℤ◌, refl, sym, ap, ℤ, String, String-discrete, List, [], ◌∷◌, Option, none,
  some, Bool, true, false, not, ◌&&◌, ◌||◌, ltb_ℤ, leb_ℤ, eqb_ℤ, eqb_ℤ→eq, ite-holds, if-holds, All,
  ◌⊎◌, inl, inr, or_cases, Option-cases,
}
use llmgw.Amounts.{zero64}
use llmgw.Store.Usage.{ScopedLimit}
use llmgw.Gateway.Errors.{Failure}
use llmgw.Policy.Candidate.{Candidate, effective_or, requested_output}
use llmgw.Policy.Request.{
  Principal, RequestState, Resolved, contains, allowed_by, is_any, fits_body,
}
use llmgw.Policy.Request.Scopes.{
  within, output_asked, candidate_allowed_by_scopes, hard_spend_enabled, is_priced, all_priced,
  candidate_has_required_unit_pricing, is_allowed,
}
use llmgw.Policy.Request.Narrowing.Stages.{IsWithin}
use llmgw.Policy.Request.Narrowing.Access.{Permits}
use llmgw.Policy.Request.Narrowing.Meets.{
  IsIn, Allows, IsBelow, AsksFor, by_builder, by_request, Asked, Counts, as_asked, as_estimated,
  IsPriced, ScopeAllows, IsCovered, PermitsAll,
}

contains-IsIn : (xs : List String) (name : String) → contains xs name ≡ true → IsIn name xs
contains-IsIn [] name h = absurd cc
contains-IsIn (x ∷ xs) name h =
    ite-holds (λ b. b ≡ true → IsIn name (x ∷ xs)) (String-discrete x name) true (contains xs name)
      (λ e _. inl e) (λ _ k. inr (contains-IsIn xs name k)) h

allowed_by-Allows : (xs : List String) (name : String) → allowed_by xs name ≡ true → Allows xs name
allowed_by-Allows [] name h = inl refl
allowed_by-Allows (x ∷ xs) name h = inr (contains-IsIn (x ∷ xs) name h)

neither : (a b : Bool) → (a && b) ≡ false → (not a ≡ true) ⊎ (not b ≡ true)
neither true true h = absurd cc
neither true false h = inr refl
neither false b h = inl refl

not-true : (b : Bool) → not b ≡ true → b ≡ false
not-true true h = absurd cc
not-true false h = refl

requested_output-Asked :
    (effective : Option ℤ) (asked : ℤ) → AsksFor effective asked (effective_or effective asked)
requested_output-Asked none asked = by_request (inl refl)
requested_output-Asked (some m) asked =
    if-holds (AsksFor (some m) asked) (ltb_ℤ zero64 m) m asked (λ h. by_builder m refl h)
      (λ h. by_request (inr (m, refl, ap not h)))

output_asked-Counts : (c : Candidate) → Counts c (output_asked c)
output_asked-Counts c =
    let own = requested_output-Asked c.effective c.hints.max_output_tokens in
    if-holds (Counts c) (eqb_ℤ (requested_output c) zero64) c.estimate.output_tokens
      (requested_output c)
      (λ h. as_estimated (subst (Asked c) (eqb_ℤ→eq (requested_output c) zero64 h) own))
      (λ h. as_asked (requested_output c) own h)

and5 :
    (a b c d e : Bool)
    → (a && b && c && d && e) ≡ true
    → (a ≡ true) × (b ≡ true) × (c ≡ true) × (d ≡ true) × (e ≡ true)
and5 true true true true true h = (refl, refl, refl, refl, refl)
and5 false b c d e h = absurd cc
and5 true false c d e h = absurd cc
and5 true true false d e h = absurd cc
and5 true true true false e h = absurd cc
and5 true true true true false h = absurd cc

allowed-ScopeAllows :
    (model : String) (c : Candidate) (scopes : List ScopedLimit)
    → candidate_allowed_by_scopes model c scopes ≡ true
    → All (ScopeAllows model c) scopes
unfolding candidate_allowed_by_scopes
allowed-ScopeAllows model c [] h = tt
allowed-ScopeAllows model c (scope ∷ scopes) h =
    let l = scope.limits in
    let t =
      and5 (allowed_by l.model_allowlist model) (allowed_by l.provider_allowlist c.route.provider)
        (within l.max_input_tokens c.estimate.input_tokens)
        (within l.max_output_tokens (output_asked c)) (candidate_allowed_by_scopes model c scopes)
        h in
    (
      (
        allowed_by-Allows l.model_allowlist model t.0,
        allowed_by-Allows l.provider_allowlist c.route.provider t.1,
        neither _ _ (not-true _ t.2),
        (output_asked c, output_asked-Counts c, neither _ _ (not-true _ t.3)),
      ),
      allowed-ScopeAllows model c scopes t.4,
    )

hard_spend-IsBelow :
    (scopes : List ScopedLimit)
    → hard_spend_enabled scopes ≡ false
    → All (λ scope. scope.limits.max_spend_micros ≤ℤ zero64) scopes
unfolding hard_spend_enabled
hard_spend-IsBelow [] h = tt
hard_spend-IsBelow (scope ∷ scopes) h =
    let e = neither_of (ltb_ℤ zero64 scope.limits.max_spend_micros) (hard_spend_enabled scopes) h in
    (e.0, hard_spend-IsBelow scopes e.1)
  where
    neither_of : (a b : Bool) → (a || b) ≡ false → (not a ≡ true) × (b ≡ false)
    neither_of true b h = absurd cc
    neither_of false b h = (refl, h)

both_true : (a b : Bool) → (a && b) ≡ true → (a ≡ true) × (b ≡ true)
both_true true true h = (refl, refl)
both_true true false h = absurd cc
both_true false b h = absurd cc

is_priced-IsPriced :
    (c : Candidate) (unit : String) → is_priced (c.units unit) ≡ true → IsPriced c unit
is_priced-IsPriced c unit h = elim (Option-cases (c.units unit)) [
  | inl q ↦ absurd (true_false (sym (rw q at h)))
  | inr (p, q) ↦
      (let t =
          both_true (ltb_ℤ zero64 p.micros_per_unit) (ltb_ℤ zero64 p.max_units_per_request)
            (rw q at h) in
        (p, q, t.0, t.1))
]
  where
    true_false : true ≢ false
    true_false = λ x. cc

all_priced-IsPriced :
    (c : Candidate) (units : List String) → all_priced c.units units ≡ true → All (IsPriced c) units
all_priced-IsPriced c [] h = tt
all_priced-IsPriced c (unit ∷ units) h =
    let t = both_true (is_priced (c.units unit)) (all_priced c.units units) h in
    (is_priced-IsPriced c unit t.0, all_priced-IsPriced c units t.1)

no_units : (xs : List String) (c : Candidate) → not (is_any xs) ≡ true → All (IsPriced c) xs
no_units [] c h = tt
no_units (x ∷ xs) c h = absurd cc

priced-IsCovered :
    (units : List String) (c : Candidate) (scopes : List ScopedLimit)
    → candidate_has_required_unit_pricing units c scopes ≡ true
    → IsCovered units c scopes
unfolding candidate_has_required_unit_pricing
priced-IsCovered units c scopes h =
    elim (or_cases (not (is_any units) || not (hard_spend_enabled scopes))
      (all_priced c.units units) h) [
        | inl a ↦ elim (or_cases (not (is_any units)) (not (hard_spend_enabled scopes)) a) [
          | inl n ↦ inr (no_units units c n)
          | inr n ↦ inl (hard_spend-IsBelow scopes (not-true (hard_spend_enabled scopes) n))
        ]
        | inr a ↦ inr (all_priced-IsPriced c units a)
      ]

Permits-all :
    (p : Option Principal) (model project : String) (c : Candidate)
    → Permits p model project c
    → PermitsAll p model project c
Permits-all none model project c h = tt
Permits-all (some p) model project c (m, j, r) = (
  allowed_by-Allows p.models model m,
  allowed_by-Allows p.projects project j,
  allowed_by-Allows p.providers c.route.provider r,
)

-- What the policies ask of a candidate of the request s.
abbrev pub IsAdmitted :
    (Candidate → Option Failure) → RequestState → List ScopedLimit → Candidate → Type 0
IsAdmitted check s scopes c =
    ((c.max_body_bytes ≡ zero64) ⊎ (s.body_bytes ≤ℤ c.max_body_bytes))
    × IsBelow c.estimate.input_tokens c.route.capabilities.max_input_tokens
    × ((n : ℤ) × Asked c n × IsBelow n c.route.capabilities.max_output_tokens)
    × PermitsAll s.principal s.model s.project c
    × (check c ≡ none)
    × All (ScopeAllows s.model c) scopes
    × IsCovered s.provider_units c scopes

pub tested-IsAdmitted :
    (router : Resolved) (check : Candidate → Option Failure) (s : RequestState)
    (scopes : List ScopedLimit) (c : Candidate)
    → fits_body router s c ≡ true
    → IsWithin c
    → Permits s.principal s.model s.project c
    → check c ≡ none
    → is_allowed s scopes c ≡ true
    → IsAdmitted check s scopes c
tested-IsAdmitted router check s scopes c f (i, o) p k a =
    let t =
      both_true (candidate_allowed_by_scopes s.model c scopes)
        (candidate_has_required_unit_pricing s.provider_units c scopes) a in
    (
      elim (or_cases (eqb_ℤ c.max_body_bytes zero64) (leb_ℤ s.body_bytes c.max_body_bytes) f) [
        | inl e ↦ inl (eqb_ℤ→eq c.max_body_bytes zero64 e)
        | inr l ↦ inr l
      ],
      neither _ _ i,
      (
        requested_output c,
        requested_output-Asked c.effective c.hints.max_output_tokens,
        neither _ _ o,
      ),
      Permits-all s.principal s.model s.project c p,
      k,
      allowed-ScopeAllows s.model c scopes t.0,
      priced-IsCovered s.provider_units c scopes t.1,
    )
