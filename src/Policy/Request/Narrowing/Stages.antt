-- ===== src/Policy/Request/Narrowing/Stages.antt =====
-- What one policy leaves of the candidates: the body's size and the tokens (policy/request.go,
-- policy/token.go).
use llmgw.Base.{
  ◌≡◌, ◌≢◌, refl, sym, ◌∙◌, subst, List, [], ◌∷◌, Option, none, some, Bool, true, false, if-holds,
  All,
}
use llmgw.Gateway.Errors.{Failure}
use llmgw.Gateway.Usage.{zero_usage}
use llmgw.Policy.Candidate.{Candidate}
use llmgw.Policy.Estimate.{Counting, materialize_candidate, max_estimate}
use llmgw.Policy.Request.{
  RequestState, Passage, passes, denied, Resolved, resolved_to, filter, with_candidates, narrowed,
  resolve_candidates, fits_body, request_size,
}
use llmgw.Policy.Request.Access.{
  exceeds_input, exceeds_output, validated_with, validate_tokens, with_estimate_of,
  token_validation, Validated, no_validated,
}
use llmgw.Policy.Request.Narrowing.{
  passes_inj, with_candidates-passes, narrowed-passes, filter-both,
}

-- The fields of a request that no policy but the last one changes.
abbrev pub basis : RequestState → RequestState
basis s = record s { candidates = []; resolved = true; estimate = zero_usage }

-- The candidates are narrowed, and P holds of each.
abbrev pub Narrowed : RequestState → (Candidate → Type 0) → RequestState → Type 0
Narrowed b P t = (basis t ≡ b) × (t.resolved ≡ true) × All P t.candidates

resolved_to_inj : (a b : List Candidate) → resolved_to a ≡ resolved_to b → a ≡ b
resolved_to_inj a b h = cc

pub true-false : true ≢ false
true-false = λ h. cc

pub resolved-candidates :
    (router : Resolved) (s : RequestState) (cs : List Candidate)
    → s.resolved ≡ true
    → resolve_candidates router s ≡ resolved_to cs
    → s.candidates ≡ cs
resolved-candidates router s cs r h =
    if-holds (λ x. x ≡ resolved_to cs → s.candidates ≡ cs) s.resolved (resolved_to s.candidates)
      router (λ _ q. resolved_to_inj s.candidates cs q) (λ f. absurd (true-false (sym r ∙ f))) h

-- A policy that filters the candidates.
module _ (b : RequestState) (P : Candidate → Type 0) (test : Candidate → Bool) where
  pub with_candidates-Narrowed :
      (e : Failure) (cs : List Candidate) (s t : RequestState)
      → basis s ≡ b
      → All P cs
      → with_candidates e (filter test cs) s ≡ passes t
      → Narrowed b (λ c. P c × (test c ≡ true)) t
  with_candidates-Narrowed e cs s t h a p =
      subst (Narrowed b (λ c. P c × (test c ≡ true)))
        (with_candidates-passes e (filter test cs) s t p) (h, refl, filter-both P test cs a)

  pub narrowed-Narrowed :
      (router : Resolved) (e : Failure) (s t : RequestState)
      → Narrowed b P s
      → narrowed router (resolve_candidates router s) (λ cs. with_candidates e (filter test cs) s)
        ≡ passes t
      → Narrowed b (λ c. P c × (test c ≡ true)) t
  narrowed-Narrowed router e s t (h, r, a) p =
      let n =
        narrowed-passes router (resolve_candidates router s)
          (λ cs. with_candidates e (filter test cs) s) t p in
      with_candidates-Narrowed e n.0 s t h
        (subst (All P) (resolved-candidates router s n.0 r n.1) a) n.2

All-units : (cs : List Candidate) → All (λ c. Unit {0}) cs
All-units [] = tt
All-units (c ∷ cs) = (tt, All-units cs)

module _ (router : Resolved) (s t : RequestState) where
  pub request_size-Narrowed :
      request_size router s ≡ passes t
      → Narrowed (basis s) (λ c. Unit {0} × (fits_body router s c ≡ true)) t
  unfolding request_size
  request_size-Narrowed p =
      let n = narrowed-passes router (resolve_candidates router s) _ t p in
      with_candidates-Narrowed (basis s) (λ c. Unit {0}) (fits_body router s) _ n.0 s t refl
        (All-units n.0) n.2

-- A candidate within the limits of its route.
abbrev pub IsWithin : Candidate → Type 0
IsWithin c = (exceeds_input c ≡ false) × (exceeds_output c ≡ false)

module _ (P : Candidate → Type 0) (count : Candidate → Counting)
    (f : (c d : Candidate) → materialize_candidate (count c) c ≡ some d → P c → P d) where
  validated_with-All :
      (o : Option Candidate) (v : Validated)
      → ((d : Candidate) → o ≡ some d → P d)
      → All (λ c. P c × IsWithin c) v.filtered
      → All (λ c. P c × IsWithin c) (validated_with o v).filtered
  validated_with-All none v p h = h
  validated_with-All (some d) v p h =
      if-holds (λ (w : Validated). All (λ c. P c × IsWithin c) w.filtered) (exceeds_input d) _ _
        (λ _. h)
        (λ i.
          if-holds (λ (w : Validated). All (λ c. P c × IsWithin c) w.filtered) (exceeds_output d) _
            _ (λ _. h) (λ o. ((p d refl, (i, o)), h)))

  validate_tokens-All :
      (cs : List Candidate)
      → All P cs
      → All (λ c. P c × IsWithin c) (validate_tokens count cs).filtered
  unfolding validate_tokens
  validate_tokens-All [] h = tt
  validate_tokens-All (c ∷ cs) (p, h) =
      validated_with-All (materialize_candidate (count c) c) (validate_tokens count cs)
        (λ d e. f c d e p) (validate_tokens-All cs h)

pub with_estimate_of-passes :
    (cs : List Candidate) (p : Passage) (t : RequestState)
    → with_estimate_of cs p ≡ passes t
    → (u : RequestState) × (p ≡ passes u) × (record u { estimate = max_estimate cs } ≡ t)
with_estimate_of-passes cs (denied e) t h = absurd cc
with_estimate_of-passes cs (passes u) t h = (u, refl, passes_inj _ t h)

module _ (b : RequestState) (P : Candidate → Type 0) (count : Candidate → Counting)
    (router : Resolved)
    (f : (c d : Candidate) → materialize_candidate (count c) c ≡ some d → P c → P d) where
  pub token_validation-Narrowed :
      (s t : RequestState)
      → Narrowed b P s
      → token_validation count router s ≡ passes t
      → Narrowed b (λ c. P c × IsWithin c) t
  unfolding token_validation
  token_validation-Narrowed s t (h, r, a) p =
      let n = narrowed-passes router (resolve_candidates router s) _ t p in
      let v = validate_tokens count n.0 in
      let u =
        with_estimate_of-passes v.filtered (with_candidates (no_validated v) v.filtered s) t n.2 in
      let kept = subst (All P) (resolved-candidates router s n.0 r n.1) a in
      subst (Narrowed b (λ c. P c × IsWithin c)) u.2 (
        subst
          (λ x.
            Narrowed b (λ c. P c × IsWithin c) (record x { estimate = max_estimate v.filtered }))
          (with_candidates-passes (no_validated v) v.filtered s u.0 u.1)
          (h, refl, validate_tokens-All P count f n.0 kept))
