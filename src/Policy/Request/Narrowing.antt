-- ===== src/Policy/Request/Narrowing.antt =====
-- Which candidates are left after the request policies (policy/request.go, policy/token.go).
pub mod Stages
pub mod Access
pub mod Scoping
pub mod Meets
pub mod Meaning
pub mod Admitted
use llmgw.Base.{
  ℕ, ◌≡◌, ◌≢◌, refl, sym, ◌∙◌, ap, subst, inl, inr, ◌⊎◌, ℤ, String, List, [], ◌∷◌, Option, none,
  some, Bool, true, false, not, ◌&&◌, ◌||◌, if◌then◌else◌, if-holds, All, All-map, Bool-cases,
  Option-cases, and_left,
}
use llmgw.Store.Usage.{ScopedLimit}
use llmgw.Gateway.Errors.{Failure, fallback_eligible}
use llmgw.Gateway.Dispatch.{
  Preflight, candidates_left, rejected, preflight_from, with_some, and_left_with,
  preflight_candidates,
}
use llmgw.Policy.Candidate.{Candidate}
use llmgw.Policy.Request.{
  RequestState, Passage, passes, denied, Resolved, resolved_to, unresolved, filter, with_candidates,
  replace_candidates, narrowed,
}

-- Filters and `replace_candidates`.
filter-test :
    (test : Candidate → Bool) (cs : List Candidate) → All (λ c. test c ≡ true) (filter test cs)
filter-test test [] = tt
filter-test test (c ∷ cs) =
    if-holds (All (λ c. test c ≡ true)) (test c) (c ∷ filter test cs) (filter test cs)
      (λ t. (t, filter-test test cs)) (λ f. filter-test test cs)

filter-All :
    (P : Candidate → Type 0) (test : Candidate → Bool) (cs : List Candidate)
    → All P cs
    → All P (filter test cs)
filter-All P test [] h = tt
filter-All P test (c ∷ cs) (p, h) =
    if-holds (All P) (test c) (c ∷ filter test cs) (filter test cs)
      (λ t. (p, filter-All P test cs h)) (λ f. filter-All P test cs h)

pub passes_inj : (s t : RequestState) → passes s ≡ passes t → s ≡ t
passes_inj s t h = cc

pub denied_passes : (e : Failure) (t : RequestState) → denied e ≢ passes t
denied_passes e t = λ h. cc

pub with_candidates-passes :
    (e : Failure) (cs : List Candidate) (s t : RequestState)
    → with_candidates e cs s ≡ passes t
    → replace_candidates cs s ≡ t
with_candidates-passes e [] s t h = absurd cc
with_candidates-passes e (c ∷ cs) s t h = passes_inj (replace_candidates (c ∷ cs) s) t h

pub narrowed-passes :
    (router r : Resolved) (go : List Candidate → Passage) (t : RequestState)
    → narrowed router r go ≡ passes t
    → (cs : List Candidate) × (r ≡ resolved_to cs) × (go cs ≡ passes t)
narrowed-passes router (unresolved e) go t h = absurd cc
narrowed-passes router (resolved_to cs) go t h = (cs, refl, h)

-- Candidates for which two properties hold.
pub both-All :
    (P Q : Candidate → Type 0) (cs : List Candidate) → All P cs → All Q cs → All (λ c. P c × Q c) cs
both-All P Q [] h k = tt
both-All P Q (c ∷ cs) (p, h) (q, k) = ((p, q), both-All P Q cs h k)

pub filter-both :
    (P : Candidate → Type 0) (test : Candidate → Bool) (cs : List Candidate)
    → All P cs
    → All (λ c. P c × (test c ≡ true)) (filter test cs)
filter-both P test cs h =
    both-All P (λ c. test c ≡ true) (filter test cs) (filter-All P test cs h) (filter-test test cs)

-- The candidates that pass the preflight were candidates, and their providers accept them.
module _ (P : Candidate → Type 0) (check : Candidate → Option Failure) where
  abbrev pub LeftAll : Preflight Candidate → Type 0
  LeftAll (candidates_left cs) = All (λ c. P c × (check c ≡ none)) cs
  LeftAll (rejected e) = Unit

  and_left_with-LeftAll :
      (c : Candidate) (r : Preflight Candidate × Option Failure)
      → P c
      → check c ≡ none
      → LeftAll r.0
      → LeftAll (and_left_with check c r).0
  and_left_with-LeftAll c (candidates_left cs, last) p n h = ((p, n), h)
  and_left_with-LeftAll c (rejected e, last) p n h = tt

  preflight_from-LeftAll :
      (last : Option Failure) (cs : List Candidate)
      → All P cs
      → LeftAll (preflight_from check last cs).0
  unfolding preflight_from
  preflight_from-LeftAll last [] h = tt
  preflight_from-LeftAll last (c ∷ cs) (p, h) = elim (Option-cases (check c)) [
    | inl n ↦
        rw (n, preflight_from)
          (and_left_with-LeftAll c (preflight_from check last cs) p n
            (preflight_from-LeftAll last cs h))
    | inr (e, q) ↦
        rw (q, preflight_from)
          (if-holds (λ (r : Preflight Candidate × Option Failure). LeftAll r.0)
            (fallback_eligible (some e)) (preflight_from check (some e) cs) (rejected e, some e)
            (λ _. preflight_from-LeftAll (some e) cs h) (λ _. tt))
  ]

  with_some-LeftAll :
      (r : Preflight Candidate × Option Failure) → LeftAll r.0 → LeftAll (with_some check r)
  with_some-LeftAll (candidates_left [], last) h = tt
  with_some-LeftAll (candidates_left (c ∷ cs), last) h = h
  with_some-LeftAll (rejected e, last) h = tt

  pub preflight_candidates-LeftAll :
      (cs : List Candidate) → All P cs → LeftAll (preflight_candidates check cs)
  unfolding preflight_candidates
  preflight_candidates-LeftAll cs h =
      with_some-LeftAll (preflight_from check none cs) (preflight_from-LeftAll none cs h)
