-- ===== src/Policy/Request/Narrowing/Admitted.antt =====
-- Every candidate that is left meets all the policies (policy/request.go, policy/token.go).
use llmgw.Amounts.{zero64}
use llmgw.Base.{
  leb_ℤ, eqb_ℤ, ℕ, ◌≡◌, refl, sym, ◌∙◌, ap, subst, ℤ, String, List, [], Option, none, some, Bool,
  true, ◌&&◌, ◌||◌, if-holds, All, All-map,
}
use llmgw.Store.Settlements.{is_empty_id}
use llmgw.Store.Usage.{ScopedLimit}
use llmgw.Gateway.Errors.{Failure}
use llmgw.Policy.Candidate.{Candidate}
use llmgw.Policy.Estimate.{Counting, materialize_candidate, effective_of, with_estimate}
use llmgw.Policy.Request.{
  RequestState, Passage, passes, denied, Resolved, fits_body, identity_passage, metadata_validation,
  require_user, request_size,
}
use llmgw.Policy.Request.Access.{acl, token_validation}
use llmgw.Policy.Request.Scopes.{
  LimitSources, is_allowed, resolve_scopes, candidate_preflight, and_then, request_policies,
}
use llmgw.Policy.Request.Narrowing.Meaning.{IsAdmitted, tested-IsAdmitted}
use llmgw.Policy.Request.Narrowing.{passes_inj}
use llmgw.Policy.Request.Narrowing.Stages.{
  basis, IsWithin, Narrowed, request_size-Narrowed, token_validation-Narrowed,
}
use llmgw.Policy.Request.Narrowing.Access.{
  Permits, acl-Narrowed, candidate_preflight-Narrowed, denied_goal,
}
use llmgw.Policy.Request.Narrowing.Scoping.{with_subject-AllAllowed}

and_then-passes :
    (p : Passage) (next : RequestState → Passage) (t : RequestState)
    → and_then p next ≡ passes t
    → (u : RequestState) × (p ≡ passes u) × (next u ≡ passes t)
and_then-passes (denied e) next t h = absurd cc
and_then-passes (passes u) next t h = (u, refl, h)

identity_passage-passes :
    (a o : Option Failure) (s t : RequestState) → identity_passage a o s ≡ passes t → s ≡ t
identity_passage-passes (some e) o s t h = denied_goal e t h
identity_passage-passes none (some e) s t h = denied_goal e t h
identity_passage-passes none none s t h = passes_inj s t h

require_user-passes : (x y : Bool) (s t : RequestState) → require_user x y s ≡ passes t → s ≡ t
unfolding require_user
require_user-passes x y s t h =
    if-holds (λ p. p ≡ passes t → s ≡ t) (x && is_empty_id s.user) _ _ (λ _ q. denied_goal _ t q)
      (λ _ k.
        if-holds (λ p. p ≡ passes t → s ≡ t) (y && is_empty_id s.project) _ (passes s)
          (λ _ q. denied_goal _ t q) (λ _ q. passes_inj s t q) k)
      h

abbrev body_of : Candidate → Option Candidate → ℤ
body_of c none = c.max_body_bytes
body_of c (some d) = d.max_body_bytes

with_estimate-body :
    (k : Counting) (c d : Candidate) (o : Option (Option ℤ))
    → with_estimate k c o ≡ some d
    → c.max_body_bytes ≡ d.max_body_bytes
with_estimate-body k c d none h = absurd cc
with_estimate-body k c d (some effective) h = ap (body_of c) h

-- Every test of the policies passes a candidate of the request s.
abbrev IsTested :
    Resolved → (Candidate → Option Failure) → RequestState → List ScopedLimit → Candidate → Type 0
IsTested router check s scopes c =
    (fits_body router s c ≡ true)
    × IsWithin c
    × Permits s.principal s.model s.project c
    × (check c ≡ none)
    × (is_allowed s scopes c ≡ true)

module _ (count : Candidate → Counting) (check : Candidate → Option Failure)
    (sources : LimitSources) (router : Resolved) where
  materialize_candidate-fits :
      (s : RequestState) (c d : Candidate)
      → materialize_candidate (count c) c ≡ some d
      → Unit {0} × (fits_body router s c ≡ true)
      → Unit {0} × (fits_body router s d ≡ true)
  unfolding materialize_candidate
  materialize_candidate-fits s c d h (u, f) = (
    tt,
    subst (λ n. (eqb_ℤ n zero64 || leb_ℤ s.body_bytes n) ≡ true)
        (with_estimate-body (count c) c d (effective_of (count c).builder) h) f,
  )

  -- The policies after the check of the body, one after the other.
  chain-IsTested :
      (s a b c d t : RequestState)
      → s.scopes ≡ []
      → Narrowed (basis s) (λ x. Unit {0} × (fits_body router s x ≡ true)) a
      → token_validation count router a ≡ passes b
      → acl router b ≡ passes c
      → candidate_preflight check router c ≡ passes d
      → resolve_scopes sources router d ≡ passes t
      → All (IsTested router check s t.scopes) t.candidates
  unfolding resolve_scopes
  chain-IsTested s a b c d t e n h k l m =
      let P : Candidate → Type 0 = λ x. Unit {0} × (fits_body router s x ≡ true) in
      let v =
        token_validation-Narrowed (basis s) P count router (materialize_candidate-fits s) a b n h in
      let Q : Candidate → Type 0 = λ x. P x × IsWithin x in
      let w = acl-Narrowed (basis s) Q router b c v k in
      let R : Candidate → Type 0 = λ x. Q x × Permits s.principal s.model s.project x in
      let p = candidate_preflight-Narrowed (basis s) R router check c d w l in
      let T : Candidate → Type 0 = λ x. R x × (check x ≡ none) in
      let all = with_subject-AllAllowed T router d t _ p.1 (ap (λ x. x.scopes) p.0 ∙ e) p.2 m in
      All-map t.candidates
        (λ x y. (
          y.0.0.0.0.1,
          y.0.0.0.1,
          y.0.0.1,
          y.0.1,
          subst (λ z. is_allowed z t.scopes x ≡ true) p.0 y.1,
        ))
        all

-- If the request policies pass a request on, every candidate route that is left meets all of them: the
-- body fits the route; the estimated input and the requested output are within the route's
-- capabilities; the principal, if there is one, may use the model, the project and the route's
-- provider; the provider's preflight accepts the route; and each scope of the quota allows the model,
-- the provider and the tokens, and has every hosted tool priced if spending is limited. A list that is
-- empty allows everything, and a limit that is not positive is none.
pub request_policies-IsAdmitted :
    (bytes_of : String → List ℕ) (needs_user needs_project : Bool) (count : Candidate → Counting)
    (check : Candidate → Option Failure) (sources : LimitSources) (router : Resolved)
    (s t : RequestState)
    → s.scopes ≡ []
    → request_policies bytes_of needs_user needs_project count check sources router s ≡ passes t
    → All (IsAdmitted check s t.scopes) t.candidates
unfolding request_policies metadata_validation resolve_scopes materialize_candidate
request_policies-IsAdmitted bytes_of needs_user needs_project count check sources router s t e h =
    let identified = metadata_validation bytes_of s in
    let required = and_then identified (λ x. require_user needs_user needs_project x) in
    let sized = and_then required (λ x. request_size router x) in
    let validated = and_then sized (λ x. token_validation count router x) in
    let permitted = and_then validated (λ x. acl router x) in
    let flown = and_then permitted (λ x. candidate_preflight check router x) in
    let f = and_then-passes flown (λ x. resolve_scopes sources router x) t h in
    let g = and_then-passes permitted (λ x. candidate_preflight check router x) f.0 f.1 in
    let i = and_then-passes validated (λ x. acl router x) g.0 g.1 in
    let j = and_then-passes sized (λ x. token_validation count router x) i.0 i.1 in
    let k = and_then-passes required (λ x. request_size router x) j.0 j.1 in
    let l = and_then-passes identified (λ x. require_user needs_user needs_project x) k.0 k.1 in
    let same : s ≡ k.0 =
      identity_passage-passes _ _ s l.0 l.1
      ∙ require_user-passes needs_user needs_project l.0 k.0 l.2 in
    let fits =
      request_size-Narrowed router s j.0
        (subst (λ x. request_size router x ≡ passes j.0) (sym same) k.2) in
    All-map t.candidates (λ c x. tested-IsAdmitted router check s t.scopes c x.0 x.1 x.2 x.3 x.4)
      (chain-IsTested count check sources router s j.0 i.0 g.0 f.0 t e fits j.2 i.2 g.2 f.2)
