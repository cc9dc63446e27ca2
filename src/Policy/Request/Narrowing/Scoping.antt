-- ===== src/Policy/Request/Narrowing/Scoping.antt =====
-- What the scopes of the quota leave of the candidates (policy/request.go).
use llmgw.Base.{
  ◌≡◌, refl, sym, subst, List, [], ◌∷◌, Bool, true, false, not, ◌||◌, if◌then◌else◌, if-holds, All,
  All-map,
}
use llmgw.Store.Settlements.{is_empty_id}
use llmgw.Store.Usage.{ScopedLimit}
use llmgw.Policy.Candidate.{Candidate}
use llmgw.Policy.Estimate.{max_estimate}
use llmgw.Policy.Request.{
  RequestState, Passage, passes, denied, Resolved, filter, resolve_candidates, is_any,
}
use llmgw.Policy.Request.Scopes.{
  Scoping, scoped, unscoped, candidate_allowed_by_scopes, candidate_has_required_unit_pricing,
  all_priced, is_allowed, with_scopes, scope_passage, with_subject,
}
use llmgw.Policy.Request.Narrowing.{
  passes_inj, with_candidates-passes, narrowed-passes, filter-both,
}
use llmgw.Policy.Request.Narrowing.Stages.{resolved-candidates, with_estimate_of-passes}
use llmgw.Policy.Request.Narrowing.Access.{denied_goal}

with_scopes-passes :
    (scopes : List ScopedLimit) (p : Passage) (t : RequestState)
    → with_scopes scopes p ≡ passes t
    → (u : RequestState) × (p ≡ passes u) × (record u { scopes = scopes } ≡ t)
with_scopes-passes scopes (denied e) t h = absurd cc
with_scopes-passes scopes (passes u) t h = (u, refl, passes_inj _ t h)

or_left : (x y : Bool) → (x || true || y) ≡ true
or_left true y = refl
or_left false y = refl

unscoped_allowed : (s : RequestState) (c : Candidate) → is_allowed s [] c ≡ true
unfolding candidate_allowed_by_scopes candidate_has_required_unit_pricing
unscoped_allowed s c = or_left (not (is_any s.provider_units)) (all_priced c.units s.provider_units)

abbrev pub AllAllowed : (Candidate → Type 0) → RequestState → RequestState → Type 0
AllAllowed P s t = All (λ c. P c × (is_allowed s t.scopes c ≡ true)) t.candidates

module _ (P : Candidate → Type 0) (router : Resolved) where
  scope_passage-AllAllowed :
      (s t : RequestState) (r : Scoping)
      → s.resolved ≡ true
      → s.scopes ≡ []
      → All P s.candidates
      → scope_passage router s r ≡ passes t
      → AllAllowed P s t
  scope_passage-AllAllowed s t (unscoped x) r e a q = denied_goal x t q
  scope_passage-AllAllowed s t (scoped []) r e a q = subst (AllAllowed P s) (passes_inj s t q) (
      All-map s.candidates
        (λ c x. (x, subst (λ sc. is_allowed s sc c ≡ true) (sym e) (unscoped_allowed s c))) a)
  scope_passage-AllAllowed s t (scoped (scope ∷ scopes)) r e a q =
      let n = narrowed-passes router (resolve_candidates router s) _ t q in
      let kept = subst (All P) (resolved-candidates router s n.0 r n.1) a in
      let filtered = filter (is_allowed s (scope ∷ scopes)) n.0 in
      let w = with_estimate_of-passes filtered _ t n.2 in
      let v = with_scopes-passes (scope ∷ scopes) _ w.0 w.1 in
      subst (AllAllowed P s) w.2 (
        subst (λ x. AllAllowed P s (record x { estimate = max_estimate filtered })) v.2
          (subst
            (λ x.
              AllAllowed P s
                (record x { scopes = scope ∷ scopes; estimate = max_estimate filtered }))
            (with_candidates-passes _ filtered s v.0 v.1)
            (filter-both P (is_allowed s (scope ∷ scopes)) n.0 kept)))

  -- The subject, which the last policy may bind, counts for none of this.
  pub with_subject-AllAllowed :
      (s t : RequestState) (r : Scoping)
      → s.resolved ≡ true
      → s.scopes ≡ []
      → All P s.candidates
      → scope_passage router (with_subject s) r ≡ passes t
      → AllAllowed P s t
  with_subject-AllAllowed s t r e f a q =
      if-holds (λ u. scope_passage router u r ≡ passes t → AllAllowed P s t) (is_empty_id s.subject)
        _ s
        (λ _ k.
          scope_passage-AllAllowed
            (record s {
              subject = if is_empty_id s.meta_principal then "anonymous" else s.meta_principal;
            })
            t r e f a k)
        (λ _ k. scope_passage-AllAllowed s t r e f a k) q
