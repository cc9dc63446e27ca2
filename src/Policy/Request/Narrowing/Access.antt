-- ===== src/Policy/Request/Narrowing/Access.antt =====
-- What the access list and the preflight leave of the candidates (policy/request.go,
-- gateway/gateway.go).
use llmgw.Base.{
  ◌≡◌, refl, subst, String, List, [], ◌∷◌, Option, none, some, Bool, true, false, not, ◌&&◌,
  if◌then◌else◌, if-holds, All, All-map,
}
use llmgw.Store.Settlements.{is_empty_id}
use llmgw.Gateway.Errors.{Failure}
use llmgw.Gateway.Dispatch.{Preflight, candidates_left, rejected, preflight_candidates}
use llmgw.Policy.Candidate.{Candidate}
use llmgw.Policy.Request.{
  Principal, contains, RequestState, Passage, passes, denied, Resolved, filter, with_candidates,
  narrowed, resolve_candidates, allowed_by, is_any,
}
use llmgw.Policy.Request.Access.{serves, if_permitted, acl_for, acl}
use llmgw.Policy.Request.Scopes.{preflighted, candidate_preflight}
use llmgw.Policy.Request.Narrowing.{
  LeftAll, passes_inj, denied_passes, narrowed-passes, preflight_candidates-LeftAll,
}
use llmgw.Policy.Request.Narrowing.Stages.{basis, Narrowed, resolved-candidates, narrowed-Narrowed}

-- The principal may use the model, the project and the provider; one that lists none may use all.
abbrev pub Permits : Option Principal → String → String → Candidate → Type 0
Permits none model project c = Unit
Permits (some p) model project c =
    (allowed_by p.models model ≡ true)
    × (allowed_by p.projects project ≡ true)
    × (allowed_by p.providers c.route.provider ≡ true)

not-false : (x : Bool) → not x ≡ false → x ≡ true
not-false true h = refl
not-false false h = absurd cc

allowed_contains :
    (xs : List String) (name : String) → contains xs name ≡ true → allowed_by xs name ≡ true
allowed_contains [] name h = refl
allowed_contains (x ∷ xs) name h = h

allowed_none : (xs : List String) (name : String) → is_any xs ≡ false → allowed_by xs name ≡ true
allowed_none [] name h = refl
allowed_none (x ∷ xs) name h = absurd cc

pub denied_goal : {A : Type 0} (e : Failure) (t : RequestState) → denied e ≡ passes t → A
denied_goal e t h = absurd (denied_passes e t h)

module _ (b : RequestState) (P : Candidate → Type 0) (router : Resolved) (p : Principal) where
  abbrev Goal : RequestState → RequestState → Passage → Type 0
  Goal s t go =
      (allowed_by p.models s.model ≡ true)
      × (allowed_by p.projects s.project ≡ true)
      × (go ≡ passes t)

  if_permitted-passes :
      (s t : RequestState) (go : Passage) → if_permitted p s go ≡ passes t → Goal s t go
  if_permitted-passes s t go h =
      if-holds (λ x. x ≡ passes t → Goal s t go) (not (allowed_by p.models s.model)) (denied _) _
        (λ _ q. denied_goal _ t q)
        (λ m q.
          if-holds (λ x. x ≡ passes t → Goal s t go) (is_any p.projects && is_empty_id s.project)
            (denied _) _ (λ _ q. denied_goal _ t q)
            (λ _ q.
              if-holds (λ x. x ≡ passes t → Goal s t go) (not (allowed_by p.projects s.project))
                (denied _) go (λ _ q. denied_goal _ t q) (λ j q. (not-false _ m, not-false _ j, q))
                q)
            q)
        h

  with_provider :
      (t : RequestState)
      → Narrowed b (λ c. P c × (serves p c ≡ true)) t
      → Narrowed b (λ c. P c × (allowed_by p.providers c.route.provider ≡ true)) t
  with_provider t (h, r, a) = (
    h,
    r,
    All-map t.candidates (λ c x. (x.0, allowed_contains p.providers c.route.provider x.1)) a,
  )

  provided-Narrowed :
      (s t : RequestState) (e : Failure)
      → Narrowed b P s
      → (if is_any p.providers
          then narrowed router
              (resolve_candidates router s)
              (λ cs. with_candidates e (filter (serves p) cs) s)
          else passes s)
        ≡ passes t
      → Narrowed b (λ c. P c × (allowed_by p.providers c.route.provider ≡ true)) t
  provided-Narrowed s t e n h =
      if-holds
        (λ x.
          x ≡ passes t → Narrowed b (λ c. P c × (allowed_by p.providers c.route.provider ≡ true)) t)
        (is_any p.providers)
        (narrowed router (resolve_candidates router s)
          (λ cs. with_candidates e (filter (serves p) cs) s))
        (passes s) (λ _ q. with_provider t (narrowed-Narrowed b P (serves p) router e s t n q))
        (λ f q. subst (Narrowed b _) (passes_inj s t q) (
          n.0,
          n.1,
          All-map s.candidates (λ c x. (x, allowed_none p.providers c.route.provider f)) n.2,
        ))
        h

module _ (b : RequestState) (P : Candidate → Type 0) (router : Resolved) where
  acl_for-Narrowed :
      (o : Option Principal) (s t : RequestState)
      → Narrowed b P s
      → acl_for router o s ≡ passes t
      → Narrowed b (λ c. P c × Permits o s.model s.project c) t
  acl_for-Narrowed none s t (h, r, a) q =
      subst (Narrowed b (λ c. P c × Unit {0})) (passes_inj s t q)
        (h, r, All-map s.candidates (λ c x. (x, tt)) a)
  acl_for-Narrowed (some p) s t n q =
      let g = if_permitted-passes b P router p s t _ q in
      let kept = provided-Narrowed b P router p s t _ n g.2 in
      (kept.0, kept.1, All-map t.candidates (λ c x. (x.0, (g.0, g.1, x.1))) kept.2)

  -- `basis` holds what the policies read of a request.
  pub acl-Narrowed :
      (s t : RequestState)
      → Narrowed b P s
      → acl router s ≡ passes t
      → Narrowed b (λ c. P c × Permits b.principal b.model b.project c) t
  unfolding acl
  acl-Narrowed s t n q =
      subst (λ x. Narrowed b (λ c. P c × Permits x.principal x.model x.project c) t) n.0
        (acl_for-Narrowed s.principal s t n q)

  preflighted-Narrowed :
      (check : Candidate → Option Failure) (s t : RequestState) (r : Preflight Candidate)
      → basis s ≡ b
      → LeftAll P check r
      → preflighted s r ≡ passes t
      → Narrowed b (λ c. P c × (check c ≡ none)) t
  preflighted-Narrowed check s t (rejected e) h a q = denied_goal e t q
  preflighted-Narrowed check s t (candidates_left cs) h a q =
      subst (Narrowed b (λ c. P c × (check c ≡ none))) (passes_inj _ t q) (h, refl, a)

  pub candidate_preflight-Narrowed :
      (check : Candidate → Option Failure) (s t : RequestState)
      → Narrowed b P s
      → candidate_preflight check router s ≡ passes t
      → Narrowed b (λ c. P c × (check c ≡ none)) t
  unfolding candidate_preflight
  candidate_preflight-Narrowed check s t (h, r, a) q =
      let n = narrowed-passes router (resolve_candidates router s) _ t q in
      let kept = subst (All P) (resolved-candidates router s n.0 r n.1) a in
      preflighted-Narrowed check s t (preflight_candidates check n.0) h
        (preflight_candidates-LeftAll P check n.0 kept) n.2
