-- ===== src/Gateway/Router/Priority.antt =====
-- The priorities of the routes that the router returns (gateway/gateway.go).
use llmgw.Base.{
  ℕ, zero, suc, ◌%◌, ◌==◌, ◌≡◌, ◌≢◌, sym, subst, ℤ, pos, negsuc, String, List, [], ◌∷◌, ◌++◌, true,
  Bool-cases, inl, inr, eqb_ℤ, leb_ℤ, arith, All, All-append, take, drop, ltb, length,
}
use llmgw.Gateway.Router.{Refusal, Request, ResolvedRoute, Providers}
use llmgw.Gateway.Router.Order.{
  sort_by, comes_before, joins, priority_groups, rotate_groups, rotate_weighted, total_weight,
  pick_from, first_if_none, ordered, seed_of, route_group_key, resolve, resolved, resolution,
  refusal, unsupported, accepted, routes_for, Snapshot,
}
use llmgw.Gateway.Router.Resolution.{concat, concat-priority_groups}
use llmgw.Gateway.Router.Descending.{
  priority_of, AtMost, AtLeast, IsDescending, leb_trans, leb_refl, AtMost-weaken,
  sort_by-IsDescending,
}

module _ (P : ResolvedRoute → Type 0) where
  All-take : (n : ℕ) (rs : List ResolvedRoute) → All P rs → All P (take n rs)
  All-take zero rs a = tt
  All-take (suc n) [] a = tt
  All-take (suc n) (r ∷ rs) a = (a.0, All-take n rs a.1)

  All-drop : (n : ℕ) (rs : List ResolvedRoute) → All P rs → All P (drop n rs)
  All-drop zero rs a = a
  All-drop (suc n) [] a = tt
  All-drop (suc n) (r ∷ rs) a = All-drop n rs a.1

  rotate_weighted-All :
      (hash : String → String → ℕ) (alias id : String) (group : List ResolvedRoute)
      → All P group
      → All P (rotate_weighted hash alias group id)
  unfolding rotate_weighted
  rotate_weighted-All hash alias id group a = elim (Bool-cases (ltb 1 (length group))) [
    | inr h ↦ rw h a
    | inl h ↦ elim (Bool-cases (total_weight 0 group == 0)) [
      | inl k ↦ rw (h, k) a
      | inr k ↦
          let pick = first_if_none (pick_from 0 0 (hash alias id % total_weight 0 group) group) in
          rw (h, k)
            (All-append P (drop pick group) (take pick group) (All-drop pick group a)
              (All-take pick group a))
    ]
  ]

All-left : (P : ResolvedRoute → Type 0) (xs ys : List ResolvedRoute) → All P (xs ++ ys) → All P xs
All-left P [] ys a = tt
All-left P (x ∷ xs) ys a = (a.0, All-left P xs ys a.1)

All-right : (P : ResolvedRoute → Type 0) (xs ys : List ResolvedRoute) → All P (xs ++ ys) → All P ys
All-right P [] ys a = a
All-right P (x ∷ xs) ys a = All-right P xs ys a.1

rotate_groups-All :
    (P : ResolvedRoute → Type 0) (hash : String → String → ℕ) (alias id : String)
    (groups : List (List ResolvedRoute))
    → All P (concat groups)
    → All P (rotate_groups hash alias id groups)
unfolding rotate_groups
rotate_groups-All P hash alias id [] a = tt
rotate_groups-All P hash alias id (group ∷ groups) a =
    All-append P (rotate_weighted hash alias group id) (rotate_groups hash alias id groups)
      (rotate_weighted-All P hash alias id group (All-left P group (concat groups) a))
      (rotate_groups-All P hash alias id groups (All-right P group (concat groups) a))

-- Each group has one priority, and the later ones have none above it.
IsGrouped : List (List ResolvedRoute) → Type 0
IsGrouped [] = Unit
IsGrouped (group ∷ groups) =
    ((q : ℤ) × AtMost q group × AtLeast q group × AtMost q (concat groups)) × IsGrouped groups

eqb-leb : (a b : ℤ) → eqb_ℤ a b ≡ true → (leb_ℤ a b ≡ true) × (leb_ℤ b a ≡ true)
eqb-leb (pos a) (pos b) h = ground arith
eqb-leb (pos a) (negsuc b) h = ground arith
eqb-leb (negsuc a) (pos b) h = ground arith
eqb-leb (negsuc a) (negsuc b) h = ground arith

alone :
    (x : ResolvedRoute) (groups : List (List ResolvedRoute))
    → AtMost (priority_of x) (concat groups)
    → IsGrouped groups
    → IsGrouped ((x ∷ []) ∷ groups)
unfolding IsGrouped
alone x groups a g =
    ((priority_of x, (leb_refl (priority_of x), tt), (leb_refl (priority_of x), tt), a), g)

joins-IsGrouped :
    (x : ResolvedRoute) (groups : List (List ResolvedRoute))
    → AtMost (priority_of x) (concat groups)
    → IsGrouped groups
    → IsGrouped (joins x groups)
unfolding IsGrouped
joins-IsGrouped x [] a g = alone x [] a g
joins-IsGrouped x ([] ∷ groups) a g = alone x groups a g.1
joins-IsGrouped x ((y ∷ group) ∷ groups) a g =
    elim (Bool-cases (eqb_ℤ y.route.priority x.route.priority)) [
      | inl k ↦
          let same = eqb-leb (priority_of y) (priority_of x) k in
          rw k (
            (
              g.0.0,
              (leb_trans (priority_of x) (priority_of y) g.0.0 same.1 g.0.1.0, g.0.1),
              (leb_trans g.0.0 (priority_of y) (priority_of x) g.0.2.0 same.0, g.0.2),
              g.0.3,
            ),
            g.1,
          )
      | inr k ↦ rw k (alone x ((y ∷ group) ∷ groups) a g)
    ]

priority_groups-IsGrouped :
    (rs : List ResolvedRoute) → IsDescending rs → IsGrouped (priority_groups rs)
unfolding priority_groups IsGrouped
priority_groups-IsGrouped [] d = tt
priority_groups-IsGrouped (r ∷ rs) d =
    joins-IsGrouped r (priority_groups rs)
      (subst (AtMost (priority_of r)) (sym (concat-priority_groups rs)) d.0)
      (priority_groups-IsGrouped rs d.1)

block-IsDescending :
    (q : ℤ) (group rest : List ResolvedRoute)
    → AtMost q group
    → AtLeast q group
    → AtMost q rest
    → IsDescending rest
    → IsDescending (group ++ rest)
block-IsDescending q [] rest m l r d = d
block-IsDescending q (x ∷ group) rest m l r d = (
  All-append (λ y. leb_ℤ (priority_of y) (priority_of x) ≡ true) group rest
      (AtMost-weaken q (priority_of x) group l.0 m.1) (AtMost-weaken q (priority_of x) rest l.0 r),
  block-IsDescending q group rest m.1 l.1 r d,
)

rotate_groups-IsDescending :
    (hash : String → String → ℕ) (alias id : String) (groups : List (List ResolvedRoute))
    → IsGrouped groups
    → IsDescending (rotate_groups hash alias id groups)
unfolding rotate_groups IsGrouped
rotate_groups-IsDescending hash alias id [] g = tt
rotate_groups-IsDescending hash alias id (group ∷ groups) g =
    let q = g.0.0 in
    block-IsDescending q (rotate_weighted hash alias group id) (rotate_groups hash alias id groups)
      (rotate_weighted-All (λ r. leb_ℤ (priority_of r) q ≡ true) hash alias id group g.0.1)
      (rotate_weighted-All (λ r. leb_ℤ q (priority_of r) ≡ true) hash alias id group g.0.2)
      (rotate_groups-All (λ r. leb_ℤ (priority_of r) q ≡ true) hash alias id groups g.0.3)
      (rotate_groups-IsDescending hash alias id groups g.1)

refusal-resolved :
    (model : String) (reasons : List (String × Refusal)) (order : List ResolvedRoute)
    → refusal model reasons ≢ resolved order
refusal-resolved model [] order = λ e. cc
refusal-resolved model (r ∷ reasons) order = λ e. cc

resolution-order :
    (candidates found order : List ResolvedRoute) (model : String)
    (reasons : List (String × Refusal))
    → resolution candidates found (refusal model reasons) ≡ resolved order
    → found ≡ order
resolution-order [] found order model reasons h = absurd (refusal-resolved model reasons order h)
resolution-order (c ∷ candidates) found order model reasons h = cc

-- Whatever the weights and the hash: in the routes that the router returns, none comes before one of
-- a higher priority.
pub resolve-IsDescending :
    (hash : String → String → ℕ) (providers : Providers) (snapshot : Snapshot) (env : Request)
    (order : List ResolvedRoute)
    → resolve hash providers snapshot env ≡ resolved order
    → IsDescending order
unfolding resolve
resolve-IsDescending hash providers snapshot env order h =
    let routes = routes_for snapshot.routes_by_model snapshot.routes env.model in
    let candidates = accepted providers env routes in
    subst IsDescending
      (resolution-order candidates (ordered hash env candidates) order env.model
        (unsupported providers env routes) h)
      (rotate_groups-IsDescending hash (route_group_key env) (seed_of env)
        (priority_groups (sort_by comes_before candidates))
        (priority_groups-IsGrouped (sort_by comes_before candidates)
          (sort_by-IsDescending candidates)))
