-- ===== src/Gateway/Router/Order.antt =====
-- The order in which a request's routes are tried (gateway/gateway.go): by priority, with the routes
-- of one priority rotated by weight. `hash alias id` stands for the FNV-1a hash of "alias:id".
use Prim.Native.Nat.{Ordering}
use Prim.Native.String
use Prim.Native.String.{compare}
use llmgw.Base.{
  ℕ, suc, ◌+◌, ◌-◌, ◌%◌, ◌==◌, pos_part, String, String-discrete, List, [], ◌∷◌, ◌++◌, Option, none,
  some, Bool, true, false, ltb, ltb_ℤ, leb_ℤ, eqb_ℤ, take, drop, length, ite, if◌then◌else◌,
}
use llmgw.Amounts.{zero64}
use llmgw.Gateway.Route.{Route}
use llmgw.Store.Settlements.{is_empty_id}
use llmgw.Gateway.Router.{Request, ResolvedRoute, Refusal, ready, refused, Providers, prepare_route}

-- Go compares strings by their bytes, which for UTF-8 is the order of the characters' codes.
abbrev pub is_less : String → String → Bool
is_less a b = elim (compare a b) [ Ordering.lt ↦ true | _ ↦ false ]

-- Stable insertion: before the first entry that is not less.
unfoldable pub insert_by : {A : Type 0} → (A → A → Bool) → A → List A → List A
insert_by less x [] = x ∷ []
insert_by less x (y ∷ ys) =
    let rest = insert_by less x ys in if less y x then y ∷ rest else x ∷ y ∷ ys

unfoldable pub sort_by : {A : Type 0} → (A → A → Bool) → List A → List A
unfolding insert_by
sort_by less [] = []
sort_by less (x ∷ xs) = insert_by less x (sort_by less xs)

-- The comparison of `Resolve`: the higher priority first, then by name.
abbrev pub comes_before : ResolvedRoute → ResolvedRoute → Bool
comes_before a b =
    if eqb_ℤ a.route.priority b.route.priority
    then is_less a.route.name b.route.name
    else ltb_ℤ b.route.priority a.route.priority

abbrev pub max_uint64 : ℕ
max_uint64 = 18_446_744_073_709_551_615

-- The sum of the positive weights, cut off at the largest uint64.
unfoldable pub total_weight : ℕ → List ResolvedRoute → ℕ
total_weight total [] = total
total_weight total (candidate ∷ group) =
    let weight = pos_part candidate.route.weight in
    let skipped = total_weight total group in
    let added = total_weight (total + weight) group in
    if leb_ℤ candidate.route.weight zero64
    then skipped
    else if ltb (max_uint64 - weight) total
    then max_uint64
    else added

-- The position, from `i` on, of the candidate whose share of the total weight holds the target.
unfoldable pub pick_from : ℕ → ℕ → ℕ → List ResolvedRoute → Option ℕ
pick_from i offset target [] = none
pick_from i offset target (candidate ∷ group) =
    let weight = pos_part candidate.route.weight in
    let next = if ltb (max_uint64 - weight) offset then max_uint64 else offset + weight in
    let skipped = pick_from (suc i) offset target group in
    let later = pick_from (suc i) next target group in
    if leb_ℤ candidate.route.weight zero64
    then skipped
    else if ltb target next
    then some i
    else later

abbrev pub first_if_none : Option ℕ → ℕ
first_if_none none = 0
first_if_none (some i) = i

abbrev pub rotated : ℕ → List ResolvedRoute → List ResolvedRoute
rotated pick group = drop pick group ++ take pick group

unfoldable pub rotate_weighted :
    (String → String → ℕ) → String → List ResolvedRoute → String → List ResolvedRoute
unfolding total_weight pick_from
rotate_weighted hash alias group id =
    let total = total_weight 0 group in
    if ltb 1 (length group)
    then (if total == 0
        then group
        else rotated (first_if_none (pick_from 0 0 (hash alias id % total) group)) group)
    else group

abbrev pub route_group_key : Request → String
route_group_key env =
    if is_empty_id env.provider
    then env.model
    else String.◌++◌ env.provider (String.◌++◌ ":" env.model)

abbrev pub joins : ResolvedRoute → List (List ResolvedRoute) → List (List ResolvedRoute)
joins x [] = (x ∷ []) ∷ []
joins x ([] ∷ groups) = (x ∷ []) ∷ groups
joins x ((y ∷ group) ∷ groups) =
    if eqb_ℤ y.route.priority x.route.priority
    then (x ∷ y ∷ group) ∷ groups
    else (x ∷ []) ∷ (y ∷ group) ∷ groups

-- The runs of equal priority.
unfoldable pub priority_groups : List ResolvedRoute → List (List ResolvedRoute)
priority_groups [] = []
priority_groups (x ∷ candidates) = joins x (priority_groups candidates)

abbrev pub seed_of : Request → String
seed_of env = if is_empty_id env.execution_id then env.request_id else env.execution_id

unfoldable pub rotate_groups :
    (String → String → ℕ) → String → String → List (List ResolvedRoute) → List ResolvedRoute
unfolding rotate_weighted
rotate_groups hash alias id [] = []
rotate_groups hash alias id (group ∷ groups) =
    rotate_weighted hash alias group id ++ rotate_groups hash alias id groups

-- The routes that can take the request, and the refusals of those that cannot.
unfoldable pub accepted : Providers → Request → List Route → List ResolvedRoute
unfolding prepare_route
accepted providers env [] = []
accepted providers env (route ∷ routes) = elim (prepare_route providers route env) [
  | ready r ↦ r ∷ accepted providers env routes
  | refused _ ↦ accepted providers env routes
]

unfoldable pub unsupported : Providers → Request → List Route → List (String × Refusal)
unfolding prepare_route
unsupported providers env [] = []
unsupported providers env (route ∷ routes) = elim (prepare_route providers route env) [
  | ready _ ↦ unsupported providers env routes
  | refused r ↦ (route.name, r) ∷ unsupported providers env routes
]

-- A snapshot that was built by hand has no index of routes by model.
pub record Snapshot : Type 0 where
  pub routes : List Route
  pub routes_by_model : Option (String → List Route)

unfoldable pub routes_with_model : String → List Route → List Route
routes_with_model model [] = []
routes_with_model model (route ∷ routes) =
    let rest = routes_with_model model routes in
    ite (String-discrete route.model model) (route ∷ rest) rest

abbrev pub routes_for : Option (String → List Route) → List Route → String → List Route
routes_for (some index) routes model = index model
routes_for none routes model =
    sort_by (λ a b. is_less a.name b.name) (routes_with_model model routes)

pub data Resolution : Type 0 where
  resolved : List ResolvedRoute → Resolution
  model_not_found : String → Resolution
  unsupported_by : List (String × Refusal) → Resolution

abbrev pub refusal : String → List (String × Refusal) → Resolution
refusal model [] = model_not_found model
refusal model (r ∷ reasons) = unsupported_by (r ∷ reasons)

abbrev pub ordered : (String → String → ℕ) → Request → List ResolvedRoute → List ResolvedRoute
ordered hash env candidates =
    rotate_groups hash (route_group_key env) (seed_of env)
      (priority_groups (sort_by comes_before candidates))

abbrev pub resolution : List ResolvedRoute → List ResolvedRoute → Resolution → Resolution
resolution [] order otherwise = otherwise
resolution (c ∷ candidates) order otherwise = resolved order

unfoldable pub resolve : (String → String → ℕ) → Providers → Snapshot → Request → Resolution
unfolding accepted unsupported sort_by priority_groups rotate_groups routes_with_model
resolve hash providers snapshot env =
    let routes = routes_for snapshot.routes_by_model snapshot.routes env.model in
    let candidates = accepted providers env routes in
    resolution candidates (ordered hash env candidates)
      (refusal env.model (unsupported providers env routes))
