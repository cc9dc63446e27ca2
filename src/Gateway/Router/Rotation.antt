-- ===== src/Gateway/Router/Rotation.antt =====
-- The rotation of routes of one priority by weight (gateway/gateway.go).
use mathlib.Core.List.Perm
use mathlib.Core.List.{Perm, perm_append_comm}
use llmgw.Base.{
  ℕ, suc, ◌+◌, ◌-◌, ◌%◌, ◌==◌, ◌≤◌, ◌<◌, ◌≡◌, refl, ◌∙◌, ap, subst, pos_part, String, List, [], ◌∷◌,
  ◌++◌, some, take, drop, take-append-drop, length, ltb, leb_ℤ, Bool-cases, inl, inr, true, false,
  arith,
}
use llmgw.Amounts.{zero64}
use llmgw.Gateway.Router.{ResolvedRoute}
use llmgw.Gateway.Router.Order.{
  max_uint64, total_weight, pick_from, rotated, rotate_weighted, first_if_none,
}

rotated-Perm : (n : ℕ) (group : List ResolvedRoute) → Perm (rotated n group) group
rotated-Perm n group =
    subst (λ g. Perm (rotated n group) g) (take-append-drop n group)
      (perm_append_comm (drop n group) (take n group))

-- Rotation loses no route and repeats none.
pub rotate_weighted-Perm :
    (hash : String → String → ℕ) (alias : String) (group : List ResolvedRoute) (id : String)
    → Perm (rotate_weighted hash alias group id) group
unfolding rotate_weighted
rotate_weighted-Perm hash alias group id = elim (Bool-cases (ltb 1 (length group))) [
  | inr h ↦ rw h (Perm.refl group)
  | inl h ↦ elim (Bool-cases (total_weight 0 group == 0)) [
    | inl k ↦ rw (h, k) (Perm.refl group)
    | inr k ↦
        rw (h, k)
          (rotated-Perm (first_if_none (pick_from 0 0 (hash alias id % total_weight 0 group) group))
            group)
  ]
]

abbrev pub weight_of : ResolvedRoute → ℕ
weight_of r = pos_part r.route.weight

abbrev pub weights : List ResolvedRoute → ℕ
weights [] = 0
weights (r ∷ group) = weight_of r + weights group

total_weight_lem :
    (t : ℕ) (group : List ResolvedRoute)
    → t + weights group ≤ max_uint64
    → total_weight t group ≡ t + weights group
unfolding total_weight
total_weight_lem t [] h = omega arith
total_weight_lem t (r ∷ group) h =
    ground (arith, total_weight_lem t group, total_weight_lem (t + weight_of r) group)

-- The candidate whose share of the weight, from `offset` on, holds the target.
pub record IsPicked (offset target : ℕ) (group before after : List ResolvedRoute)
    (r : ResolvedRoute) : Type 0 where
  pub split : group ≡ before ++ (r ∷ after)
  pub from : offset + weights before ≤ target
  pub below : target < offset + weights before + weight_of r

record Picks (offset target i : ℕ) (group : List ResolvedRoute) : Type 0 where
  before : List ResolvedRoute
  after : List ResolvedRoute
  choice : ResolvedRoute
  is_picked : IsPicked offset target group before after choice
  index : pick_from i offset target group ≡ some (i + length before)

no_weight :
    (offset : ℕ) (r : ResolvedRoute)
    → leb_ℤ r.route.weight zero64 ≡ true
    → offset ≡ offset + weight_of r
no_weight offset r p = ground arith

not_above : (a b : ℕ) → b ≤ a → ltb a b ≡ false
not_above a b h = ground arith

pick_here :
    (i offset target : ℕ) (r : ResolvedRoute) (group : List ResolvedRoute)
    → offset + weight_of r ≤ max_uint64
    → offset ≤ target
    → target < offset + weight_of r
    → pick_from i offset target (r ∷ group) ≡ some (i + 0)
unfolding pick_from
pick_here i offset target r group h k l = ground arith

pick_later :
    (i offset target : ℕ) (r : ResolvedRoute) (group : List ResolvedRoute)
    → offset + weight_of r ≤ max_uint64
    → offset + weight_of r ≤ target
    → pick_from i offset target (r ∷ group) ≡ pick_from (suc i) (offset + weight_of r) target group
unfolding pick_from
pick_later i offset target r group h k = elim (Bool-cases (leb_ℤ r.route.weight zero64)) [
  | inl p ↦ rw p (ap (λ o. pick_from (suc i) o target group) (no_weight offset r p))
  | inr p ↦
      rw
        (
          p,
          not_above (max_uint64 - weight_of r) offset (omega arith),
          not_above target (offset + weight_of r) k,
        )
        refl
]

pick_from-Picks :
    (i offset target : ℕ) (group : List ResolvedRoute)
    → offset + weights group ≤ max_uint64
    → offset ≤ target
    → target < offset + weights group
    → Picks offset target i group
pick_from-Picks i offset target [] h k l = absurd (omega arith)
pick_from-Picks i offset target (r ∷ group) h k l =
    elim (Bool-cases (ltb target (offset + weight_of r))) [
      | inl p ↦ record {
        before = [];
        after = group;
        choice = r;
        is_picked = record { split = refl; from = omega arith; below = ground arith };
        index = pick_here i offset target r group (omega arith) k (ground arith);
      }
      | inr p ↦
          let rest =
            pick_from-Picks (suc i) (offset + weight_of r) target group (omega arith) (ground arith)
              (omega arith) in
          record {
            before = r ∷ rest.before;
            after = rest.after;
            choice = rest.choice;
            is_picked = record {
              split = ap (λ g. r ∷ g) rest.is_picked.split;
              from = ground (arith, rest.is_picked.from);
              below = ground (arith, rest.is_picked.below);
            };
            index =
                pick_later i offset target r group (omega arith) (ground arith)
                ∙ (rest.index ∙ ap some (omega arith));
          }
    ]

drop-length : {A : Type 0} (xs ys : List A) → drop (length xs) (xs ++ ys) ≡ ys
drop-length [] ys = refl
drop-length (x ∷ xs) ys = drop-length xs ys

take-length : {A : Type 0} (xs ys : List A) → take (length xs) (xs ++ ys) ≡ xs
take-length [] ys = refl
take-length (x ∷ xs) ys = ap (λ zs. x ∷ zs) (take-length xs ys)

rotated_split :
    (before rest group : List ResolvedRoute)
    → group ≡ before ++ rest
    → rotated (length before) group ≡ rest ++ before
rotated_split before rest group e = rw (e, drop-length before rest, take-length before rest) refl

below_total : (n w : ℕ) → 0 < w → n % w < 0 + w
below_total n w h = grind arith

is_above : (a b : ℕ) → a < b → ltb a b ≡ true
is_above a b h = ground arith

not_zero : (n : ℕ) → 0 < n → (n == 0) ≡ false
not_zero n h = ground arith

-- The first route after the rotation of a group.
pub record IsFirst (target : ℕ) (group result : List ResolvedRoute) : Type 0 where
  pub before : List ResolvedRoute
  pub after : List ResolvedRoute
  pub choice : ResolvedRoute
  pub is_picked : IsPicked 0 target group before after choice
  pub order : result ≡ (choice ∷ after) ++ before

module _ (hash : String → String → ℕ) (alias : String) (group : List ResolvedRoute) (id : String)
    (h : 1 < length group) (k : 0 < weights group) (l : weights group ≤ max_uint64) where
  picked-IsFirst :
      Picks 0 (hash alias id % weights group) 0 group
      → IsFirst (hash alias id % weights group) group (rotate_weighted hash alias group id)
  unfolding rotate_weighted
  picked-IsFirst pick =
      let total : total_weight 0 group ≡ weights group =
        total_weight_lem 0 group (omega arith) ∙ (omega arith) in
      let found : pick_from 0 0 (hash alias id % weights group) group ≡ some (length pick.before) =
        pick.index ∙ ap some (omega arith) in
      record {
        before = pick.before;
        after = pick.after;
        choice = pick.choice;
        is_picked = pick.is_picked;
        order =
            rw (is_above 1 (length group) h, total, not_zero (weights group) k, found)
              (rotated_split pick.before (pick.choice ∷ pick.after) group pick.is_picked.split);
      }

  -- Of two or more routes whose positive weights have a sum that is positive and fits in a uint64,
  -- the first is the one in whose share of the sum the hash falls (modulo the sum); those after it
  -- and then those before it follow in their order.
  pub rotate_weighted-IsFirst :
      IsFirst (hash alias id % weights group) group (rotate_weighted hash alias group id)
  rotate_weighted-IsFirst = picked-IsFirst (
      pick_from-Picks 0 0 (hash alias id % weights group) group (omega arith) (omega arith)
        (below_total (hash alias id) (weights group) k))
