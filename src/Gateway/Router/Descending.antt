-- ===== src/Gateway/Router/Descending.antt =====
-- The order by priority into which the router sorts the routes (gateway/gateway.go).
use llmgw.Base.{
  ◌≡◌, ℤ, pos, negsuc, List, [], ◌∷◌, Bool, true, false, Bool-cases, inl, inr, eqb_ℤ, ltb_ℤ, leb_ℤ,
  arith, All, if◌then◌else◌,
}
use llmgw.Gateway.Router.{ResolvedRoute}
use llmgw.Gateway.Router.Order.{insert_by, sort_by, comes_before}

abbrev pub priority_of : ResolvedRoute → ℤ
priority_of r = r.route.priority

-- Every route has at most the priority.
abbrev pub AtMost : ℤ → List ResolvedRoute → Type 0
AtMost p rs = All (λ r. leb_ℤ (priority_of r) p ≡ true) rs

abbrev pub AtLeast : ℤ → List ResolvedRoute → Type 0
AtLeast p rs = All (λ r. leb_ℤ p (priority_of r) ≡ true) rs

-- No route comes before one of a higher priority.
abbrev pub IsDescending : List ResolvedRoute → Type 0
IsDescending [] = Unit
IsDescending (r ∷ rs) = AtMost (priority_of r) rs × IsDescending rs

pub leb_trans : (a b c : ℤ) → leb_ℤ a b ≡ true → leb_ℤ b c ≡ true → leb_ℤ a c ≡ true
leb_trans (pos a) (pos b) (pos c) h k = ground arith
leb_trans (pos a) (pos b) (negsuc c) h k = ground arith
leb_trans (pos a) (negsuc b) c h k = ground arith
leb_trans (negsuc a) (pos b) (pos c) h k = ground arith
leb_trans (negsuc a) (pos b) (negsuc c) h k = ground arith
leb_trans (negsuc a) (negsuc b) (pos c) h k = ground arith
leb_trans (negsuc a) (negsuc b) (negsuc c) h k = ground arith

pub leb_refl : (a : ℤ) → leb_ℤ a a ≡ true
leb_refl (pos a) = ground arith
leb_refl (negsuc a) = ground arith

pub AtMost-weaken :
    (p q : ℤ) (rs : List ResolvedRoute) → leb_ℤ p q ≡ true → AtMost p rs → AtMost q rs
AtMost-weaken p q [] h a = tt
AtMost-weaken p q (r ∷ rs) h a = (leb_trans (priority_of r) p q a.0 h, AtMost-weaken p q rs h a.1)

AtMost-insert_by :
    (p : ℤ) (x : ResolvedRoute) (rs : List ResolvedRoute)
    → leb_ℤ (priority_of x) p ≡ true
    → AtMost p rs
    → AtMost p (insert_by comes_before x rs)
unfolding insert_by
AtMost-insert_by p x [] h a = (h, tt)
AtMost-insert_by p x (r ∷ rs) h a = elim (Bool-cases (comes_before r x)) [
  | inl k ↦ rw k (a.0, AtMost-insert_by p x rs h a.1)
  | inr k ↦ rw k (h, a)
]

before-leb : (a b : ℤ) (c : Bool) → (if eqb_ℤ a b then c else ltb_ℤ b a) ≡ true → leb_ℤ b a ≡ true
before-leb (pos a) (pos b) c h = ground arith
before-leb (pos a) (negsuc b) c h = ground arith
before-leb (negsuc a) (pos b) c h = ground arith
before-leb (negsuc a) (negsuc b) c h = ground arith

not-before-leb :
    (a b : ℤ) (c : Bool) → (if eqb_ℤ a b then c else ltb_ℤ b a) ≡ false → leb_ℤ a b ≡ true
not-before-leb (pos a) (pos b) c h = ground arith
not-before-leb (pos a) (negsuc b) c h = ground arith
not-before-leb (negsuc a) (pos b) c h = ground arith
not-before-leb (negsuc a) (negsuc b) c h = ground arith

insert_by-IsDescending :
    (x : ResolvedRoute) (rs : List ResolvedRoute)
    → IsDescending rs
    → IsDescending (insert_by comes_before x rs)
unfolding insert_by
insert_by-IsDescending x [] d = (tt, tt)
insert_by-IsDescending x (r ∷ rs) d = elim (Bool-cases (comes_before r x)) [
  | inl k ↦ rw k (
    AtMost-insert_by (priority_of r) x rs (before-leb (priority_of r) (priority_of x) _ k) d.0,
    insert_by-IsDescending x rs d.1,
  )
  | inr k ↦
      let above = not-before-leb (priority_of r) (priority_of x) _ k in
      rw k ((above, AtMost-weaken (priority_of r) (priority_of x) rs above d.0), d)
]

pub sort_by-IsDescending : (rs : List ResolvedRoute) → IsDescending (sort_by comes_before rs)
unfolding sort_by
sort_by-IsDescending [] = tt
sort_by-IsDescending (r ∷ rs) =
    insert_by-IsDescending r (sort_by comes_before rs) (sort_by-IsDescending rs)
