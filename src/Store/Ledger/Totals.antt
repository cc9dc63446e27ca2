-- ===== src/Store/Ledger/Totals.antt =====
-- The total that reservations hold of a key, when a reservation comes, goes or grows.
use Prim.Native.Nat.{min}
use llmgw.Base.{
  ℕ, ◌+◌, ◌<◌, ◌≡◌, refl, subst, max_int64, Option, none, some, List, [], ◌∷◌, arith, All, String,
  String-discrete, lookup, remove, lookup-remove, ite,
}
use mathlib.Core.Option.{some-injective}
use llmgw.Store.Keys.{QuotaKey}
use llmgw.Store.State.{ScopeReservation, Reservation}
use llmgw.Store.Ledger.{when, share, shares, held_by, held_total, Unique, IsReservation}

pub remove_absent :
    (id : String) (m : List (String × Reservation))
    → lookup String-discrete id m ≡ none
    → remove String-discrete id m ≡ m
unfolding lookup remove
remove_absent id [] h = refl
remove_absent id ((j, res) ∷ m) h = ground (arith, remove_absent id m)

pub held_total-remove :
    (k : QuotaKey) (id : String) (m : List (String × Reservation)) (res : Reservation)
    → Unique m
    → lookup String-discrete id m ≡ some res
    → held_by k res + held_total k (remove String-discrete id m) ≡ held_total k m
unfolding lookup remove held_total
held_total-remove k id [] res u h = cc
held_total-remove k id ((j, r) ∷ m) res u h = elim (String-discrete id j) [
  | yes e ↦ ground (arith, remove_absent j m u.0)
  | no n ↦ ground (arith, held_total-remove k id m res u.1)
]

pub Unique-remove :
    (id : String) (m : List (String × Reservation))
    → Unique m
    → Unique (remove String-discrete id m)
unfolding remove
Unique-remove id [] u = u
Unique-remove id ((j, r) ∷ m) u =
    ground (arith, Unique-remove id m u.1, lookup-remove String-discrete id j m)

pub All-remove :
    (id : String) (m : List (String × Reservation))
    → All (λ p. IsReservation p.1) m
    → All (λ p. IsReservation p.1) (remove String-discrete id m)
unfolding remove
All-remove id [] a = a
All-remove id ((j, r) ∷ m) a =
    elim (String-discrete id j)
      as (λ d.
        All (λ p. IsReservation p.1)
          (ite d (remove String-discrete id m) ((j, r) ∷ remove String-discrete id m))) [
            | yes e ↦ All-remove id m a.1
            | no n ↦ (a.0, All-remove id m a.1)
          ]

pub IsReservation-lookup :
    (id : String) (m : List (String × Reservation)) (res : Reservation)
    → All (λ p. IsReservation p.1) m
    → lookup String-discrete id m ≡ some res
    → IsReservation res
unfolding lookup
IsReservation-lookup id [] res a h = cc
IsReservation-lookup id ((j, r) ∷ m) res a h = elim (String-discrete id j) [
  | yes e ↦
      let same : some r ≡ some res = ground arith in
      subst IsReservation (some-injective r res same) a.0
  | no n ↦ IsReservation-lookup id m res a.1 (ground arith)
]

when_grows :
    (key : Option QuotaKey) (k : QuotaKey) (a b : ℕ)
    → when key k (min max_int64 (a + b)) < max_int64
    → when key k (min max_int64 (a + b)) ≡ when key k a + when key k b
when_grows none k a b h = refl
when_grows (some j) k a b h = ground arith

when_zero : (key : Option QuotaKey) (k : QuotaKey) → when key k 0 ≡ 0
when_zero none k = refl
when_zero (some j) k = ground arith

-- A share grows by what a top-up books, unless it is cut off.
share_grows :
    (k : QuotaKey) (scope : ScopeReservation) (sp sp' tok tok' : ℕ)
    → share k scope 1 (min max_int64 (sp + sp')) (min max_int64 (tok + tok')) < max_int64
    → share k scope 1 (min max_int64 (sp + sp')) (min max_int64 (tok + tok'))
      ≡ share k scope 1 sp tok + share k scope 0 sp' tok'
unfolding share
share_grows k scope sp sp' tok tok' h =
    let spend = when_grows scope.keys.spend_held_key k sp sp' (omega arith) in
    let day = when_grows scope.keys.day_held_key k tok tok' (omega arith) in
    let month = when_grows scope.keys.month_held_key k tok tok' (omega arith) in
    omega (arith, spend, day, month, when_zero scope.keys.active_key k)

pub shares_grow :
    (k : QuotaKey) (scopes : List ScopeReservation) (sp sp' tok tok' : ℕ)
    → shares k scopes 1 (min max_int64 (sp + sp')) (min max_int64 (tok + tok')) < max_int64
    → shares k scopes 1 (min max_int64 (sp + sp')) (min max_int64 (tok + tok'))
      ≡ shares k scopes 1 sp tok + shares k scopes 0 sp' tok'
unfolding shares
shares_grow k [] sp sp' tok tok' h = refl
shares_grow k (scope ∷ scopes) sp sp' tok tok' h = omega (
  arith,
  share_grows k scope sp sp' tok tok' (omega arith),
  shares_grow k scopes sp sp' tok tok' (omega arith),
)
