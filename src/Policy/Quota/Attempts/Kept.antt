-- ===== src/Policy/Quota/Attempts/Kept.antt =====
-- What a step on the reservations of a request's calls keeps of the money (policy/quota.go).
use llmgw.Base.{
  ℕ, ◌+◌, ◌<◌, ◌≡◌, subst, pos_part, max_int64, IsInt64, ◌||◌, arith, String, String-discrete, List,
  [], ◌∷◌, Option, none, some, Bool, true, false, if-holds, ite-holds, lookup, All,
}
use llmgw.Store.Usage.{EstimatedUsage, ActualUsage}
use llmgw.Gateway.Errors.{Failure}
use llmgw.Policy.Quota.{consume_reservation_credit, is_overage}
use llmgw.Policy.Quota.Credit.{spend_left, spend_left_right}
use llmgw.Policy.Quota.Attempts.{
  AttemptReservations, add_usage, delete_attempt, reserved_with, released_from, overage_of,
  unused_credit, reconciled_with,
}
use llmgw.Policy.Quota.Attempts.Money.{
  IsAmount, small, pos_part-bound, reserve_spend, release_spend, total-IsInt64, amount-IsInt64,
  reconcile_amounts, kept_amounts, excess-IsInt64, add_excess-IsInt64,
}

-- The money of the calls.
abbrev pub spend_of : EstimatedUsage → ℕ
spend_of u = pos_part u.estimated_spend_micros

abbrev pub spends_of : List (String × EstimatedUsage) → ℕ
spends_of [] = 0
spends_of ((id, u) ∷ attempts) = spend_of u + spends_of attempts

-- With `settled` for the money of the calls that were reconciled.
pub record IsConserved (settled : ℕ) (s : AttemptReservations) : Type 0 where
  pub held : spend_of s.reserve ≡ spend_of s.credit + spends_of s.attempts + settled
  pub reserve_int64 : IsInt64 s.reserve.estimated_spend_micros
  pub credit_int64 : IsInt64 s.credit.estimated_spend_micros
  pub amounts :
      All (λ (p : String × EstimatedUsage). IsAmount p.1.estimated_spend_micros) s.attempts

some_inj : (x e : EstimatedUsage) → some x ≡ some e → x ≡ e
some_inj x e h = cc

-- One entry goes.
delete_attempt-spends :
    (id : String) (m : List (String × EstimatedUsage)) (u : EstimatedUsage)
    → lookup String-discrete id m ≡ some u
    → spends_of m ≡ spend_of u + spends_of (delete_attempt id m)
unfolding lookup
delete_attempt-spends id [] u h = absurd cc
delete_attempt-spends id ((key, v) ∷ m) u h = ground (arith, delete_attempt-spends id m u)

module _ (P : EstimatedUsage → Type 0) where
  delete_attempt-All :
      (id : String) (m : List (String × EstimatedUsage))
      → All (λ (p : String × EstimatedUsage). P p.1) m
      → All (λ (p : String × EstimatedUsage). P p.1) (delete_attempt id m)
  delete_attempt-All id [] h = tt
  delete_attempt-All id ((key, v) ∷ m) (p, h) =
      ite-holds (All (λ (p : String × EstimatedUsage). P p.1)) (String-discrete id key) m
        ((key, v) ∷ delete_attempt id m) (λ _. h) (λ _. (p, delete_attempt-All id m h))

  lookup-All :
      (id : String) (m : List (String × EstimatedUsage)) (u : EstimatedUsage)
      → lookup String-discrete id m ≡ some u
      → All (λ (p : String × EstimatedUsage). P p.1) m
      → P u
  unfolding lookup
  lookup-All id [] u h a = absurd cc
  lookup-All id ((key, v) ∷ m) u h (p, a) =
      ite-holds (λ o. o ≡ some u → P u) (String-discrete id key) (some v)
        (lookup String-discrete id m) (λ _ q. subst P (some_inj v u q) p)
        (λ _ q. lookup-All id m u q a) h

-- The step keeps what is conserved, if what is held stays below the largest int64.
abbrev pub KeptBy : ℕ → AttemptReservations → Type 0
KeptBy settled s = spend_of s.reserve < max_int64 → IsConserved settled s

module _ (n : ℕ) (s : AttemptReservations) (c : IsConserved n s) where
  pub reserved_with-KeptBy :
      (o : Option Failure) (id : String) (delta : EstimatedUsage)
      → IsAmount delta.estimated_spend_micros
      → KeptBy n (reserved_with o id delta (consume_reservation_credit delta s.credit) s).0
  unfolding consume_reservation_credit
  reserved_with-KeptBy (some e) id delta d b = c
  reserved_with-KeptBy none id delta d b =
      let i = amount-IsInt64 _ d in
      record {
        held =
            reserve_spend s.reserve.estimated_spend_micros s.credit.estimated_spend_micros
              delta.estimated_spend_micros (spends_of s.attempts) n c.reserve_int64 c.credit_int64 i
              c.held b;
        reserve_int64 =
            total-IsInt64 _ _ c.reserve_int64
              (small _ _ (spend_left _ _ i c.credit_int64) (omega (arith, pos_part-bound _ i)));
        credit_int64 =
            small _ _ (spend_left_right _ _ i c.credit_int64)
              (omega (arith, pos_part-bound _ c.credit_int64));
        amounts = (d, c.amounts);
      }

  pub released_from-KeptBy :
      (o : Option EstimatedUsage) (id : String)
      → lookup String-discrete id s.attempts ≡ o
      → KeptBy n (released_from o id s)
  released_from-KeptBy none id h b = c
  released_from-KeptBy (some u) id h b =
      let i =
        amount-IsInt64 _
          (lookup-All (λ v. IsAmount v.estimated_spend_micros) id s.attempts u h c.amounts) in
      record {
        held =
            release_spend s.reserve.estimated_spend_micros s.credit.estimated_spend_micros
              u.estimated_spend_micros (spends_of (delete_attempt id s.attempts)) n c.credit_int64 i
              (omega (arith, c.held, delete_attempt-spends id s.attempts u h)) b;
        reserve_int64 = c.reserve_int64;
        credit_int64 = total-IsInt64 _ _ c.credit_int64 i;
        amounts =
            delete_attempt-All (λ v. IsAmount v.estimated_spend_micros) id s.attempts c.amounts;
      }

or_false : (x y : Bool) → (x || y) ≡ false → y ≡ false
or_false true y h = absurd cc
or_false false y h = h

module _ (n : ℕ) (s : AttemptReservations) (c : IsConserved n s) where
  pub reconciled_with-KeptBy :
      (o : Option Failure) (id : String) (u : EstimatedUsage) (actual : ActualUsage)
      → IsAmount actual.spend_micros
      → lookup String-discrete id s.attempts ≡ some u
      → o ≡ none
      → KeptBy (n + pos_part actual.spend_micros) (reconciled_with o id u actual s).0
  reconciled_with-KeptBy (some e) id u actual w h o b = absurd cc
  reconciled_with-KeptBy none id u actual w h o b =
      let a = lookup-All (λ v. IsAmount v.estimated_spend_micros) id s.attempts u h c.amounts in
      let left = delete_attempt id s.attempts in
      let e : spend_of s.reserve ≡ spend_of s.credit + (spend_of u + spends_of left) + n =
        omega (arith, c.held, delete_attempt-spends id s.attempts u h) in
      let over = overage_of u actual in
      let kept =
        delete_attempt-All (λ v. IsAmount v.estimated_spend_micros) id s.attempts c.amounts in
      let i =
        add_excess-IsInt64 s.credit.estimated_spend_micros u.estimated_spend_micros
          actual.spend_micros c.credit_int64 in
      if-holds
        (λ (r : EstimatedUsage).
          KeptBy (n + pos_part actual.spend_micros)
            (record { reserve = r; credit = unused_credit s.credit u actual; attempts = left }))
        (is_overage over) (add_usage s.reserve over) s.reserve
        (λ _ q. record {
          held =
              reconcile_amounts s.reserve.estimated_spend_micros s.credit.estimated_spend_micros
                u.estimated_spend_micros actual.spend_micros (spends_of left) n c.reserve_int64
                c.credit_int64 a w e q;
          reserve_int64 =
              total-IsInt64 _ _ c.reserve_int64
                (excess-IsInt64 actual.spend_micros u.estimated_spend_micros);
          credit_int64 = i;
          amounts = kept;
        })
        (λ f q. record {
          held =
              kept_amounts s.reserve.estimated_spend_micros s.credit.estimated_spend_micros
                u.estimated_spend_micros actual.spend_micros (spends_of left) n c.credit_int64 a w e
                (or_false _ _ f) q;
          reserve_int64 = c.reserve_int64;
          credit_int64 = i;
          amounts = kept;
        })
        b
