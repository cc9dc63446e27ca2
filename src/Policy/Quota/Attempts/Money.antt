-- ===== src/Policy/Quota/Attempts/Money.antt =====
-- The amounts of money that a reservation adds and subtracts (policy/quota.go).
use Prim.Native.Nat.{min}
use llmgw.Base.{
  ℕ, ◌+◌, ◌-◌, ◌≤◌, ◌<◌, ◌≡◌, ap, sym, subst, ℤ, pos, negsuc, pos_part, ◌-ℤ◌, max_int64, IsInt64,
  wrap64-IsInt64, sub_ℕ, neg_part, arith, min_ℤ, max_ℤ, ltb_ℤ, ltb, ltb→lt, false, if-holds,
  Bool-cases, inl, inr,
}
use llmgw.Amounts.{zero64, positive_token_total}
use llmgw.Amounts.Laws.{positive_token_total_lem}
use llmgw.Policy.Quota.Credit.{spend_left, spend_left_right}
use llmgw.Policy.Quota.Attempts.{excess, add_excess}

-- Sums that stay below the largest int64 are exact.
total_exact :
    (a b : ℤ)
    → IsInt64 a
    → IsInt64 b
    → pos_part (positive_token_total a b) < max_int64
    → pos_part (positive_token_total a b) ≡ pos_part a + pos_part b
total_exact a b h k l =
    let e : pos_part (positive_token_total a b) ≡ min max_int64 (pos_part a + pos_part b) =
      ap pos_part (positive_token_total_lem a b h k) in
    omega (arith, e, l)

-- What is applied of an amount, beyond the credit, and the credit that remains.
abbrev pub applied : ℤ → ℤ → ℤ
applied a c = max_ℤ (a -ℤ min_ℤ (max_ℤ a zero64) (max_ℤ c zero64)) zero64

abbrev pub remaining : ℤ → ℤ → ℤ
remaining a c = max_ℤ (c -ℤ min_ℤ (max_ℤ a zero64) (max_ℤ c zero64)) zero64

pub small : (z : ℤ) (n : ℕ) → z ≡ pos n → n ≤ max_int64 → IsInt64 z
small z n e h = subst IsInt64 (sym e) h

pub pos_part-bound : (a : ℤ) → IsInt64 a → pos_part a ≤ max_int64
pos_part-bound (pos n) h = h
pos_part-bound (negsuc n) h = omega arith

pub reserve_spend :
    (r c a : ℤ) (m n : ℕ)
    → IsInt64 r
    → IsInt64 c
    → IsInt64 a
    → pos_part r ≡ pos_part c + m + n
    → pos_part (positive_token_total r (applied a c)) < max_int64
    → pos_part (positive_token_total r (applied a c))
      ≡ pos_part (remaining a c) + (pos_part a + m) + n
reserve_spend r c a m n h k l e b =
    let p = ap pos_part (spend_left a c l k) in
    let q = ap pos_part (spend_left_right a c l k) in
    let t =
      total_exact r (applied a c) h
        (small (applied a c) _ (spend_left a c l k) (omega (arith, pos_part-bound a l))) b in
    omega (arith, p, q, t, e)

-- An attempt's money goes back to the credit.
pub release_spend :
    (r c a : ℤ) (m n : ℕ)
    → IsInt64 c
    → IsInt64 a
    → pos_part r ≡ pos_part c + (pos_part a + m) + n
    → pos_part r < max_int64
    → pos_part r ≡ pos_part (positive_token_total c a) + m + n
release_spend r c a m n h k e b =
    let t : pos_part (positive_token_total c a) ≡ min max_int64 (pos_part c + pos_part a) =
      ap pos_part (positive_token_total_lem c a h k) in
    omega (arith, e, b, t)

not_less : (w a : ℕ) → ltb w a ≡ false → a ≤ w
not_less w a h = ground arith

excess_lem : (a w : ℕ) → a ≤ max_int64 → w ≤ max_int64 → excess (pos w) (pos a) ≡ pos (w - a)
unfolding ◌-ℤ◌
excess_lem a w h k = ground arith

less_pos : (a w : ℕ) → a ≤ max_int64 → w ≤ a → pos a -ℤ pos w ≡ pos (a - w)
unfolding ◌-ℤ◌
less_pos a w h k = ground arith

add_excess_lem :
    (c : ℤ) (a w : ℕ)
    → IsInt64 c
    → a ≤ max_int64
    → w ≤ max_int64
    → pos_part (add_excess c (pos a) (pos w)) ≡ min max_int64 (pos_part c + (a - w))
add_excess_lem c a w h k l = elim (Bool-cases (ltb w a)) [
  | inl t ↦
      rw (t, add_excess, less_pos a w k (omega (arith, ltb→lt w a t)))
        (ap pos_part (positive_token_total_lem c (pos (a - w)) h (omega arith)))
  | inr f ↦ rw (f, add_excess) (omega (arith, pos_part-bound c h, not_less w a f))
]

-- What a finished call used beyond its estimate is held too, and what it did not use is credit.
reconcile_spend :
    (r c : ℤ) (a w m n : ℕ)
    → IsInt64 r
    → IsInt64 c
    → a ≤ max_int64
    → w ≤ max_int64
    → pos_part r ≡ pos_part c + (a + m) + n
    → pos_part (positive_token_total r (excess (pos w) (pos a))) < max_int64
    → pos_part (positive_token_total r (excess (pos w) (pos a)))
      ≡ pos_part (add_excess c (pos a) (pos w)) + m + (n + w)
reconcile_spend r c a w m n h k p q e b =
    let z = excess_lem a w p q in
    let t = total_exact r (excess (pos w) (pos a)) h (small _ (w - a) z (omega (arith, q))) b in
    let y = ap pos_part z in let x = add_excess_lem c a w k p q in omega (arith, t, y, x, e, b)

-- A call's estimate is an amount that is not negative.
abbrev pub IsAmount : ℤ → Type 0
IsAmount z = (a : ℕ) × (z ≡ pos a) × (a ≤ max_int64)

pub total-IsInt64 : (a b : ℤ) → IsInt64 a → IsInt64 b → IsInt64 (positive_token_total a b)
total-IsInt64 a b h k = small _ _ (positive_token_total_lem a b h k) (omega arith)

pub amount-IsInt64 : (z : ℤ) → IsAmount z → IsInt64 z
amount-IsInt64 z (a, e, h) = small z a e h

no_excess :
    (a w : ℕ)
    → a ≤ max_int64
    → w ≤ max_int64
    → ltb_ℤ zero64 (excess (pos w) (pos a)) ≡ false
    → w ≤ a
unfolding ◌-ℤ◌
no_excess a w p q f = ground arith

kept_spend :
    (r c : ℤ) (a w m n : ℕ)
    → IsInt64 c
    → a ≤ max_int64
    → w ≤ max_int64
    → pos_part r ≡ pos_part c + (a + m) + n
    → ltb_ℤ zero64 (excess (pos w) (pos a)) ≡ false
    → pos_part r < max_int64
    → pos_part r ≡ pos_part (add_excess c (pos a) (pos w)) + m + (n + w)
kept_spend r c a w m n k p q e f b =
    let z = no_excess a w p q f in let x = add_excess_lem c a w k p q in omega (arith, x, e, b, z)

-- The same for amounts that are not negative; the top-up may be left out if there is no excess.
pub reconcile_amounts :
    (r c a w : ℤ) (m n : ℕ)
    → IsInt64 r
    → IsInt64 c
    → IsAmount a
    → IsAmount w
    → pos_part r ≡ pos_part c + (pos_part a + m) + n
    → pos_part (positive_token_total r (excess w a)) < max_int64
    → pos_part (positive_token_total r (excess w a))
      ≡ pos_part (add_excess c a w) + m + (n + pos_part w)
reconcile_amounts r c a w m n h k (i, p, x) (j, q, y) e b =
    rw (p, q) (reconcile_spend r c i j m n h k x y (rw p at e) (rw (p, q) at b))

pub kept_amounts :
    (r c a w : ℤ) (m n : ℕ)
    → IsInt64 c
    → IsAmount a
    → IsAmount w
    → pos_part r ≡ pos_part c + (pos_part a + m) + n
    → ltb_ℤ zero64 (excess w a) ≡ false
    → pos_part r < max_int64
    → pos_part r ≡ pos_part (add_excess c a w) + m + (n + pos_part w)
kept_amounts r c a w m n k (i, p, x) (j, q, y) e f b =
    rw (p, q) (kept_spend r c i j m n k x y (rw p at e) (rw (p, q) at f) b)

minus-IsInt64 : (a b : ℤ) → IsInt64 (a -ℤ b)
unfolding ◌-ℤ◌
minus-IsInt64 a b = wrap64-IsInt64 (sub_ℕ (pos_part a + neg_part b) (neg_part a + pos_part b))

pub excess-IsInt64 : (a b : ℤ) → IsInt64 (excess a b)
excess-IsInt64 a b =
    if-holds IsInt64 (ltb_ℤ b a) (a -ℤ b) zero64 (λ _. minus-IsInt64 a b) (λ _. omega arith)

pub add_excess-IsInt64 : (c a b : ℤ) → IsInt64 c → IsInt64 (add_excess c a b)
add_excess-IsInt64 c a b h =
    if-holds IsInt64 (ltb_ℤ b a) (positive_token_total c (a -ℤ b)) c
      (λ _. total-IsInt64 c (a -ℤ b) h (minus-IsInt64 a b)) (λ _. h)
