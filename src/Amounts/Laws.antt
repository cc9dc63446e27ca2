-- ===== src/Amounts/Laws.antt =====
-- What the saturating operations compute, over the unbounded numbers.
use Prim.Native.Nat.{min}
use llmgw.Base.{
  ℕ, zero, suc, ◌+◌, ◌-◌, ◌*◌, ◌/◌, ◌≤◌, ◌<◌, ◌≡◌, ℤ, pos, negsuc, ◌+ℤ◌, ◌-ℤ◌, ◌*ℤ◌, ◌/ℤ◌, pos_part,
  neg_part, max_int64, IsInt64, arith, List, [], ◌∷◌, ltb,
}
use llmgw.Amounts.{
  saturating_add_nonnegative, saturating_usage_add, positive_token_total, saturating_add,
  saturating_multiply, exceeds_from, exceeds_limit,
}

-- The sum of the nonnegative parts, cut off at the largest int64.
abbrev pub capped_sum : ℤ → ℤ → ℤ
capped_sum a b = pos (min max_int64 (pos_part a + pos_part b))

-- `saturatingAddNonnegative` on every two int64 values: the total of the nonnegative part of the
-- current value and the delta, cut off at 0 below and at the largest int64 above.
pub saturating_add_nonnegative_lem :
    (c d : ℤ)
    → IsInt64 c
    → IsInt64 d
    → saturating_add_nonnegative c d ≡ pos (min max_int64 (pos_part c + pos_part d - neg_part d))
unfolding saturating_add_nonnegative ◌+ℤ◌ ◌-ℤ◌
saturating_add_nonnegative_lem (pos c) (pos d) h k = ground arith
saturating_add_nonnegative_lem (pos c) (negsuc d) h k = ground arith
saturating_add_nonnegative_lem (negsuc c) (pos d) h k = ground arith
saturating_add_nonnegative_lem (negsuc c) (negsuc d) h k = ground arith

pub saturating_usage_add_lem :
    (a b : ℤ) → IsInt64 a → IsInt64 b → saturating_usage_add a b ≡ capped_sum a b
unfolding saturating_usage_add ◌+ℤ◌ ◌-ℤ◌
saturating_usage_add_lem (pos c) (pos d) h k = ground arith
saturating_usage_add_lem (pos c) (negsuc d) h k = ground arith
saturating_usage_add_lem (negsuc c) (pos d) h k = ground arith
saturating_usage_add_lem (negsuc c) (negsuc d) h k = ground arith

pub positive_token_total_lem :
    (a b : ℤ) → IsInt64 a → IsInt64 b → positive_token_total a b ≡ capped_sum a b
unfolding positive_token_total ◌+ℤ◌ ◌-ℤ◌
positive_token_total_lem (pos c) (pos d) h k = ground arith
positive_token_total_lem (pos c) (negsuc d) h k = ground arith
positive_token_total_lem (negsuc c) (pos d) h k = ground arith
positive_token_total_lem (negsuc c) (negsuc d) h k = ground arith

pub saturating_add_lem : (a b : ℤ) → IsInt64 a → IsInt64 b → saturating_add a b ≡ capped_sum a b
unfolding saturating_add ◌+ℤ◌ ◌-ℤ◌
saturating_add_lem (pos c) (pos d) h k = ground arith
saturating_add_lem (pos c) (negsuc d) h k = ground arith
saturating_add_lem (negsuc c) (pos d) h k = ground arith
saturating_add_lem (negsuc c) (negsuc d) h k = ground arith

mul-le_of_le-div : (a b m : ℕ) → 0 < b → a ≤ m / b → a * b ≤ m
mul-le_of_le-div a b m p h = grind arith

lt-mul_of_div-lt : (a b m : ℕ) → 0 < b → m / b < a → m < a * b
lt-mul_of_div-lt a b m p h = grind arith

-- `saturatingMultiply` on every two int64 values: the product of their nonnegative parts, cut off at
-- the largest int64; nothing wraps.
pub saturating_multiply_lem :
    (a b : ℤ)
    → IsInt64 a
    → IsInt64 b
    → saturating_multiply a b ≡ pos (min max_int64 (pos_part a * pos_part b))
unfolding saturating_multiply ◌*ℤ◌ ◌/ℤ◌
saturating_multiply_lem (pos zero) b h k = ground arith
saturating_multiply_lem (pos (suc a)) (pos zero) h k = ground arith
saturating_multiply_lem (pos (suc a)) (pos (suc b)) h k =
    ground (
      arith,
      mul-le_of_le-div (suc a) (suc b) max_int64,
      lt-mul_of_div-lt (suc a) (suc b) max_int64,
    )
saturating_multiply_lem (pos (suc a)) (negsuc b) h k = ground arith
saturating_multiply_lem (negsuc a) b h k = ground arith

abbrev pub total : List ℤ → ℕ
total [] = 0
total (v ∷ vs) = pos_part v + total vs

abbrev pub AllInt64 : List ℤ → Type 0
AllInt64 [] = Unit
AllInt64 (v ∷ vs) = IsInt64 v × AllInt64 vs

exceeds_from_lem :
    (limit t : ℕ) (vs : List ℤ)
    → limit ≤ max_int64
    → t ≤ limit
    → AllInt64 vs
    → exceeds_from (pos limit) (pos t) vs ≡ ltb limit (t + total vs)
unfolding exceeds_from ◌+ℤ◌ ◌-ℤ◌
exceeds_from_lem limit t [] h k a = ground arith
exceeds_from_lem limit t (pos v ∷ vs) h k a = ground (arith, exceeds_from_lem limit (t + v) vs)
exceeds_from_lem limit t (negsuc v ∷ vs) h k a = ground (arith, exceeds_from_lem limit t vs)

-- For a positive limit, `exceedsLimit` is true exactly when the exact sum of the nonnegative
-- parts of the values is above the limit; no partial sum wraps.
pub exceeds_limit_lem :
    (limit : ℕ) (vs : List ℤ)
    → 0 < limit
    → limit ≤ max_int64
    → AllInt64 vs
    → exceeds_limit (pos limit) vs ≡ ltb limit (total vs)
unfolding exceeds_limit
exceeds_limit_lem limit vs p h a = ground (arith, exceeds_from_lem limit 0 vs)
