-- ===== src/Amounts.antt =====
-- The saturating int64 arithmetic on token counts and money: store/store.go, gateway/usage.go,
-- policy/quota.go and policy/token.go each have their own copy.
pub mod Laws
use llmgw.Base.{
  ℤ, pos, negsuc, ◌+ℤ◌, ◌-ℤ◌, ◌*ℤ◌, ◌/ℤ◌, ltb_ℤ, leb_ℤ, eqb_ℤ, max_int64, Bool, if◌then◌else◌, List,
  [], ◌∷◌, ◌||◌, true, false,
}

abbrev pub zero64 : ℤ
zero64 = pos 0

abbrev pub max64 : ℤ
max64 = pos max_int64

abbrev pub min64 : ℤ
min64 = negsuc max_int64

-- A negative amount counts as zero.
abbrev pub nonneg : ℤ → ℤ
nonneg a = if ltb_ℤ a zero64 then zero64 else a

unfoldable pub saturating_add_nonnegative : ℤ → ℤ → ℤ
saturating_add_nonnegative current delta =
    let c = nonneg current in
    if ltb_ℤ delta zero64
    then if eqb_ℤ delta min64 || leb_ℤ c (zero64 -ℤ delta) then zero64 else c +ℤ delta
    else if ltb_ℤ (max64 -ℤ delta) c
    then max64
    else c +ℤ delta

unfoldable pub saturating_usage_add : ℤ → ℤ → ℤ
saturating_usage_add first second =
    let a = nonneg first in let b = nonneg second in if ltb_ℤ (max64 -ℤ b) a then max64 else a +ℤ b

unfoldable pub positive_token_total : ℤ → ℤ → ℤ
positive_token_total first second =
    let a = nonneg first in let b = nonneg second in if ltb_ℤ (max64 -ℤ b) a then max64 else a +ℤ b

unfoldable pub saturating_add : ℤ → ℤ → ℤ
saturating_add first second =
    let a = nonneg first in let b = nonneg second in if ltb_ℤ (max64 -ℤ b) a then max64 else a +ℤ b

unfoldable pub saturating_multiply : ℤ → ℤ → ℤ
saturating_multiply first second =
    if leb_ℤ first zero64 || leb_ℤ second zero64
    then zero64
    else if ltb_ℤ (max64 /ℤ second) first
    then max64
    else first *ℤ second

unfoldable pub saturating_token_margin : ℤ → ℤ → ℤ → ℤ
saturating_token_margin value numerator denominator =
    if leb_ℤ value zero64 || (leb_ℤ numerator zero64 || leb_ℤ denominator zero64)
    then value
    else if ltb_ℤ ((max64 -ℤ (denominator -ℤ pos 1)) /ℤ numerator) value
    then max64
    else (value *ℤ numerator +ℤ denominator -ℤ pos 1) /ℤ denominator

-- The loop of `exceedsLimit`: is the total of the values above the limit?
unfoldable pub exceeds_from : ℤ → ℤ → List ℤ → Bool
exceeds_from limit total [] = false
exceeds_from limit total (value ∷ values) =
    let v = nonneg value in
    let rest = exceeds_from limit (total +ℤ v) values in
    if ltb_ℤ (limit -ℤ total) v then true else rest

unfoldable pub exceeds_limit : ℤ → List ℤ → Bool
unfolding exceeds_from
exceeds_limit limit values = if leb_ℤ limit zero64 then false else exceeds_from limit zero64 values
