-- ===== src/Policy/Breaker/Ttl.antt =====
-- The lifetime of an admitted call (policy/attempt.go).
use Prim.Native.Nat.{min}
use llmgw.Base.{
  ℕ, ◌+◌, ◌*◌, ◌/◌, ◌≤◌, ◌<◌, ◌≡◌, ℤ, pos, negsuc, pos_part, ◌+ℤ◌, ◌-ℤ◌, ◌*ℤ◌, ◌/ℤ◌, max_int64,
  IsInt64, arith, ltb_ℤ, if◌then◌else◌, leb_ℤ,
}
use llmgw.Amounts.{zero64, max64}
use llmgw.Policy.Breaker.{thirty_seconds, route_attempt_count, route_attempt_state_ttl}

-- One call and the configured retries, of which at most ten count.
pub route_attempt_count_lem :
    (retries : ℤ)
    → IsInt64 retries
    → route_attempt_count retries ≡ pos (min 10 (pos_part retries) + 1)
unfolding route_attempt_count ◌+ℤ◌
route_attempt_count_lem (pos n) h = ground arith
route_attempt_count_lem (negsuc n) h = ground arith

abbrev pub timeout_or_default : ℤ → ℕ
timeout_or_default t = if leb_ℤ t zero64 then 30_000_000_000 else pos_part t

mul-le_of_le-div : (a b m : ℕ) → 0 < b → a ≤ m / b → a * b ≤ m
mul-le_of_le-div a b m p h = grind arith

lt-mul_of_div-lt : (a b m : ℕ) → 0 < b → m / b < a → m < a * b
lt-mul_of_div-lt a b m p h = grind arith

abbrev pub capped_ttl : ℕ → ℕ → ℕ
capped_ttl t n = min max_int64 (t * n + 30_000_000_000)

-- The retries are at least one for a route that does not retry, and at most eleven.
ttl_of_pos :
    (t n : ℕ)
    → 0 < n
    → n ≤ 11
    → t ≤ max_int64
    → (if ltb_ℤ ((max64 -ℤ thirty_seconds) /ℤ pos n) (pos t)
        then max64
        else pos t *ℤ pos n +ℤ thirty_seconds)
      ≡ pos (capped_ttl t n)
unfolding ◌+ℤ◌ ◌-ℤ◌ ◌*ℤ◌ ◌/ℤ◌
ttl_of_pos t n p q h = ground (
  arith,
  mul-le_of_le-div t n 9_223_372_006_854_775_807,
  lt-mul_of_div-lt t n 9_223_372_006_854_775_807,
)

-- For every int64 timeout and number of retries, `routeAttemptStateTTL` is the timeout (30 s if
-- none is set) times the number of calls, plus 30 seconds, cut off at the largest int64: nothing
-- wraps.
pub route_attempt_state_ttl_lem :
    (timeout retries : ℤ)
    → IsInt64 timeout
    → IsInt64 retries
    → route_attempt_state_ttl timeout retries
      ≡ pos (capped_ttl (timeout_or_default timeout) (min 10 (pos_part retries) + 1))
unfolding route_attempt_state_ttl
route_attempt_state_ttl_lem (pos t) retries h k = rw (route_attempt_count_lem retries k) (
    ground (
      arith,
      ttl_of_pos t (min 10 (pos_part retries) + 1),
      ttl_of_pos 30_000_000_000 (min 10 (pos_part retries) + 1),
    ))
route_attempt_state_ttl_lem (negsuc t) retries h k =
    rw (route_attempt_count_lem retries k)
      (ground (arith, ttl_of_pos 30_000_000_000 (min 10 (pos_part retries) + 1)))
