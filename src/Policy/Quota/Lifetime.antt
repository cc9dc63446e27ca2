-- ===== src/Policy/Quota/Lifetime.antt =====
-- How long a reservation is kept (policy/quota.go).
use Prim.Native.Nat.{min, max}
use llmgw.Base.{
  ℕ, ◌+◌, ◌-◌, ◌*◌, ◌/◌, ◌≤◌, ◌<◌, ◌≡◌, ◌∙◌, ap, ℤ, pos, negsuc, pos_part, ◌+ℤ◌, ◌-ℤ◌, ◌*ℤ◌, ◌/ℤ◌,
  max_int64, IsInt64, arith, List, [], ◌∷◌, if◌then◌else◌, ltb_ℤ, ltb, Bool-cases, inl, inr, true,
  false,
}
use llmgw.Amounts.{max64}
use llmgw.Gateway.Route.{Route}
use llmgw.Policy.Breaker.Ttl.{route_attempt_count_lem, timeout_or_default}
use llmgw.Policy.Quota.{required_ttl, quota_reservation_ttl, timeout_of}

-- The most time that the calls of a route take: its timeout for one call and each retry.
abbrev pub route_time : Route → ℕ
route_time route = timeout_or_default route.timeout * (min 10 (pos_part route.retries) + 1)

abbrev pub time_of_all : List Route → ℕ
time_of_all [] = 0
time_of_all (route ∷ routes) = route_time route + time_of_all routes

pub record IsTyped (route : Route) : Type 0 where
  pub timeout : IsInt64 route.timeout
  pub retries : IsInt64 route.retries

abbrev pub AreTyped : List Route → Type 0
AreTyped [] = Unit
AreTyped (route ∷ routes) = IsTyped route × AreTyped routes

timeout_of_lem : (route : Route) → timeout_of route ≡ pos (timeout_or_default route.timeout)
timeout_of_lem route = ground arith

timeout_or_default-le : (t : ℤ) → IsInt64 t → timeout_or_default t ≤ max_int64
timeout_or_default-le (pos t) h = ground arith
timeout_or_default-le (negsuc t) h = ground arith

mul-le_of_le-div : (a b m : ℕ) → 0 < b → a ≤ m / b → a * b ≤ m
mul-le_of_le-div a b m p h = grind arith

lt-mul_of_div-lt : (a b m : ℕ) → 0 < b → m / b < a → m < a * b
lt-mul_of_div-lt a b m p h = grind arith

-- One round of the loop, on a sum r, a timeout t and n calls.
round_lem :
    (r t n : ℕ) (rest : ℤ)
    → 0 < n
    → n ≤ 11
    → t ≤ max_int64
    → r ≤ max_int64
    → (if ltb_ℤ ((max64 -ℤ pos r) /ℤ pos n) (pos t) then max64 else rest)
      ≡ (if ltb (max_int64 - r) (t * n) then max64 else rest)
unfolding ◌-ℤ◌ ◌/ℤ◌
round_lem r t n rest p q h k =
    ground (arith, mul-le_of_le-div t n (max_int64 - r), lt-mul_of_div-lt t n (max_int64 - r))

sum_lem :
    (r t n : ℕ) → t * n ≤ max_int64 - r → r ≤ max_int64 → pos r +ℤ pos t *ℤ pos n ≡ pos (r + t * n)
unfolding ◌+ℤ◌ ◌*ℤ◌
sum_lem r t n h k = ground arith

not-ltb→le : (a b : ℕ) → ltb a b ≡ false → b ≤ a
not-ltb→le a b h = ground arith

capped_above :
    (r p s : ℕ)
    → ltb (max_int64 - r) p ≡ true
    → r ≤ max_int64
    → max_int64 ≡ min max_int64 (r + (p + s))
capped_above r p s h k = ground arith

sum_le : (r p : ℕ) → p ≤ max_int64 - r → r ≤ max_int64 → r + p ≤ max_int64
sum_le r p h k = omega arith

required_ttl_lem :
    (r : ℕ) (routes : List Route)
    → r ≤ max_int64
    → AreTyped routes
    → required_ttl (pos r) routes ≡ pos (min max_int64 (r + time_of_all routes))
unfolding required_ttl
required_ttl_lem r [] h k = ap pos (ground arith)
required_ttl_lem r (route ∷ routes) h k =
    let t = timeout_or_default route.timeout in
    let n = min 10 (pos_part route.retries) + 1 in
    rw (route_attempt_count_lem route.retries k.0.retries, timeout_of_lem route)
      (round_lem r t n (required_ttl (pos r +ℤ pos t *ℤ pos n) routes) (ground arith) (ground arith)
          (timeout_or_default-le route.timeout k.0.timeout) h
        ∙ (elim (Bool-cases (ltb (max_int64 - r) (t * n))) [
          | inl p ↦ rw p (ap pos (capped_above r (t * n) (time_of_all routes) p h))
          | inr p ↦
              rw (p, sum_lem r t n (not-ltb→le (max_int64 - r) (t * n) p) h)
                (required_ttl_lem (r + t * n) routes
                    (sum_le r (t * n) (not-ltb→le (max_int64 - r) (t * n) p) h) k.1
                  ∙ ap (λ m. pos (min max_int64 m)) (omega arith))
        ]))

-- For int64 timeouts and retries, a reservation is kept for the configured time, or if that is
-- shorter for ten seconds and the time that all calls of all candidate routes may take (a timeout
-- that is not set is 30 s, and ten retries count at most), cut off at the largest int64.
pub quota_reservation_ttl_lem :
    (routes : List Route) (configured : ℤ)
    → AreTyped routes
    → IsInt64 configured
    → quota_reservation_ttl routes configured
      ≡ pos (max (pos_part configured) (min max_int64 (10_000_000_000 + time_of_all routes)))
unfolding quota_reservation_ttl
quota_reservation_ttl_lem routes (pos c) h k =
    rw (required_ttl_lem 10_000_000_000 routes (omega arith) h) (ground arith)
quota_reservation_ttl_lem routes (negsuc c) h k =
    rw (required_ttl_lem 10_000_000_000 routes (omega arith) h) (ground arith)
