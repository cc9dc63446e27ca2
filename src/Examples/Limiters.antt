-- ===== src/Examples/Limiters.antt =====
-- A limiter of two calls (policy/attempt.go).
use llmgw.Base.{ℕ, ◌<◌, ◌≤◌, ◌≡◌, ◌≢◌, refl, pos, ◌+ℤ◌, some, true, ℕ_discrete, arith}
use llmgw.Policy.Limiter.{
  Limiters, no_limiters, store_new, acquire, acquire_at, Reachable, starts, steps, stores, acquires,
}
use llmgw.Policy.Limiter.Sharing.{acquire-shares}

abbrev one_limiter : Limiters
one_limiter = store_new no_limiters

-- One call is in flight.
abbrev one_call : Limiters
one_call = acquire_at 0 (pos 2) 5 one_limiter

one_call-Reachable : Reachable one_call
unfolding store_new
one_call-Reachable =
    steps one_limiter one_call (steps no_limiters one_limiter starts (stores no_limiters refl))
      (acquires one_limiter 0 (pos 2) 5 (omega arith) (omega arith))

one_call-made : 0 < one_call.made
unfolding store_new acquire_at
one_call-made = omega arith

one_call-acquires : (acquire (pos 2) 6 (one_call.limiters 0)).1 ≡ true
unfolding store_new acquire_at acquire ℕ_discrete ◌+ℤ◌
one_call-acquires = refl

acquire-shares_example :
    (one_call.stored ≡ some 0)
    × ((j : ℕ) → j ≢ 0 → (acquire_at 0 (pos 2) 6 one_call).in_flight j ≡ 0)
    × ((acquire_at 0 (pos 2) 6 one_call).in_flight 0 ≤ 2)
acquire-shares_example =
    acquire-shares one_call 0 (pos 2) 6 one_call-Reachable one_call-made (omega arith)
      one_call-acquires
