-- ===== src/Examples/Numbers.antt =====
-- The int64 arithmetic at amounts that saturate.
use Prim.Native.Nat.{min}
use llmgw.Base.{◌+◌, ◌-◌, ◌≡◌, pos, negsuc, max_int64, [], ◌∷◌, ltb, arith}
use llmgw.Amounts.{saturating_add_nonnegative, exceeds_limit}
use llmgw.Amounts.Laws.{saturating_add_nonnegative_lem, exceeds_limit_lem, total}
use llmgw.Policy.Breaker.{route_attempt_state_ttl}
use llmgw.Policy.Breaker.Ttl.{route_attempt_state_ttl_lem, timeout_or_default, capped_ttl}

saturating_add_nonnegative_example :
    saturating_add_nonnegative (pos 9_223_372_036_854_775_800) (pos 100)
    ≡ pos (min max_int64 (9_223_372_036_854_775_800 + 100 - 0))
saturating_add_nonnegative_example =
    saturating_add_nonnegative_lem (pos 9_223_372_036_854_775_800) (pos 100) (omega arith)
      (omega arith)

exceeds_limit_example :
    exceeds_limit (pos 1000) (pos 600 ∷ negsuc 5 ∷ pos 401 ∷ [])
    ≡ ltb 1000 (total (pos 600 ∷ negsuc 5 ∷ pos 401 ∷ []))
exceeds_limit_example =
    exceeds_limit_lem 1000 (pos 600 ∷ negsuc 5 ∷ pos 401 ∷ []) (omega arith) (omega arith)
      (omega arith, (omega arith, (omega arith, tt)))

route_attempt_state_ttl_example :
    route_attempt_state_ttl (pos 60_000_000_000) (pos 2)
    ≡ pos (capped_ttl (timeout_or_default (pos 60_000_000_000)) (min 10 2 + 1))
route_attempt_state_ttl_example =
    route_attempt_state_ttl_lem (pos 60_000_000_000) (pos 2) (omega arith) (omega arith)
