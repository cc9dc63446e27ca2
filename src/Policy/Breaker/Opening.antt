-- ===== src/Policy/Breaker/Opening.antt =====
-- When a circuit opens (policy/attempt.go): after as many failures in a row as the route allows.
use llmgw.Base.{
  ℕ, suc, ◌+◌, ◌≤◌, ◌<◌, ◌≡◌, refl, ap, ◌∙◌, ℤ, pos, ◌+ℤ◌, String, List, [], ◌∷◌, length, true,
  arith, max_int64, leb,
}
use llmgw.Policy.Breaker.{
  BreakerState, Breaker, state_of, fail_attempt, failed_state, allow_attempt,
}
use llmgw.Policy.Breaker.Evidence.{written, state_of-fail_attempt, started_or_now_lem}

-- Failures of one circuit in a row, each with its call's admission and its own time.
unfoldable pub fail_all : String → ℤ → ℤ → List (ℕ × ℕ) → Breaker → Breaker
fail_all key limit cooldown [] b = b
fail_all key limit cooldown ((started, now) ∷ outcomes) b =
    fail_all key limit cooldown outcomes (fail_attempt key limit cooldown started now b)

-- Each outcome is no stale one, and comes while its circuit is closed and retained.
abbrev pub AreFresh : BreakerState → List (ℕ × ℕ) → Type 0
AreFresh st [] = Unit
AreFresh st ((started, now) ∷ outcomes) =
    (0 < started)
    × (st.last_success < started)
    × (st.open_until ≤ now)
    × (now < st.retain_until)
    × AreFresh st outcomes

-- What a failure below the threshold leaves.
record IsCounting (st new : BreakerState) (n : ℕ) : Type 0 where
  failures : new.failures ≡ pos n
  success : new.last_success ≡ st.last_success
  until : new.open_until ≡ st.open_until
  retain : new.retain_until ≡ st.retain_until

failed-IsCounting :
    (n limit : ℕ) (cooldown : ℤ) (started now : ℕ) (st : BreakerState)
    → suc n < limit
    → limit ≤ max_int64
    → st.failures ≡ pos n
    → st.last_success < started
    → st.open_until ≤ now
    → IsCounting st (written (failed_state (pos limit) cooldown started now st) st) (suc n)
unfolding failed_state ◌+ℤ◌
failed-IsCounting n limit cooldown started now st p q e fresh closed = record {
  failures = ground arith;
  success = ground arith;
  until = ground arith;
  retain = ground arith;
}

failed-opens :
    (n limit cooldown started now : ℕ) (st : BreakerState)
    → suc n ≡ limit
    → limit ≤ max_int64
    → 0 < cooldown
    → st.failures ≡ pos n
    → st.last_success < started
    → st.open_until ≤ now
    → (written (failed_state (pos limit) (pos cooldown) started now st) st).open_until
      ≡ now + cooldown
unfolding failed_state ◌+ℤ◌
failed-opens n limit cooldown started now st p q c e fresh closed = ground arith

fail_attempt-IsCounting :
    (key : String) (n limit : ℕ) (cooldown : ℤ) (started now : ℕ) (b : Breaker)
    → suc n < limit
    → limit ≤ max_int64
    → (state_of b key).failures ≡ pos n
    → AreFresh (state_of b key) ((started, now) ∷ [])
    → IsCounting
        (state_of b key)
        (state_of (fail_attempt key (pos limit) cooldown started now b) key)
        (suc n)
fail_attempt-IsCounting key n limit cooldown started now b p q e fresh =
    rw
      (
        state_of-fail_attempt key (pos limit) cooldown started now b fresh.3,
        started_or_now_lem started now fresh.0,
      )
      (failed-IsCounting n limit cooldown started now (state_of b key) p q e fresh.1 fresh.2)

AreFresh-of :
    (st new : BreakerState) (n : ℕ) (outcomes : List (ℕ × ℕ))
    → IsCounting st new n
    → AreFresh st outcomes
    → AreFresh new outcomes
AreFresh-of st new n [] c h = tt
AreFresh-of st new n ((started, now) ∷ outcomes) c h =
    (h.0, rw c.success h.1, rw c.until h.2, rw c.retain h.3, AreFresh-of st new n outcomes c h.4)

fail_all-IsCounting :
    (key : String) (n limit : ℕ) (cooldown : ℤ) (outcomes : List (ℕ × ℕ)) (b : Breaker)
    → n + length outcomes < limit
    → limit ≤ max_int64
    → (state_of b key).failures ≡ pos n
    → AreFresh (state_of b key) outcomes
    → IsCounting
        (state_of b key)
        (state_of (fail_all key (pos limit) cooldown outcomes b) key)
        (n + length outcomes)
unfolding fail_all
fail_all-IsCounting key n limit cooldown [] b p q e fresh = record {
  failures = ground (arith, e);
  success = refl;
  until = refl;
  retain = refl;
}
fail_all-IsCounting key n limit cooldown ((started, now) ∷ outcomes) b p q e fresh =
    let next = fail_attempt key (pos limit) cooldown started now b in
    let first : IsCounting (state_of b key) (state_of next key) (suc n) =
      fail_attempt-IsCounting key n limit cooldown started now b (omega arith) q e
        (fresh.0, fresh.1, fresh.2, fresh.3, tt) in
    let rest : IsCounting (state_of next key)
        (state_of (fail_all key (pos limit) cooldown outcomes next) key) (suc n + length outcomes) =
      fail_all-IsCounting key (suc n) limit cooldown outcomes next (omega arith) q first.failures
        (AreFresh-of (state_of b key) (state_of next key) (suc n) outcomes first fresh.4) in
    record {
      failures = rest.failures ∙ ap pos (omega arith);
      success = rest.success ∙ first.success;
      until = rest.until ∙ first.until;
      retain = rest.retain ∙ first.retain;
    }

-- From no counted failure, `limit` failures in a row (each fresh: newer than the last success, with
-- the circuit closed and retained) open the circuit and not one failure less: with one failure
-- less the next call is admitted; with all of them, calls are refused until the cooldown has
-- passed since the last one, and admitted from then on.
pub fail_all-opens :
    (key : String) (limit cooldown : ℕ) (outcomes : List (ℕ × ℕ)) (started now : ℕ) (ttl : ℤ)
    (b : Breaker)
    → suc (length outcomes) ≡ limit
    → limit ≤ max_int64
    → 0 < cooldown
    → (state_of b key).failures ≡ pos 0
    → AreFresh (state_of b key) outcomes
    → AreFresh (state_of b key) ((started, now) ∷ [])
    → (allow_attempt key ttl now (fail_all key (pos limit) (pos cooldown) outcomes b)).1 ≡ true
      × ((later : ℕ)
          → (allow_attempt key ttl later (
              fail_attempt key
                (pos limit)
                (pos cooldown)
                started
                now
                (fail_all key (pos limit) (pos cooldown) outcomes b))).1
            ≡ leb (now + cooldown) later)
unfolding allow_attempt
fail_all-opens key limit cooldown outcomes started now ttl b p q c e fresh last =
    let counted = fail_all key (pos limit) (pos cooldown) outcomes b in
    let all : IsCounting (state_of b key) (state_of counted key) (0 + length outcomes) =
      fail_all-IsCounting key 0 limit (pos cooldown) outcomes b (omega arith) q e fresh in
    let final : AreFresh (state_of counted key) ((started, now) ∷ []) =
      AreFresh-of (state_of b key) (state_of counted key) (0 + length outcomes)
        ((started, now) ∷ []) all last in
    let opened : (state_of (fail_attempt key (pos limit) (pos cooldown) started now counted)
          key).open_until
        ≡ now + cooldown =
      rw
        (
          state_of-fail_attempt key (pos limit) (pos cooldown) started now counted final.3,
          started_or_now_lem started now final.0,
        )
        (failed-opens (0 + length outcomes) limit cooldown started now (state_of counted key)
          (omega arith) q c all.failures final.1 final.2) in
    (ground (arith, final.2), λ later. rw opened (ground arith))
