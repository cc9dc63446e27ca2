-- ===== src/Policy/Breaker/Evidence.antt =====
-- The order of the outcomes that a circuit counts (policy/attempt.go): an outcome of an older call
-- does not undo that of a newer one.
use llmgw.Base.{
  ℕ, ◌≤◌, ◌<◌, ◌≡◌, refl, ◌∙◌, ℤ, String, Option, none, some, Option-cases, inl, inr, arith,
}
use llmgw.Policy.Breaker.{
  BreakerState, Breaker, state_of, fail_attempt, success_attempt, failed_state, succeeded_state,
  started_or_now, prune_states,
}
use llmgw.Policy.Breaker.Retention.{state_of-prune_states, state_of-put_state}

abbrev pub written : Option BreakerState → BreakerState → BreakerState
written none st = st
written (some new) st = new

-- A retained circuit takes the outcome of its own state.
pub state_of-fail_attempt :
    (key : String) (limit cooldown : ℤ) (started now : ℕ) (b : Breaker)
    → now < (state_of b key).retain_until
    → state_of (fail_attempt key limit cooldown started now b) key
      ≡ written
          (failed_state limit cooldown (started_or_now started now) now (state_of b key))
          (state_of b key)
unfolding fail_attempt
state_of-fail_attempt key limit cooldown started now b h =
    let kept = state_of-prune_states key now b h in
    rw kept
      (elim (Option-cases
        (failed_state limit cooldown (started_or_now started now) now (state_of b key))) [
          | inl e ↦ rw e kept
          | inr (st, e) ↦ rw (e, state_of-put_state key key st (prune_states now b)) (ground arith)
        ])

pub state_of-success_attempt :
    (key : String) (started now : ℕ) (b : Breaker)
    → now < (state_of b key).retain_until
    → state_of (success_attempt key started now b) key
      ≡ written (succeeded_state (started_or_now started now) (state_of b key)) (state_of b key)
unfolding success_attempt
state_of-success_attempt key started now b h =
    let kept = state_of-prune_states key now b h in
    rw kept (elim (Option-cases (succeeded_state (started_or_now started now) (state_of b key))) [
      | inl e ↦ rw e kept
      | inr (st, e) ↦ rw (e, state_of-put_state key key st (prune_states now b)) (ground arith)
    ])

failed-stale :
    (limit cooldown : ℤ) (failed_at now started : ℕ) (st : BreakerState)
    → st.last_success < failed_at
    → started ≤ failed_at
    → succeeded_state started (written (failed_state limit cooldown failed_at now st) st) ≡ none
unfolding succeeded_state failed_state
failed-stale limit cooldown failed_at now started st h k = ground arith

failed-retain :
    (limit cooldown : ℤ) (failed_at now : ℕ) (st : BreakerState)
    → (written (failed_state limit cooldown failed_at now st) st).retain_until ≡ st.retain_until
unfolding failed_state
failed-retain limit cooldown failed_at now st = ground arith

succeeded-stale :
    (limit cooldown : ℤ) (succeeded_at now started : ℕ) (st : BreakerState)
    → st.last_failure < succeeded_at
    → started ≤ succeeded_at
    → failed_state limit cooldown started now (written (succeeded_state succeeded_at st) st) ≡ none
unfolding succeeded_state failed_state
succeeded-stale limit cooldown succeeded_at now started st h k = ground arith

succeeded-retain :
    (succeeded_at : ℕ) (st : BreakerState)
    → (written (succeeded_state succeeded_at st) st).retain_until ≡ st.retain_until
unfolding succeeded_state
succeeded-retain succeeded_at st = ground arith

pub started_or_now_lem : (started now : ℕ) → 0 < started → started_or_now started now ≡ started
started_or_now_lem started now h = ground arith

-- While the circuit is retained, a success of a call admitted no later than a failure that was
-- counted changes nothing: neither the failures nor the open circuit.
pub stale_success :
    (key : String) (limit cooldown : ℤ) (failed_at now started later : ℕ) (b : Breaker)
    → now < (state_of b key).retain_until
    → later < (state_of b key).retain_until
    → (state_of b key).last_success < failed_at
    → 0 < started
    → started ≤ failed_at
    → state_of
        (success_attempt key started later (fail_attempt key limit cooldown failed_at now b))
        key
      ≡ state_of (fail_attempt key limit cooldown failed_at now b) key
stale_success key limit cooldown failed_at now started later b h k fresh p q =
    let st = state_of b key in
    let after = fail_attempt key limit cooldown failed_at now b in
    let positive : 0 < failed_at = omega arith in
    let reads : state_of after key ≡ written (failed_state limit cooldown failed_at now st) st =
      rw (started_or_now_lem failed_at now positive) at
        (state_of-fail_attempt key limit cooldown failed_at now b h) in
    let retained : later < (state_of after key).retain_until =
      rw (reads, failed-retain limit cooldown failed_at now st) k in
    state_of-success_attempt key started later after retained
    ∙ (rw
        (
          started_or_now_lem started later p,
          reads,
          failed-stale limit cooldown failed_at now started st fresh q,
        )
        refl)

-- While the circuit is retained, a failure of a call admitted no later than a success that was
-- counted changes nothing: it neither counts nor opens the circuit.
pub stale_failure :
    (key : String) (limit cooldown : ℤ) (succeeded_at now started later : ℕ) (b : Breaker)
    → now < (state_of b key).retain_until
    → later < (state_of b key).retain_until
    → (state_of b key).last_failure < succeeded_at
    → 0 < started
    → started ≤ succeeded_at
    → state_of
        (fail_attempt key limit cooldown started later (success_attempt key succeeded_at now b))
        key
      ≡ state_of (success_attempt key succeeded_at now b) key
stale_failure key limit cooldown succeeded_at now started later b h k fresh p q =
    let st = state_of b key in
    let after = success_attempt key succeeded_at now b in
    let positive : 0 < succeeded_at = omega arith in
    let reads : state_of after key ≡ written (succeeded_state succeeded_at st) st =
      rw (started_or_now_lem succeeded_at now positive) at
        (state_of-success_attempt key succeeded_at now b h) in
    let retained : later < (state_of after key).retain_until =
      rw (reads, succeeded-retain succeeded_at st) k in
    state_of-fail_attempt key limit cooldown started later after retained
    ∙ (rw
        (
          started_or_now_lem started later p,
          reads,
          succeeded-stale limit cooldown succeeded_at later started st fresh q,
        )
        refl)
