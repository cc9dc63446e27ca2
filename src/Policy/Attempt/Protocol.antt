-- ===== src/Policy/Attempt/Protocol.antt =====
-- The retry loop and the phases of an attempt (policy/attempt.go, WrapAttempt).
use llmgw.Base.{
  ℕ, zero, suc, ◌+◌, ◌≡◌, refl, inl, inr, ℤ, pos, negsuc, List, [], ◌∷◌, ◌++◌, Option, none, some,
  Bool, ◌⊎◌, subst, ◌≢◌, true, false, not, ◌||◌, if◌then◌else◌, pos_part, ◌+ℤ◌, arith,
}
use llmgw.Gateway.Errors.{Failure, ContextError}
use llmgw.Gateway.Dispatch.{Invocation, returned, failed_with}
use llmgw.Policy.Breaker.{route_attempt_count}
use llmgw.Policy.Attempt.{
  circuit_open, Allowance, allowed, refused, unavailable, Event, called, reservation_released,
  breaker_failed, Outcome, answered, failed, given_up, Turn, ends, goes_on, retryable,
  circuit_failure, allowed_turn, deferred, is_none_left, turns, retry_from, slotted, wrap_attempt,
}
use llmgw.Policy.Attempt.Phases.{
  Phase, idle, holding, turned_down, closed, handed, LoopEnds, LoopEnds-weaken, Follows, abandons,
  stays, acquires, calls, unrated, unbilled, succeeds, fails, hands, releases, Follows-append,
  AttemptFollows,
}
use Prim.Native.Nat.{min}

pub Turn-cases :
    (t : Turn)
    → ((es : List Event) × (o : Outcome) × (t ≡ ends es o)) ⊎ ((es : List Event) × (t ≡ goes_on es))
Turn-cases (ends es o) = inl (es, o, refl)
Turn-cases (goes_on es) = inr (es, refl)

pub true-false : true ≢ false
true-false = λ h. cc

pub turns_lem :
    (retries : ℤ) → turns (route_attempt_count retries) ≡ suc (min 10 (pos_part retries))
unfolding route_attempt_count ◌+ℤ◌
turns_lem (pos n) = ground arith
turns_lem (negsuc n) = ground arith

module _ (allowances : ℕ → Allowance) (rates : ℕ → Option Failure) where
  -- After a failed call.
  abbrev Failing : ℕ → Phase → List Event → Type 0
  Failing k p es = (u : Option ℕ) × (b : Bool) × Follows allowances rates p es (holding (suc k) u b)

  after_failure-Follows :
      (k t : ℕ) (unbillable circuit : Bool)
      → Failing k (holding (suc k) (some t) true) (
          (if unbillable then reservation_released k ∷ [] else [])
          ++ (if circuit then breaker_failed t ∷ [] else []))
  after_failure-Follows k t true true =
      (none, false, unbilled k t _ _ (fails (suc k) t false _ _ (stays _)))
  after_failure-Follows k t true false = (some t, false, unbilled k t _ _ (stays _))
  after_failure-Follows k t false true = (none, false, fails (suc k) t true _ _ (stays _))
  after_failure-Follows k t false false = (some t, true, stays _)

  -- What a turn does keeps the protocol.
  abbrev TurnFollows : Bool → ℕ → Option ℕ → Bool → Turn → Type 0
  TurnFollows is_last k u b (ends events outcome) =
      (q : Phase) × Follows allowances rates (holding k u b) events q × LoopEnds (suc k) outcome q
  TurnFollows is_last k u b (goes_on events) = (is_last ≡ false) × Failing k (holding k u b) events

  -- The slots are held as they were.
  unchanged :
      (k : ℕ) (u : Option ℕ) (b : Bool) (e : Failure) → TurnFollows true k u b (ends [] (failed e))
  unchanged k u b e = (holding k u b, stays _, (k, inl (u, b, refl), omega arith))

  failed_turn-Follows :
      (k t : ℕ) (u : Option ℕ) (b stops is_last : Bool) (es : List Event) (e : Failure)
      → allowances k ≡ allowed t
      → rates k ≡ none
      → Failing k (holding (suc k) (some t) true) es
      → TurnFollows is_last k u b (
          if stops || is_last then ends (called k t ∷ es) (failed e) else goes_on (called k t ∷ es))
  failed_turn-Follows k t u b true is_last es e a n (v, c, f) =
      (holding (suc k) v c, calls k t u b es _ a n f, (suc k, inl (v, c, refl), omega arith))
  failed_turn-Follows k t u b false true es e a n (v, c, f) =
      (holding (suc k) v c, calls k t u b es _ a n f, (suc k, inl (v, c, refl), omega arith))
  failed_turn-Follows k t u b false false es e a n (v, c, f) =
      (refl, (v, c, calls k t u b es _ a n f))

  turn-Follows :
      (is_last : Bool) (k : ℕ) (u : Option ℕ) (b : Bool) (a : Allowance)
      (reserve rate : Option Failure) (call : Invocation)
      → allowances k ≡ a
      → rates k ≡ rate
      → TurnFollows is_last k u b (allowed_turn is_last k a reserve rate call)
  turn-Follows is_last k u b refused reserve rate call h n = unchanged k u b circuit_open
  turn-Follows is_last k u b (unavailable e) reserve rate call h n = unchanged k u b e
  turn-Follows is_last k u b (allowed t) (some e) rate call h n = unchanged k u b e
  turn-Follows is_last k u b (allowed t) none (some e) call h n =
      (turned_down k, unrated k u b e _ _ n (stays _), (k, inr refl, omega arith))
  turn-Follows is_last k u b (allowed t) none none (returned true) h n = (
    handed (suc k) t,
    calls k t u b _ _ h n (hands (suc k) t _ _ (stays _)),
    (t, refl, omega arith),
  )
  turn-Follows is_last k u b (allowed t) none none (returned false) h n = (
    holding (suc k) none false,
    calls k t u b _ _ h n (succeeds (suc k) t _ _ (stays _)),
    (refl, omega arith),
  )
  turn-Follows is_last k u b (allowed t) none none (failed_with e c) h n =
      failed_turn-Follows k t u b (not (retryable e c)) is_last _ e h n
        (after_failure-Follows k t e.is_unbillable (circuit_failure e c))

  -- What the loop does from the phase p on keeps the protocol.
  abbrev pub LoopFollows : ℕ → Phase → List Event × Outcome → Type 0
  LoopFollows bound p (events, outcome) =
      (q : Phase) × Follows allowances rates p events q × LoopEnds bound outcome q

  module _ (reserves : ℕ → Option Failure) (answers : ℕ → Invocation) where
    abbrev turn_at : ℕ → ℕ → Turn
    turn_at n k = allowed_turn (is_none_left n) k (allowances k) (reserves k) (rates k) (answers k)

    turn_at-Follows :
        (n k : ℕ) (u : Option ℕ) (b : Bool) (t : Turn)
        → turn_at n k ≡ t
        → TurnFollows (is_none_left n) k u b t
    turn_at-Follows n k u b t h = subst (TurnFollows (is_none_left n) k u b) h (
        turn-Follows (is_none_left n) k u b (allowances k) (reserves k) (rates k) (answers k) refl
          refl)

    retry_from-Follows :
        (n k : ℕ) (u : Option ℕ) (b : Bool)
        → LoopFollows
            (suc n + k)
            (holding k u b)
            (retry_from allowances reserves rates answers (suc n) k)
    unfolding retry_from
    retry_from-Follows zero k u b = elim (Turn-cases (turn_at 0 k)) [
      | inl (es, o, h) ↦
          (let t = turn_at-Follows 0 k u b (ends es o) h in
            rw (h, retry_from) (t.0, t.1, LoopEnds-weaken (suc k) (1 + k) o t.0 (omega arith) t.2))
      | inr (es, h) ↦ absurd (true-false (turn_at-Follows 0 k u b (goes_on es) h).0)
    ]
    retry_from-Follows (suc n) k u b = elim (Turn-cases (turn_at (suc n) k)) [
      | inl (es, o, h) ↦
          (let t = turn_at-Follows (suc n) k u b (ends es o) h in
            rw (h, retry_from)
              (t.0, t.1, LoopEnds-weaken (suc k) (suc (suc n) + k) o t.0 (omega arith) t.2))
      | inr (es, h) ↦
          (let t = turn_at-Follows (suc n) k u b (goes_on es) h in
            let rest = retry_from-Follows n (suc k) t.1.0 t.1.1 in
            rw (h, retry_from)
              (
                rest.0,
                Follows-append allowances rates _ _ _ _ _ t.1.2 rest.1,
                LoopEnds-weaken (suc n + suc k) (suc (suc n) + k) _ rest.0 (omega arith) rest.2,
              ))
    ]

  deferred-Follows :
      (bound : ℕ) (es : List Event) (o : Outcome) (q : Phase)
      → Follows allowances rates idle es q
      → LoopEnds bound o q
      → AttemptFollows allowances rates bound (deferred es o)
  deferred-Follows bound es (answered k true) q f e = (q, f, e)
  deferred-Follows bound es (answered k false) q f (e, l) = (
    closed (suc k),
    Follows-append allowances rates idle (holding (suc k) none false) (closed (suc k)) es _
        (subst (λ x. Follows allowances rates idle es x) e f)
        (releases (suc k) none false _ _ (stays _)),
    (refl, l),
  )
  deferred-Follows bound es (failed x) q f (k, inl (u, b, e), l) = (
    closed k,
    Follows-append allowances rates idle (holding k u b) (closed k) es _
        (subst (λ x. Follows allowances rates idle es x) e f) (releases k u b _ _ (stays _)),
    inr (k, refl, l),
  )
  deferred-Follows bound es (failed x) q f (k, inr e, l) = (
    closed k,
    Follows-append allowances rates idle (turned_down k) (closed k) es _
        (subst (λ x. Follows allowances rates idle es x) e f) (abandons k _ _ (stays _)),
    inr (k, refl, l),
  )
  deferred-Follows bound es given_up q f e = absurd e

  module _ (reserves : ℕ → Option Failure) (answers : ℕ → Invocation) where
    loop-Follows :
        (retries : ℤ)
        → LoopFollows
            (suc (min 10 (pos_part retries)))
            (holding 0 none false)
            (retry_from allowances reserves rates answers (turns (route_attempt_count retries)) 0)
    loop-Follows retries = rw (turns_lem retries) (
        let loop = retry_from-Follows reserves answers (min 10 (pos_part retries)) 0 none false in
        (loop.0, loop.1, LoopEnds-weaken _ _ _ loop.0 (omega arith) loop.2))

    slotted-Follows :
        (retries : ℤ) (a : Allowance) (slots : Option Failure)
        → AttemptFollows allowances rates
            (suc (min 10 (pos_part retries)))
            (slotted allowances reserves rates answers retries a slots)
    slotted-Follows retries refused slots = (idle, stays idle, inl refl)
    slotted-Follows retries (unavailable e) slots = (idle, stays idle, inl refl)
    slotted-Follows retries (allowed t) (some e) = (idle, stays idle, inl refl)
    slotted-Follows retries (allowed t) none =
        let loop = loop-Follows retries in
        deferred-Follows _ _ _ loop.0 (acquires _ loop.0 loop.1) loop.2

-- Whatever the breaker, the quota, the rates and the provider answer, an attempt keeps the protocol
-- with them. The slots are acquired at most once, and then either released once, after which nothing
-- is done, or handed to the stream; they are handed exactly when the result is a stream. The calls
-- are numbered 0, 1, 2, ... without a gap, each is preceded by an admission of the breaker and of the
-- rates, and the breaker is told at most one outcome of a call, under that call's own admission and
-- before the next call. The quota reservation of a call is released at most once: after the call and
-- before anything else, and not if the call is then reported as a success or its stream handed over; or
-- when the rates refuse the call, after which only the slots are released. There are at most
-- min(retries, 10) + 1 calls, a result without an error is that of the last one, and the return after
-- the loop is never reached.
pub wrap_attempt-Follows :
    (allowances : ℕ → Allowance) (reserves rates : ℕ → Option Failure) (answers : ℕ → Invocation)
    (retries : ℤ) (context : Option ContextError) (slots : Option Failure)
    → AttemptFollows allowances rates
        (suc (min 10 (pos_part retries)))
        (wrap_attempt allowances reserves rates answers retries context slots)
unfolding wrap_attempt
wrap_attempt-Follows allowances reserves rates answers retries (some c) slots =
    (idle, stays idle, inl refl)
wrap_attempt-Follows allowances reserves rates answers retries none slots =
    slotted-Follows allowances rates reserves answers retries (allowances 0) slots
