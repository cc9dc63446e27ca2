-- ===== src/Policy/Attempt/Retry.antt =====
-- Which call answers an attempt (policy/attempt.go, WrapAttempt).
use llmgw.Base.{
  ℕ, ◌≢◌, zero, suc, ◌≡◌, refl, inl, inr, ◌↔◌, ap, sym, ◌∙◌, subst, ℤ, pos_part, List, ◌∷◌, Option,
  none, some, Bool, true, false, not, ◌||◌, if◌then◌else◌, Option-cases,
}
use Prim.Native.Nat.{min}
use llmgw.Gateway.Errors.{ApiError, Failure, ContextError, canceled, deadline_exceeded}
use llmgw.Gateway.Dispatch.{Invocation, returned, failed_with}
use llmgw.Policy.Breaker.{route_attempt_count}
use llmgw.Policy.Attempt.{
  Allowance, allowed, refused, unavailable, Event, acquired, Outcome, answered, failed, given_up,
  Turn, ends, goes_on, deferred, retryable, allowed_turn, turns, slotted, retry_from, wrap_attempt,
}
use llmgw.Policy.Attempt.Protocol.{Turn-cases, turns_lem}

-- A turn makes its call: the breaker admits it, and neither the quota nor the rates refuse it.
abbrev pub Admitted : Allowance → Option Failure → Option Failure → Type 0
Admitted a reserve rate = ((t : ℕ) × (a ≡ allowed t)) × (reserve ≡ none) × (rate ≡ none)

-- A call that the loop repeats: the request's context has run out of time, or it is live and the error
-- is a retryable `APIError` or none. A call whose context was canceled is not repeated.
pub data IsRetried (call : Invocation) : Type 0 where
  timed_out : (e : Failure) → call ≡ failed_with e (some deadline_exceeded) → IsRetried call
  unclassified : (e : Failure) → call ≡ failed_with e none → e.api_error ≡ none → IsRetried call
  transient :
      (e : Failure) (a : ApiError)
      → call ≡ failed_with e none
      → e.api_error ≡ some a
      → a.retryable ≡ true
      → IsRetried call

retryable-IsRetried :
    (e : Failure) (c : Option ContextError) → retryable e c ≡ true → IsRetried (failed_with e c)
unfolding retryable
retryable-IsRetried e (some canceled) h = absurd cc
retryable-IsRetried e (some deadline_exceeded) h = timed_out e refl
retryable-IsRetried e none h = elim (Option-cases e.api_error) [
  | inl q ↦ unclassified e refl q
  | inr (a, q) ↦ transient e a refl q (rw (q, retryable) at h)
]

-- The error of a repeated call, as the loop sees it.
abbrev Repeats : Invocation → Type 0
Repeats call =
    (e : Failure) × (c : Option ContextError) × (call ≡ failed_with e c) × (retryable e c ≡ true)

IsRetried-Repeats : (call : Invocation) → IsRetried call → Repeats call
unfolding retryable
IsRetried-Repeats call (timed_out e h) = (e, some deadline_exceeded, h, refl)
IsRetried-Repeats call (unclassified e h q) = (e, none, h, rw (q, retryable) refl)
IsRetried-Repeats call (transient e a h q r) = (e, none, h, rw (q, retryable) r)

module _ (allowances : ℕ → Allowance) (reserves rates : ℕ → Option Failure)
    (calls : ℕ → Invocation) where
  -- With the given number of turns left, of which the first is retry k: the call of retry j returns,
  -- and all calls from k up to it fail with errors that are retried.
  pub data Answers : ℕ → ℕ → ℕ → Bool → Type 0 where
    now :
        (n k : ℕ) (is_stream : Bool)
        → Admitted (allowances k) (reserves k) (rates k)
        → calls k ≡ returned is_stream
        → Answers (suc n) k k is_stream
    later :
        (n k j : ℕ) (is_stream : Bool)
        → Admitted (allowances k) (reserves k) (rates k)
        → IsRetried (calls k)
        → Answers (suc n) (suc k) j is_stream
        → Answers (suc (suc n)) k j is_stream

given_up_answered : (j : ℕ) (s : Bool) → given_up ≢ answered j s
given_up_answered j s = λ h. cc

failed_turn-ends :
    (b : Bool) (es fs : List Event) (e : Failure) (j : ℕ) (s : Bool)
    → ¬ ((if b then ends es (failed e) else goes_on es) ≡ ends fs (answered j s))
failed_turn-ends true es fs e j s = λ h. cc
failed_turn-ends false es fs e j s = λ h. cc

failed_turn-goes_on :
    (r is_last : Bool) (es fs : List Event) (e : Failure)
    → (if not r || is_last then ends es (failed e) else goes_on es) ≡ goes_on fs
    → r ≡ true
failed_turn-goes_on true is_last es fs e h = refl
failed_turn-goes_on false is_last es fs e h = absurd cc

-- A turn that ends with an answer has made its call, which returned.
turn-answered :
    (is_last : Bool) (k : ℕ) (a : Allowance) (reserve rate : Option Failure) (call : Invocation)
    (es : List Event) (j : ℕ) (s : Bool)
    → allowed_turn is_last k a reserve rate call ≡ ends es (answered j s)
    → Admitted a reserve rate × (call ≡ returned s) × (k ≡ j)
turn-answered l k refused reserve rate call es j s h = absurd cc
turn-answered l k (unavailable e) reserve rate call es j s h = absurd cc
turn-answered l k (allowed t) (some e) rate call es j s h = absurd cc
turn-answered l k (allowed t) none (some e) call es j s h = absurd cc
turn-answered l k (allowed t) none none (returned b) es j s h = (((t, refl), refl, refl), cc, cc)
turn-answered l k (allowed t) none none (failed_with e c) es j s h =
    absurd (failed_turn-ends (not (retryable e c) || l) _ es e j s h)

-- A turn that goes on has made its call, which is retried.
turn-IsRetried :
    (is_last : Bool) (k : ℕ) (a : Allowance) (reserve rate : Option Failure) (call : Invocation)
    (es : List Event)
    → allowed_turn is_last k a reserve rate call ≡ goes_on es
    → Admitted a reserve rate × IsRetried call
turn-IsRetried l k refused reserve rate call es h = absurd cc
turn-IsRetried l k (unavailable e) reserve rate call es h = absurd cc
turn-IsRetried l k (allowed t) (some e) rate call es h = absurd cc
turn-IsRetried l k (allowed t) none (some e) call es h = absurd cc
turn-IsRetried l k (allowed t) none none (returned b) es h = absurd cc
turn-IsRetried l k (allowed t) none none (failed_with e c) es h = (
  ((t, refl), refl, refl),
  retryable-IsRetried e c (failed_turn-goes_on (retryable e c) l _ es e h),
)

deferred-outcome : (es : List Event) (o : Outcome) → (deferred es o).1 ≡ o
deferred-outcome es (answered k true) = refl
deferred-outcome es (answered k false) = refl
deferred-outcome es (failed e) = refl
deferred-outcome es given_up = refl

module _ (allowances : ℕ → Allowance) (reserves rates : ℕ → Option Failure)
    (calls : ℕ → Invocation) where
  abbrev turn_of : Bool → ℕ → Turn
  turn_of l k = allowed_turn l k (allowances k) (reserves k) (rates k) (calls k)

  ended-Answers :
      (l : Bool) (n k j : ℕ) (s : Bool) (es : List Event) (o : Outcome)
      → turn_of l k ≡ ends es o
      → o ≡ answered j s
      → Answers allowances reserves rates calls (suc n) k j s
  ended-Answers l n k j s es o e h =
      let r =
        turn-answered l k (allowances k) (reserves k) (rates k) (calls k) es j s
          (e ∙ ap (ends es) h) in
      subst (λ i. Answers allowances reserves rates calls (suc n) k i s) r.2 (now n k s r.0 r.1)

  retry_from-Answers :
      (n k j : ℕ) (s : Bool)
      → (retry_from allowances reserves rates calls n k).1 ≡ answered j s
      → Answers allowances reserves rates calls n k j s
  unfolding retry_from
  retry_from-Answers zero k j s h = absurd cc
  retry_from-Answers (suc zero) k j s h = elim (Turn-cases (turn_of true k)) [
    | inl (es, o, e) ↦ ended-Answers true 0 k j s es o e (rw (e, retry_from) at h)
    | inr (es, e) ↦ absurd (given_up_answered j s (rw (e, retry_from) at h))
  ]
  retry_from-Answers (suc (suc n)) k j s h = elim (Turn-cases (turn_of false k)) [
    | inl (es, o, e) ↦ ended-Answers false (suc n) k j s es o e (rw (e, retry_from) at h)
    | inr (es, e) ↦
        (let r = turn-IsRetried false k (allowances k) (reserves k) (rates k) (calls k) es e in
          later n k j s r.0 r.1 (retry_from-Answers (suc n) (suc k) j s (rw (e, retry_from) at h)))
  ]

  Answers-retry_from :
      (n k j : ℕ) (s : Bool)
      → Answers allowances reserves rates calls n k j s
      → (retry_from allowances reserves rates calls n k).1 ≡ answered j s
  unfolding retry_from
  Answers-retry_from _ k _ s (now n _ _ a c) = rw (a.0.1, a.1, a.2, c, retry_from) refl
  Answers-retry_from _ k j s (later n _ _ _ a r h) =
      let f = IsRetried-Repeats (calls k) r in
      rw (a.0.1, a.1, a.2, f.2, f.3, retry_from) (Answers-retry_from (suc n) (suc k) j s h)

  first-Admitted :
      (n k j : ℕ) (s : Bool)
      → Answers allowances reserves rates calls n k j s
      → Admitted (allowances k) (reserves k) (rates k)
  first-Admitted _ k _ s (now n _ _ a c) = a
  first-Admitted _ k j s (later n _ _ _ a r h) = a

  abbrev loop_events : ℕ → List Event
  loop_events n = acquired ∷ (retry_from allowances reserves rates calls n 0).0

  slotted-Answers :
      (retries : ℤ) (a : Allowance) (j : ℕ) (s : Bool)
      → (slotted allowances reserves rates calls retries a none).1 ≡ answered j s
      → Answers allowances reserves rates calls (suc (min 10 (pos_part retries))) 0 j s
  slotted-Answers retries refused j s h = absurd cc
  slotted-Answers retries (unavailable e) j s h = absurd cc
  slotted-Answers retries (allowed t) j s h =
      subst (λ n. Answers allowances reserves rates calls n 0 j s) (turns_lem retries)
        (retry_from-Answers (turns (route_attempt_count retries)) 0 j s
          (sym (deferred-outcome (loop_events (turns (route_attempt_count retries))) _) ∙ h))

  Answers-slotted :
      (retries : ℤ) (j : ℕ) (s : Bool)
      → Answers allowances reserves rates calls (suc (min 10 (pos_part retries))) 0 j s
      → (slotted allowances reserves rates calls retries (allowances 0) none).1 ≡ answered j s
  Answers-slotted retries j s h =
      let admitted = first-Admitted (suc (min 10 (pos_part retries))) 0 j s h in
      rw (admitted.0.1, turns_lem retries)
        (deferred-outcome (loop_events (suc (min 10 (pos_part retries)))) _
          ∙ Answers-retry_from (suc (min 10 (pos_part retries))) 0 j s h)

-- With a live context and free slots, the attempt answers with the call of retry j exactly when that
-- call returns and every earlier one is to be repeated, each of them admitted by the breaker, the quota
-- and the rates, where j is at most min(retries, 10). A call is to be repeated if its context ran out of
-- time, or if its context lives and its error is a retryable `APIError` or not an `APIError`.
pub wrap_attempt_iff :
    (allowances : ℕ → Allowance) (reserves rates : ℕ → Option Failure) (calls : ℕ → Invocation)
    (retries : ℤ) (j : ℕ) (is_stream : Bool)
    → ((wrap_attempt allowances reserves rates calls retries none none).1 ≡ answered j is_stream)
      ↔ Answers allowances reserves rates calls (suc (min 10 (pos_part retries))) 0 j is_stream
unfolding wrap_attempt
wrap_attempt_iff allowances reserves rates calls retries j s = (
  slotted-Answers allowances reserves rates calls retries (allowances 0) j s,
  Answers-slotted allowances reserves rates calls retries j s,
)
