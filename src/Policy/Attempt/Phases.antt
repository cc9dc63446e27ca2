-- ===== src/Policy/Attempt/Phases.antt =====
-- The phases of an attempt, as the slots, the breaker and the quota reservation see it
-- (policy/attempt.go, WrapAttempt): a state machine on what the attempt does.
use llmgw.Base.{
  Bool, ℕ, suc, ◌≤◌, ◌≡◌, List, [], ◌∷◌, ◌++◌, Option, none, some, ◌⊎◌, true, false, arith,
}
use llmgw.Gateway.Errors.{Failure}
use llmgw.Policy.Attempt.{
  Allowance, allowed, Event, acquired, called, reservation_released, breaker_succeeded,
  breaker_failed, stream_handed, released, Outcome, answered, failed, given_up,
}

-- Nothing is held; or the slots are held, the next call is the given retry, the breaker waits for the
-- outcome of the call with the given admission, and the reservation of that call may be released; or
-- the rates have refused the next call; or the slots went back, or to a stream.
pub data Phase : Type 0 where
  idle : Phase
  holding : (next_retry : ℕ) → (unreported : Option ℕ) → (is_releasable : Bool) → Phase
  turned_down : (calls : ℕ) → Phase
  closed : (calls : ℕ) → Phase
  handed : (calls : ℕ) → (started_at : ℕ) → Phase

-- The slots are still held after the given number of calls.
abbrev pub IsLeft : ℕ → Phase → Type 0
IsLeft k q = ((u : Option ℕ) × (b : Bool) × (q ≡ holding k u b)) ⊎ (q ≡ turned_down k)

-- How a turn or the loop ends, after fewer calls than the bound: with a call that was answered, or
-- without one; the return after the loop is never reached.
abbrev pub LoopEnds : ℕ → Outcome → Phase → Type 0
LoopEnds bound (answered k true) q = (t : ℕ) × (q ≡ handed (suc k) t) × (suc k ≤ bound)
LoopEnds bound (answered k false) q = (q ≡ holding (suc k) none false) × (suc k ≤ bound)
LoopEnds bound (failed e) q = (k : ℕ) × IsLeft k q × (k ≤ bound)
LoopEnds bound given_up q = ⊥

pub LoopEnds-weaken : (m n : ℕ) (o : Outcome) (q : Phase) → m ≤ n → LoopEnds m o q → LoopEnds n o q
LoopEnds-weaken m n (answered k true) q h (t, e, l) = (t, e, omega (arith, h, l))
LoopEnds-weaken m n (answered k false) q h (e, l) = (e, omega (arith, h, l))
LoopEnds-weaken m n (failed _) q h (k, e, l) = (k, e, omega (arith, h, l))
LoopEnds-weaken m n given_up q h b = b

-- How an attempt ends, after at most the given number of calls.
abbrev pub AttemptEnds : ℕ → Outcome → Phase → Type 0
AttemptEnds bound (answered k true) q = (t : ℕ) × (q ≡ handed (suc k) t) × (suc k ≤ bound)
AttemptEnds bound (answered k false) q = (q ≡ closed (suc k)) × (suc k ≤ bound)
AttemptEnds bound (failed e) q = (q ≡ idle) ⊎ ((k : ℕ) × (q ≡ closed k) × (k ≤ bound))
AttemptEnds bound given_up q = ⊥

module _ (allowances : ℕ → Allowance) (rates : ℕ → Option Failure) where
  -- What may be done in a phase, and the phase after it.
  pub data Follows : Phase → List Event → Phase → Type 0 where
    stays : (p : Phase) → Follows p [] p
    acquires :
        (es : List Event) (q : Phase)
        → Follows (holding 0 none false) es q
        → Follows idle (acquired ∷ es) q
    calls :
        (k started_at : ℕ) (u : Option ℕ) (b : Bool) (es : List Event) (q : Phase)
        → allowances k ≡ allowed started_at
        → rates k ≡ none
        → Follows (holding (suc k) (some started_at) true) es q
        → Follows (holding k u b) (called k started_at ∷ es) q
    unrated :
        (k : ℕ) (u : Option ℕ) (b : Bool) (e : Failure) (es : List Event) (q : Phase)
        → rates k ≡ some e
        → Follows (turned_down k) es q
        → Follows (holding k u b) (reservation_released k ∷ es) q
    unbilled :
        (k started_at : ℕ) (es : List Event) (q : Phase)
        → Follows (holding (suc k) (some started_at) false) es q
        → Follows (holding (suc k) (some started_at) true) (reservation_released k ∷ es) q
    succeeds :
        (k started_at : ℕ) (es : List Event) (q : Phase)
        → Follows (holding k none false) es q
        → Follows (holding k (some started_at) true) (breaker_succeeded started_at ∷ es) q
    fails :
        (k started_at : ℕ) (b : Bool) (es : List Event) (q : Phase)
        → Follows (holding k none false) es q
        → Follows (holding k (some started_at) b) (breaker_failed started_at ∷ es) q
    hands :
        (k started_at : ℕ) (es : List Event) (q : Phase)
        → Follows (handed k started_at) es q
        → Follows (holding k (some started_at) true) (stream_handed started_at ∷ es) q
    releases :
        (k : ℕ) (u : Option ℕ) (b : Bool) (es : List Event) (q : Phase)
        → Follows (closed k) es q
        → Follows (holding k u b) (released ∷ es) q
    abandons :
        (k : ℕ) (es : List Event) (q : Phase)
        → Follows (closed k) es q
        → Follows (turned_down k) (released ∷ es) q

  pub Follows-append :
      (p q r : Phase) (es fs : List Event)
      → Follows p es q
      → Follows q fs r
      → Follows p (es ++ fs) r
  Follows-append _ _ r _ fs (stays p) g = g
  Follows-append _ _ r _ fs (acquires es q f) g = acquires _ r (Follows-append _ q r es fs f g)
  Follows-append _ _ r _ fs (calls k t u b es q a n f) g =
      calls k t u b _ r a n (Follows-append _ q r es fs f g)
  Follows-append _ _ r _ fs (unrated k u b e es q n f) g =
      unrated k u b e _ r n (Follows-append _ q r es fs f g)
  Follows-append _ _ r _ fs (unbilled k t es q f) g =
      unbilled k t _ r (Follows-append _ q r es fs f g)
  Follows-append _ _ r _ fs (succeeds k t es q f) g =
      succeeds k t _ r (Follows-append _ q r es fs f g)
  Follows-append _ _ r _ fs (fails k t b es q f) g =
      fails k t b _ r (Follows-append _ q r es fs f g)
  Follows-append _ _ r _ fs (hands k t es q f) g = hands k t _ r (Follows-append _ q r es fs f g)
  Follows-append _ _ r _ fs (releases k u b es q f) g =
      releases k u b _ r (Follows-append _ q r es fs f g)
  Follows-append _ _ r _ fs (abandons k es q f) g = abandons k _ r (Follows-append _ q r es fs f g)

  -- The protocol is kept, and how it ends.
  abbrev pub AttemptFollows : ℕ → List Event × Outcome → Type 0
  AttemptFollows bound (events, outcome) =
      (q : Phase) × Follows idle events q × AttemptEnds bound outcome q
