-- ===== src/Policy/Breaker/Retention.antt =====
-- What pruning keeps (policy/attempt.go): the state of a circuit with a call in flight.
use llmgw.Base.{
  ℕ, suc, ◌%◌, ◌==◌, ◌<◌, ◌≡◌, refl, String, String-discrete, some, List, [], ◌∷◌, lookup,
  lookup-insert, ite, arith, Bool-cases, Option-cases, inl, inr, false,
}
use llmgw.Policy.Breaker.{BreakerState, Breaker, prune, prune_states, is_idle, state_of, put_state}

lookup-prune :
    (key : String) (now : ℕ) (states : List (String × BreakerState)) (st : BreakerState)
    → lookup String-discrete key states ≡ some st
    → is_idle now st ≡ false
    → lookup String-discrete key (prune now states) ≡ some st
unfolding lookup prune
lookup-prune key now [] st e h = cc
lookup-prune key now ((j, v) ∷ states) st e h = ground (arith, lookup-prune key now states st)

retained-is_idle : (now : ℕ) (st : BreakerState) → now < st.retain_until → is_idle now st ≡ false
retained-is_idle now st h = ground arith

-- A retained state survives every pruning.
pub state_of-prune_states :
    (key : String) (now : ℕ) (b : Breaker)
    → now < (state_of b key).retain_until
    → state_of (prune_states now b) key ≡ state_of b key
unfolding prune_states
state_of-prune_states key now b h = elim (Option-cases (lookup String-discrete key b.states)) [
  | inl l ↦ ground (arith, rw l at h)
  | inr (st, l) ↦
      let kept = retained-is_idle now st (rw l at h) in
      elim (Bool-cases (suc b.operations % 256 == 0)) [
        | inl p ↦ rw (p, lookup-prune key now b.states st l kept, l) refl
        | inr p ↦ rw p refl
      ]
]

-- Writing a state writes that of its key and of no other.
pub state_of-put_state :
    (key j : String) (st : BreakerState) (b : Breaker)
    → state_of (put_state key st b) j ≡ ite (String-discrete j key) st (state_of b j)
state_of-put_state key j st b = rw (lookup-insert String-discrete key j st b.states) (ground arith)
