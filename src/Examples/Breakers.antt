-- ===== src/Examples/Breakers.antt =====
-- Runs of the circuit breaker of policy/attempt.go.
use llmgw.Base.{
  ℕ, ◌+◌, ◌<◌, ◌≡◌, refl, ℤ, pos, String-discrete, lookup, insert, ◌+ℤ◌, [], ◌∷◌, true, leb, arith,
}
use llmgw.Policy.Breaker.{
  Breaker, BreakerState, new_breaker, state_of, allow_attempt, fail_attempt, success_attempt,
}
use llmgw.Policy.Breaker.Opening.{fail_all, fail_all-opens}
use llmgw.Policy.Breaker.Evidence.{stale_success, stale_failure}
use llmgw.Policy.Breaker.Admission.{failed, report, report_all, allow_attempt-increases}

-- Some nanomoments after the test's start.
abbrev moment : ℕ → ℕ
moment n = 63_902_822_400_000_000_000 + n

abbrev lifetime : ℤ
lifetime = pos 60_000_000_000

-- The breaker once a call is admitted on the circuit "r".
abbrev called : Breaker
called = (allow_attempt "r" lifetime (moment 5) new_breaker).0

abbrev called_state : BreakerState
called_state = record {
  failures = pos 0;
  open_until = 0;
  retain_until = moment 60_000_000_005;
  last_admission = moment 5;
  last_failure = 0;
  last_success = 0;
}

called_lem : state_of called "r" ≡ called_state
unfolding allow_attempt lookup insert String-discrete
called_lem = refl

fail_all-opens_example :
    ((allow_attempt "r" lifetime (moment 9) (
        fail_all "r"
          (pos 3)
          (pos 1000)
          ((moment 6, moment 8) ∷ (moment 7, moment 8) ∷ [])
          called)).1
      ≡ true)
    × ((later : ℕ)
        → (allow_attempt "r" lifetime later (
            fail_attempt "r" (pos 3) (pos 1000) (moment 8) (moment 9) (
              fail_all "r"
                (pos 3)
                (pos 1000)
                ((moment 6, moment 8) ∷ (moment 7, moment 8) ∷ [])
                called))).1
          ≡ leb (moment 9 + 1000) later)
fail_all-opens_example =
    fail_all-opens "r" 3 1000 ((moment 6, moment 8) ∷ (moment 7, moment 8) ∷ []) (moment 8)
      (moment 9) lifetime called refl (omega arith) (omega arith) (rw called_lem refl)
      (rw called_lem (ground arith)) (rw called_lem (ground arith))

stale_success_example :
    state_of
      (success_attempt "r"
        (moment 6)
        (moment 9)
        (fail_attempt "r" (pos 1) (pos 1000) (moment 7) (moment 8) called))
      "r"
    ≡ state_of (fail_attempt "r" (pos 1) (pos 1000) (moment 7) (moment 8) called) "r"
stale_success_example =
    stale_success "r" (pos 1) (pos 1000) (moment 7) (moment 8) (moment 6) (moment 9) called
      (rw called_lem (omega arith)) (rw called_lem (omega arith)) (rw called_lem (omega arith))
      (omega arith) (omega arith)

stale_failure_example :
    state_of
      (fail_attempt "r"
        (pos 1)
        (pos 1000)
        (moment 6)
        (moment 9)
        (success_attempt "r" (moment 7) (moment 8) called))
      "r"
    ≡ state_of (success_attempt "r" (moment 7) (moment 8) called) "r"
stale_failure_example =
    stale_failure "r" (pos 1) (pos 1000) (moment 7) (moment 8) (moment 6) (moment 9) called
      (rw called_lem (omega arith)) (rw called_lem (omega arith)) (rw called_lem (omega arith))
      (omega arith) (omega arith)

admitted_once : (allow_attempt "r" lifetime (moment 5) new_breaker).1 ≡ true
unfolding allow_attempt lookup
admitted_once = refl

-- The clock goes back from 5 to 4, with a failure in between.
admitted_twice :
    (allow_attempt "r" lifetime
      (moment 4)
      (report_all "r" (pos 3) (pos 1000) (failed (moment 5) (moment 6) ∷ []) called)).1
    ≡ true
unfolding allow_attempt lookup insert String-discrete report_all report fail_attempt ◌+ℤ◌
admitted_twice = refl

allow_attempt-increases_example :
    (allow_attempt "r" lifetime (moment 5) new_breaker).2
    < (allow_attempt "r" lifetime
        (moment 4)
        (report_all "r" (pos 3) (pos 1000) (failed (moment 5) (moment 6) ∷ []) called)).2
allow_attempt-increases_example =
    allow_attempt-increases "r" (pos 3) (pos 1000) lifetime lifetime (moment 5) (moment 4)
      (failed (moment 5) (moment 6) ∷ []) new_breaker (omega arith) admitted_once
      (rw called_lem (omega arith, tt)) admitted_twice
