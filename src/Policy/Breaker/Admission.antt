-- ===== src/Policy/Breaker/Admission.antt =====
-- The admission times of a circuit (policy/attempt.go), by which its outcomes are ordered.
use llmgw.Base.{ℕ, ◌<◌, ◌≡◌, refl, ap, ◌∙◌, ℤ, String, true, List, [], ◌∷◌, arith}
use llmgw.Policy.Breaker.{
  BreakerState, Breaker, state_of, fail_attempt, success_attempt, failed_state, succeeded_state,
  allow_attempt, started_or_now, admitted, admission_time,
}
use llmgw.Policy.Breaker.Retention.{state_of-put_state}
use llmgw.Policy.Breaker.Evidence.{written, state_of-fail_attempt, state_of-success_attempt}

-- An outcome reported at `now` for the call admitted at `started`.
pub data Outcome : Type 0 where
  failed : (started now : ℕ) → Outcome
  succeeded : (started now : ℕ) → Outcome

abbrev pub time_of : Outcome → ℕ
time_of (failed started now) = now
time_of (succeeded started now) = now

unfoldable pub report : String → ℤ → ℤ → Outcome → Breaker → Breaker
report key limit cooldown (failed started now) b = fail_attempt key limit cooldown started now b
report key limit cooldown (succeeded started now) b = success_attempt key started now b

unfoldable pub report_all : String → ℤ → ℤ → List Outcome → Breaker → Breaker
unfolding report
report_all key limit cooldown [] b = b
report_all key limit cooldown (o ∷ outcomes) b =
    report_all key limit cooldown outcomes (report key limit cooldown o b)

-- Outcomes move neither the newest admission nor the time until which the state is kept.
record IsKept (st new : BreakerState) : Type 0 where
  admission : new.last_admission ≡ st.last_admission
  retain : new.retain_until ≡ st.retain_until

failed-IsKept :
    (limit cooldown : ℤ) (started now : ℕ) (st : BreakerState)
    → IsKept st (written (failed_state limit cooldown started now st) st)
unfolding failed_state
failed-IsKept limit cooldown started now st = record {
  admission = ground arith;
  retain = ground arith;
}

succeeded-IsKept :
    (started : ℕ) (st : BreakerState) → IsKept st (written (succeeded_state started st) st)
unfolding succeeded_state
succeeded-IsKept started st = record { admission = ground arith; retain = ground arith }

report-IsKept :
    (key : String) (limit cooldown : ℤ) (o : Outcome) (b : Breaker)
    → time_of o < (state_of b key).retain_until
    → IsKept (state_of b key) (state_of (report key limit cooldown o b) key)
unfolding report
report-IsKept key limit cooldown (failed started now) b h =
    rw (state_of-fail_attempt key limit cooldown started now b h)
      (failed-IsKept limit cooldown (started_or_now started now) now (state_of b key))
report-IsKept key limit cooldown (succeeded started now) b h =
    rw (state_of-success_attempt key started now b h)
      (succeeded-IsKept (started_or_now started now) (state_of b key))

abbrev pub ComeBefore : ℕ → List Outcome → Type 0
ComeBefore t [] = Unit
ComeBefore t (o ∷ outcomes) = (time_of o < t) × ComeBefore t outcomes

report_all-IsKept :
    (key : String) (limit cooldown : ℤ) (outcomes : List Outcome) (b : Breaker)
    → ComeBefore (state_of b key).retain_until outcomes
    → IsKept (state_of b key) (state_of (report_all key limit cooldown outcomes b) key)
unfolding report_all
report_all-IsKept key limit cooldown [] b h = record { admission = refl; retain = refl }
report_all-IsKept key limit cooldown (o ∷ outcomes) b h =
    let first : IsKept (state_of b key) (state_of (report key limit cooldown o b) key) =
      report-IsKept key limit cooldown o b h.0 in
    let rest : IsKept (state_of (report key limit cooldown o b) key)
        (state_of (report_all key limit cooldown outcomes (report key limit cooldown o b)) key) =
      report_all-IsKept key limit cooldown outcomes (report key limit cooldown o b)
        (rw first.retain h.1) in
    record { admission = rest.admission ∙ first.admission; retain = rest.retain ∙ first.retain }

-- What an admission records.
allow_attempt-records :
    (key : String) (ttl : ℤ) (now : ℕ) (b : Breaker)
    → (allow_attempt key ttl now b).1 ≡ true
    → state_of (allow_attempt key ttl now b).0 key ≡ admitted (state_of b key) ttl now
unfolding allow_attempt
allow_attempt-records key ttl now b h =
    ground (arith, state_of-put_state key key (admitted (state_of b key) ttl now) b)

allow_attempt-time :
    (key : String) (ttl : ℤ) (now : ℕ) (b : Breaker)
    → (allow_attempt key ttl now b).1 ≡ true
    → (allow_attempt key ttl now b).2 ≡ admission_time (state_of b key).last_admission now
unfolding allow_attempt
allow_attempt-time key ttl now b h = ground arith

admission_time-increases : (last now : ℕ) → 0 < last → last < admission_time last now
admission_time-increases last now h = ground arith

admission_time-positive : (last now : ℕ) → 0 < now → 0 < admission_time last now
admission_time-positive last now h = ground arith

-- Two admissions of one circuit with any outcomes in between that are reported while the first
-- call may be in flight: the second is strictly later than the first, whatever the clock reads.
pub allow_attempt-increases :
    (key : String) (limit cooldown first_ttl ttl : ℤ) (first_now now : ℕ) (outcomes : List Outcome)
    (b : Breaker)
    → 0 < first_now
    → (allow_attempt key first_ttl first_now b).1 ≡ true
    → ComeBefore (state_of (allow_attempt key first_ttl first_now b).0 key).retain_until outcomes
    → (allow_attempt key ttl now
        (report_all key limit cooldown outcomes (allow_attempt key first_ttl first_now b).0)).1
      ≡ true
    → (allow_attempt key first_ttl first_now b).2
      < (allow_attempt key ttl now
          (report_all key limit cooldown outcomes (allow_attempt key first_ttl first_now b).0)).2
allow_attempt-increases key limit cooldown first_ttl ttl first_now now outcomes b p h k l =
    let first = (allow_attempt key first_ttl first_now b).0 in
    let later = report_all key limit cooldown outcomes first in
    let kept : IsKept (state_of first key) (state_of later key) =
      report_all-IsKept key limit cooldown outcomes first k in
    let last = (state_of b key).last_admission in
    let same : (state_of later key).last_admission ≡ admission_time last first_now =
      kept.admission
      ∙ ap (λ st. st.last_admission) (allow_attempt-records key first_ttl first_now b h) in
    rw
      (allow_attempt-time key first_ttl first_now b h, allow_attempt-time key ttl now later l, same)
      (admission_time-increases (admission_time last first_now) now
        (admission_time-positive last first_now p))
