-- ===== src/Policy/Attempt/Stream/Counts.antt =====
-- How often an attempt and its stream acquire and release the slots (policy/attempt.go).
use llmgw.Base.{
  Option, ℕ, suc, ◌+◌, ◌≡◌, refl, List, [], ◌∷◌, ◌++◌, none, Bool, true, false, arith,
  if◌then◌else◌,
}
use llmgw.Gateway.Errors.{Failure}
use llmgw.Policy.Attempt.{Event, acquired, breaker_failed, released, Allowance, circuit_failure}
use llmgw.Policy.Attempt.Phases.{
  Phase, idle, holding, closed, Follows, abandons, stays, acquires, calls, unrated, unbilled,
  succeeds, fails, hands, releases,
}
use llmgw.Policy.Attempt.Stream.{
  StreamOutcome, stream_stopped, stream_succeeded, stream_failed, finish,
}

abbrev pub releases_in : List Event → ℕ
releases_in [] = 0
releases_in (released ∷ es) = suc (releases_in es)
releases_in (_ ∷ es) = releases_in es

abbrev pub acquisitions_in : List Event → ℕ
acquisitions_in [] = 0
acquisitions_in (acquired ∷ es) = suc (acquisitions_in es)
acquisitions_in (_ ∷ es) = acquisitions_in es

pub releases_in-append :
    (es fs : List Event) → releases_in (es ++ fs) ≡ releases_in es + releases_in fs
releases_in-append [] fs = omega arith
releases_in-append (e ∷ es) fs = grind (arith, releases_in-append es fs)

pub acquisitions_in-append :
    (es fs : List Event) → acquisitions_in (es ++ fs) ≡ acquisitions_in es + acquisitions_in fs
acquisitions_in-append [] fs = omega arith
acquisitions_in-append (e ∷ es) fs = grind (arith, acquisitions_in-append es fs)

pub releases_in-finish : (t : ℕ) (o : StreamOutcome) → releases_in (finish t o) ≡ 1
unfolding finish
releases_in-finish t stream_stopped = refl
releases_in-finish t stream_succeeded = refl
releases_in-finish t (stream_failed e) = releases_in-when (circuit_failure e none)
  where
    releases_in-when :
        (b : Bool) → releases_in (released ∷ (if b then breaker_failed t ∷ [] else [])) ≡ 1
    releases_in-when true = refl
    releases_in-when false = refl

pub acquisitions_in-finish : (t : ℕ) (o : StreamOutcome) → acquisitions_in (finish t o) ≡ 0
unfolding finish
acquisitions_in-finish t stream_stopped = refl
acquisitions_in-finish t stream_succeeded = refl
acquisitions_in-finish t (stream_failed e) = acquisitions_in-when (circuit_failure e none)
  where
    acquisitions_in-when :
        (b : Bool) → acquisitions_in (released ∷ (if b then breaker_failed t ∷ [] else [])) ≡ 0
    acquisitions_in-when true = refl
    acquisitions_in-when false = refl

abbrev pub released_by : Phase → ℕ
released_by (closed k) = 1
released_by _ = 0

abbrev pub acquired_by : Phase → ℕ
acquired_by idle = 0
acquired_by _ = 1

module _ (allowances : ℕ → Allowance) (rates : ℕ → Option Failure) where
  pub Follows-releases_in :
      (p q : Phase) (es : List Event)
      → Follows allowances rates p es q
      → releases_in es + released_by p ≡ released_by q
  Follows-releases_in _ _ _ (stays p) = omega arith
  Follows-releases_in _ q _ (acquires es _ f) = Follows-releases_in _ q es f
  Follows-releases_in _ q _ (calls k t u b es _ a n f) = Follows-releases_in _ q es f
  Follows-releases_in _ q _ (unrated k u b e es _ n f) = Follows-releases_in _ q es f
  Follows-releases_in _ q _ (unbilled k t es _ f) = Follows-releases_in _ q es f
  Follows-releases_in _ q _ (succeeds k t es _ f) = Follows-releases_in _ q es f
  Follows-releases_in _ q _ (fails k t b es _ f) = Follows-releases_in _ q es f
  Follows-releases_in _ q _ (hands k t es _ f) = Follows-releases_in _ q es f
  Follows-releases_in _ q _ (releases k u b es _ f) =
      omega (arith, Follows-releases_in (closed k) q es f)
  Follows-releases_in _ q _ (abandons k es _ f) =
      omega (arith, Follows-releases_in (closed k) q es f)

  pub Follows-acquisitions_in :
      (p q : Phase) (es : List Event)
      → Follows allowances rates p es q
      → acquisitions_in es + acquired_by p ≡ acquired_by q
  Follows-acquisitions_in _ _ _ (stays p) = omega arith
  Follows-acquisitions_in _ q _ (acquires es _ f) =
      omega (arith, Follows-acquisitions_in (holding 0 none false) q es f)
  Follows-acquisitions_in _ q _ (calls k t u b es _ a n f) = Follows-acquisitions_in _ q es f
  Follows-acquisitions_in _ q _ (unrated k u b e es _ n f) = Follows-acquisitions_in _ q es f
  Follows-acquisitions_in _ q _ (unbilled k t es _ f) = Follows-acquisitions_in _ q es f
  Follows-acquisitions_in _ q _ (succeeds k t es _ f) = Follows-acquisitions_in _ q es f
  Follows-acquisitions_in _ q _ (fails k t b es _ f) = Follows-acquisitions_in _ q es f
  Follows-acquisitions_in _ q _ (hands k t es _ f) = Follows-acquisitions_in _ q es f
  Follows-acquisitions_in _ q _ (releases k u b es _ f) = Follows-acquisitions_in (closed k) q es f
  Follows-acquisitions_in _ q _ (abandons k es _ f) = Follows-acquisitions_in (closed k) q es f
