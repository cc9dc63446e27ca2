-- ===== src/Policy/Attempt/Stream/Release.antt =====
-- A stream of an attempt finishes once, and the slots of an attempt are released as often as they
-- are acquired (policy/attempt.go).
use Prim.Native.Nat.{min}
use llmgw.Base.{
  ℕ, ℤ, pos_part, subst, inl, inr, suc, ◌≡◌, refl, ap, ◌∙◌, List, [], ◌∷◌, ◌++◌, Option, none, some,
  Bool, true, false, ◌||◌, ltb, arith,
}
use llmgw.Gateway.Errors.{Failure, ContextError}
use llmgw.Gateway.Dispatch.{Invocation}
use llmgw.Policy.Attempt.{Event, Allowance, Outcome, answered, failed, given_up, wrap_attempt}
use llmgw.Policy.Attempt.Phases.{Phase, idle, closed, handed, Follows, AttemptFollows}
use llmgw.Policy.Attempt.Protocol.{wrap_attempt-Follows}
use llmgw.Policy.Attempt.Stream.Counts.{
  releases_in, acquisitions_in, releases_in-append, acquisitions_in-append, releases_in-finish,
  acquisitions_in-finish, released_by, acquired_by, Follows-releases_in, Follows-acquisitions_in,
}
use llmgw.Policy.Attempt.Stream.{
  StreamOutcome, stream_stopped, new_stream, StreamStep, reads, closes, context_ends, finish,
  read_outcome, context_outcome, run_steps,
}

-- How the stream ends: by its first read with an error, close or end of the context, and with
-- success only by an io.EOF after bytes. The close that a context's end makes is the first one.
abbrev pub first_end : Bool → List StreamStep → Option StreamOutcome
first_end saw_bytes [] = none
first_end saw_bytes (reads n none context ∷ xs) = first_end (ltb 0 n || saw_bytes) xs
first_end saw_bytes (reads n (some e) context ∷ xs) =
    some (read_outcome (ltb 0 n || saw_bytes) e context)
first_end saw_bytes (closes err ∷ xs) = some stream_stopped
first_end saw_bytes (context_ends c err ∷ xs) = some (context_outcome c err)

abbrev pub finish_of : ℕ → Option StreamOutcome → List Event
finish_of started_at none = []
finish_of started_at (some o) = finish started_at o

append_nil : (es : List Event) → es ++ [] ≡ es
append_nil [] = refl
append_nil (e ∷ es) = ap (λ xs. e ∷ xs) (append_nil es)

-- A finished stream does nothing more.
run_steps-finished :
    (t : ℕ) (xs : List StreamStep) (saw c : Bool) (err : Option Failure)
    → (run_steps t xs (record { saw_bytes = saw; finished = true; closed = c; close_err = err })).1
      ≡ []
unfolding run_steps
run_steps-finished t [] saw c err = refl
run_steps-finished t (reads n none x ∷ xs) saw c err =
    run_steps-finished t xs (ltb 0 n || saw) c err
run_steps-finished t (reads n (some e) x ∷ xs) saw c err =
    run_steps-finished t xs (ltb 0 n || saw) c err
run_steps-finished t (closes e ∷ xs) saw true err = run_steps-finished t xs saw true err
run_steps-finished t (closes e ∷ xs) saw false err = run_steps-finished t xs saw true e
run_steps-finished t (context_ends x e ∷ xs) saw true err = run_steps-finished t xs saw true err
run_steps-finished t (context_ends x e ∷ xs) saw false err = run_steps-finished t xs saw true e

run_steps-from :
    (t : ℕ) (xs : List StreamStep) (saw : Bool)
    → (run_steps t xs
        (record { saw_bytes = saw; finished = false; closed = false; close_err = none })).1
      ≡ finish_of t (first_end saw xs)
unfolding run_steps
run_steps-from t [] saw = refl
run_steps-from t (reads n none x ∷ xs) saw = run_steps-from t xs (ltb 0 n || saw)
run_steps-from t (reads n (some e) x ∷ xs) saw =
    ap (λ es. finish t (read_outcome (ltb 0 n || saw) e x) ++ es)
      (run_steps-finished t xs (ltb 0 n || saw) false none)
    ∙ append_nil _
run_steps-from t (closes e ∷ xs) saw =
    ap (λ es. finish t stream_stopped ++ es) (run_steps-finished t xs saw true e) ∙ append_nil _
run_steps-from t (context_ends x e ∷ xs) saw =
    ap (λ es. finish t (context_outcome x e) ++ es) (run_steps-finished t xs saw true e)
    ∙ append_nil _

-- Whatever a client and the context do with the stream of an attempt, in any order, what it does to
-- the slots and the breaker is what its first end is followed by, once: the first read with an error,
-- close or end of the context. The breaker is told a success only if that is an io.EOF after some
-- bytes, and nothing if the client stops reading.
pub run_steps_lem :
    (started_at : ℕ) (xs : List StreamStep)
    → (run_steps started_at xs new_stream).1 ≡ finish_of started_at (first_end false xs)
run_steps_lem t xs = run_steps-from t xs false

-- The events of an attempt, with those of the stream if it answers with one.
abbrev pub with_stream : ℕ → List StreamStep → List Event × Outcome → List Event
with_stream t xs (es, answered k true) = es ++ (run_steps t xs new_stream).1
with_stream t xs (es, _) = es

abbrev pub IsBalanced : List Event → Type 0
IsBalanced es = releases_in es ≡ acquisitions_in es

module _ (allowances : ℕ → Allowance) (rates : ℕ → Option Failure) (bound t : ℕ)
    (xs : List StreamStep) (o : StreamOutcome) where
  settled-IsBalanced :
      (es : List Event) (q : Phase)
      → Follows allowances rates idle es q
      → released_by q ≡ acquired_by q
      → IsBalanced es
  settled-IsBalanced es q f e = omega (
    arith,
    e,
    Follows-releases_in allowances rates idle q es f,
    Follows-acquisitions_in allowances rates idle q es f,
  )

  handed-IsBalanced :
      (es fs : List Event) (k s : ℕ)
      → Follows allowances rates idle es (handed k s)
      → releases_in fs ≡ 1
      → acquisitions_in fs ≡ 0
      → IsBalanced (es ++ fs)
  handed-IsBalanced es fs k s f r a = omega (
    arith,
    r,
    a,
    releases_in-append es fs,
    acquisitions_in-append es fs,
    Follows-releases_in allowances rates idle (handed k s) es f,
    Follows-acquisitions_in allowances rates idle (handed k s) es f,
  )

  run_steps-ended : first_end false xs ≡ some o → (run_steps t xs new_stream).1 ≡ finish t o
  run_steps-ended h = run_steps_lem t xs ∙ ap (finish_of t) h

  with_stream-IsBalanced :
      (es : List Event) (outcome : Outcome)
      → first_end false xs ≡ some o
      → AttemptFollows allowances rates bound (es, outcome)
      → IsBalanced (with_stream t xs (es, outcome))
  with_stream-IsBalanced es (answered k true) h (q, f, (s, e, l)) =
      handed-IsBalanced es _ (suc k) s (subst (λ x. Follows allowances rates idle es x) e f)
        (ap releases_in (run_steps-ended h) ∙ releases_in-finish t o)
        (ap acquisitions_in (run_steps-ended h) ∙ acquisitions_in-finish t o)
  with_stream-IsBalanced es (answered k false) h (q, f, (e, l)) =
      settled-IsBalanced es (closed (suc k)) (subst (λ x. Follows allowances rates idle es x) e f)
        refl
  with_stream-IsBalanced es (failed x) h (q, f, inl e) =
      settled-IsBalanced es idle (subst (λ x. Follows allowances rates idle es x) e f) refl
  with_stream-IsBalanced es (failed x) h (q, f, inr (k, e, l)) =
      settled-IsBalanced es (closed k) (subst (λ x. Follows allowances rates idle es x) e f) refl
  with_stream-IsBalanced es given_up h (q, f, e) = absurd e

-- Whatever the breaker, the quota, the rates and the provider answer, and whatever is done with the
-- stream that an attempt answers with, if it is one, until it has ended (a read returned an error, or
-- it was closed, or its context ended): the attempt and its stream together release the slots exactly
-- as often as the attempt acquired them.
pub attempt-IsBalanced :
    (allowances : ℕ → Allowance) (reserves rates : ℕ → Option Failure) (answers : ℕ → Invocation)
    (retries : ℤ) (context : Option ContextError) (slots : Option Failure) (started_at : ℕ)
    (xs : List StreamStep) (o : StreamOutcome)
    → first_end false xs ≡ some o
    → IsBalanced (
        with_stream started_at xs
          (wrap_attempt allowances reserves rates answers retries context slots))
attempt-IsBalanced allowances reserves rates answers retries context slots t xs o h =
    let r = wrap_attempt allowances reserves rates answers retries context slots in
    with_stream-IsBalanced allowances rates (suc (min 10 (pos_part retries))) t xs o r.0 r.1 h
      (wrap_attempt-Follows allowances reserves rates answers retries context slots)
