-- ===== src/Policy/Attempt/Stream/Outcomes.antt =====
-- What a stream of an attempt reports when it ends (policy/attempt.go, attemptLifecycleStream).
use llmgw.Base.{
  ℕ, zero, suc, ◌≡◌, refl, sym, subst, List, [], ◌∷◌, Option, none, some, Bool, true, false, not,
  ◌||◌, ltb, Option-cases, Bool-cases, inl, inr, arith,
}
use llmgw.Gateway.Errors.{ApiError, Failure, ContextError, canceled, deadline_exceeded}
use llmgw.Gateway.Prefetch.{eof, broken}
use llmgw.Policy.Attempt.{Event, released, breaker_succeeded, breaker_failed, circuit_failure, when}
use llmgw.Policy.Attempt.Stream.{
  stream_failed, StreamStep, reads, closes, context_ends, new_stream, finish, read_outcome,
  run_steps,
}
use llmgw.Policy.Attempt.Stream.Release.{first_end, finish_of, run_steps_lem}

-- What is reported after an error: the slots go back; the breaker is told a failure if the error is an
-- `APIError` that counts for the circuit, or another error but a cancellation.
pub data Fails (started_at : ℕ) (e : Failure) : List Event → Type 0 where
  counts :
      (a : ApiError)
      → e.api_error ≡ some a
      → a.circuit_failure ≡ true
      → Fails started_at e (released ∷ breaker_failed started_at ∷ [])
  spares :
      (a : ApiError)
      → e.api_error ≡ some a
      → a.circuit_failure ≡ false
      → Fails started_at e (released ∷ [])
  breaks :
      e.api_error ≡ none
      → e.is_canceled ≡ false
      → Fails started_at e (released ∷ breaker_failed started_at ∷ [])
  cancels : e.api_error ≡ none → e.is_canceled ≡ true → Fails started_at e (released ∷ [])

-- What a stream, that has given bytes or not, reports in the course of some steps.
pub data Reports (started_at : ℕ) : (has_bytes : Bool) → List StreamStep → List Event → Type 0 where
  unended : (b : Bool) → Reports started_at b [] []
  nothing_read :
      (b : Bool) (c : Option ContextError) (xs : List StreamStep) (es : List Event)
      → Reports started_at b xs es
      → Reports started_at b (reads 0 none c ∷ xs) es
  bytes_read :
      (b : Bool) (n : ℕ) (c : Option ContextError) (xs : List StreamStep) (es : List Event)
      → Reports started_at true xs es
      → Reports started_at b (reads (suc n) none c ∷ xs) es
  ends_after_bytes :
      (n : ℕ) (c : Option ContextError) (xs : List StreamStep)
      → Reports started_at true
          (reads n (some eof) c ∷ xs)
          (released ∷ breaker_succeeded started_at ∷ [])
  ends_with_bytes :
      (n : ℕ) (c : Option ContextError) (xs : List StreamStep)
      → Reports started_at false
          (reads (suc n) (some eof) c ∷ xs)
          (released ∷ breaker_succeeded started_at ∷ [])
  ends_without_bytes :
      (c : Option ContextError) (xs : List StreamStep)
      → Reports started_at false
          (reads 0 (some eof) c ∷ xs)
          (released ∷ breaker_failed started_at ∷ [])
  read_canceled :
      (b : Bool) (n : ℕ) (e : Failure) (xs : List StreamStep)
      → Reports started_at b (reads n (some (broken e)) (some canceled) ∷ xs) (released ∷ [])
  read_timed_out :
      (b : Bool) (n : ℕ) (e : Failure) (xs : List StreamStep) (es : List Event)
      → Fails started_at e es
      → Reports started_at b (reads n (some (broken e)) (some deadline_exceeded) ∷ xs) es
  read_broken :
      (b : Bool) (n : ℕ) (e : Failure) (xs : List StreamStep) (es : List Event)
      → Fails started_at e es
      → Reports started_at b (reads n (some (broken e)) none ∷ xs) es
  stopped :
      (b : Bool) (err : Option Failure) (xs : List StreamStep)
      → Reports started_at b (closes err ∷ xs) (released ∷ [])
  canceled_context :
      (b : Bool) (err : Option Failure) (xs : List StreamStep)
      → Reports started_at b (context_ends canceled err ∷ xs) (released ∷ [])
  late :
      (b : Bool) (xs : List StreamStep)
      → Reports started_at b
          (context_ends deadline_exceeded none ∷ xs)
          (released ∷ breaker_failed started_at ∷ [])
  late_and_broken :
      (b : Bool) (e : Failure) (xs : List StreamStep) (es : List Event)
      → Fails started_at e es
      → Reports started_at b (context_ends deadline_exceeded (some e) ∷ xs) es

finish-api :
    (t : ℕ) (e : Failure) (a : ApiError)
    → e.api_error ≡ some a
    → Fails t e (released ∷ when a.circuit_failure (breaker_failed t))
finish-api t e a q = elim (Bool-cases a.circuit_failure) [
  | inl c ↦ subst (λ x. Fails t e (released ∷ when x (breaker_failed t))) (sym c) (counts a q c)
  | inr c ↦ subst (λ x. Fails t e (released ∷ when x (breaker_failed t))) (sym c) (spares a q c)
]

finish-other :
    (t : ℕ) (e : Failure)
    → e.api_error ≡ none
    → Fails t e (released ∷ when (not e.is_canceled) (breaker_failed t))
finish-other t e q = elim (Bool-cases e.is_canceled) [
  | inl c ↦
      subst (λ x. Fails t e (released ∷ when (not x) (breaker_failed t))) (sym c) (cancels q c)
  | inr c ↦ subst (λ x. Fails t e (released ∷ when (not x) (breaker_failed t))) (sym c) (breaks q c)
]

finish-Fails : (t : ℕ) (e : Failure) → Fails t e (finish t (stream_failed e))
unfolding finish circuit_failure
finish-Fails t e = elim (Option-cases e.api_error) [
  | inl q ↦
      subst (λ x. Fails t e (released ∷ when x (breaker_failed t))) (sym (circuit_none q))
        (finish-other t e q)
  | inr (a, q) ↦
      subst (λ x. Fails t e (released ∷ when x (breaker_failed t))) (sym (circuit_some a q))
        (finish-api t e a q)
]
  where
    circuit_none : e.api_error ≡ none → circuit_failure e none ≡ not e.is_canceled
    circuit_none q = rw (q, circuit_failure) refl

    circuit_some :
        (a : ApiError) → e.api_error ≡ some a → circuit_failure e none ≡ a.circuit_failure
    circuit_some a q = rw (q, circuit_failure) refl

some_bytes : (n : ℕ) (b : Bool) → (ltb 0 (suc n) || b) ≡ true
some_bytes n b = ground arith

bytes_before : (n : ℕ) → (ltb 0 n || true) ≡ true
bytes_before n = ground arith

finish_of-Reports :
    (t : ℕ) (b : Bool) (xs : List StreamStep) → Reports t b xs (finish_of t (first_end b xs))
unfolding finish circuit_failure
finish_of-Reports t b [] = unended b
finish_of-Reports t b (reads zero none c ∷ xs) = nothing_read b c xs _ (finish_of-Reports t b xs)
finish_of-Reports t b (reads (suc n) none c ∷ xs) = bytes_read b n c xs _ (
    subst (λ x. Reports t true xs (finish_of t (first_end x xs))) (sym (some_bytes n b))
      (finish_of-Reports t true xs))
finish_of-Reports t true (reads n (some eof) c ∷ xs) =
    subst (λ x. Reports t true (reads n (some eof) c ∷ xs) (finish t (read_outcome x eof c)))
      (sym (bytes_before n)) (ends_after_bytes n c xs)
finish_of-Reports t false (reads zero (some eof) c ∷ xs) = ends_without_bytes c xs
finish_of-Reports t false (reads (suc n) (some eof) c ∷ xs) =
    subst (λ x. Reports t false (reads (suc n) (some eof) c ∷ xs) (finish t (read_outcome x eof c)))
      (sym (some_bytes n false)) (ends_with_bytes n c xs)
finish_of-Reports t b (reads n (some (broken e)) (some canceled) ∷ xs) = read_canceled b n e xs
finish_of-Reports t b (reads n (some (broken e)) (some deadline_exceeded) ∷ xs) =
    read_timed_out b n e xs _ (finish-Fails t e)
finish_of-Reports t b (reads n (some (broken e)) none ∷ xs) =
    read_broken b n e xs _ (finish-Fails t e)
finish_of-Reports t b (closes err ∷ xs) = stopped b err xs
finish_of-Reports t b (context_ends canceled err ∷ xs) = canceled_context b err xs
finish_of-Reports t b (context_ends deadline_exceeded none ∷ xs) = late b xs
finish_of-Reports t b (context_ends deadline_exceeded (some e) ∷ xs) =
    late_and_broken b e xs _ (finish-Fails t e)

-- Whatever a client and the context do with the stream of an attempt, in any order, it reports once, at
-- the first read with an error, close or end of the context. It releases the slots, and tells the
-- breaker a success if this is a read of io.EOF with or after some bytes, and a failure if it is one of
-- io.EOF without bytes; nothing if the client closes the stream; and at another error or the end of the
-- context, nothing if the context was canceled, and otherwise a failure if the error counts for the
-- circuit, where the end of the context counts if the close that it makes returns no error.
pub run_steps-Reports :
    (started_at : ℕ) (xs : List StreamStep)
    → Reports started_at false xs (run_steps started_at xs new_stream).1
run_steps-Reports t xs =
    subst (Reports t false xs) (sym (run_steps_lem t xs)) (finish_of-Reports t false xs)
