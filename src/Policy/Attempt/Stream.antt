-- ===== src/Policy/Attempt/Stream.antt =====
-- The stream of an attempt (policy/attempt.go, attemptLifecycleStream), which owns the slots and
-- the breaker's outcome of its call. A read, a close and the end of the context are one step each.
pub mod Counts
pub mod Outcomes
pub mod Release
use llmgw.Base.{
  ℕ, zero, suc, List, [], ◌∷◌, ◌++◌, Option, none, some, Bool, true, false, ◌||◌, ltb,
  if◌then◌else◌,
}
use llmgw.Gateway.Errors.{Failure, ContextError, canceled, deadline_exceeded, context_failure}
use llmgw.Gateway.Prefetch.{StreamError, eof, broken}
use llmgw.Policy.Attempt.{Event, breaker_succeeded, breaker_failed, released, circuit_failure, when}

-- A failed stream carries its error.
pub data StreamOutcome : Type 0 where
  stream_stopped : StreamOutcome
  stream_succeeded : StreamOutcome
  stream_failed : Failure → StreamOutcome

-- `finished` and `closed` are the two `sync.Once`.
pub record AttemptStream : Type 0 where
  pub saw_bytes : Bool
  pub finished : Bool
  pub closed : Bool
  pub close_err : Option Failure

abbrev pub new_stream : AttemptStream
new_stream = record { saw_bytes = false; finished = false; closed = false; close_err = none }

-- A read of n bytes with an error, and what ctx.Err() is by then; a close, with what closing the
-- provider's stream returns if it is still open; the end of the context, likewise.
pub data StreamStep : Type 0 where
  reads : (n : ℕ) → Option StreamError → Option ContextError → StreamStep
  closes : Option Failure → StreamStep
  context_ends : ContextError → Option Failure → StreamStep

-- io.ErrUnexpectedEOF.
abbrev pub unexpected_eof : Failure
unexpected_eof = record { api_error = none; is_canceled = false; is_unbillable = false }

-- `finish`, which releases the slots and reports to the breaker the call's outcome.
unfoldable pub finish : ℕ → StreamOutcome → List Event
unfolding circuit_failure
finish started_at stream_stopped = released ∷ []
finish started_at stream_succeeded = released ∷ breaker_succeeded started_at ∷ []
finish started_at (stream_failed e) =
    released ∷ when (circuit_failure e none) (breaker_failed started_at)

unfoldable pub complete_stream : ℕ → StreamOutcome → AttemptStream → AttemptStream × List Event
unfolding finish
complete_stream started_at outcome s =
    if s.finished then (s, []) else (record s { finished = true }, finish started_at outcome)

abbrev pub close_underlying : Option Failure → AttemptStream → AttemptStream
close_underlying err s = if s.closed then s else record s { closed = true; close_err = err }

abbrev pub first_stream_error : Option Failure → Failure → Failure
first_stream_error none e = e
first_stream_error (some e) _ = e

-- What a read that returns an error makes of the stream.
abbrev pub read_outcome : Bool → StreamError → Option ContextError → StreamOutcome
read_outcome saw_bytes eof context =
    if saw_bytes then stream_succeeded else stream_failed unexpected_eof
read_outcome saw_bytes (broken e) (some canceled) = stream_stopped
read_outcome saw_bytes (broken e) (some deadline_exceeded) = stream_failed e
read_outcome saw_bytes (broken e) none = stream_failed e

abbrev pub context_outcome : ContextError → Option Failure → StreamOutcome
context_outcome canceled close_err = stream_stopped
context_outcome deadline_exceeded close_err =
    stream_failed (first_stream_error close_err (context_failure deadline_exceeded))

abbrev pub mark_bytes : ℕ → AttemptStream → AttemptStream
mark_bytes n s = record s { saw_bytes = ltb 0 n || s.saw_bytes }

unfoldable pub step_stream : ℕ → StreamStep → AttemptStream → AttemptStream × List Event
unfolding complete_stream
step_stream started_at (reads n none context) s = (mark_bytes n s, [])
step_stream started_at (reads n (some e) context) s =
    let seen = mark_bytes n s in
    complete_stream started_at (read_outcome seen.saw_bytes e context) seen
step_stream started_at (closes err) s =
    complete_stream started_at stream_stopped (close_underlying err s)
step_stream started_at (context_ends c err) s =
    let shut = close_underlying err s in
    complete_stream started_at (context_outcome c shut.close_err) shut

-- Steps in the order in which they happen.
unfoldable pub run_steps : ℕ → List StreamStep → AttemptStream → AttemptStream × List Event
unfolding step_stream
run_steps started_at [] s = (s, [])
run_steps started_at (x ∷ xs) s =
    let first = step_stream started_at x s in
    let rest = run_steps started_at xs first.0 in (rest.0, first.1 ++ rest.1)
