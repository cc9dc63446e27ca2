-- ===== src/Gateway/Prefetch.antt =====
-- The first read of a provider's stream, and the reader that gives the bytes back
-- (gateway/gateway.go: prefetchStream and prefetchedReadCloser). A stream is the list of what its
-- successive reads return; a read past its end returns io.EOF, as Go's readers do. Bytes are numbers.
pub mod Replay
use llmgw.Base.{
  ℕ, zero, suc, ℤ, pos, String, List, [], ◌∷◌, ◌++◌, Option, none, some, Bool, take, drop,
}
use llmgw.Gateway.Errors.{Failure, ApiError, ContextError, new_error, as_failure, context_failure}

pub data StreamError : Type 0 where
  eof : StreamError
  broken : Failure → StreamError

-- One read: n bytes and an error, of which both or none may be there.
pub record Chunk : Type 0 where
  pub bytes : List ℕ
  pub error : Option StreamError

abbrev pub end_chunk : Chunk
end_chunk = record { bytes = []; error = some eof }

abbrev pub read_chunk : List Chunk → Chunk × List Chunk
read_chunk [] = (end_chunk, [])
read_chunk (c ∷ stream) = (c, stream)

-- `prefetchedReadCloser`: the bytes that are left of the first read, its error and the stream.
pub record PrefetchedReader : Type 0 where
  pub reader : List ℕ
  pub pending_err : Option StreamError
  pub tail : List Chunk

pub data Prefetch : Type 0 where
  prefetched : PrefetchedReader → Prefetch
  unread : Failure → Prefetch

abbrev pub upstream_error : String → String → Failure
upstream_error code message = as_failure (new_error (pos 502) "upstream_error" code message)

abbrev pub no_progress : Failure
no_progress =
    upstream_error "stream_no_progress" "provider stream made no progress before the first byte"

abbrev pub read_failed : Failure
read_failed = upstream_error "stream_read_failed" "provider stream failed before the first byte"

-- An error that holds an `APIError` is passed on.
abbrev pub api_or_read_failed : Failure → Failure
api_or_read_failed e = elim e.api_error [ some _ ↦ e | none ↦ read_failed ]

abbrev pub failed_first : StreamError → Failure
failed_first eof = upstream_error "empty_stream" "provider returned an empty stream"
failed_first (broken e) = api_or_read_failed e

-- A read that made progress or failed.
abbrev pub first_chunk : List ℕ → Option StreamError → List Chunk → Prefetch
first_chunk [] none stream = unread no_progress
first_chunk [] (some e) stream = unread (failed_first e)
first_chunk (b ∷ bytes) (some (broken e)) stream = unread (api_or_read_failed e)
first_chunk (b ∷ bytes) error stream =
    prefetched (record { reader = b ∷ bytes; pending_err = error; tail = stream })

-- What the loop makes of one read; `next` is what it makes of the reads after an empty one.
abbrev pub first_read :
    List ℕ → Option StreamError → Option ContextError → Prefetch → List Chunk → Prefetch
first_read (b ∷ bytes) error context next stream = first_chunk (b ∷ bytes) error stream
first_read [] (some e) context next stream = unread (failed_first e)
first_read [] none (some c) next stream = unread (context_failure c)
first_read [] none none next stream = next

-- The loop over `n` more reads, of which the first has the number `k`. `context k` is ctx.Err()
-- after it.
unfoldable pub prefetch_from : ℕ → ℕ → (ℕ → Option ContextError) → List Chunk → Prefetch
prefetch_from zero k context stream = unread no_progress
prefetch_from (suc n) k context stream =
    let read = read_chunk stream in
    let next = prefetch_from n (suc k) context read.1 in
    first_read read.0.bytes read.0.error (context k) next read.1

unfoldable pub prefetch_stream : (ℕ → Option ContextError) → List Chunk → Prefetch
unfolding prefetch_from
prefetch_stream context stream = prefetch_from 8 0 context stream

abbrev pub after_reader : Option StreamError → List Chunk → Chunk × PrefetchedReader
after_reader (some e) stream = (
  record { bytes = []; error = some e },
  record { reader = []; pending_err = none; tail = stream },
)
after_reader none stream =
    let read = read_chunk stream in
    (read.0, record { reader = []; pending_err = none; tail = read.1 })

-- `prefetchedReadCloser.Read`, into a buffer of the given size.
unfoldable pub read : ℕ → PrefetchedReader → Chunk × PrefetchedReader
read size r = elim r.reader [
  | [] ↦ after_reader r.pending_err r.tail
  | b ∷ bytes ↦ (
    record { bytes = take size (b ∷ bytes); error = none },
    record r { reader = drop size (b ∷ bytes) },
  )
]
