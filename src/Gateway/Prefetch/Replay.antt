-- ===== src/Gateway/Prefetch/Replay.antt =====
-- The reader after the prefetch gives the stream's own bytes (gateway/gateway.go).
use llmgw.Base.{◌+◌, length, ℕ, suc, ◌≢◌, List, [], ◌∷◌, ◌++◌, Option, none, some}
use llmgw.Gateway.Errors.{Failure}
use llmgw.Gateway.Prefetch.{
  StreamError, eof, Chunk, PrefetchedReader, Prefetch, prefetched, unread, read,
}

-- All the bytes of a stream up to its first error, and the error.
abbrev pub contents : List Chunk → List ℕ × StreamError
contents [] = ([], eof)
contents (c ∷ stream) =
    let rest = contents stream in
    elim c.error [ some e ↦ (c.bytes, e) | none ↦ (c.bytes ++ rest.0, rest.1) ]

abbrev pub rest_of : Option StreamError → List Chunk → List ℕ × StreamError
rest_of (some e) stream = ([], e)
rest_of none stream = contents stream

abbrev pub contents_left : PrefetchedReader → List ℕ × StreamError
contents_left r = let rest = rest_of r.pending_err r.tail in (r.reader ++ rest.0, rest.1)

unread-prefetched : (e : Failure) (r : PrefetchedReader) → unread e ≢ prefetched r
unread-prefetched e r = λ h. cc

-- What is left after a read: nothing after an error, which is the stream's.
abbrev pub left_by : Chunk × PrefetchedReader → List ℕ × StreamError
left_by (c, r) = elim c.error [
  | some e ↦ (c.bytes, e)
  | none ↦ (c.bytes ++ (contents_left r).0, (contents_left r).1)
]

-- Reads go on until one returns an error.
pub data Reading : Type 0 where
  reading : PrefetchedReader → Reading
  ended : StreamError → Reading

abbrev pub continued : Option StreamError → List ℕ → List ℕ × Reading → List ℕ × Reading
continued (some e) bytes rest = (bytes, ended e)
continued none bytes rest = (bytes ++ rest.0, rest.1)

-- The bytes of reads into buffers of the given sizes up to the first error, and how they end.
unfoldable pub read_all : List ℕ → PrefetchedReader → List ℕ × Reading
unfolding read
read_all [] r = ([], reading r)
read_all (size ∷ sizes) r =
    let first = read size r in continued first.0.error first.0.bytes (read_all sizes first.1)

-- The bytes that are still to come, and the error after them.
abbrev pub still_in : Reading → List ℕ × StreamError
still_in (reading r) = contents_left r
still_in (ended e) = ([], e)

abbrev after : List ℕ × Reading → List ℕ × StreamError
after p = (p.0 ++ (still_in p.1).0, (still_in p.1).1)

-- How many reads a reader takes at most, the one with the error included.
abbrev pub reads_left : PrefetchedReader → ℕ
reads_left r = suc (length r.reader + length r.tail)

abbrev pub IsEnded : Reading → Type 0
IsEnded (reading r) = ⊥
IsEnded (ended e) = Unit
