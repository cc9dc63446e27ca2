-- ===== src/Store/Limits/Cache/World.antt =====
-- The calls of Get and Put of one process, in every interleaving (store/limits.go): a step is a locked
-- part of a call, or a call of the source. Writes of one key do not overlap, and no one else writes
-- the source.
use llmgw.Base.{
  ℕ, ◌≡◌, ℤ, String, String-discrete, Option, none, some, ite, ℕ_discrete, put, delete,
}
use llmgw.Store.Usage.{LimitSpec}
use llmgw.Store.Limits.Cache.{
  CachedQuotaLimitStore, empty_cache, Lookup, hit, miss, begin_get, finish_get, publish,
}

-- A call of Get that missed: it asks the source, or has its answer.
pub data ReadState : Type 0 where
  unused : ReadState
  asking : (key : String) → (write_generation : ℕ) → ReadState
  answered_with : (key : String) → (write_generation : ℕ) → Option LimitSpec → ReadState

-- `reads i` is the i-th call of Get; `unpublished` holds the limits that a Put has written to the
-- source and not yet to the cache.
pub record World : Type 0 where
  pub source : String → Option LimitSpec
  pub cached : CachedQuotaLimitStore
  pub reads : ℕ → ReadState
  pub unpublished : String → Option LimitSpec

abbrev pub set_read : ℕ → ReadState → (ℕ → ReadState) → ℕ → ReadState
set_read i r reads j = ite (ℕ_discrete j i) r (reads j)

abbrev pub started : String → Lookup → ReadState
started key (hit limit) = unused
started key (miss generation) = asking key generation

unfoldable pub start_get : ℕ → String → ℕ → World → World
unfolding begin_get
start_get i key now w =
    let found = begin_get key now w.cached in
    record w { cached = found.0; reads = set_read i (started key found.1) w.reads }

module _ (capacity : ℕ) (ttl : ℤ) where
  -- A read of the source may fail (`drops`); a write that fails changes nothing.
  pub data Step : World → World → Type 0 where
    starts :
        (w : World) (i : ℕ) (key : String) (now : ℕ)
        → w.reads i ≡ unused
        → Step w (start_get i key now w)
    answers :
        (w : World) (i : ℕ) (key : String) (generation : ℕ)
        → w.reads i ≡ asking key generation
        → Step w
            (record w { reads = set_read i (answered_with key generation (w.source key)) w.reads })
    drops : (w : World) (i : ℕ) → Step w (record w { reads = set_read i unused w.reads })
    finishes :
        (w : World) (i : ℕ) (key : String) (generation : ℕ) (limit : Option LimitSpec) (now : ℕ)
        → w.reads i ≡ answered_with key generation limit
        → Step w (record w {
          cached = finish_get capacity ttl key generation limit now w.cached;
          reads = set_read i unused w.reads;
        })
    writes :
        (w : World) (key : String) (limit : LimitSpec)
        → w.unpublished key ≡ none
        → Step w (record w {
          source = put String-discrete key limit w.source;
          unpublished = put String-discrete key limit w.unpublished;
        })
    publishes :
        (w : World) (key : String) (limit : LimitSpec) (now : ℕ)
        → w.unpublished key ≡ some limit
        → Step w (record w {
          cached = publish capacity ttl key limit now w.cached;
          unpublished = delete String-discrete key w.unpublished;
        })

  pub data Reachable : World → Type 0 where
    begins :
        (source : String → Option LimitSpec)
        → Reachable (record {
          source = source;
          cached = empty_cache;
          reads = λ i. unused;
          unpublished = λ key. none;
        })
    steps : (w v : World) → Reachable w → Step w v → Reachable v
