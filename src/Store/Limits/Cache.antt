-- ===== src/Store/Limits/Cache.antt =====
-- The cache of quota limits (store/limits.go, CachedQuotaLimitStore). The entries stand in the order
-- of their last use, the newest first; the map from a key to its element is that list read by key,
-- since no two entries have one key. A call of the source stands between two locked parts of Get, and
-- before the locked part of Put; each locked part is one step. The counter of writes does not wrap. The
-- empty key, which Get answers before it takes the lock, is left out.
pub mod Bounds
pub mod World
pub mod Entries
pub mod Coherence
pub mod Freshness
use llmgw.Base.{
  ℕ, suc, ℤ, String, String-discrete, List, [], ◌∷◌, Option, none, some, Bool, ltb, if◌then◌else◌,
  ite, ℕ_discrete, take, length, leb,
}
use llmgw.Store.Clock.{add_time}
use llmgw.Store.Usage.{LimitSpec}

pub record CachedQuotaLimit : Type 0 where
  pub key : String
  pub limit : Option LimitSpec
  pub expires : ℕ

pub record CachedQuotaLimitStore : Type 0 where
  pub cache : List CachedQuotaLimit
  pub write_generation : ℕ

abbrev pub empty_cache : CachedQuotaLimitStore
empty_cache = record { cache = []; write_generation = 0 }

abbrev pub find_entry : String → List CachedQuotaLimit → Option CachedQuotaLimit
find_entry key [] = none
find_entry key (e ∷ es) = ite (String-discrete key e.key) (some e) (find_entry key es)

-- `removeCacheElementLocked`.
abbrev pub remove_entry : String → List CachedQuotaLimit → List CachedQuotaLimit
remove_entry key [] = []
remove_entry key (e ∷ es) =
    ite (String-discrete key e.key) (remove_entry key es) (e ∷ remove_entry key es)

abbrev pub prune_expired : ℕ → List CachedQuotaLimit → List CachedQuotaLimit
prune_expired now [] = []
prune_expired now (e ∷ es) =
    if ltb now e.expires then e ∷ prune_expired now es else prune_expired now es

-- A new entry evicts the entries used least recently beyond the capacity.
abbrev pub put_found :
    Option CachedQuotaLimit → ℕ → CachedQuotaLimit → List CachedQuotaLimit → List CachedQuotaLimit
put_found (some _) capacity entry es = entry ∷ remove_entry entry.key es
put_found none capacity entry es = take capacity (entry ∷ es)

-- `putCacheEntryLocked`.
unfoldable pub put_cache_entry :
    ℕ → CachedQuotaLimit → List CachedQuotaLimit → List CachedQuotaLimit
put_cache_entry capacity entry es = put_found (find_entry entry.key es) capacity entry es

-- The first locked part of Get: the cached limit, or the counter of writes for the second part.
pub data Lookup : Type 0 where
  hit : Option LimitSpec → Lookup
  miss : (write_generation : ℕ) → Lookup

abbrev pub looked_up :
    Option CachedQuotaLimit → String → ℕ → CachedQuotaLimitStore → CachedQuotaLimitStore × Lookup
looked_up none key now s = (s, miss s.write_generation)
looked_up (some e) key now s =
    let others = remove_entry key s.cache in
    if ltb now e.expires
    then (record s { cache = e ∷ others }, hit e.limit)
    else (record s { cache = others }, miss s.write_generation)

unfoldable pub begin_get : String → ℕ → CachedQuotaLimitStore → CachedQuotaLimitStore × Lookup
begin_get key now s = looked_up (find_entry key s.cache) key now s

module _ (capacity : ℕ) (ttl : ℤ) where
  abbrev pub stored : String → Option LimitSpec → ℕ → List CachedQuotaLimit → List CachedQuotaLimit
  stored key limit now es =
      put_cache_entry capacity (record { key = key; limit = limit; expires = add_time now ttl })
        (prune_expired now es)

  -- The second locked part of Get: what the source gave is kept, unless a Put came between.
  unfoldable pub finish_get :
      String → ℕ → Option LimitSpec → ℕ → CachedQuotaLimitStore → CachedQuotaLimitStore
  unfolding put_cache_entry
  finish_get key write_generation limit now s =
      ite (ℕ_discrete write_generation s.write_generation)
        (record s { cache = stored key limit now s.cache }) s

  -- The locked part of Put, once the source has the limit.
  unfoldable pub publish : String → LimitSpec → ℕ → CachedQuotaLimitStore → CachedQuotaLimitStore
  unfolding put_cache_entry
  publish key limit now s = record {
    cache = stored key (some limit) now s.cache;
    write_generation = suc s.write_generation;
  }
