-- ===== src/Examples/Limits.antt =====
-- A cache of two quota limits beside its source, and a snapshot of limits (store/limits.go).
use llmgw.Base.{
  ◌≡◌, refl, ℤ, pos, negsuc, delete, lookup, String, List, [], ◌∷◌, Option, none, some, Bool, true,
  false, arith, put, String-discrete,
}
use llmgw.Store.Usage.{LimitSpec}
use llmgw.Store.Limits.{source_failed, read, validate_quota_limit}
use llmgw.Store.Limits.Cache.{empty_cache, begin_get, hit, publish, finish_get}
use llmgw.Store.Limits.Cache.Bounds.{IsCache, cache-IsCache}
use llmgw.Store.Limits.Cache.World.{World, unused, writes, publishes, Reachable, begins, steps}
use llmgw.Store.Limits.Cache.Freshness.{begin_get-IsFresh}
use llmgw.Store.Limits.Refreshing.{
  RefreshingStore, loaded, load_failed, SnapshotOperation, puts, refreshes, get_snapshot,
  new_refreshing, operate, operate_all,
}
use llmgw.Store.Limits.Refreshing.Serving.{get_snapshot-IsValid, operate-keeps}
use llmgw.Examples.Stores.{key_limit}

abbrev limit : LimitSpec
limit = key_limit.limits

abbrev no_limits : String → Option LimitSpec
no_limits key = none

-- One second.
abbrev second : ℤ
second = pos 1_000_000_000

abbrev first_world : World
first_world = record {
  source = no_limits;
  cached = empty_cache;
  reads = λ i. unused;
  unpublished = λ key. none;
}

abbrev written_world : World
written_world = record first_world {
  source = put String-discrete "k1" limit no_limits;
  unpublished = put String-discrete "k1" limit (λ key. none);
}

abbrev published_world : World
published_world = record written_world {
  cached = publish 10 second "k1" limit 100 empty_cache;
  unpublished = delete String-discrete "k1" written_world.unpublished;
}

published_world-Reachable : Reachable 10 second published_world
unfolding String-discrete
published_world-Reachable =
    steps written_world published_world
      (steps first_world written_world (begins no_limits) (writes first_world "k1" limit refl))
      (publishes written_world "k1" limit 100 refl)

cached_limit : (begin_get "k1" 200 published_world.cached).1 ≡ hit (some limit)
unfolding begin_get publish String-discrete
cached_limit = refl

published_limit : published_world.unpublished "k1" ≡ none
unfolding String-discrete
published_limit = refl

begin_get-IsFresh_example : some limit ≡ published_world.source "k1"
begin_get-IsFresh_example =
    begin_get-IsFresh 10 second published_world "k1" 200 (some limit) published_world-Reachable
      cached_limit published_limit

-- Two overlapping writes of one key: the source has the newer limit, but the older one is published
-- last, and the cache keeps it until it expires.
overlapping_writes :
    (begin_get "k1" 200 (
      publish 10 second "k1" limit 101
        (publish 10 second "k1" (record limit { rpm = pos 20 }) 100 empty_cache))).1
    ≡ hit (some limit)
unfolding begin_get publish String-discrete
overlapping_writes = refl

cache-IsCache_example :
    IsCache 1 (begin_get "k1" 200 empty_cache).0.cache
    × IsCache 1 (finish_get 1 second "k1" 0 none 200 empty_cache).cache
    × IsCache 1 (publish 1 second "k1" limit 200 empty_cache).cache
cache-IsCache_example = cache-IsCache 1 second "k1" 200 0 none limit empty_cache (omega arith, tt)

abbrev never : String → Bool
never name = false

abbrev always : String → Bool
always name = true

abbrev opened_store : RefreshingStore
opened_store = record {
  snapshot = ("k1", limit) ∷ [];
  closed = false;
  last_err = none;
  health_generation = 0;
}

-- A failed refresh, and an invalid limit.
abbrev failing_operations : List SnapshotOperation
failing_operations =
    refreshes (load_failed source_failed) ∷ puts "k2" (record limit { rpm = negsuc 4 }) none ∷ []

opened_store_run : new_refreshing never always (loaded (("k1", limit) ∷ [])) ≡ some opened_store
unfolding new_refreshing
opened_store_run = refl

served_limit :
    get_snapshot never "k1" (operate_all never always failing_operations opened_store)
    ≡ read (some limit)
unfolding get_snapshot operate_all String-discrete lookup
served_limit = refl

get_snapshot-IsValid_example : validate_quota_limit never always "k1" limit ≡ true
get_snapshot-IsValid_example =
    get_snapshot-IsValid never always never (loaded (("k1", limit) ∷ [])) failing_operations
      opened_store "k1" limit opened_store_run served_limit

failed_refresh :
    (operate never always (refreshes (load_failed source_failed)) opened_store).1
    ≡ some source_failed
unfolding operate
failed_refresh = refl

operate-keeps_example :
    (operate never always (refreshes (load_failed source_failed)) opened_store).0.snapshot
    ≡ opened_store.snapshot
operate-keeps_example =
    operate-keeps never always (refreshes (load_failed source_failed)) opened_store source_failed
      failed_refresh
