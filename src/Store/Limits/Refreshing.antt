-- ===== src/Store/Limits/Refreshing.antt =====
-- The snapshot of quota limits (store/limits.go, RefreshingQuotaLimitStore). What the durable source
-- answers is an argument of each operation. Put, Refresh and Close take the update lock, so each is
-- one step. The health hook and its goroutine are left out, but for the counter that they watch; so
-- is what closing the source returns.
pub mod Serving
use llmgw.Base.{
  ℕ, suc, ◌≡◌, ◌≢◌, refl, inl, inr, ◌⊎◌, String, String-discrete, List, [], ◌∷◌, Option, none, some,
  Bool, true, false, not, ◌&&◌, if◌then◌else◌, lookup, insert, remove, ite, arith, Bool-cases,
  Option-cases,
}
use llmgw.Store.Usage.{LimitSpec}
use llmgw.Store.Limits.{
  LimitError, invalid_limit, store_closed, Reading, read, unread, validate_quota_limit,
  validate_quota_limit_map,
}

pub record RefreshingStore : Type 0 where
  pub snapshot : List (String × LimitSpec)
  pub closed : Bool
  pub last_err : Option LimitError
  pub health_generation : ℕ

-- `LoadAll` of the source.
pub data Loaded : Type 0 where
  loaded : List (String × LimitSpec) → Loaded
  load_failed : LimitError → Loaded

pub data SnapshotOperation : Type 0 where
  puts : String → LimitSpec → (source_err : Option LimitError) → SnapshotOperation
  refreshes : Loaded → SnapshotOperation
  closes : SnapshotOperation

unfoldable pub get_snapshot : (String → Bool) → String → RefreshingStore → Reading
get_snapshot is_empty key_id s =
    if s.closed
    then unread store_closed
    else read (if is_empty key_id then none else lookup String-discrete key_id s.snapshot)

module _ (is_blank is_provider_name : String → Bool) where
  abbrev pub checked : Loaded → Loaded
  checked (loaded limits) =
      if validate_quota_limit_map is_blank is_provider_name limits
      then loaded limits
      else load_failed invalid_limit
  checked (load_failed e) = load_failed e

  abbrev pub opened : Loaded → Option RefreshingStore
  opened (loaded limits) =
      some (record { snapshot = limits; closed = false; last_err = none; health_generation = 0 })
  opened (load_failed e) = none

  -- `NewRefreshingQuotaLimitStore`, which fails if the source cannot be loaded.
  unfoldable pub new_refreshing : Loaded → Option RefreshingStore
  unfolding validate_quota_limit_map
  new_refreshing answer = opened (checked answer)

  abbrev pub put_open :
      Bool
      → String
      → LimitSpec
      → Option LimitError
      → RefreshingStore
      → RefreshingStore × Option LimitError
  put_open false key_id limit source_err s = (s, some invalid_limit)
  put_open true key_id limit (some e) s = (s, some e)
  put_open true key_id limit none s =
      (record s { snapshot = insert String-discrete key_id limit s.snapshot }, none)

  abbrev pub refreshed : Loaded → RefreshingStore → RefreshingStore × Option LimitError
  refreshed (loaded limits) s = (
    record s { snapshot = limits; last_err = none; health_generation = suc s.health_generation },
    none,
  )
  refreshed (load_failed e) s =
      (record s { last_err = some e; health_generation = suc s.health_generation }, some e)

  abbrev pub operate_open :
      SnapshotOperation → RefreshingStore → RefreshingStore × Option LimitError
  operate_open (puts key_id limit source_err) s =
      put_open (validate_quota_limit is_blank is_provider_name key_id limit) key_id limit source_err
        s
  operate_open (refreshes answer) s = refreshed (checked answer) s
  operate_open closes s =
      (record s { closed = true; health_generation = suc s.health_generation }, none)

  abbrev pub closed_err : SnapshotOperation → Option LimitError
  closed_err closes = none
  closed_err _ = some store_closed

  -- `Put`, `Refresh` and `Close`. A second Close does nothing.
  unfoldable pub operate : SnapshotOperation → RefreshingStore → RefreshingStore × Option LimitError
  unfolding validate_quota_limit validate_quota_limit_map
  operate op s = if s.closed then (s, closed_err op) else operate_open op s

  unfoldable pub operate_all : List SnapshotOperation → RefreshingStore → RefreshingStore
  unfolding operate
  operate_all [] s = s
  operate_all (op ∷ ops) s = operate_all ops (operate op s).0
