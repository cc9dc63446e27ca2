-- ===== src/Store/Limits.antt =====
-- The stores of quota limits (store/limits.go): the checks of a limit (with gateway/config.go) and
-- the store in memory. A limit that is not found reads as none. `is_blank` stands for the test that
-- strings.TrimSpace leaves nothing, `is_provider_name` for `validateProviderName` returning nil.
pub mod Cache
pub mod Refreshing
use llmgw.Base.{
  ℤ, pos, String, String-discrete, List, [], ◌∷◌, Option, none, some, Bool, true, false, not, ◌&&◌,
  ltb_ℤ, leb_ℤ, if◌then◌else◌, put,
}
use llmgw.Amounts.{zero64}
use llmgw.Store.Usage.{LimitSpec}
use llmgw.Gateway.Errors.{ContextError}

-- The largest amount that Redis's Lua keeps exactly.
abbrev pub maximum_quota_value : ℤ
maximum_quota_value = pos 99_999_999_999_999

abbrev pub is_quota_value : ℤ → Bool
is_quota_value value = not (ltb_ℤ value zero64) && not (ltb_ℤ maximum_quota_value value)

abbrev pub all_of : (String → Bool) → List String → Bool
all_of test [] = true
all_of test (name ∷ names) = test name && all_of test names

pub data LimitError : Type 0 where
  context_ended : ContextError → LimitError
  invalid_limit : LimitError
  source_failed : LimitError
  store_closed : LimitError

abbrev pub Limits : Type 0
Limits = String → Option LimitSpec

pub data Reading : Type 0 where
  read : Option LimitSpec → Reading
  unread : LimitError → Reading

-- `MemoryQuotaLimitStore.Get` and `Put`. The context is read at the start and under the lock.
unfoldable pub get_limit : Option ContextError → Option ContextError → String → Limits → Reading
get_limit (some c) second key_id limits = unread (context_ended c)
get_limit none (some c) key_id limits = unread (context_ended c)
get_limit none none key_id limits = read (limits key_id)

module _ (is_blank is_provider_name : String → Bool) where
  -- `validateLimitSpec`, without the text of its error.
  unfoldable pub validate_limit_spec : LimitSpec → Bool
  validate_limit_spec limit =
      is_quota_value limit.rpm
      && is_quota_value limit.tpm
      && is_quota_value limit.max_parallel
      && is_quota_value limit.max_spend_micros
      && is_quota_value limit.soft_spend_micros
      && is_quota_value limit.daily_tokens
      && is_quota_value limit.monthly_tokens
      && is_quota_value limit.max_input_tokens
      && is_quota_value limit.max_output_tokens
      && not (ltb_ℤ limit.budget_duration zero64)
      && not (
          ltb_ℤ zero64 limit.max_spend_micros
          && ltb_ℤ limit.max_spend_micros limit.soft_spend_micros)
      && all_of is_provider_name limit.provider_allowlist

  unfoldable pub validate_quota_limit : String → LimitSpec → Bool
  unfolding validate_limit_spec
  validate_quota_limit key_id limit = not (is_blank key_id) && validate_limit_spec limit

  unfoldable pub validate_quota_limit_map : List (String × LimitSpec) → Bool
  unfolding validate_quota_limit
  validate_quota_limit_map [] = true
  validate_quota_limit_map ((key_id, limit) ∷ limits) =
      validate_quota_limit key_id limit && validate_quota_limit_map limits

  abbrev pub put_valid :
      Bool → Option ContextError → String → LimitSpec → Limits → Limits × Option LimitError
  put_valid false second key_id limit limits = (limits, some invalid_limit)
  put_valid true (some c) key_id limit limits = (limits, some (context_ended c))
  put_valid true none key_id limit limits = (put String-discrete key_id limit limits, none)

  unfoldable pub put_limit :
      Option ContextError
      → Option ContextError
      → String
      → LimitSpec
      → Limits
      → Limits × Option LimitError
  unfolding validate_quota_limit
  put_limit (some c) second key_id limit limits = (limits, some (context_ended c))
  put_limit none second key_id limit limits =
      put_valid (validate_quota_limit key_id limit) second key_id limit limits
