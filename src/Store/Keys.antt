-- ===== src/Store/Keys.antt =====
-- The accounting keys of store/store.go. The source joins a key from its parts by colons; here it
-- is those parts, and a bucket is named by its number (minute, day, month) instead of its date.
-- The empty string, for a dimension with no limit, is `none`.
use llmgw.Base.{
  ℕ, ℕ_discrete, ℤ, ℤ-discrete, String-discrete, ◌+◌, ◌*◌, ltb_ℤ, leb_ℤ, if◌then◌else◌, Option,
  none, some, ◌||◌,
}
use llmgw.Amounts.{zero64}
use llmgw.Store.Usage.{ScopeRef, LimitSpec}
use llmgw.Store.Clock.{
  minute_of, day_of, month_of, day_ns, hour_ns, first_day_of_month, budget_bucket_start, add_time,
}

pub data Bucket : Type 0 where
  forever : Bucket
  window : ℤ → ℕ → Bucket

pub data QuotaKey : Type 0 where
  active : ScopeRef → QuotaKey
  rpm tpm : ScopeRef → ℕ → QuotaKey
  spend_used spend_held : ScopeRef → Bucket → QuotaKey
  day_used day_held month_used month_held : ScopeRef → ℕ → QuotaKey

unfoldable pub QuotaKey-discrete : Discrete QuotaKey
QuotaKey-discrete = hlevel (ℕ_discrete, ℤ-discrete, String-discrete)

pub record QuotaKeys : Type 0 where
  pub active_key : Option QuotaKey
  pub rpm_key : Option QuotaKey
  pub tpm_key : Option QuotaKey
  pub spend_used_key : Option QuotaKey
  pub spend_held_key : Option QuotaKey
  pub day_used_key : Option QuotaKey
  pub day_held_key : Option QuotaKey
  pub month_used_key : Option QuotaKey
  pub month_held_key : Option QuotaKey

-- A time of 0 means that the value does not expire.
pub record QuotaExpiries : Type 0 where
  pub spend_used_at : ℕ
  pub day_used_at : ℕ
  pub month_used_at : ℕ

unfoldable pub budget_bucket : ℤ → ℕ → Bucket
unfolding budget_bucket_start
budget_bucket period now =
    if leb_ℤ period zero64 then forever else window period (budget_bucket_start period now)

-- A key is in use if its limit is positive.
abbrev pub key_if : ℤ → QuotaKey → Option QuotaKey
key_if limit k = if ltb_ℤ zero64 limit then some k else none

unfoldable pub quota_keys_for_scope : ScopeRef → LimitSpec → ℕ → QuotaKeys
unfolding budget_bucket minute_of day_of month_of
quota_keys_for_scope ref l now =
    let bucket = budget_bucket l.budget_duration now in
    let spends = ltb_ℤ zero64 l.max_spend_micros || ltb_ℤ zero64 l.soft_spend_micros in
    record {
      active_key = key_if l.max_parallel (active ref);
      rpm_key = key_if l.rpm (rpm ref (minute_of now));
      tpm_key = key_if l.tpm (tpm ref (minute_of now));
      spend_used_key = if spends then some (spend_used ref bucket) else none;
      spend_held_key = if spends then some (spend_held ref bucket) else none;
      day_used_key = key_if l.daily_tokens (day_used ref (day_of now));
      day_held_key = key_if l.daily_tokens (day_held ref (day_of now));
      month_used_key = key_if l.monthly_tokens (month_used ref (month_of now));
      month_held_key = key_if l.monthly_tokens (month_held ref (month_of now));
    }

abbrev pub quota_bucket_expiry_grace : ℕ
quota_bucket_expiry_grace = hour_ns

unfoldable pub quota_expiries_for_limit : LimitSpec → ℕ → QuotaExpiries
unfolding budget_bucket_start day_of month_of first_day_of_month
quota_expiries_for_limit l now = record {
  spend_used_at =
      if ltb_ℤ zero64 l.budget_duration
      then add_time (budget_bucket_start l.budget_duration now) l.budget_duration
        + quota_bucket_expiry_grace
      else 0;
  day_used_at =
      if ltb_ℤ zero64 l.daily_tokens
      then (day_of now + 1) * day_ns + quota_bucket_expiry_grace
      else 0;
  month_used_at =
      if ltb_ℤ zero64 l.monthly_tokens
      then first_day_of_month (month_of now + 1) * day_ns + quota_bucket_expiry_grace
      else 0;
}
