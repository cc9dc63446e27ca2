-- ===== src/Store/Report.antt =====
-- `GetUsage` of `MemoryQuotaStore` (store/limits.go).
use llmgw.Base.{ℕ, ℤ, if◌then◌else◌}
use llmgw.Store.Usage.{ScopedLimit}
use llmgw.Store.Keys.{quota_keys_for_scope}
use llmgw.Store.State.{QuotaStore, value_at, counter_value}
use llmgw.Store.Outcome.{Result, ok, err, context_done, Context, is_done}
use llmgw.Store.Cleanup.{cleanup_expired}

pub record QuotaUsage : Type 0 where
  pub active_requests : ℤ
  pub rpm_current : ℤ
  pub tpm_current : ℤ
  pub spend_used_micros : ℤ
  pub spend_held_micros : ℤ
  pub daily_used_tokens : ℤ
  pub daily_held_tokens : ℤ
  pub month_used_tokens : ℤ
  pub month_held_tokens : ℤ

abbrev pub usage_of : QuotaStore → ScopedLimit → ℕ → QuotaUsage
usage_of s scope now =
    let k = quota_keys_for_scope scope.ref scope.limits now in
    record {
      active_requests = value_at s k.active_key;
      rpm_current = counter_value s k.rpm_key now;
      tpm_current = counter_value s k.tpm_key now;
      spend_used_micros = value_at s k.spend_used_key;
      spend_held_micros = value_at s k.spend_held_key;
      daily_used_tokens = value_at s k.day_used_key;
      daily_held_tokens = value_at s k.day_held_key;
      month_used_tokens = value_at s k.month_used_key;
      month_held_tokens = value_at s k.month_held_key;
    }

-- `GetUsage` cleans the store as well.
unfoldable pub get_usage : Context → ℕ → ScopedLimit → QuotaStore → QuotaStore × Result QuotaUsage
unfolding cleanup_expired quota_keys_for_scope counter_value
get_usage ctx now scope s =
    let cleaned = cleanup_expired now s in
    if is_done ctx then (s, err context_done) else (cleaned, ok (usage_of cleaned scope now))
