-- ===== src/Store/Usage.antt =====
-- The records of gateway/types.go and gateway/config.go that the stores pass around, and the
-- normalisation of amounts in store/store.go.
use llmgw.Base.{
  ℤ, ℤ-discrete, String, String-discrete, List, ◌-ℤ◌, ltb_ℤ, leb_ℤ, if◌then◌else◌, pos,
}
use llmgw.Amounts.{zero64, max64, nonneg, saturating_usage_add}

pub data ScopeKind : Type 0 where
  scope_key : ScopeKind

pub record ScopeRef : Type 0 where
  pub kind : ScopeKind
  pub id : String

pub record EstimatedUsage : Type 0 where
  pub input_tokens : ℤ
  pub reserved_output_tokens : ℤ
  pub estimated_spend_micros : ℤ

pub record ActualUsage : Type 0 where
  pub input_tokens : ℤ
  pub output_tokens : ℤ
  pub spend_micros : ℤ

-- A duration is an int64 number of nanoseconds.
pub record LimitSpec : Type 0 where
  pub rpm : ℤ
  pub tpm : ℤ
  pub max_parallel : ℤ
  pub max_spend_micros : ℤ
  pub soft_spend_micros : ℤ
  pub daily_tokens : ℤ
  pub monthly_tokens : ℤ
  pub budget_duration : ℤ
  pub max_input_tokens : ℤ
  pub max_output_tokens : ℤ
  pub model_allowlist : List String
  pub provider_allowlist : List String

pub record ScopedLimit : Type 0 where
  pub ref : ScopeRef
  pub limits : LimitSpec

pub record QuotaTicket : Type 0 where
  pub request_id : String
  pub scopes : List ScopeRef

unfoldable pub ScopeRef-discrete : Discrete ScopeRef
ScopeRef-discrete = hlevel String-discrete

unfoldable pub EstimatedUsage-discrete : Discrete EstimatedUsage
EstimatedUsage-discrete = hlevel ℤ-discrete

-- `reflect.DeepEqual`, which tells a nil slice from an empty one; the model has one empty list.
unfoldable pub LimitSpec-discrete : Discrete LimitSpec
LimitSpec-discrete = hlevel (String-discrete, ℤ-discrete)

unfoldable pub estimated_total_tokens : EstimatedUsage → ℤ
estimated_total_tokens u = saturating_usage_add u.input_tokens u.reserved_output_tokens

unfoldable pub actual_total_tokens : ActualUsage → ℤ
actual_total_tokens u = saturating_usage_add u.input_tokens u.output_tokens

unfoldable pub normalize_estimated_usage : EstimatedUsage → EstimatedUsage
normalize_estimated_usage u =
    let input = nonneg u.input_tokens in
    let output = nonneg u.reserved_output_tokens in
    let spend = nonneg u.estimated_spend_micros in
    let over = ltb_ℤ (max64 -ℤ output) input in
    record {
      input_tokens = if over then max64 else input;
      reserved_output_tokens = if over then zero64 else output;
      estimated_spend_micros = spend;
    }

unfoldable pub normalize_actual_usage : ActualUsage → ActualUsage
normalize_actual_usage u =
    let input = nonneg u.input_tokens in
    let output = nonneg u.output_tokens in
    let spend = nonneg u.spend_micros in
    let over = ltb_ℤ (max64 -ℤ output) input in
    record {
      input_tokens = if over then max64 else input;
      output_tokens = if over then zero64 else output;
      spend_micros = spend;
    }

-- 10 minutes.
abbrev pub default_reservation_ttl : ℤ
default_reservation_ttl = pos 600_000_000_000

unfoldable pub normalize_reservation_ttl : ℤ → ℤ
normalize_reservation_ttl ttl = if leb_ℤ ttl zero64 then default_reservation_ttl else ttl
