-- ===== src/Store/Holds.antt =====
-- The accounting of one scope in store/store.go: the admission check, the hold, its release, and
-- the primitive updates of values and counters.
use llmgw.Base.{
  ℕ, ℤ, pos, ◌+◌, ltb, leb_ℤ, eqb_ℤ, max_ℤ, ◌-ℤ◌, if◌then◌else◌, Bool, not, ◌&&◌, Option, none,
  some, List, [], ◌∷◌, put, delete,
}
use llmgw.Amounts.{zero64, saturating_add_nonnegative, exceeds_limit}
use llmgw.Store.Usage.{EstimatedUsage, estimated_total_tokens}
use llmgw.Store.Clock.{is_zero_time, time_until_next_minute}
use llmgw.Store.Keys.{QuotaKey, QuotaKey-discrete, quota_bucket_expiry_grace}
use llmgw.Store.State.{
  CounterEntry, ScopeReservation, Reservation, QuotaStore, value_or_zero, value_at, live_count,
  counter_value,
}

-- What a denied admission names.
pub data Dimension : Type 0 where
  max_parallel rpm tpm spend daily_tokens monthly_tokens : Dimension

-- The guards of `checkScope` in their order; `none` is admission.
unfoldable pub check_scope :
    QuotaStore → ScopeReservation → EstimatedUsage → ℕ → Bool → Option Dimension
unfolding counter_value exceeds_limit estimated_total_tokens
check_scope s scope estimate now top_up =
    let l = scope.limit in
    let k = scope.keys in
    let tokens = estimated_total_tokens estimate in
    if not top_up && exceeds_limit l.max_parallel (value_at s k.active_key ∷ pos 1 ∷ [])
    then some max_parallel
    else if not top_up && exceeds_limit l.rpm (counter_value s k.rpm_key now ∷ pos 1 ∷ [])
    then some rpm
    else if exceeds_limit l.tpm (counter_value s k.tpm_key now ∷ tokens ∷ [])
    then some tpm
    else if exceeds_limit l.max_spend_micros (
        value_at s k.spend_used_key
        ∷ value_at s k.spend_held_key
        ∷ estimate.estimated_spend_micros
        ∷ [])
    then some spend
    else if exceeds_limit l.daily_tokens
        (value_at s k.day_used_key ∷ value_at s k.day_held_key ∷ tokens ∷ [])
    then some daily_tokens
    else if exceeds_limit l.monthly_tokens
        (value_at s k.month_used_key ∷ value_at s k.month_held_key ∷ tokens ∷ [])
    then some monthly_tokens
    else none

-- The entry of a counter after `addCounter`, which reads the clock for itself at `at`.
abbrev pub bumped : Option CounterEntry → ℤ → ℕ → ℕ → CounterEntry
bumped entry delta ttl at = record {
  value = saturating_add_nonnegative (live_count entry at) delta;
  expires = at + ttl;
}

unfoldable pub add_counter : Option QuotaKey → ℤ → ℕ → ℕ → QuotaStore → QuotaStore
unfolding saturating_add_nonnegative
add_counter none delta ttl at s = s
add_counter (some k) delta ttl at s = if eqb_ℤ delta zero64 then s else record s {
  counters = put QuotaKey-discrete k (bumped (s.counters k) delta ttl at) s.counters;
}

-- A bucket that has already ended when its value is written is kept for an hour of grace.
abbrev pub grace_expiry : ℕ → ℕ → ℕ
grace_expiry expires at = if ltb at expires then expires else at + quota_bucket_expiry_grace

unfoldable pub add_value : Option QuotaKey → ℤ → ℕ → ℕ → QuotaStore → QuotaStore
unfolding saturating_add_nonnegative
add_value none delta expires at s = s
add_value (some k) delta expires at s =
    let v = saturating_add_nonnegative (value_or_zero (s.values k)) delta in
    if eqb_ℤ delta zero64 then s else record s {
      values = put QuotaKey-discrete k v s.values;
      value_expires =
          if is_zero_time expires
          then s.value_expires
          else put QuotaKey-discrete k (grace_expiry expires at) s.value_expires;
    }

unfoldable pub decr_value : Option QuotaKey → ℤ → QuotaStore → QuotaStore
decr_value none delta s = s
decr_value (some k) delta s =
    let v = value_or_zero (s.values k) -ℤ delta in
    if eqb_ℤ delta zero64
    then s
    else if leb_ℤ v zero64
    then record s {
      values = delete QuotaKey-discrete k s.values;
      value_expires = delete QuotaKey-discrete k s.value_expires;
    }
    else record s { values = put QuotaKey-discrete k v s.values }

-- now is at or after a time that is set.
abbrev pub has_passed : ℕ → ℕ → Bool
has_passed expires now = not (is_zero_time expires) && not (ltb now expires)

-- The value of a counter once a hold is settled at the actual amount.
abbrev pub reconciled : ℤ → ℤ → ℤ → ℤ
reconciled value held actual =
    let h = max_ℤ held zero64 in
    let a = max_ℤ actual zero64 in
    if leb_ℤ h a
    then saturating_add_nonnegative value (a -ℤ h)
    else saturating_add_nonnegative value (zero64 -ℤ (h -ℤ a))

abbrev pub settled_entry : Option CounterEntry → ℤ → ℤ → ℕ → Option CounterEntry
settled_entry none held actual now = none
settled_entry (some e) held actual now =
    let v = reconciled e.value held actual in
    if has_passed e.expires now
    then none
    else if eqb_ℤ v zero64
    then none
    else some (record e { value = v })

unfoldable pub reconcile_counter : Option QuotaKey → ℤ → ℤ → ℕ → QuotaStore → QuotaStore
unfolding saturating_add_nonnegative
reconcile_counter none held actual now s = s
reconcile_counter (some k) held actual now s = record s {
  counters = elim (settled_entry (s.counters k) held actual now) [
    | none ↦ delete QuotaKey-discrete k s.counters
    | some e ↦ put QuotaKey-discrete k e s.counters
  ];
}

-- `later j` is the clock reading of the j-th call.
unfoldable pub apply_scope_hold :
    (ℕ → ℕ) → ScopeReservation → EstimatedUsage → ℕ → Bool → QuotaStore → QuotaStore
unfolding add_value add_counter estimated_total_tokens time_until_next_minute
apply_scope_hold later scope estimate now top_up s =
    let k = scope.keys in
    let tokens = estimated_total_tokens estimate in
    let ttl = time_until_next_minute now in
    let first =
      if top_up
      then s
      else add_counter k.rpm_key (pos 1) ttl (later 1)
          (add_value k.active_key (pos 1) 0 (later 0) s) in
    add_value k.month_held_key tokens 0 (later 5) (
      add_value k.day_held_key tokens 0 (later 4) (
        add_value k.spend_held_key estimate.estimated_spend_micros 0 (later 3)
          (add_counter k.tpm_key tokens ttl (later 2) first)))

-- The body of the loop of `releaseHold`.
unfoldable pub release_scope : ScopeReservation → EstimatedUsage → ℤ → ℕ → QuotaStore → QuotaStore
unfolding decr_value reconcile_counter estimated_total_tokens
release_scope scope held actual_tpm now s =
    let k = scope.keys in
    let tokens = estimated_total_tokens held in
    decr_value k.month_held_key tokens (
      decr_value k.day_held_key tokens (
        decr_value k.spend_held_key held.estimated_spend_micros
          (decr_value k.active_key (pos 1) (reconcile_counter k.tpm_key tokens actual_tpm now s))))

unfoldable pub release_scopes :
    List ScopeReservation → EstimatedUsage → ℤ → ℕ → QuotaStore → QuotaStore
unfolding release_scope
release_scopes [] held actual_tpm now s = s
release_scopes (scope ∷ scopes) held actual_tpm now s =
    release_scopes scopes held actual_tpm now (release_scope scope held actual_tpm now s)

unfoldable pub release_hold : Reservation → ℤ → ℕ → QuotaStore → QuotaStore
unfolding release_scopes
release_hold res actual_tpm now s = release_scopes res.scopes res.held actual_tpm now s
