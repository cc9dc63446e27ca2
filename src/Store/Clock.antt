-- ===== src/Store/Clock.antt =====
-- The times of store/store.go: nanoseconds since Go's zero time (January 1 of the year 1, UTC), so
-- that 0 is the zero `time.Time`. Durations are int64 nanoseconds.
use llmgw.Base.{
  ℕ, ℤ, pos, negsuc, pos_part, neg_part, sub_ℕ, ◌+◌, ◌-◌, ◌*◌, ◌/◌, ◌%◌, ltb_ℤ, leb_ℤ, wrap64, ◌+ℤ◌,
  ◌-ℤ◌, if◌then◌else◌, Bool, ◌==◌,
}
use llmgw.Amounts.{zero64}

abbrev pub minute_ns : ℕ
minute_ns = 60_000_000_000

abbrev pub hour_ns : ℕ
hour_ns = 3_600_000_000_000

abbrev pub day_ns : ℕ
day_ns = 86_400_000_000_000

-- 1970-01-01 in nanoseconds since the year 1.
abbrev pub unix_epoch : ℕ
unix_epoch = 62_135_596_800_000_000_000

-- t.Add(d); a time before the year 1 does not occur.
abbrev pub add_time : ℕ → ℤ → ℕ
add_time t d = t + pos_part d - neg_part d

-- t.IsZero()
abbrev pub is_zero_time : ℕ → Bool
is_zero_time t = t == 0

unfoldable pub minute_of : ℕ → ℕ
minute_of t = t / minute_ns

unfoldable pub day_of : ℕ → ℕ
day_of t = t / day_ns

-- now.Truncate(time.Minute).Add(time.Minute).Sub(now)
unfoldable pub time_until_next_minute : ℕ → ℕ
time_until_next_minute now = now / minute_ns * minute_ns + minute_ns - now

-- The proleptic Gregorian calendar: days are counted from 0001-01-01, and the computation from
-- the 1st of March of the year 0, 306 days before.
abbrev pub days_before_year_1 : ℕ
days_before_year_1 = 306

-- The number of months since January of the year 0 that have passed on a day.
unfoldable pub month_of_day : ℕ → ℕ
month_of_day day =
    let d = day + days_before_year_1 in
    let era = d / 146_097 in
    let doe = d % 146_097 in
    let yoe = (doe + doe / 36_524 - doe / 1_460 - doe / 146_096) / 365 in
    let doy = doe + yoe / 100 - 365 * yoe - yoe / 4 in
    let march_month = (5 * doy + 2) / 153 in (era * 400 + yoe) * 12 + march_month + 2

-- The day on which such a month begins.
unfoldable pub first_day_of_month : ℕ → ℕ
first_day_of_month month =
    let m = month - 2 in
    let year = m / 12 in
    let mp = m % 12 in
    year * 365 + year / 4 + year / 400 + (153 * mp + 2) / 5 - year / 100 - days_before_year_1

unfoldable pub month_of : ℕ → ℕ
unfolding month_of_day day_of
month_of t = month_of_day (day_of t)

-- t.UnixNano(), an int64.
unfoldable pub unix_nano : ℕ → ℤ
unix_nano t = wrap64 (sub_ℕ t unix_epoch)

-- Go's %: the remainder has the sign of the dividend.
unfoldable pub rem_ℤ : ℤ → ℤ → ℤ
rem_ℤ (pos a) b = pos (a % (pos_part b + neg_part b))
rem_ℤ (negsuc a) b = sub_ℕ 0 ((a + 1) % (pos_part b + neg_part b))

unfoldable pub budget_bucket_start : ℤ → ℕ → ℕ
unfolding unix_nano rem_ℤ
budget_bucket_start period now =
    let nanos = unix_nano now in
    let r = rem_ℤ nanos period in
    let remainder = if ltb_ℤ r zero64 then r +ℤ period else r in
    if leb_ℤ period zero64 then 0 else add_time unix_epoch (nanos -ℤ remainder)
