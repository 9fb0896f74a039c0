-- ===== src/Collector/Clock.antt =====
-- cmd/collector/main.go, lines 162 to 179: the time of the next look at the GeoIP database, and the
-- level of the log.
use formation_web_analytics.Base.{
  ℕ, ◌+◌, ◌-◌, ◌*◌, ◌/◌, ◌%◌, ◌^◌, ◌<◌, ◌≤◌, ◌≡◌, arith, Bytes, codes, bytes_eq, if◌then◌else◌,
}

-- 24 hours, in nanoseconds
abbrev pub day : ℕ
day = 24 * 60 * 60 * 10 ^ 9

-- `time.Date(now.Year(), now.Month(), now.Day()+1, 0, 0, 0, 0, time.UTC)` of a time in nanoseconds
-- since the start of year 1, UTC: the start of the next of its days of 24 hours
unfoldable pub next_midnight : ℕ → ℕ
next_midnight now = (now / day + 1) * day

-- `durationUntilNextGeoIPReload`
unfoldable pub duration_until_next_reload : ℕ → ℕ
unfolding next_midnight
duration_until_next_reload now = next_midnight now - now

-- The wait is more than nothing and at most 24 hours, it ends at a midnight, and no midnight comes
-- before its end: the reload is tried once a day.
pub duration_until_next_reload_lem :
    (now : ℕ)
    → let d = duration_until_next_reload now in
      (0 < d) × (d ≤ day) × ((now + d) % day ≡ 0) × ((t : ℕ) → now < t → t < now + d → 0 < t % day)
unfolding duration_until_next_reload
duration_until_next_reload_lem now =
    (omega arith, omega arith, omega arith, λ t. λ h. λ k. omega arith)

pub data Level : Type 0 where
  debug info warn error : Level

-- `parseLevel`
unfoldable pub parse_level : Bytes → Level
unfolding bytes_eq
parse_level raw =
    if bytes_eq raw (codes "debug")
    then debug
    else if bytes_eq raw (codes "warn")
    then warn
    else if bytes_eq raw (codes "error")
    then error
    else info
