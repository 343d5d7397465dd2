-- ===== src/Tiers/Capacity.antt =====
-- How many candles a tier keeps: `getMaxCandlesForInterval` and `parseInterval` of
-- frontend-chart/src/App.tsx. Limits have all their fields, so the values after `??` are not needed.
-- An interval is one of the strings that the code tests for, or another.
use test_v.Shared.{ℕ, zero, suc, ◌*◌, ◌≡◌, Option, none, some, arith}
use test_v.Tiers.{TierLimits}

pub data Interval : Type 0 where
  m1 m5 m15 m30 h1 h4 other_interval : Interval

-- `limits.maxHistory || 700`
abbrev pub or_700 : ℕ → ℕ
or_700 zero = 700
or_700 (suc k) = suc k

unfoldable pub get_max_candles_for_interval : Interval → TierLimits → ℕ
get_max_candles_for_interval m1 limits = limits.history_days_1m * 24 * 60
get_max_candles_for_interval m5 limits = limits.history_days_5m * 24 * 12
get_max_candles_for_interval m15 limits = limits.history_days_15m * 24 * 4
get_max_candles_for_interval m30 limits = limits.history_days_30m * 24 * 2
get_max_candles_for_interval h1 limits = limits.history_days_1h * 24
get_max_candles_for_interval h4 limits = limits.history_days_4h * 6
get_max_candles_for_interval other_interval limits = or_700 limits.max_history

-- Minutes.
unfoldable pub parse_interval : Interval → ℕ
parse_interval m1 = 1
parse_interval m5 = 5
parse_interval m15 = 15
parse_interval m30 = 30
parse_interval h1 = 60
parse_interval h4 = 240
parse_interval other_interval = 15

-- The days of history that the limits grant at an interval.
abbrev pub days_at : Interval → TierLimits → Option ℕ
days_at m1 limits = some limits.history_days_1m
days_at m5 limits = some limits.history_days_5m
days_at m15 limits = some limits.history_days_15m
days_at m30 limits = some limits.history_days_30m
days_at h1 limits = some limits.history_days_1h
days_at h4 limits = some limits.history_days_4h
days_at other_interval limits = none

-- At each of the six intervals the candles that are kept span exactly the days of the limits.
pub get_max_candles_for_interval_lem :
    (i : Interval) (limits : TierLimits) (days : ℕ)
    → days_at i limits ≡ some days
    → get_max_candles_for_interval i limits * parse_interval i ≡ days * 1440
unfolding get_max_candles_for_interval parse_interval
get_max_candles_for_interval_lem m1 limits days h = ground (arith, h)
get_max_candles_for_interval_lem _ limits days h = ground (arith, h)
