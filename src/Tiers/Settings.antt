-- ===== src/Tiers/Settings.antt =====
-- The limits of a group under the saved settings: the second half of `getActiveGroupLimits`
-- (frontend-chart/src/lib/tierLimits.ts).
use test_v.Shared.{ℕ, min, max, Bool, Option, none, some, get_or}
use test_v.Shared.Text.{Text}
use test_v.Tiers.{TierLimits, TierGroup, default_tier_settings}
use test_v.Tiers.Groups.{UserObj, active_group}

-- Saved limits of a group: the fields that are there.
pub record SavedLimits : Type 0 where
  pub max_history : Option ℕ
  pub compression_levels : Option ℕ
  pub max_indicators : Option ℕ
  pub custom_indicator_settings : Option Bool
  pub telegram_notifications : Option Bool
  pub history_days_1m : Option ℕ
  pub history_days_5m : Option ℕ
  pub history_days_15m : Option ℕ
  pub history_days_30m : Option ℕ
  pub history_days_1h : Option ℕ
  pub history_days_4h : Option ℕ
  pub workspaces_count : Option ℕ

-- `{ ...settings[k], ...parsed[k] }`
unfoldable pub merged : TierLimits → SavedLimits → TierLimits
merged d s = record {
  max_history = get_or s.max_history d.max_history;
  compression_levels = get_or s.compression_levels d.compression_levels;
  max_indicators = get_or s.max_indicators d.max_indicators;
  custom_indicator_settings = get_or s.custom_indicator_settings d.custom_indicator_settings;
  telegram_notifications = get_or s.telegram_notifications d.telegram_notifications;
  history_days_1m = get_or s.history_days_1m d.history_days_1m;
  history_days_5m = get_or s.history_days_5m d.history_days_5m;
  history_days_15m = get_or s.history_days_15m d.history_days_15m;
  history_days_30m = get_or s.history_days_30m d.history_days_30m;
  history_days_1h = get_or s.history_days_1h d.history_days_1h;
  history_days_4h = get_or s.history_days_4h d.history_days_4h;
  workspaces_count = get_or s.workspaces_count d.workspaces_count;
}

-- `Math.min(6, Math.max(1, s.compressionLevels))`
abbrev pub clamped : TierLimits → TierLimits
clamped t = record t { compression_levels = min 6 (max 1 t.compression_levels) }

-- One round of the loop over the groups.
abbrev pub group_settings : TierGroup → Option SavedLimits → TierLimits
group_settings g none = clamped (default_tier_settings g)
group_settings g (some s) = clamped (merged (default_tier_settings g) s)

-- The saved settings, by group; a group may be missing.
abbrev pub SavedSettings : Type 0
SavedSettings = TierGroup → Option SavedLimits

-- The second half: the limits of a group.
unfoldable pub limits_of : Option SavedSettings → TierGroup → TierLimits
unfolding merged default_tier_settings
limits_of none g = default_tier_settings g
limits_of (some saved) g = group_settings g (saved g)

unfoldable pub get_active_group_limits :
    Option Text
    → Option UserObj
    → Option Text
    → Option UserObj
    → Option SavedSettings
    → TierGroup × TierLimits
unfolding active_group limits_of
get_active_group_limits user_role profile_user saved_role saved_user saved_settings =
    let g = active_group user_role profile_user saved_role saved_user in
    (g, limits_of saved_settings g)
