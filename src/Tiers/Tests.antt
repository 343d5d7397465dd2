-- ===== src/Tiers/Tests.antt =====
-- Tests and witnesses for the tiers.
use test_v.Shared.{◌≤◌, ◌≡◌, refl, none, some, get_or, true}
use test_v.Shared.Text.{codes, text_eq}
use test_v.Tiers.{TierGroup, guest, free, pro, vip, admin, default_tier_settings}
use test_v.Tiers.Groups.{UserObj, group_of_role, group_of_user}
use test_v.Tiers.Settings.{SavedLimits, SavedSettings, get_active_group_limits}
use test_v.Tiers.Clamp

vip_role : group_of_role (codes "VIP") ≡ vip
unfolding group_of_role text_eq
vip_role = refl

-- A subscription `Pro` beside no tier gives the limits of the group free.
pro_subscription :
    group_of_user (record { tier = none; role = none; subscription_level = some (codes "Pro") })
    ≡ free
unfolding group_of_user text_eq
pro_subscription = refl

abbrev ten_levels : SavedLimits
ten_levels = record {
  max_history = none;
  compression_levels = some 10;
  max_indicators = some 4;
  custom_indicator_settings = none;
  telegram_notifications = some true;
  history_days_1m = none;
  history_days_5m = none;
  history_days_15m = none;
  history_days_30m = none;
  history_days_1h = none;
  history_days_4h = none;
  workspaces_count = none;
}

abbrev only_pro : SavedSettings
only_pro pro = some ten_levels
only_pro _ = none

get_active_group_limits_lem_example :
    let (g, limits) = get_active_group_limits (some (codes "Pro")) none none none (some only_pro) in
    (1 ≤ limits.compression_levels)
    × (limits.compression_levels ≤ 6)
    × (limits.max_indicators ≡ get_or (some 4) (default_tier_settings g).max_indicators)
    × (limits.max_history ≡ get_or none (default_tier_settings g).max_history)
unfolding test_v.Tiers.Groups.active_group group_of_role text_eq
get_active_group_limits_lem_example =
    Clamp.get_active_group_limits_lem (some (codes "Pro")) none none none only_pro ten_levels refl
