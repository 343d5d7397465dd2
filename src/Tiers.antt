-- ===== src/Tiers.antt =====
-- Subscription tiers: frontend-chart/src/lib/tierLimits.ts, and the roles that
-- frontend-chart/src/App.tsx derives from the same stored user.
--
-- What is read from storage is an argument: the saved role, the saved user and the saved settings,
-- as `storage.get` and `storage.getJson` return them. Limits are numbers that are not negative.
-- `toLowerCase` is modelled on ASCII: no other character becomes a letter of a tier's name, except
-- the Kelvin sign, and no name has a k.
pub mod Groups
pub mod Settings
pub mod Defaults
pub mod Clamp
pub mod Capacity
mod Tests
use test_v.Shared.{
  ℕ, ◌+◌, ◌*◌, min, max, Bool, true, false, ◌&&◌, ◌||◌, Option, none, some, get_or, List, [], ◌∷◌,
  map, if◌then◌else◌, leb,
}
use test_v.Shared.Text.{Text, codes, text_eq}

pub record TierLimits : Type 0 where
  pub max_history : ℕ
  pub compression_levels : ℕ
  pub max_indicators : ℕ
  pub custom_indicator_settings : Bool
  pub telegram_notifications : Bool
  pub history_days_1m : ℕ
  pub history_days_5m : ℕ
  pub history_days_15m : ℕ
  pub history_days_30m : ℕ
  pub history_days_1h : ℕ
  pub history_days_4h : ℕ
  pub workspaces_count : ℕ

pub data TierGroup : Type 0 where
  guest free pro vip admin : TierGroup

unfoldable pub default_tier_settings : TierGroup → TierLimits
default_tier_settings guest = record {
  max_history = 700;
  compression_levels = 1;
  max_indicators = 3;
  custom_indicator_settings = false;
  telegram_notifications = false;
  history_days_1m = 1;
  history_days_5m = 3;
  history_days_15m = 7;
  history_days_30m = 14;
  history_days_1h = 30;
  history_days_4h = 90;
  workspaces_count = 1;
}
default_tier_settings free = record {
  max_history = 700;
  compression_levels = 1;
  max_indicators = 3;
  custom_indicator_settings = false;
  telegram_notifications = false;
  history_days_1m = 1;
  history_days_5m = 3;
  history_days_15m = 7;
  history_days_30m = 14;
  history_days_1h = 30;
  history_days_4h = 90;
  workspaces_count = 1;
}
default_tier_settings pro = record {
  max_history = 1400;
  compression_levels = 2;
  max_indicators = 5;
  custom_indicator_settings = true;
  telegram_notifications = false;
  history_days_1m = 3;
  history_days_5m = 7;
  history_days_15m = 14;
  history_days_30m = 30;
  history_days_1h = 60;
  history_days_4h = 180;
  workspaces_count = 2;
}
default_tier_settings vip = record {
  max_history = 10000;
  compression_levels = 6;
  max_indicators = 15;
  custom_indicator_settings = true;
  telegram_notifications = true;
  history_days_1m = 7;
  history_days_5m = 14;
  history_days_15m = 30;
  history_days_30m = 60;
  history_days_1h = 120;
  history_days_4h = 360;
  workspaces_count = 2;
}
default_tier_settings admin = record {
  max_history = 10000;
  compression_levels = 6;
  max_indicators = 99;
  custom_indicator_settings = true;
  telegram_notifications = true;
  history_days_1m = 14;
  history_days_5m = 30;
  history_days_15m = 60;
  history_days_30m = 120;
  history_days_1h = 240;
  history_days_4h = 720;
  workspaces_count = 2;
}
