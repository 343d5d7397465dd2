-- ===== src/Tiers/Defaults.antt =====
-- The default limits from tier to tier.
use test_v.Shared.{ℕ, ◌≤◌, Bool, true, false, ◌≡◌, ◌⊎◌, arith}
use test_v.Tiers.{TierLimits, TierGroup, guest, free, pro, vip, admin, default_tier_settings}

-- A switch of the lower tier is on in the higher one too.
abbrev pub Implies : Bool → Bool → Type 0
Implies a b = (a ≡ false) ⊎ (b ≡ true)

-- No limit of the first is larger than that of the second.
pub record IsWithin (a b : TierLimits) : Type 0 where
  pub max_history : a.max_history ≤ b.max_history
  pub compression_levels : a.compression_levels ≤ b.compression_levels
  pub max_indicators : a.max_indicators ≤ b.max_indicators
  pub history_days_1m : a.history_days_1m ≤ b.history_days_1m
  pub history_days_5m : a.history_days_5m ≤ b.history_days_5m
  pub history_days_15m : a.history_days_15m ≤ b.history_days_15m
  pub history_days_30m : a.history_days_30m ≤ b.history_days_30m
  pub history_days_1h : a.history_days_1h ≤ b.history_days_1h
  pub history_days_4h : a.history_days_4h ≤ b.history_days_4h
  pub workspaces_count : a.workspaces_count ≤ b.workspaces_count
  pub custom_indicator_settings : Implies a.custom_indicator_settings b.custom_indicator_settings
  pub telegram_notifications : Implies a.telegram_notifications b.telegram_notifications

abbrev pub rank : TierGroup → ℕ
rank guest = 0
rank free = 1
rank pro = 2
rank vip = 3
rank admin = 4

-- A higher tier has no smaller limit than a lower one, in any of the twelve settings.
pub default_tier_settings-IsWithin :
    (a b : TierGroup)
    → rank a ≤ rank b
    → IsWithin (default_tier_settings a) (default_tier_settings b)
unfolding default_tier_settings
default_tier_settings-IsWithin guest b h = ground arith
default_tier_settings-IsWithin free b h = ground arith
default_tier_settings-IsWithin pro b h = ground arith
default_tier_settings-IsWithin vip b h = ground arith
default_tier_settings-IsWithin admin b h = ground arith
