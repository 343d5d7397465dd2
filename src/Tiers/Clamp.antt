-- ===== src/Tiers/Clamp.antt =====
-- The limits under the saved settings.
use test_v.Shared.{◌≤◌, ◌≡◌, Option, none, some, arith, get_or, inl, inr, Option-cases}
use test_v.Shared.Text.{Text}
use test_v.Tiers.{TierGroup, guest, default_tier_settings}
use test_v.Tiers.Groups.{UserObj, active_group}
use test_v.Tiers.Settings.{SavedSettings, SavedLimits, limits_of, get_active_group_limits}

limits_of_range :
    (saved : Option SavedSettings) (g : TierGroup)
    → (1 ≤ (limits_of saved g).compression_levels) × ((limits_of saved g).compression_levels ≤ 6)
unfolding limits_of
limits_of_range none guest = omega arith
limits_of_range none _ = omega arith
limits_of_range (some saved) g = elim (Option-cases (saved g)) [
  | inl e ↦ rw e (omega arith)
  | inr (s, e) ↦ rw e (omega arith)
]

-- With settings saved for the active group, whoever the user is: between one and six compression
-- levels are granted, and the limits on indicators and history are the saved ones, or the defaults
-- where none is saved.
pub get_active_group_limits_lem :
    (user_role : Option Text) (profile_user : Option UserObj) (saved_role : Option Text)
    (saved_user : Option UserObj) (saved : SavedSettings) (s : SavedLimits)
    → saved (active_group user_role profile_user saved_role saved_user) ≡ some s
    → let (g, limits) =
        get_active_group_limits user_role profile_user saved_role saved_user (some saved) in
      (1 ≤ limits.compression_levels)
      × (limits.compression_levels ≤ 6)
      × (limits.max_indicators ≡ get_or s.max_indicators (default_tier_settings g).max_indicators)
      × (limits.max_history ≡ get_or s.max_history (default_tier_settings g).max_history)
unfolding get_active_group_limits
get_active_group_limits_lem user_role profile_user saved_role saved_user saved s h =
    let g = active_group user_role profile_user saved_role saved_user in
    let range = limits_of_range (some saved) g in (range.0, range.1, rw h, rw h)
