-- ===== src/Tiers/Groups.antt =====
-- The group of a user: the first half of `getActiveGroupLimits`
-- (frontend-chart/src/lib/tierLimits.ts).
use test_v.Shared.{
  ◌+◌, Bool, false, ◌&&◌, ◌||◌, Option, none, some, get_or, [], ◌∷◌, map, if◌then◌else◌, leb,
}
use test_v.Shared.Text.{Text, codes, text_eq}
use test_v.Tiers.{TierGroup, guest, free, pro, vip, admin}

-- The stored user, as far as its tier goes.
pub record UserObj : Type 0 where
  pub tier : Option Text
  pub role : Option Text
  pub subscription_level : Option Text

abbrev pub to_lower_case : Text → Text
to_lower_case s = map (λ c. if leb 65 c && leb c 90 then c + 32 else c) s

-- `x && …`: present and not empty.
abbrev pub truthy : Option Text → Option Text
truthy none = none
truthy (some []) = none
truthy (some (c ∷ cs)) = some (c ∷ cs)

-- `x === s`
abbrev pub says : Option Text → Text → Bool
says none s = false
says (some t) s = text_eq t s

-- The chain of tests on a role; an unknown role leaves the group at guest.
unfoldable pub group_of_role : Text → TierGroup
group_of_role role =
    let r = to_lower_case role in
    if text_eq r (codes "admin")
    then admin
    else if text_eq r (codes "vip")
    then vip
    else if text_eq r (codes "pro")
    then pro
    else if text_eq r (codes "free")
    then free
    else guest

-- `(userObj.tier || "Free").toLowerCase()`
unfoldable pub tier_of : UserObj → Text
tier_of u = to_lower_case (get_or (truthy u.tier) (codes "Free"))

unfoldable pub group_of_user : UserObj → TierGroup
unfolding tier_of
group_of_user u =
    if text_eq (tier_of u) (codes "admin")
      || says u.role (codes "Admin")
      || says u.subscription_level (codes "Admin")
    then admin
    else if text_eq (tier_of u) (codes "vip") || says u.subscription_level (codes "VIP")
    then vip
    else if text_eq (tier_of u) (codes "pro")
        || text_eq (tier_of u) (codes "rpo")
        || says u.subscription_level (codes "RPO")
    then pro
    else if text_eq (tier_of u) (codes "free")
    then free
    else guest

-- `profileUser || storage.getJson("procluster_user", null)`
abbrev pub or_user : Option UserObj → Option UserObj → Option UserObj
or_user none saved = saved
or_user (some u) saved = some u

abbrev pub group_by_user : Option UserObj → TierGroup
group_by_user none = guest
group_by_user (some u) = group_of_user u

abbrev pub group_by_saved : Option Text → Option UserObj → TierGroup
group_by_saved none user = group_by_user user
group_by_saved (some r) user = group_of_role r

abbrev pub group_by_role : Option Text → Option Text → Option UserObj → TierGroup
group_by_role none saved user = group_by_saved saved user
group_by_role (some r) saved user = group_of_role r

-- The first half of `getActiveGroupLimits`.
unfoldable pub active_group :
    Option Text → Option UserObj → Option Text → Option UserObj → TierGroup
unfolding group_of_role group_of_user
active_group user_role profile_user saved_role saved_user =
    group_by_role (truthy user_role) (truthy saved_role) (or_user profile_user saved_user)
