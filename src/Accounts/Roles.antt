-- ===== src/Accounts/Roles.antt =====
-- The role of the signed-in user: the state `userRole` of frontend-chart/src/App.tsx, and the change
-- of the tier in frontend-chart/src/components/UserProfile.tsx.
--
-- An empty `avatar` stands for the picture that App.tsx imports. In UserProfile.tsx the fields of
-- the form are arguments, and the dates of a payment too: the clock is not modelled.
use test_v.Shared.{Bool, true, false, ◌||◌, Option, none, some, [], ◌++◌, if◌then◌else◌}
use test_v.Shared.Text.{Text, codes, text_eq}
use test_v.Tiers.{TierGroup, guest, free, pro, vip, admin}
use test_v.Tiers.Groups.{UserObj, says, tier_of, to_lower_case}
use test_v.Accounts.{StoredUser, Stored, user_obj}

-- The five roles, as App.tsx spells them.
unfoldable pub role_name : TierGroup → Text
role_name guest = codes "Guest"
role_name free = codes "Free"
role_name pro = codes "Pro"
role_name vip = codes "VIP"
role_name admin = codes "Admin"

-- The role of a stored user; the same tests stand in the initial state and in the listener.
unfoldable pub role_of_user : UserObj → TierGroup
unfolding tier_of
role_of_user u =
    if text_eq (tier_of u) (codes "admin")
      || says u.role (codes "Admin")
      || says u.subscription_level (codes "Admin")
    then admin
    else if text_eq (tier_of u) (codes "vip") || says u.subscription_level (codes "VIP")
    then vip
    else if text_eq (tier_of u) (codes "pro") || says u.subscription_level (codes "Pro")
    then pro
    else if text_eq (tier_of u) (codes "free") || says u.subscription_level (codes "Free")
    then free
    else guest

-- The saved role, if it is one of the five.
abbrev pub known_role : Option Text → Option TierGroup
known_role r =
    if says r (codes "Guest")
    then some guest
    else if says r (codes "Free")
    then some free
    else if says r (codes "Pro")
    then some pro
    else if says r (codes "VIP")
    then some vip
    else if says r (codes "Admin")
    then some admin
    else none

abbrev pub role_by_user : Option StoredUser → TierGroup
role_by_user none = admin
role_by_user (some u) = role_of_user (user_obj u)

abbrev pub role_by : Option TierGroup → Option StoredUser → TierGroup
role_by (some r) u = r
role_by none u = role_by_user u

-- The initial state of `userRole`.
unfoldable pub initial_role : Stored → TierGroup
unfolding role_of_user
initial_role s = role_by (known_role s.saved_role) s.user

-- `handleUserRoleChange`: the profile is `prev`, or a new one.
unfoldable pub changed_user : TierGroup → Option StoredUser → StoredUser
unfolding role_name
changed_user r (some prev) = record prev {
  tier = some (role_name r);
  role = some (role_name r);
  subscription_level = some (role_name r);
}
changed_user r none = record {
  name = role_name r;
  email = to_lower_case (role_name r) ++ codes "@procluster.io";
  avatar = [];
  reg_date = some (codes "2026-05-29");
  tier = some (role_name r);
  role = some (role_name r);
  subscription_level = some (role_name r);
}

-- The states `userRole` and `profileUser` of App.tsx beside the storage.
pub record Session : Type 0 where
  pub user_role : TierGroup
  pub profile : Option StoredUser
  pub stored : Stored

abbrev pub updated_by : Option StoredUser → Session → Session
updated_by none s = record s { profile = none }
updated_by (some u) s = record {
  user_role = role_of_user (user_obj u);
  profile = some u;
  stored = record s.stored { saved_role = some (role_name (role_of_user (user_obj u))) };
}

-- The listener of `procluster_user_updated` and `storage`.
unfoldable pub handle_update : Session → Session
handle_update s = updated_by s.stored.user s

-- `handleUserRoleChange`. It sets and saves the role, queues the update of the profile and sends the
-- event that the listener hears. React applies the update, which also writes the stored user, at the
-- next render: the listener still reads the user that was stored before. Only where no update of the
-- App waits, as after setting the role that it has, does React run it at once (`eager`).
unfoldable pub handle_user_role_change : Bool → TierGroup → Session → Session
unfolding changed_user handle_update
handle_user_role_change eager r s =
    let changed = changed_user r s.profile in
    let saved = record s.stored { saved_role = some (role_name r) } in
    if eager
    then handle_update (record {
      user_role = r;
      profile = some changed;
      stored = record saved { user = some changed };
    })
    else let heard = handle_update (record s { user_role = r; stored = saved }) in
      record heard { stored = record heard.stored { user = some changed } }

-- The fields of the profile form.
pub record ProfileForm : Type 0 where
  pub nickname : Text
  pub email : Text
  pub avatar : Text
  pub reg_date : Text

abbrev pub profile_user : ProfileForm → Text → StoredUser
profile_user form level = record {
  name = form.nickname;
  email = form.email;
  avatar = form.avatar;
  reg_date = some form.reg_date;
  tier = some level;
  role = none;
  subscription_level = none;
}

abbrev pub is_free : TierGroup → Bool
is_free free = true
is_free _ = false

-- `executeDirectUpgrade` with the dates of the payment, before it announces the new user: App.tsx
-- gets it by `onUpdateUser`, the rest goes to the storage.
unfoldable pub execute_direct_upgrade : TierGroup → Text → Text → ProfileForm → Session → Session
execute_direct_upgrade target pay exp form s = record s {
  profile = some (profile_user form (role_name target));
  stored = record s.stored {
    user = some (profile_user form (role_name target));
    saved_role = some (role_name target);
    payment_date = if is_free target then none else some pay;
    expire_date = if is_free target then none else some exp;
  };
}
