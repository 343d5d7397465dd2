-- ===== src/Accounts/Auth.antt =====
-- Signing in and out: frontend-chart/src/auth/stubs.ts.
use test_v.Shared.{Bool, true, false, not, ◌||◌, Option, none, some, [], ◌∷◌, ◌++◌, if◌then◌else◌}
use test_v.Shared.Text.{Text, codes, text_eq}
use test_v.Accounts.{StoredUser, Stored}

pub record AuthUser : Type 0 where
  pub name : Text
  pub email : Text
  pub avatar : Text

-- `{ success: false, error }` or `{ success: true, user }`
pub data AuthResult : Type 0 where
  failed : Text → AuthResult
  succeeded : AuthUser → AuthResult

-- `x || d`
abbrev pub or_else : Text → Text → Text
or_else [] d = d
or_else (c ∷ cs) d = c ∷ cs

abbrev pub is_empty : Text → Bool
is_empty [] = true
is_empty (c ∷ cs) = false

abbrev pub current : Option StoredUser → Option AuthUser
current none = none
current (some u) =
    some (record { name = or_else u.name (codes "User"); email = u.email; avatar = u.avatar })

unfoldable pub get_current_user : Stored → Option AuthUser
get_current_user s = current s.user

-- `JSON.stringify({ ...user, tier, role, subscriptionLevel })`
abbrev pub stored_as : AuthUser → Text → Option Text → StoredUser
stored_as user level subscription = record {
  name = user.name;
  email = user.email;
  avatar = user.avatar;
  reg_date = none;
  tier = some level;
  role = some level;
  subscription_level = subscription;
}

abbrev pub with_user : Option StoredUser → Stored → Stored
with_user u s = record s { user = u }

unfoldable pub login_user : Text → Text → Stored → AuthResult × Stored
login_user name password s =
    if is_empty name || is_empty password
    then (failed (codes "Fill all fields"), s)
    else let user : AuthUser = record {
      name = name;
      email = name ++ codes "@procluster.local";
      avatar = [];
    } in
      (succeeded user, with_user (some (stored_as user (codes "Admin") (some (codes "Admin")))) s)

unfoldable pub register_user : Text → Text → Text → Text → Stored → AuthResult × Stored
register_user name email password confirm s =
    if not (text_eq password confirm)
    then (failed (codes "Passwords don't match"), s)
    else let user : AuthUser = record { name = name; email = email; avatar = [] } in
      (succeeded user, with_user (some (stored_as user (codes "Free") (some (codes "Free")))) s)

unfoldable pub authenticate_with_google : Stored → AuthUser × Stored
authenticate_with_google s =
    let user : AuthUser = record {
      name = codes "User";
      email = codes "user@gmail.com";
      avatar = [];
    } in
    (user, with_user (some (stored_as user (codes "Free") none)) s)

unfoldable pub authenticate_with_admin : Stored → AuthUser × Stored
authenticate_with_admin s =
    let user : AuthUser = record {
      name = codes "Admin";
      email = codes "admin@procluster.io";
      avatar = [];
    } in
    (user, with_user (some (stored_as user (codes "Admin") (some (codes "Admin")))) s)

unfoldable pub logout_user : Stored → Stored
logout_user s = with_user none s
