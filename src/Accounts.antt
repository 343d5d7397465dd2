-- ===== src/Accounts.antt =====
-- The signed-in user: frontend-chart/src/auth/stubs.ts, and the role that
-- frontend-chart/src/App.tsx and frontend-chart/src/components/UserProfile.tsx keep beside it.
--
-- The state is what local storage holds under `procluster_user`, `procluster_role`,
-- `procluster_user_password` and the two dates of a payment. Text fields that an object may lack are
-- options.
pub mod Auth
pub mod Roles
pub mod RoundTrip
pub mod Checkout
pub mod Paid
mod Tests
use test_v.Shared.{Bool, true, false, Option, none, some}
use test_v.Shared.Text.{Text}
use test_v.Tiers.Groups.{UserObj}

pub record StoredUser : Type 0 where
  pub name : Text
  pub email : Text
  pub avatar : Text
  pub reg_date : Option Text
  pub tier : Option Text
  pub role : Option Text
  pub subscription_level : Option Text

pub record Stored : Type 0 where
  pub user : Option StoredUser
  pub saved_role : Option Text
  pub password : Option Text
  pub payment_date : Option Text
  pub expire_date : Option Text

abbrev pub user_obj : StoredUser → UserObj
user_obj u = record { tier = u.tier; role = u.role; subscription_level = u.subscription_level }
