-- ===== src/Accounts/Tests.antt =====
-- Tests and witnesses for the accounts.
use test_v.Shared.{false, ◌≡◌, refl, none, some, List, [], ◌∷◌}
use test_v.Shared.Text.{codes, text_eq}
use test_v.Tiers.{guest, free, vip, admin}
use test_v.Tiers.Groups.{UserObj, tier_of, group_of_user}
use test_v.Accounts.{Stored, user_obj}
use test_v.Accounts.Roles.{
  Session, ProfileForm, role_of_user, initial_role, changed_user, handle_user_role_change,
  handle_update, profile_user, role_name,
}
use test_v.Accounts.RoundTrip
use test_v.Accounts.RoundTrip.{role_or}
use test_v.Accounts.Checkout.{
  Checkout, CheckoutEvent, choose, trc20, start_payment_checkout, continue_to_deposit,
  trigger_verify_simulation, timer_runs, close_dialog, exit_ends, commit_payment_success_upgrade,
  pro_plan, vip_plan, says_paid, activated, checkout_run,
}
use test_v.Accounts.Paid

abbrev empty : Stored
empty = record {
  user = none;
  saved_role = none;
  password = none;
  payment_date = none;
  expire_date = none;
}

abbrev fresh : Session
fresh = record { user_role = guest; profile = none; stored = empty }

abbrev form : ProfileForm
form = record {
  nickname = codes "Ann";
  email = codes "ann@mail.io";
  avatar = [];
  reg_date = codes "2026-01-01";
}

-- A user of the free tier, who is stored.
abbrev signed_in : Session
signed_in = record {
  user_role = free;
  profile = some (profile_user form (codes "Free"));
  stored = record empty {
    user = some (profile_user form (codes "Free"));
    saved_role = some (codes "Free");
  };
}

-- Nothing is stored: the role is that of an admin.
fresh_role : initial_role empty ≡ admin
unfolding initial_role
fresh_role = refl

handle_user_role_change-round_trip_example :
    let next = handle_update (handle_user_role_change false vip signed_in) in
    let first = handle_user_role_change false vip signed_in in
    (next.user_role ≡ vip)
    × (next.profile ≡ some (changed_user vip signed_in.profile))
    × (handle_update next ≡ next)
    × (initial_role next.stored ≡ vip)
    × (group_of_user (user_obj (changed_user vip signed_in.profile)) ≡ vip)
    × (first.profile ≡ signed_in.stored.user)
    × (first.user_role ≡ role_or vip signed_in.stored.user)
handle_user_role_change-round_trip_example =
    RoundTrip.handle_user_role_change-round_trip false vip signed_in

-- A free user chooses VIP: the App goes on showing the free role, and saves it.
still_free : (handle_user_role_change false vip signed_in).user_role ≡ free
unfolding handle_user_role_change handle_update role_of_user changed_user role_name tier_of text_eq
still_free = refl

-- A restart at this moment finds the free role, too.
saved_free : initial_role (handle_user_role_change false vip signed_in).stored ≡ free
unfolding initial_role handle_user_role_change handle_update role_of_user changed_user role_name
    tier_of text_eq
saved_free = refl

abbrev vip_user : UserObj
vip_user = record {
  tier = some (codes "vIp");
  role = none;
  subscription_level = some (codes "VIP");
}

group_of_user-eq-role_of_user_example : group_of_user vip_user ≡ role_of_user vip_user
unfolding tier_of text_eq
group_of_user-eq-role_of_user_example =
    RoundTrip.group_of_user-eq-role_of_user vip_user refl refl refl refl

abbrev closed : Checkout
closed = record {
  active_payment_plan = none;
  payment_step = choose;
  payment_network = trc20;
  exiting = none;
  timers = 0;
  session = fresh;
}

abbrev finish : CheckoutEvent
finish = commit_payment_success_upgrade (codes "2026-01-01") (codes "2026-01-31") form

abbrev one_payment : List CheckoutEvent
one_payment =
    start_payment_checkout vip_plan
    ∷ continue_to_deposit
    ∷ trigger_verify_simulation
    ∷ timer_runs
    ∷ finish
    ∷ exit_ends
    ∷ finish
    ∷ []

paid_once : (checkout_run one_payment closed).1 ≡ says_paid vip_plan ∷ activated vip_plan ∷ []
unfolding checkout_run
paid_once = refl

-- The button that finishes the payment is pressed again while the dialog disappears.
abbrev pressed_twice : List CheckoutEvent
pressed_twice =
    start_payment_checkout vip_plan
    ∷ continue_to_deposit
    ∷ trigger_verify_simulation
    ∷ timer_runs
    ∷ finish
    ∷ finish
    ∷ []

activated_twice :
    (checkout_run pressed_twice closed).1
    ≡ says_paid vip_plan ∷ activated vip_plan ∷ activated vip_plan ∷ []
unfolding checkout_run
activated_twice = refl

-- The dialog is closed while a payment is verified, and opened for the other plan.
abbrev two_plans : List CheckoutEvent
two_plans =
    start_payment_checkout pro_plan
    ∷ continue_to_deposit
    ∷ trigger_verify_simulation
    ∷ close_dialog
    ∷ exit_ends
    ∷ start_payment_checkout vip_plan
    ∷ timer_runs
    ∷ finish
    ∷ []

other_plan_activated :
    (checkout_run two_plans closed).1 ≡ says_paid pro_plan ∷ activated vip_plan ∷ []
unfolding checkout_run
other_plan_activated = refl
