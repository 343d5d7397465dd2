-- ===== src/Accounts/Checkout.antt =====
-- The dialog of a payment in frontend-chart/src/components/UserProfile.tsx: its steps, and the timer
-- that stands for the verification.
--
-- The dialog covers the page while it is shown: the buttons of the plans are pressed without it, those
-- of a step only in this step. After the plan is taken back, AnimatePresence keeps the dialog that was
-- shown, with the plan and the step of its last rendering in its handlers, until its exit animation
-- ends; its buttons can be pressed in the meantime. Dates and the fields of the form are arguments.
use test_v.Shared.{
  ℕ, suc, ◌-◌, Bool, true, false, Option, none, some, List, [], ◌∷◌, ◌++◌, if◌then◌else◌, ltb,
}
use test_v.Shared.Text.{Text}
use test_v.Tiers.{TierGroup, pro, vip}
use test_v.Accounts.Roles.{Session, ProfileForm, execute_direct_upgrade}

pub data PaidPlan : Type 0 where
  pro_plan vip_plan : PaidPlan

pub data PaymentStep : Type 0 where
  choose deposit verifying success : PaymentStep

pub data PaymentNetwork : Type 0 where
  trc20 erc20 bep20 : PaymentNetwork

-- `exiting` is what a dialog that disappears shows. `timers` counts the calls of setTimeout that have
-- not run.
pub record Checkout : Type 0 where
  pub active_payment_plan : Option PaidPlan
  pub payment_step : PaymentStep
  pub payment_network : PaymentNetwork
  pub exiting : Option (PaidPlan × PaymentStep)
  pub timers : ℕ
  pub session : Session

pub data CheckoutEvent : Type 0 where
  start_payment_checkout : PaidPlan → CheckoutEvent
  set_payment_network : PaymentNetwork → CheckoutEvent
  continue_to_deposit trigger_verify_simulation timer_runs close_dialog exit_ends leave_profile :
      CheckoutEvent
  commit_payment_success_upgrade : Text → Text → ProfileForm → CheckoutEvent

-- What happens besides the state: the user says that a plan is paid, and a plan is activated.
pub data PaymentNote : Type 0 where
  says_paid activated : PaidPlan → PaymentNote

unfoldable pub plan_tier : PaidPlan → TierGroup
plan_tier pro_plan = pro
plan_tier vip_plan = vip

abbrev pub is_step : PaymentStep → PaymentStep → Bool
is_step choose choose = true
is_step deposit deposit = true
is_step verifying verifying = true
is_step success success = true
is_step choose deposit = false
is_step choose verifying = false
is_step choose success = false
is_step deposit choose = false
is_step deposit verifying = false
is_step deposit success = false
is_step verifying choose = false
is_step verifying deposit = false
is_step verifying success = false
is_step success choose = false
is_step success deposit = false
is_step success verifying = false

unfoldable pub start_checkout : PaidPlan → Checkout → Checkout
start_checkout p c = record c {
  active_payment_plan = some p;
  payment_step = choose;
  payment_network = trc20;
}

unfoldable pub trigger_verify : Checkout → Checkout
trigger_verify c = record c { payment_step = verifying; timers = suc c.timers }

-- The dialog that is on the screen.
abbrev pub shown_by :
    Option PaidPlan
    → PaymentStep
    → Option (PaidPlan × PaymentStep)
    → Option (PaidPlan × PaymentStep)
shown_by (some p) step exiting = some (p, step)
shown_by none step exiting = exiting

unfoldable pub shown : Checkout → Option (PaidPlan × PaymentStep)
shown c = shown_by c.active_payment_plan c.payment_step c.exiting

-- `setActivePaymentPlan(null)`
unfoldable pub take_back : Checkout → Checkout
unfolding shown
take_back c = record c { active_payment_plan = none; exiting = shown c }

unfoldable pub commit_upgrade : Text → Text → ProfileForm → PaidPlan → Checkout → Checkout
unfolding execute_direct_upgrade plan_tier take_back
commit_upgrade pay exp form p c = record (take_back c) {
  session = execute_direct_upgrade (plan_tier p) pay exp form c.session;
}

-- The profile view is left, which removes the dialog with its state; it comes again with its first
-- state, and the timers of before no longer reach it.
unfoldable pub remount : Checkout → Checkout
remount c = record c {
  active_payment_plan = none;
  payment_step = choose;
  payment_network = trc20;
  exiting = none;
  timers = 0;
}

-- A button of the dialog with this plan and step; one that is not there does nothing.
unfoldable pub press :
    CheckoutEvent → Option (PaidPlan × PaymentStep) → Checkout → Checkout × List PaymentNote
unfolding trigger_verify commit_upgrade
press e none c = (c, [])
press (set_payment_network w) (some (p, step)) c =
    ((if is_step step choose then record c { payment_network = w } else c), [])
press continue_to_deposit (some (p, step)) c =
    ((if is_step step choose then record c { payment_step = deposit } else c), [])
press trigger_verify_simulation (some (p, step)) c =
    if is_step step deposit then (trigger_verify c, says_paid p ∷ []) else (c, [])
press (commit_payment_success_upgrade pay exp form) (some (p, step)) c =
    if is_step step success then (commit_upgrade pay exp form p c, activated p ∷ []) else (c, [])
press e (some (p, step)) c = (c, [])

-- An event of the dialog, of its timers or of its animation.
unfoldable pub checkout_step : CheckoutEvent → Checkout → Checkout × List PaymentNote
unfolding start_checkout take_back shown press remount
checkout_step (start_payment_checkout p) c = elim (shown c) [
  | none ↦ (start_checkout p c, [])
  | some d ↦ (c, [])
]
checkout_step timer_runs c =
    (if ltb 0 c.timers then record c { payment_step = success; timers = c.timers - 1 } else c, [])
checkout_step close_dialog c = (take_back c, [])
checkout_step exit_ends c = (record c { exiting = none }, [])
checkout_step leave_profile c = (remount c, [])
checkout_step e c = press e (shown c) c

unfoldable pub checkout_run : List CheckoutEvent → Checkout → Checkout × List PaymentNote
unfolding checkout_step
checkout_run [] c = (c, [])
checkout_run (e ∷ es) c =
    let (c', out) = checkout_step e c in let (c'', more) = checkout_run es c' in (c'', out ++ more)
