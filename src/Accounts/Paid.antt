-- ===== src/Accounts/Paid.antt =====
-- When the dialog of a payment activates a plan.
use test_v.Shared.{ℕ, false, ◌≡◌, Option, none, some, List, [], ◌∷◌, ◌++◌}
use test_v.Accounts.Checkout.{
  PaidPlan, PaymentStep, choose, deposit, verifying, success, Checkout, CheckoutEvent,
  start_payment_checkout, set_payment_network, continue_to_deposit, trigger_verify_simulation,
  timer_runs, close_dialog, exit_ends, leave_profile, commit_payment_success_upgrade, PaymentNote,
  says_paid, activated, is_step, checkout_step,
}

-- Each activated plan is the one that was said to be paid last, and none is activated twice for it.
abbrev pub IsPaidFor : Option PaidPlan → List PaymentNote → Type 0
IsPaidFor paid [] = Unit
IsPaidFor paid (says_paid p ∷ es) = IsPaidFor (some p) es
IsPaidFor paid (activated p ∷ es) = (paid ≡ some p) × IsPaidFor none es

-- The dialog is not closed while a payment is verified, and the buttons that say that a payment was
-- sent and that finish it are not pressed on a dialog that is disappearing.
abbrev pub IsPatientAt : CheckoutEvent → PaymentStep → Option (PaidPlan × PaymentStep) → Type 0
IsPatientAt close_dialog step exiting = is_step step verifying ≡ false
IsPatientAt trigger_verify_simulation step exiting = exiting ≡ none
IsPatientAt (commit_payment_success_upgrade pay exp form) step exiting = exiting ≡ none
IsPatientAt (start_payment_checkout p) step exiting = Unit
IsPatientAt (set_payment_network w) step exiting = Unit
IsPatientAt continue_to_deposit step exiting = Unit
IsPatientAt timer_runs step exiting = Unit
IsPatientAt exit_ends step exiting = Unit
IsPatientAt leave_profile step exiting = Unit

abbrev pub IsPatient : List CheckoutEvent → Checkout → Type 0
IsPatient [] c = Unit
IsPatient (e ∷ es) c = IsPatientAt e c.payment_step c.exiting × IsPatient es (checkout_step e c).0

-- What holds between the dialog and the plan that was said to be paid and is not activated yet.
abbrev Matches : PaymentStep → ℕ → Option PaidPlan → Option PaidPlan → Type 0
Matches choose timers plan paid = timers ≡ 0
Matches deposit timers plan paid = timers ≡ 0
Matches verifying timers plan paid =
    (timers ≡ 1) × (p : PaidPlan) × (plan ≡ some p) × (paid ≡ some p)
Matches success timers none paid = timers ≡ 0
Matches success timers (some p) paid = (timers ≡ 0) × (paid ≡ some p)

abbrev Fits : Checkout → Option PaidPlan → Type 0
Fits c paid = Matches c.payment_step c.timers c.active_payment_plan paid

-- An event keeps it, and its note counts.
abbrev Keeps : Option PaidPlan → Checkout × List PaymentNote → Type 0
Keeps paid x =
    (after : Option PaidPlan) × Fits x.0 after
    × ((rest : List PaymentNote) → IsPaidFor after rest → IsPaidFor paid (x.1 ++ rest))
