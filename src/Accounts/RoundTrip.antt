-- ===== src/Accounts/RoundTrip.antt =====
-- The role that is set and the role that is read back, by the App and by the limits.
use test_v.Shared.{
  Bool, true, false, ◌||◌, ◌≡◌, refl, sym, ap, ◌∙◌, Option, none, some, [], ◌∷◌, arith, inl, inr,
  ◌⊎◌, if◌then◌else◌,
}
use test_v.Shared.Text.{Text, codes, text_eq}
use test_v.Tiers.{TierGroup, guest, admin}
use test_v.Tiers.Groups.{UserObj, says, tier_of, group_of_user}
use test_v.Accounts.{StoredUser, Stored, user_obj}
use test_v.Accounts.Auth.{AuthUser, failed, succeeded, is_empty, login_user, get_current_user}
use test_v.Accounts.Roles.{
  role_name, role_of_user, initial_role, changed_user, handle_user_role_change, handle_update,
  updated_by, ProfileForm, execute_direct_upgrade, role_by, Session, known_role, profile_user,
  is_free,
}

-- A user whose tier names a role, with the same role and subscription beside it or without them.
abbrev tagged : TierGroup → Bool → UserObj
tagged r both = record {
  tier = some (role_name r);
  role = if both then some (role_name r) else none;
  subscription_level = if both then some (role_name r) else none;
}

role_of_user-tagged : (r : TierGroup) (both : Bool) → role_of_user (tagged r both) ≡ r
unfolding role_of_user role_name text_eq
role_of_user-tagged guest true = refl
role_of_user-tagged guest false = refl
role_of_user-tagged _ true = refl
role_of_user-tagged _ false = refl

group_of_user-tagged : (r : TierGroup) (both : Bool) → group_of_user (tagged r both) ≡ r
unfolding group_of_user role_name text_eq
group_of_user-tagged guest true = refl
group_of_user-tagged guest false = refl
group_of_user-tagged _ true = refl
group_of_user-tagged _ false = refl

role_by_name :
    (r : TierGroup) (u : Option StoredUser) → role_by (known_role (some (role_name r))) u ≡ r
unfolding role_name text_eq
role_by_name guest u = refl
role_by_name _ u = refl

initial_role_saved :
    (r : TierGroup) (s : Stored) → s.saved_role ≡ some (role_name r) → initial_role s ≡ r
unfolding initial_role
initial_role_saved r s h = ap (λ o. role_by (known_role o) s.user) h ∙ role_by_name r s.user

changed_user-tagged :
    (r : TierGroup) (prev : Option StoredUser) → user_obj (changed_user r prev) ≡ tagged r true
unfolding changed_user
changed_user-tagged r none = refl
changed_user-tagged r (some u) = refl

-- The role of a user, or the one that is given.
abbrev pub role_or : TierGroup → Option StoredUser → TierGroup
role_or r none = r
role_or r (some u) = role_of_user (user_obj u)

profile-updated_by :
    (o : Option StoredUser) (s : Session)
    → ((updated_by o s).profile ≡ o) × ((updated_by o s).user_role ≡ role_or s.user_role o)
profile-updated_by none s = (refl, refl)
profile-updated_by (some u) s = (refl, refl)

-- What the queued case shows: the role is set and saved, and then the listener runs.
before_render :
    (r : TierGroup) (s : Session)
    → ((handle_user_role_change false r s).profile ≡ s.stored.user)
      × ((handle_user_role_change false r s).user_role ≡ role_or r s.stored.user)
unfolding handle_user_role_change handle_update
before_render r s =
    profile-updated_by s.stored.user
      (record s { user_role = r; stored = record s.stored { saved_role = some (role_name r) } })

heard :
    (eager : Bool) (r : TierGroup) (s : Session)
    → (handle_user_role_change eager r s).stored.user ≡ some (changed_user r s.profile)
unfolding handle_user_role_change handle_update
heard true r s = refl
heard false r s = refl

-- The listener takes the role of the user that is stored.
handle_update-tagged :
    (r : TierGroup) (u : StoredUser) (s : Session)
    → s.stored.user ≡ some u
    → role_of_user (user_obj u) ≡ r
    → handle_update s ≡ record {
      user_role = r;
      profile = some u;
      stored = record s.stored { saved_role = some (role_name r) };
    }
unfolding handle_update
handle_update-tagged r u s e f = ap (λ o. updated_by o s) e ∙ rw f refl

-- A change of the role arrives with one more update event, whether React runs the update of the
-- profile at once or queues it: then the App has the role and the changed profile, the next events
-- change nothing, a restart finds the role, and the limits are those of its group. Until that event,
-- where the update is queued, the App shows the profile that was stored before and that profile's
-- role, or the new role and no profile where none was stored.
pub handle_user_role_change-round_trip :
    (eager : Bool) (r : TierGroup) (s : Session)
    → let next = handle_update (handle_user_role_change eager r s) in
      let first = handle_user_role_change false r s in
      (next.user_role ≡ r)
      × (next.profile ≡ some (changed_user r s.profile))
      × (handle_update next ≡ next)
      × (initial_role next.stored ≡ r)
      × (group_of_user (user_obj (changed_user r s.profile)) ≡ r)
      × (first.profile ≡ s.stored.user)
      × (first.user_role ≡ role_or r s.stored.user)
handle_user_role_change-round_trip eager r s =
    let u = changed_user r s.profile in
    let app : role_of_user (user_obj u) ≡ r =
      ap role_of_user (changed_user-tagged r s.profile) ∙ role_of_user-tagged r true in
    let h = handle_user_role_change eager r s in
    let e = handle_update-tagged r u h (heard eager r s) app in
    let n : Session = record {
      user_role = r;
      profile = some u;
      stored = record h.stored { saved_role = some (role_name r) };
    } in
    let same : handle_update n ≡ n = handle_update-tagged r u n (heard eager r s) app in
    (
      ap (λ (x : Session). x.user_role) e,
      ap (λ (x : Session). x.profile) e,
      ap handle_update e ∙ same ∙ sym e,
      ap (λ (x : Session). initial_role x.stored) e ∙ initial_role_saved r n.stored refl,
      ap group_of_user (changed_user-tagged r s.profile) ∙ group_of_user-tagged r true,
      (before_render r s).0,
      (before_render r s).1,
    )

-- A tier that is chosen in the profile, whatever the form and the dates hold: the listener sets the
-- role to it and changes nothing else, a restart finds it again, the limits are those of its group,
-- and the date of the payment is there unless the tier is free.
pub execute_direct_upgrade-round_trip :
    (r : TierGroup) (pay exp : Text) (form : ProfileForm) (s : Session)
    → let next = execute_direct_upgrade r pay exp form s in
      (handle_update next ≡ record next { user_role = r })
      × (initial_role next.stored ≡ r)
      × (group_of_user (user_obj (profile_user form (role_name r))) ≡ r)
      × (next.stored.payment_date ≡ (if is_free r then none else some pay))
unfolding execute_direct_upgrade handle_update
execute_direct_upgrade-round_trip r pay exp form s = (
  rw (role_of_user-tagged r false) refl,
  initial_role_saved r (execute_direct_upgrade r pay exp form s).stored refl,
  group_of_user-tagged r false,
  refl,
)

-- The limits and the App read different roles off a stored user only by three spellings: with none
-- of the tier `rpo` and the subscriptions `RPO`, `Pro` and `Free`, they agree.
pub group_of_user-eq-role_of_user :
    (u : UserObj)
    → text_eq (tier_of u) (codes "rpo") ≡ false
    → says u.subscription_level (codes "RPO") ≡ false
    → says u.subscription_level (codes "Pro") ≡ false
    → says u.subscription_level (codes "Free") ≡ false
    → group_of_user u ≡ role_of_user u
unfolding group_of_user role_of_user
group_of_user-eq-role_of_user u a b c d = ground arith

-- Whoever gives a name and a password that are not empty is signed in as that user with the group of
-- an admin; otherwise nothing is stored.
login_user-admin :
    (name password : Text) (s : Stored)
    → ((is_empty name || is_empty password) ≡ true)
        × (login_user name password s ≡ (failed (codes "Fill all fields"), s))
      ⊎ ((user : AuthUser) × (u : StoredUser) × ((login_user name password s).0 ≡ succeeded user)
          × ((login_user name password s).1.user ≡ some u)
          × (get_current_user (login_user name password s).1 ≡ some user)
          × (group_of_user (user_obj u) ≡ admin))
unfolding login_user get_current_user role_name
login_user-admin [] password s = inl (refl, refl)
login_user-admin (c ∷ cs) [] s = inl (refl, refl)
login_user-admin (c ∷ cs) (d ∷ ds) s = inr (_, _, refl, refl, refl, group_of_user-tagged admin true)
