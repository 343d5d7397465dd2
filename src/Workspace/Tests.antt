-- ===== src/Workspace/Tests.antt =====
-- Tests and witnesses for the settings of the charts.
use test_v.Shared.{
  ℕ, ◌≡◌, refl, ap, sym, ◌∙◌, Option, none, some, List, [], ◌∷◌, if◌then◌else◌, Bool-cases, arith,
  inl, inr,
}
use test_v.Shared.Text.{Text, codes, text_eq, text_eq_refl, text_eq→eq, number, number-decimal}
use test_v.Storage.{Outcome, returned, thrown, LocalStorage, StorageLaws}
use test_v.Workspace.{
  Workspace, Json, object_json, number_json, field, no_fields, read_workspace, btc_usdt, get_field,
}
use test_v.Workspace.Effects.{
  SettingsAction, set_interval, set_market_type, set_active_chart_index, first_render, act_all,
  settle, change_active,
}
use test_v.Workspace.Saved.{Accepts}
use test_v.Workspace.Market
use test_v.Workspace.Market.{with_defaults}
use test_v.Workspace.Restored
use test_v.Workspace.Restored.{IsUsable}

abbrev put_at : Text → Text → (Text → Option Text) → Text → Option Text
put_at k v s j = if text_eq j k then some v else s j

-- A storage with room for everything.
abbrev roomy : LocalStorage
roomy = record {
  Content = Text → Option Text;
  get_item = λ k s. returned (s k);
  set_item = λ k v s. returned (put_at k v s);
  remove_item = λ k s. returned (λ j. if text_eq j k then none else s j);
}

roomy_accepts : Accepts roomy
roomy_accepts k v s = (put_at k v s, refl)

abbrev content_of : Outcome (Text → Option Text) → Text → Option Text
content_of (returned s) = s
content_of thrown = λ k. none

roomy_laws : StorageLaws roomy
roomy_laws = record {
  get-set = λ k v s s' h.
      let p : put_at k v s k ≡ some v = rw (text_eq_refl k) in
      ap returned (sym (ap (λ o. content_of o k) h) ∙ p);
  get-set_ne = λ j k v s s' ne h.
      let p : put_at k v s j ≡ s j = elim (Bool-cases (text_eq j k)) [
        | inl e ↦ absurd (ne (text_eq→eq j k e))
        | inr e ↦ rw e
      ] in
      ap returned (sym (ap (λ o. content_of o j) h) ∙ p);
}

abbrev read_number : Text → Option ℕ
read_number t = some (number 0 t)

abbrev nothing : Text → Option Text
nothing k = none

abbrev start : Workspace
start = read_workspace roomy read_number nothing

-- The defaults: eight levels for one minute on the futures of Bitcoin.
abbrev defaults : Option Json
defaults = some (
    object_json (
      field btc_usdt
        (object_json (
          field (codes "FUTURES") (object_json (field (codes "1m") (number_json 8) no_fields))
            no_fields))
        no_fields))

abbrev session : List (Option Json × SettingsAction)
session =
    (defaults, set_market_type (codes "FUTURES"))
    ∷ (defaults, set_interval (codes "1m"))
    ∷ (defaults, set_active_chart_index 1)
    ∷ []

abbrev after_session : Workspace × (Text → Option Text)
after_session = act_all roomy session (first_render roomy defaults start nothing)

interval_kept : (after_session.0.chart0.interval) ≡ codes "1m"
unfolding act_all first_render read_workspace text_eq
interval_kept = refl

compression_loaded : after_session.0.chart0.compression_multiplier ≡ 8
unfolding act_all first_render read_workspace text_eq get_field
compression_loaded = refl

usable0 : IsUsable after_session.0.chart0
unfolding act_all first_render read_workspace text_eq get_field
usable0 = record {
  known = refl;
  interval_given = λ p. cc p;
  market_given = λ p. cc p;
  type_given = λ p. cc p;
  data_type_given = λ p. cc p;
  palette_given = λ p. cc p;
  compressed = omega arith;
}

usable1 : IsUsable after_session.0.chart1
unfolding act_all first_render read_workspace text_eq get_field
usable1 = record {
  known = refl;
  interval_given = λ p. cc p;
  market_given = λ p. cc p;
  type_given = λ p. cc p;
  data_type_given = λ p. cc p;
  palette_given = λ p. cc p;
  compressed = omega arith;
}

act_all-read_workspace_example :
    read_workspace roomy read_number after_session.1
    ≡ record after_session.0 { active_chart_index = 0 }
act_all-read_workspace_example =
    Restored.act_all-read_workspace roomy read_number (λ k. ap some (number-decimal k)) roomy_laws
      roomy_accepts defaults start nothing session after_session refl usable0 usable1

-- A chart of the futures with one minute.
abbrev short_term : Workspace
short_term = record start {
  chart0 = record start.chart0 { market_type = codes "FUTURES"; interval = codes "1m" };
}

abbrev now_spot : Workspace
now_spot = record short_term { chart0 = record short_term.chart0 { market_type = codes "SPOT" } }

settle_market_example :
    (settle roomy defaults 3 (some short_term) (now_spot, nothing)).0
    ≡ change_active (with_defaults defaults) now_spot
unfolding text_eq read_workspace
settle_market_example = Market.settle_market roomy defaults (some short_term) now_spot nothing refl

spot_interval :
    (settle roomy defaults 3 (some short_term) (now_spot, nothing)).0.chart0.interval ≡ codes "15m"
unfolding settle text_eq get_field read_workspace
spot_interval = refl
