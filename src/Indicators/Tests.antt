-- ===== src/Indicators/Tests.antt =====
-- Tests and witnesses for the indicators.
use test_v.Shared.{
  ℕ, ◌≤◌, Bool, true, false, ◌≡◌, refl, none, List, [], ◌∷◌, map, length, filter, arith,
}
use test_v.Shared.Text.{Text, codes, text_eq}
use test_v.Indicators.{Indicator}
use test_v.Indicators.Draft.{
  is_id, up, down, toggle_active, move_indicator, moved_from, moved_to, swapped, put_at, find_index,
  target_index, active_before, Edit, toggling, moving, setting, edits,
}
use test_v.Indicators.Load.{IndicatorModule}
use test_v.Indicators.Limit
use test_v.Indicators.Limit.{IsDraft}

abbrev indicator : Text → Bool → Indicator ℕ
indicator id on = record {
  id = id;
  label = id;
  category = codes "All";
  kind = codes "Overlay";
  is_favorite = true;
  is_active = on;
  is_visible = none;
  settings = (codes "opacity", 5) ∷ [];
}

abbrev draft : List (Indicator ℕ)
draft = indicator (codes "a") true ∷ indicator (codes "b") false ∷ indicator (codes "c") true ∷ []

-- The move skips the indicator that is not active.
moved_up :
    map (λ i. i.id) (move_indicator (codes "c") up draft) ≡ codes "c" ∷ codes "b" ∷ codes "a" ∷ []
unfolding move_indicator moved_from moved_to swapped put_at find_index target_index active_before
    text_eq
moved_up = refl

-- A third indicator is refused at a limit of two.
third_refused : toggle_active 2 (codes "b") draft ≡ draft
unfolding toggle_active text_eq
third_refused = refl

abbrev presses : List (Edit ℕ)
presses =
    toggling (codes "b")
    ∷ toggling (codes "a")
    ∷ toggling (codes "b")
    ∷ moving (codes "c") down
    ∷ setting (codes "b") ((codes "opacity", 7) ∷ [])
    ∷ []

at_most_one : (id : Text) → length (filter (is_id id) draft) ≤ 1
unfolding text_eq
at_most_one [] = omega arith
at_most_one (c ∷ []) = ground arith
at_most_one (c ∷ d ∷ ds) = ground arith

edits-IsDraft_example : IsDraft 2 (edits 2 presses draft)
edits-IsDraft_example =
    Limit.edits-IsDraft 2 presses draft (record { distinct = at_most_one; limited = omega arith })

abbrev indicator_module : Text → IndicatorModule ℕ
indicator_module id = record {
  id = id;
  label = id;
  category = codes "All";
  kind = codes "Overlay";
  is_active_default = none;
  default_settings = (codes "labels", 1) ∷ [];
}

abbrev modules : List (IndicatorModule ℕ)
modules =
    indicator_module (codes "b") ∷ indicator_module (codes "c") ∷ indicator_module (codes "a") ∷ []
