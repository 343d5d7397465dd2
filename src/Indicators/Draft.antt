-- ===== src/Indicators/Draft.antt =====
-- The operations on the draft (frontend-chart/src/components/IndicatorsModal.tsx).
use test_v.Shared.{
  ℕ, zero, suc, ◌-◌, Bool, true, false, not, ◌&&◌, Option, none, some, List, [], ◌∷◌, map,
  if◌then◌else◌, leb, length, filter, find?,
}
use test_v.Shared.Text.{Text, text_eq}
use test_v.Indicators.{Indicator, IndicatorSettings, spread}

-- `list[i]` and `list[i] = a`, which is used in range only.
abbrev pub get_elem? {ℓ} : {A : Type ℓ} → List A → ℕ → Option A
get_elem? [] i = none
get_elem? (x ∷ xs) zero = some x
get_elem? (x ∷ xs) (suc i) = get_elem? xs i

unfoldable pub put_at {ℓ} : {A : Type ℓ} → ℕ → A → List A → List A
put_at i a [] = []
put_at zero a (x ∷ xs) = a ∷ xs
put_at (suc i) a (x ∷ xs) = x ∷ put_at i a xs

-- `findIndex`, from an index on.
unfoldable pub find_index {ℓ} : {A : Type ℓ} → (A → Bool) → ℕ → List A → Option ℕ
find_index p i [] = none
find_index p i (x ∷ xs) = let rest = find_index p (suc i) xs in if p x then some i else rest

pub data Direction : Type 0 where
  up down : Direction

-- `ind.isVisible === false ? true : false`
abbrev pub flipped : Option Bool → Option Bool
flipped (some false) = some true
flipped _ = some false

module _ {V : Type 0} where
  abbrev pub is_id : Text → Indicator V → Bool
  is_id id ind = text_eq ind.id id

  abbrev pub active : Indicator V → Bool
  active ind = ind.is_active

  -- `prev.map((ind) => (ind.id === id ? f(ind) : ind))`
  abbrev pub change : Text → (Indicator V → Indicator V) → List (Indicator V) → List (Indicator V)
  change id f draft = map (λ ind. if text_eq ind.id id then f ind else ind) draft

  -- `draft.find((i) => i.id === selectedId) || draft[0]`
  abbrev pub or_first : Option (Indicator V) → List (Indicator V) → Option (Indicator V)
  or_first (some ind) draft = some ind
  or_first none [] = none
  or_first none (ind ∷ draft) = some ind

  unfoldable pub selected_indicator : Text → List (Indicator V) → Option (Indicator V)
  selected_indicator selected_id draft = or_first (find? (is_id selected_id) draft) draft

  unfoldable pub merge_settings : IndicatorSettings V → Indicator V → Indicator V
  unfolding spread
  merge_settings updates ind = record ind { settings = spread ind.settings updates }

  unfoldable pub update_selected :
      IndicatorSettings V → Option (Indicator V) → List (Indicator V) → List (Indicator V)
  unfolding merge_settings
  update_selected updates none draft = draft
  update_selected updates (some sel) draft = change sel.id (merge_settings updates) draft

  unfoldable pub update_settings :
      Text → IndicatorSettings V → List (Indicator V) → List (Indicator V)
  unfolding selected_indicator update_selected
  update_settings selected_id updates draft =
      update_selected updates (selected_indicator selected_id draft) draft

  unfoldable pub toggle_favorite : Text → List (Indicator V) → List (Indicator V)
  toggle_favorite id draft =
      change id (λ ind. record ind { is_favorite = not ind.is_favorite }) draft

  -- Whether activating would exceed the limit.
  abbrev pub is_refused : ℕ → Option (Indicator V) → List (Indicator V) → Bool
  is_refused max_indicators none draft = false
  is_refused max_indicators (some target) draft =
      not target.is_active && leb max_indicators (length (filter active draft))

  unfoldable pub toggle_active : ℕ → Text → List (Indicator V) → List (Indicator V)
  toggle_active max_indicators id draft =
      if is_refused max_indicators (find? (is_id id) draft) draft
      then draft
      else change id (λ ind. record ind { is_active = not ind.is_active }) draft

  unfoldable pub deactivate_indicator : Text → List (Indicator V) → List (Indicator V)
  deactivate_indicator id draft = change id (λ ind. record ind { is_active = false }) draft

  unfoldable pub toggle_visibility : Text → List (Indicator V) → List (Indicator V)
  toggle_visibility id draft =
      change id (λ ind. record ind { is_visible = flipped ind.is_visible }) draft

  abbrev pub active_at : List (Indicator V) → ℕ → Bool
  active_at list i = elim (get_elem? list i) [ none ↦ false | some ind ↦ ind.is_active ]

  -- `for (let i = index - 1; i >= 0; i--)`: the argument is one more than `i`.
  unfoldable pub active_before : List (Indicator V) → ℕ → Option ℕ
  active_before list zero = none
  active_before list (suc i) =
      let rest = active_before list i in if active_at list i then some i else rest

  -- `for (let i = index + 1; i < list.length; i++)`: the last argument counts the rounds left.
  unfoldable pub active_after : List (Indicator V) → ℕ → ℕ → Option ℕ
  active_after list i zero = none
  active_after list i (suc rounds) =
      let rest = active_after list (suc i) rounds in if active_at list i then some i else rest

  unfoldable pub target_index : Direction → ℕ → List (Indicator V) → Option ℕ
  unfolding active_before active_after
  target_index up index list = active_before list index
  target_index down index list = active_after list (suc index) (length list - suc index)

  -- `temp = list[index]; list[index] = list[targetIndex]; list[targetIndex] = temp`
  unfoldable pub swapped : ℕ → ℕ → List (Indicator V) → List (Indicator V)
  unfolding put_at
  swapped index target list = elim (get_elem? list index) [
    | none ↦ list
    | some temp ↦ elim (get_elem? list target) [
      | none ↦ list
      | some other ↦ put_at target temp (put_at index other list)
    ]
  ]

  unfoldable pub moved_to : ℕ → Option ℕ → List (Indicator V) → List (Indicator V)
  unfolding swapped
  moved_to index none list = list
  moved_to index (some target) list = swapped index target list

  unfoldable pub moved_from : Direction → Option ℕ → List (Indicator V) → List (Indicator V)
  unfolding target_index moved_to
  moved_from direction none list = list
  moved_from direction (some index) list = moved_to index (target_index direction index list) list

  unfoldable pub move_indicator : Text → Direction → List (Indicator V) → List (Indicator V)
  unfolding find_index moved_from
  move_indicator id direction list = moved_from direction (find_index (is_id id) 0 list) list

-- The buttons of the modal.
pub data Edit (V : Type 0) : Type 0 where
  toggling deactivating favoring showing : Text → Edit V
  setting : Text → IndicatorSettings V → Edit V
  moving : Text → Direction → Edit V

module _ {V : Type 0} where
  unfoldable pub edited : ℕ → Edit V → List (Indicator V) → List (Indicator V)
  unfolding toggle_active deactivate_indicator toggle_favorite toggle_visibility update_settings
      move_indicator
  edited max_indicators (toggling id) draft = toggle_active max_indicators id draft
  edited max_indicators (deactivating id) draft = deactivate_indicator id draft
  edited max_indicators (favoring id) draft = toggle_favorite id draft
  edited max_indicators (showing id) draft = toggle_visibility id draft
  edited max_indicators (setting id updates) draft = update_settings id updates draft
  edited max_indicators (moving id direction) draft = move_indicator id direction draft

  unfoldable pub edits : ℕ → List (Edit V) → List (Indicator V) → List (Indicator V)
  unfolding edited
  edits max_indicators [] draft = draft
  edits max_indicators (e ∷ es) draft = edits max_indicators es (edited max_indicators e draft)
