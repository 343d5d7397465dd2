-- ===== src/Drawings/Deleted.antt =====
-- What the Delete key takes away.
use test_v.Shared.{
  ℕ, suc, not, ◌≡◌, ◌≢◌, All, arith, Bool-cases, subst, inl, inr, some, List, [], ◌∷◌, filter,
  length, ◌==◌, Option-cases,
}
use test_v.Number.{Num}
use test_v.Drawings.{Drawing, ChartDrawings, no_drawings}
use test_v.Drawings.Moves.{delete_key, clear_drawings, click_tool}
use test_v.Drawings.Events.{
  DrawingEvent, press, move, release_with, press_delete, press_clear, press_tool, IsTimed, edit,
  edit_all,
}
use test_v.Drawings.Ids.{AreDistinct}
use test_v.Drawings.Distinct.{edit_all-AreDistinct}
use test_v.Drawings.Selected.{IsSelected, length-filter_one}
use test_v.Drawings.Selection.{
  HasSelection, mouse_down-HasSelection, mouse_move-HasSelection, mouse_up-HasSelection,
}

module _ (n : Num) (sqrt : n.Real → n.Real) where
  open n use {Real}

  delete_key-HasSelection :
      (s : ChartDrawings Real) → HasSelection n s → HasSelection n (delete_key n s)
  unfolding delete_key HasSelection IsSelected
  delete_key-HasSelection s h = elim (Option-cases s.selected_drawing_id) [
    | inl e ↦ rw e tt
    | inr (i, e) ↦ rw e tt
  ]

  edit-HasSelection :
      (e : DrawingEvent Real) (s : ChartDrawings Real)
      → HasSelection n s
      → HasSelection n (edit n sqrt e s)
  unfolding edit HasSelection IsSelected clear_drawings click_tool
  edit-HasSelection (press now view x y) s h = mouse_down-HasSelection n view sqrt now x y s h
  edit-HasSelection (move view x y) s h = mouse_move-HasSelection n view x y s h
  edit-HasSelection (release_with answer) s h = mouse_up-HasSelection n answer s h
  edit-HasSelection press_delete s h = delete_key-HasSelection s h
  edit-HasSelection press_clear s h = tt
  edit-HasSelection (press_tool tool) s h = h

  edit_all-HasSelection :
      (es : List (DrawingEvent Real)) (s : ChartDrawings Real)
      → HasSelection n s
      → HasSelection n (edit_all n sqrt es s)
  unfolding edit_all
  edit_all-HasSelection [] s h = h
  edit_all-HasSelection (e ∷ es) s h =
      edit_all-HasSelection es (edit n sqrt e s) (edit-HasSelection e s h)

  delete_key-length :
      (s : ChartDrawings Real) (i : ℕ)
      → s.selected_drawing_id ≡ some i
      → HasSelection n s
      → AreDistinct s.drawings
      → suc (length (delete_key n s).drawings) ≡ length s.drawings
  unfolding delete_key HasSelection IsSelected
  delete_key-length s i e h d =
      let k : IsSelected (some i) s.drawings = subst (λ o. IsSelected o s.drawings) e h in
      rw e (length-filter_one i s.drawings d k)

  filter_ne :
      (i : ℕ) (ds : List (Drawing Real))
      → All (λ (d : Drawing Real). d.id ≢ i) (filter (λ (d : Drawing Real). not (d.id == i)) ds)
  filter_ne i [] = tt
  filter_ne i (d ∷ ds) = elim (Bool-cases (d.id == i)) [
    | inl e ↦ rw e (filter_ne i ds)
    | inr e ↦ let ne : d.id ≢ i = λ q. ground arith in rw e (ne, filter_ne i ds)
  ]

  delete_key_ne :
      (s : ChartDrawings Real) (i : ℕ)
      → s.selected_drawing_id ≡ some i
      → All (λ (d : Drawing Real). d.id ≢ i) (delete_key n s).drawings
  unfolding delete_key
  delete_key_ne s i e = rw e (filter_ne i s.drawings)

  -- After any events from an empty chart, if the clock moves on between two presses and a drawing is
  -- selected: the Delete key takes away exactly one drawing, and no drawing with the selected id is
  -- left.
  pub edit_all-delete_key :
      (es : List (DrawingEvent Real)) (i : ℕ)
      → IsTimed 0 es
      → (edit_all n sqrt es (no_drawings n)).selected_drawing_id ≡ some i
      → (suc (length (delete_key n (edit_all n sqrt es (no_drawings n))).drawings)
          ≡ length (edit_all n sqrt es (no_drawings n)).drawings)
        × All
            (λ (d : Drawing Real). d.id ≢ i)
            (delete_key n (edit_all n sqrt es (no_drawings n))).drawings
  unfolding HasSelection IsSelected
  edit_all-delete_key es i t e =
      let s = edit_all n sqrt es (no_drawings n) in
      let h = edit_all-HasSelection es (no_drawings n) tt in
      (delete_key-length s i e h (edit_all-AreDistinct n sqrt es t), delete_key_ne s i e)
