-- ===== src/Drawings/Selection.antt =====
-- The selection over presses, moves and releases.
use mathlib.Core.Option
use test_v.Shared.{
  ℕ, ◌&&◌, ◌≡◌, refl, sym, ap, subst, ◌∙◌, inl, inr, Option, none, some, List, [], ◌∷◌, ◌++◌, map,
  reverse, Bool-cases, Option-cases, arith,
}
use test_v.Shared.Text.{Text}
use test_v.Number.{Num}
use test_v.Drawings.{
  Tool, is_channel, is_horizontal, is_text, Drawing, ChartDrawings, View, find_drawing,
}
use test_v.Drawings.Hits.{Handle, handle_at, clicked_handle, topmost, found_of, found}
use test_v.Drawings.Press.{
  start_drawing, complete_channel, waits_for_offset, draw_over, draw_at, select_at, selected_as,
  pressed_with, mouse_down, on_panel, is_stage,
}
use test_v.Drawings.Moves.{
  if_dragged, mouse_move, is_blank, released_text, release, released, mouse_up,
}
use test_v.Drawings.Drags.{if_dragged-id}
use test_v.Drawings.Selected.{HasId, IsSelected, HasId-append, HasId-map, HasId-find, HasId-reverse}

module _ (n : Num) where
  open n use {Real}

  find_drawing-HasId :
      (i : ℕ) (ds : List (Drawing Real)) (d : Drawing Real)
      → find_drawing n i ds ≡ some d
      → HasId d.id ds
  unfolding find_drawing HasId
  find_drawing-HasId i [] d e = absurd (cc e)
  find_drawing-HasId i (c ∷ ds) d e = ground (arith, find_drawing-HasId i ds d)

  module _ (view : View Real) (sqrt : Real → Real) where
    topmost-HasId :
        (ds : List (Drawing Real)) (x y : Real) (i : ℕ)
        → topmost n sqrt view ds x y ≡ some i
        → HasId i ds
    unfolding topmost
    topmost-HasId ds x y i e =
        let (d, q, t) = (Option.map-eq-some_iff (λ (d : Drawing Real). d.id) _).0 e in
        subst (λ j. HasId j ds) t (HasId-reverse d.id ds (HasId-find _ (reverse ds) d q))

    clicked_handle-HasId :
        (ds : List (Drawing Real)) (o : Option ℕ) (x y : Real) (i k : ℕ)
        → clicked_handle n sqrt view ds o x y ≡ some (i, k)
        → HasId i ds
    unfolding clicked_handle handle_at
    clicked_handle-HasId ds none x y i k e = absurd (cc e)
    clicked_handle-HasId ds (some j) x y i k e = elim (Option-cases (find_drawing n j ds)) [
      | inl q ↦ absurd (cc (q, e))
      | inr (d, q) ↦
          let c : clicked_handle n sqrt view ds (some j) x y ≡ handle_at n sqrt view d x y =
            rw (clicked_handle, q) in
          let (h, u, t) =
            (Option.map-eq-some_iff (λ (h : Handle Real). (d.id, h.idx)) _).0 (sym c ∙ e) in
          subst (λ j. HasId j ds) (ap (λ (p : ℕ × ℕ). p.0) t) (find_drawing-HasId j ds d q)
    ]

    found_of-HasId :
        (ds : List (Drawing Real)) (c : Option (ℕ × ℕ)) (t : Option ℕ) (i : ℕ) (k : Option ℕ)
        → ((i k : ℕ) → c ≡ some (i, k) → HasId i ds)
        → ((i : ℕ) → t ≡ some i → HasId i ds)
        → found_of n sqrt view c t ≡ some (i, k)
        → HasId i ds
    unfolding found_of
    found_of-HasId ds (some (j, m)) t i k h f e =
        subst (λ l. HasId l ds) (ground arith) (h j m refl)
    found_of-HasId ds none (some j) i k h f e = subst (λ l. HasId l ds) (ground arith) (f j refl)
    found_of-HasId ds none none i k h f e = absurd (cc e)

    found-HasId :
        (ds : List (Drawing Real)) (o : Option ℕ) (x y : Real) (i : ℕ) (k : Option ℕ)
        → found n sqrt view ds o x y ≡ some (i, k)
        → HasId i ds
    unfolding found
    found-HasId ds o x y i k e =
        found_of-HasId ds (clicked_handle n sqrt view ds o x y) (topmost n sqrt view ds x y) i k
          (clicked_handle-HasId ds o x y) (topmost-HasId ds x y) e

    selected_as-some :
        (x y : Real) (s : ChartDrawings Real) (i : ℕ) (k : Option ℕ)
        → ((selected_as n x y s (some (i, k))).0.selected_drawing_id ≡ some i)
          × ((selected_as n x y s (some (i, k))).0.drawings ≡ s.drawings)
    unfolding selected_as
    selected_as-some x y s i k = ground arith

    selected_as-IsSelected :
        (x y : Real) (s : ChartDrawings Real) (i : ℕ) (k : Option ℕ)
        → HasId i s.drawings
        → IsSelected
            (selected_as n x y s (some (i, k))).0.selected_drawing_id
            (selected_as n x y s (some (i, k))).0.drawings
    unfolding IsSelected
    selected_as-IsSelected x y s i k h = let (p, q) = selected_as-some x y s i k in rw (p, q) h

    select_at-IsSelected :
        (x y : Real) (s : ChartDrawings Real)
        → IsSelected
            (select_at n view sqrt x y s).0.selected_drawing_id
            (select_at n view sqrt x y s).0.drawings
    unfolding select_at selected_as IsSelected
    select_at-IsSelected x y s =
        elim (Option-cases (found n sqrt view s.drawings s.selected_drawing_id x y)) [
          | inl e ↦ rw (IsSelected, e) tt
          | inr ((i, k), e) ↦ rw e (
              selected_as-IsSelected x y s i k
                (found-HasId s.drawings s.selected_drawing_id x y i k e))
        ]

  IsSelected-append :
      (o : Option ℕ) (ds es : List (Drawing Real)) → IsSelected o ds → IsSelected o (ds ++ es)
  unfolding IsSelected
  IsSelected-append none ds es h = tt
  IsSelected-append (some i) ds es h = HasId-append i ds es h

  IsSelected-map :
      (f : Drawing Real → Drawing Real)
      → ((d : Drawing Real) → (f d).id ≡ d.id)
      → (o : Option ℕ) (ds : List (Drawing Real)) → IsSelected o ds
      → IsSelected o (map f ds)
  unfolding IsSelected
  IsSelected-map f same none ds h = tt
  IsSelected-map f same (some i) ds h = HasId-map f same i ds h

  -- The state's selection is one of its drawings.
  unfoldable pub HasSelection : ChartDrawings Real → Type 0
  unfolding IsSelected
  HasSelection s = IsSelected s.selected_drawing_id s.drawings

  start_drawing-HasSelection :
      (now : ℕ) (tool : Tool) (x p : Real) (s : ChartDrawings Real)
      → HasSelection s
      → HasSelection (start_drawing n now tool x p s)
  unfolding start_drawing HasSelection
  start_drawing-HasSelection now tool x p s h = elim (Bool-cases (is_horizontal tool)) [
    | inl e ↦ rw e (IsSelected-append s.selected_drawing_id s.drawings _ h)
    | inr e ↦ rw e h
  ]

  draw_over-HasSelection :
      (now : ℕ) (tool : Tool) (x p : Real) (s : ChartDrawings Real) (o : Option (Drawing Real))
      → HasSelection s
      → HasSelection (draw_over n now tool x p s o)
  unfolding draw_over complete_channel HasSelection
  draw_over-HasSelection now tool x p s none h = start_drawing-HasSelection now tool x p s h
  draw_over-HasSelection now tool x p s (some d) h =
      elim (Bool-cases (waits_for_offset n (some d))) [
        | inl e ↦ rw e (IsSelected-append s.selected_drawing_id s.drawings _ h)
        | inr e ↦ rw e (start_drawing-HasSelection now tool x p s h)
      ]

  pub mouse_down-HasSelection :
      (view : View Real) (sqrt : Real → Real) (now : ℕ) (x y : Real) (s : ChartDrawings Real)
      → HasSelection s
      → HasSelection (mouse_down n view sqrt now x y s).0
  unfolding mouse_down pressed_with draw_at HasSelection
  mouse_down-HasSelection view sqrt now x y s h = elim (Bool-cases (on_panel n view x y)) [
    | inl e ↦ rw e (go s.active_drawing_tool)
    | inr e ↦ rw e h
  ]
    where
      go : (o : Option Tool) → HasSelection (pressed_with n view sqrt now x y s o).0
      go (some tool) = draw_over-HasSelection now tool _ _ s s.drawing_in_progress h
      go none = select_at-IsSelected view sqrt x y s

  pub mouse_move-HasSelection :
      (view : View Real) (x y : Real) (s : ChartDrawings Real)
      → HasSelection s
      → HasSelection (mouse_move n view x y s).0
  unfolding mouse_move HasSelection
  mouse_move-HasSelection view x y s h = elim (Option-cases s.drawing_in_progress) [
    | inl e ↦ elim (Option-cases s.drawing_drag_state) [
      | inl q ↦ rw (e, q) h
      | inr (g, q) ↦
          rw (e, q)
            (IsSelected-map (if_dragged n view g x y) (if_dragged-id n view g x y)
              s.selected_drawing_id s.drawings h)
    ]
    | inr (d, e) ↦ rw e h
  ]

  release-HasSelection :
      (answer : Option Text) (d : Drawing Real) (s : ChartDrawings Real)
      → HasSelection s
      → HasSelection (release n answer d s)
  unfolding release released_text HasSelection
  release-HasSelection answer d s h = elim (Bool-cases (is_channel d.type && is_stage 1 d.stage)) [
    | inl e ↦ rw e h
    | inr e ↦ elim (Bool-cases (is_text d.type)) [
      | inl t ↦ rw (e, t) (texted answer)
      | inr t ↦ rw (e, t) (IsSelected-append s.selected_drawing_id s.drawings _ h)
    ]
  ]
    where
      texted : (o : Option Text) → HasSelection (released_text n d s o)
      texted none = h
      texted (some txt) = elim (Bool-cases (is_blank txt)) [
        | inl e ↦ rw e h
        | inr e ↦ rw e (IsSelected-append s.selected_drawing_id s.drawings _ h)
      ]

  pub mouse_up-HasSelection :
      (answer : Option Text) (s : ChartDrawings Real)
      → HasSelection s
      → HasSelection (mouse_up n answer s).0
  unfolding mouse_up released HasSelection
  mouse_up-HasSelection answer s h = go s.drawing_in_progress
    where
      go : (o : Option (Drawing Real)) → HasSelection (released n answer s o).0
      go (some d) = release-HasSelection answer d s h
      go none = elim (Option-cases s.drawing_drag_state) [ inl e ↦ rw e h | inr (g, e) ↦ rw e h ]
