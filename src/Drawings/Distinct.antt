-- ===== src/Drawings/Distinct.antt =====
-- The ids of the drawings over the user's events.
use test_v.Shared.{
  ℕ, ◌+◌, ◌≤◌, ◌<◌, Bool, not, ◌≡◌, ◌≢◌, refl, subst, inl, inr, Option, none, some, List, [], ◌∷◌,
  ◌++◌, filter, ◌==◌, ◌&&◌, All-append, arith, Bool-cases, Option-cases,
}
use test_v.Shared.Text.{Text}
use test_v.Number.{Num}
use test_v.Drawings.{
  Tool, is_channel, is_horizontal, is_text, Drawing, ChartDrawings, View, no_drawings,
}
use test_v.Drawings.Press.{
  is_stage, drawing_at, waits_for_offset, complete_channel, start_drawing, draw_over, draw_at,
  baseline_price_at, pressed_with, select_at, selected_as, mouse_down, on_panel,
}
use test_v.Drawings.Moves.{
  followed, mouse_move, release, released, released_text, mouse_up, delete_key, clear_drawings,
  click_tool, if_dragged, is_blank,
}
use test_v.Drawings.Drags.{if_dragged-id}
use test_v.Drawings.Events.{
  DrawingEvent, press, move, release_with, press_delete, press_clear, press_tool, IsTimed, edit,
  edit_all,
}
use test_v.Drawings.Ids.{
  AreDistinct, IsFree, HasIds, AreOthers-below, HasIds-add, HasIds-weaken, HasIds-same, All-map-id,
  AreDistinct-map, All-filter, AreDistinct-filter,
}

module _ (n : Num) where
  open n use {Real}

  followed-id :
      (view : View Real) (x y : Real) (d : Drawing Real) → (followed n view x y d).id ≡ d.id
  unfolding followed
  followed-id view x y d = ground arith

  mouse_move-HasIds :
      (b : ℕ) (view : View Real) (x y : Real) (s : ChartDrawings Real)
      → HasIds b s
      → HasIds b (mouse_move n view x y s).0
  unfolding mouse_move
  mouse_move-HasIds b view x y s h = elim (Option-cases s.drawing_in_progress) [
    | inl e ↦ elim (Option-cases s.drawing_drag_state) [
      | inl q ↦ HasIds-same b s (mouse_move n view x y s).0 (rw (e, q)) (rw (e, q)) h
      | inr (g, q) ↦
          rw (e, q)
            (record {
              distinct =
                  AreDistinct-map (if_dragged n view g x y) (if_dragged-id n view g x y) s.drawings
                    h.distinct;
              below =
                  All-map-id (λ i. i < b) (if_dragged n view g x y) (if_dragged-id n view g x y)
                    s.drawings h.below;
              free = tt;
            })
    ]
    | inr (d, e) ↦
        let f : IsFree b (some d) s.drawings = subst (λ o. IsFree b o s.drawings) e h.free in
        rw e
          (record { distinct = h.distinct; below = h.below; free = rw (followed-id view x y d) f })
  ]

  -- A new drawing has the clock as its id.
  start_drawing-HasIds :
      (b now : ℕ) (tool : Tool) (x p : Real) (s : ChartDrawings Real)
      → b ≤ now
      → HasIds b s
      → HasIds (now + 1) (start_drawing n now tool x p s)
  unfolding start_drawing drawing_at
  start_drawing-HasIds b now tool x p s q h =
      let w = HasIds-weaken b now s q h in
      let v = HasIds-weaken b (now + 1) s (omega arith) h in
      let d = drawing_at n now tool x p in
      let others = AreOthers-below now s.drawings w.below in
      elim (Bool-cases (is_horizontal tool)) [
        | inl e ↦
            HasIds-add (now + 1) s (start_drawing n now tool x p s) d v (omega arith) others (rw e)
              (rw e (go s.drawing_in_progress w.free))
        | inr e ↦
            rw e (record { distinct = v.distinct; below = v.below; free = (omega arith, others) })
      ]
    where
      go :
          (o : Option (Drawing Real))
          → IsFree now o s.drawings
          → IsFree (now + 1) o (s.drawings ++ drawing_at n now tool x p ∷ [])
      go none f = tt
      go (some e) f = (
        omega (arith, f.0),
        All-append (λ (c : Drawing Real). c.id ≢ e.id) s.drawings (drawing_at n now tool x p ∷ [])
            f.1 ((λ k. omega (arith, f.0)), tt),
      )

  draw_over-HasIds :
      (b now : ℕ) (tool : Tool) (x p : Real) (s : ChartDrawings Real) (o : Option (Drawing Real))
      → b ≤ now
      → IsFree b o s.drawings
      → HasIds b s
      → HasIds (now + 1) (draw_over n now tool x p s o)
  unfolding draw_over complete_channel
  draw_over-HasIds b now tool x p s none q f h = start_drawing-HasIds b now tool x p s q h
  draw_over-HasIds b now tool x p s (some d) q f h =
      elim (Bool-cases (waits_for_offset n (some d))) [
        | inl w ↦ rw w (
            HasIds-add (now + 1) s (complete_channel n d x p s)
              (record d { offset_price = some (n.sub p (baseline_price_at n d x)); stage = none })
              (HasIds-weaken b (now + 1) s (omega arith) h) (omega (arith, f.0)) f.1 refl tt)
        | inr w ↦ rw w (start_drawing-HasIds b now tool x p s q h)
      ]

  select_at_same :
      (view : View Real) (sqrt : Real → Real) (x y : Real) (s : ChartDrawings Real)
      → ((select_at n view sqrt x y s).0.drawings ≡ s.drawings)
        × ((select_at n view sqrt x y s).0.drawing_in_progress ≡ s.drawing_in_progress)
  unfolding select_at selected_as
  select_at_same view sqrt x y s = ground arith

  mouse_down-HasIds :
      (view : View Real) (sqrt : Real → Real) (b now : ℕ) (x y : Real) (s : ChartDrawings Real)
      → b ≤ now
      → HasIds b s
      → HasIds (now + 1) (mouse_down n view sqrt now x y s).0
  unfolding mouse_down pressed_with draw_at
  mouse_down-HasIds view sqrt b now x y s q h = elim (Bool-cases (on_panel n view x y)) [
    | inl e ↦ rw e (go s.active_drawing_tool)
    | inr e ↦ rw e v
  ]
    where
      v : HasIds (now + 1) s
      v = HasIds-weaken b (now + 1) s (omega arith) h

      go : (o : Option Tool) → HasIds (now + 1) (pressed_with n view sqrt now x y s o).0
      go (some tool) = draw_over-HasIds b now tool _ _ s s.drawing_in_progress q h.free h
      go none = let (p, r) = select_at_same view sqrt x y s in HasIds-same (now + 1) s _ p r v

  release-HasIds :
      (b : ℕ) (answer : Option Text) (d : Drawing Real) (s : ChartDrawings Real)
      → IsFree b (some d) s.drawings
      → HasIds b s
      → HasIds b (release n answer d s)
  unfolding release
  release-HasIds b answer d s f h = elim (Bool-cases (is_channel d.type && is_stage 1 d.stage)) [
    | inl e ↦ rw e (record { distinct = h.distinct; below = h.below; free = f })
    | inr e ↦ elim (Bool-cases (is_text d.type)) [
      | inl t ↦ rw (e, t) (texted answer)
      | inr t ↦ rw (e, t) (HasIds-add b s _ d h f.0 f.1 refl tt)
    ]
  ]
    where
      texted : (o : Option Text) → HasIds b (released_text n d s o)
      texted none = record { distinct = h.distinct; below = h.below; free = tt }
      texted (some txt) = elim (Bool-cases (is_blank txt)) [
        | inl e ↦ rw e (record { distinct = h.distinct; below = h.below; free = tt })
        | inr e ↦ rw e (HasIds-add b s _ (record d { text = txt }) h f.0 f.1 refl tt)
      ]

  mouse_up-HasIds :
      (b : ℕ) (answer : Option Text) (s : ChartDrawings Real)
      → HasIds b s
      → HasIds b (mouse_up n answer s).0
  unfolding mouse_up released
  mouse_up-HasIds b answer s h = go s.drawing_in_progress h.free
    where
      go : (o : Option (Drawing Real)) → IsFree b o s.drawings → HasIds b (released n answer s o).0
      go (some d) f = release-HasIds b answer d s f h
      go none f = elim (Option-cases s.drawing_drag_state) [
        | inl e ↦ HasIds-same b s _ (rw e) (rw e) h
        | inr (g, e) ↦ HasIds-same b s _ (rw e) (rw e) h
      ]

  IsFree-filter :
      (b : ℕ) (p : Drawing Real → Bool) (o : Option (Drawing Real)) (ds : List (Drawing Real))
      → IsFree b o ds
      → IsFree b o (filter p ds)
  IsFree-filter b p none ds f = tt
  IsFree-filter b p (some d) ds f = (f.0, All-filter p (λ (e : Drawing Real). e.id ≢ d.id) ds f.1)

  delete_key-HasIds : (b : ℕ) (s : ChartDrawings Real) → HasIds b s → HasIds b (delete_key n s)
  unfolding delete_key
  delete_key-HasIds b s h = elim (Option-cases s.selected_drawing_id) [
    | inl e ↦ HasIds-same b s _ (rw e) (rw e) h
    | inr (i, e) ↦
        let p : Drawing Real → Bool = λ (d : Drawing Real). not (d.id == i) in
        rw e (record {
          distinct = AreDistinct-filter p s.drawings h.distinct;
          below = All-filter p (λ (d : Drawing Real). d.id < b) s.drawings h.below;
          free = IsFree-filter b p s.drawing_in_progress s.drawings h.free;
        })
  ]

  clear_drawings-HasIds :
      (b : ℕ) (s : ChartDrawings Real) → HasIds b s → HasIds b (clear_drawings n s)
  unfolding clear_drawings AreDistinct
  clear_drawings-HasIds b s h = record {
    distinct = tt;
    below = tt;
    free = go s.drawing_in_progress h.free;
  }
    where
      go : (o : Option (Drawing Real)) → IsFree b o s.drawings → IsFree b o []
      go none f = tt
      go (some d) f = (f.0, tt)

module _ (n : Num) (sqrt : n.Real → n.Real) where
  -- The clock after an event.
  edit-HasIds :
      (b : ℕ) (e : DrawingEvent n.Real) (es : List (DrawingEvent n.Real)) (s : ChartDrawings n.Real)
      → IsTimed b (e ∷ es)
      → HasIds b s
      → (c : ℕ) × IsTimed c es × HasIds c (edit n sqrt e s)
  unfolding edit IsTimed delete_key clear_drawings click_tool
  edit-HasIds b (press now view x y) es s t h =
      (now + 1, t.1, mouse_down-HasIds n view sqrt b now x y s t.0 h)
  edit-HasIds b (move view x y) es s t h = (b, t, mouse_move-HasIds n b view x y s h)
  edit-HasIds b (release_with answer) es s t h = (b, t, mouse_up-HasIds n b answer s h)
  edit-HasIds b press_delete es s t h = (b, t, delete_key-HasIds n b s h)
  edit-HasIds b press_clear es s t h = (b, t, clear_drawings-HasIds n b s h)
  edit-HasIds b (press_tool tool) es s t h = (b, t, HasIds-same b s _ refl refl h)

  edit_all-HasIds :
      (b : ℕ) (es : List (DrawingEvent n.Real)) (s : ChartDrawings n.Real)
      → IsTimed b es
      → HasIds b s
      → AreDistinct (edit_all n sqrt es s).drawings
  unfolding edit_all
  edit_all-HasIds b [] s t h = h.distinct
  edit_all-HasIds b (e ∷ es) s t h =
      let (c, u, k) = edit-HasIds b e es s t h in edit_all-HasIds c es (edit n sqrt e s) u k

  -- From an empty chart, whatever the user presses, moves, releases, deletes and clears, no two
  -- drawings share an id, if the clock moves on between two presses.
  pub edit_all-AreDistinct :
      (es : List (DrawingEvent n.Real))
      → IsTimed 0 es
      → AreDistinct (edit_all n sqrt es (no_drawings n)).drawings
  unfolding AreDistinct
  edit_all-AreDistinct es t =
      edit_all-HasIds 0 es (no_drawings n) t (record { distinct = tt; below = tt; free = tt })
