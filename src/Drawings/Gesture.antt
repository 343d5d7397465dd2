-- ===== src/Drawings/Gesture.antt =====
-- A whole gesture with a drawing tool: the mouse is pressed, moved and released.
use test_v.Shared.{ℕ, true, false, ◌≡◌, refl, ap, ◌∙◌, Option, none, some, List, [], ◌∷◌, ◌++◌}
use test_v.Shared.Text.{Text}
use test_v.Number.{Num}
use test_v.Drawings.{
  Tool, is_channel, is_horizontal, is_text, Drawing, ChartDrawings, View, y_to_price,
}
use test_v.Drawings.Press.{
  on_panel, drawing_at, waits_for_offset, start_drawing, draw_over, draw_at, pressed_with,
  mouse_down,
}
use test_v.Drawings.Moves.{followed, mouse_move, release, released, mouse_up}
use test_v.Drawings.Drags.{moves}
use test_v.Drawings.Events.{DrawingEvent, press, move, release_with, edit, edit_all}

module _ (n : Num) (sqrt : n.Real → n.Real) where
  open n use {Real, add}

  -- A drawing whose end is at this point of the canvas.
  abbrev pub ended : View Real → Real → Real → Drawing Real → Drawing Real
  unfolding y_to_price
  ended view x y d = record d {
    end_x = add x view.visible_scroll_left;
    end_price = y_to_price n view.scale y;
  }

  edit_all-append :
      (es fs : List (DrawingEvent Real)) (s : ChartDrawings Real)
      → edit_all n sqrt (es ++ fs) s ≡ edit_all n sqrt fs (edit_all n sqrt es s)
  unfolding edit_all
  edit_all-append [] fs s = refl
  edit_all-append (e ∷ es) fs s = edit_all-append es fs (edit n sqrt e s)

  mouse_move-followed :
      (v : View Real) (x y : Real) (s : ChartDrawings Real) (d : Drawing Real)
      → waits_for_offset n (some d) ≡ false
      → edit n sqrt (move v x y) (record s { drawing_in_progress = some d })
        ≡ record s { drawing_in_progress = some (ended v x y d) }
  unfolding edit mouse_move followed
  mouse_move-followed v x y s d w = rw w

  -- Over any moves, the end of the drawing in progress follows the mouse.
  edit_all-moves :
      (v : View Real) (x y : Real) (ps : List (View Real × Real × Real)) (s : ChartDrawings Real)
      (d : Drawing Real)
      → waits_for_offset n (some d) ≡ false
      → edit n sqrt
          (move v x y)
          (edit_all n sqrt (moves n ps) (record s { drawing_in_progress = some d }))
        ≡ record s { drawing_in_progress = some (ended v x y d) }
  unfolding edit_all waits_for_offset
  edit_all-moves v x y [] s d w = mouse_move-followed v x y s d w
  edit_all-moves v x y ((u, a, b) ∷ ps) s d w =
      ap (λ t. edit n sqrt (move v x y) (edit_all n sqrt (moves n ps) t))
        (mouse_move-followed u a b s d w)
      ∙ edit_all-moves v x y ps s (ended u a b d) w

  press_start :
      (now : ℕ) (v : View Real) (x y : Real) (tool : Tool) (s : ChartDrawings Real)
      → s.active_drawing_tool ≡ some tool
      → s.drawing_in_progress ≡ none
      → on_panel n v x y ≡ true
      → is_horizontal tool ≡ false
      → edit n sqrt (press now v x y) s ≡ record s {
        drawing_in_progress =
            some (drawing_at n now tool (add x v.visible_scroll_left) (y_to_price n v.scale y));
      }
  unfolding edit mouse_down pressed_with draw_at draw_over start_drawing
  press_start now v x y tool s a p o h =
      let q : mouse_down n v sqrt now x y s
          ≡ pressed_with n v sqrt now x y s s.active_drawing_tool =
        rw o in
      ap (λ r. r.0) q ∙ rw (a, p, h)

  release_done :
      (answer : Option Text) (s : ChartDrawings Real) (d : Drawing Real)
      → is_channel d.type ≡ false
      → is_text d.type ≡ false
      → edit n sqrt (release_with answer) (record s { drawing_in_progress = some d }) ≡ record s {
        drawings = s.drawings ++ d ∷ [];
        drawing_in_progress = none;
        active_drawing_tool = none;
      }
  unfolding edit mouse_up released release
  release_done answer s d c t = rw (c, t)

  -- With a tool that is drawn in one stroke (a line, an arrow, a box, Fibonacci levels, a ruler or a
  -- volume profile) and no drawing in progress: a press on the panel, any moves and a release add
  -- exactly one drawing, from the point of the press to the last point of the moves, with the time
  -- of the press as its id, and put the tool away; the selection and the drag stay as they were.
  pub edit_all_gesture :
      (now : ℕ) (tool : Tool) (v w : View Real) (x y a b : Real)
      (ps : List (View Real × Real × Real)) (answer : Option Text) (s : ChartDrawings Real)
      → s.active_drawing_tool ≡ some tool
      → s.drawing_in_progress ≡ none
      → on_panel n v x y ≡ true
      → is_horizontal tool ≡ false
      → is_channel tool ≡ false
      → is_text tool ≡ false
      → edit_all n sqrt (press now v x y ∷ moves n ps ++ move w a b ∷ release_with answer ∷ []) s
        ≡ record s {
          drawings =
              s.drawings
              ++ ended w a b
                  (drawing_at n now tool (add x v.visible_scroll_left) (y_to_price n v.scale y))
                ∷ [];
          drawing_in_progress = none;
          active_drawing_tool = none;
        }
  unfolding edit_all waits_for_offset drawing_at
  edit_all_gesture now tool v w x y a b ps answer s t p o h c u =
      let d = drawing_at n now tool (add x v.visible_scroll_left) (y_to_price n v.scale y) in
      let es = move w a b ∷ release_with answer ∷ [] in
      ap (edit_all n sqrt (moves n ps ++ es)) (press_start now v x y tool s t p o h)
      ∙ edit_all-append (moves n ps) es (record s { drawing_in_progress = some d })
      ∙ ap (edit n sqrt (release_with answer)) (edit_all-moves w a b ps s d (rw c))
      ∙ release_done answer s (ended w a b d) c u
