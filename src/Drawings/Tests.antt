-- ===== src/Drawings/Tests.antt =====
-- Tests and witnesses for the drawings.
use test_v.Shared.{
  ℕ, zero, suc, ◌*◌, ◌/◌, ◌≡◌, ◌≢◌, All, refl, none, some, List, [], ◌∷◌, ◌++◌, map, if◌then◌else◌,
  leb, arith, length,
}
use test_v.Shared.Int.{ℤ, pos, negsuc, ◌+ℤ◌, ◌-ℤ◌}
use test_v.Number.{lit}
use test_v.Number.Fixed.{fixed}
use test_v.Profile.{price_to_y}
use test_v.Drawings.{
  trend, rect, Drawing, DrawingDrag, ChartDrawings, View, no_drawings, y_to_price, find_drawing,
}
use test_v.Drawings.Hits.{
  y_of, check_line, on_line, hits, handle_at, clicked_handle, topmost, found_of, found,
}
use test_v.Drawings.Press.{
  drawing_at, waits_for_offset, start_drawing, draw_over, draw_at, selected_as, select_at,
  pressed_with, mouse_down,
}
use test_v.Drawings.Moves.{
  moved, dragged, followed, if_dragged, mouse_move, release, released, mouse_up, delete_key,
  is_active, click_tool,
}
use test_v.Drawings.Events.{
  DrawingEvent, press, move, release_with, press_tool, IsTimed, edit, edit_all,
}
use test_v.Drawings.Ids.{AreDistinct}
use test_v.Drawings.Distinct
use test_v.Drawings.Drags
use test_v.Drawings.Drags.{moves}
use test_v.Drawings.Gesture
use test_v.Drawings.Gesture.{ended}
use test_v.Drawings.Deleted

-- Square roots up to 100 pixels, in whole pixels.
abbrev root_below : ℕ → ℕ → ℕ
root_below zero m = 0
root_below (suc k) m = let rest = root_below k m in if leb (suc k * suc k) m then suc k else rest

abbrev root : ℤ → ℤ
root (pos m) = lit fixed (root_below 100 (m / 10000))
root (negsuc m) = lit fixed 0

abbrev view : View ℤ
view = record {
  scale = record {
    max_price = lit fixed 200;
    min_price = lit fixed 0;
    chart_height = lit fixed 200;
  };
  visible_scroll_left = lit fixed 0;
  total_svg_height = lit fixed 300;
  price_step = lit fixed 1;
}

abbrev at : ℕ → ℤ
at k = lit fixed k

-- A line is drawn.
abbrev stroke : List (DrawingEvent ℤ)
stroke =
    press_tool trend
    ∷ press 1000 view (at 100) (at 50)
    ∷ move view (at 150) (at 100)
    ∷ release_with none
    ∷ []

-- It is taken in the middle and dragged.
abbrev drag : List (DrawingEvent ℤ)
drag = press 1001 view (at 125) (at 75) ∷ move view (at 135) (at 75) ∷ []

abbrev start_xs : List (Drawing ℤ) → List ℤ
start_xs ds = map (λ (d : Drawing ℤ). d.start_x) ds

drag_runs :
    start_xs (edit_all fixed root (stroke ++ drag) (no_drawings fixed)).drawings ≡ at 110 ∷ []
unfolding edit_all edit mouse_down pressed_with draw_at draw_over start_drawing drawing_at
    y_to_price mouse_move followed waits_for_offset mouse_up released release click_tool is_active
    select_at selected_as found found_of clicked_handle handle_at topmost hits on_line check_line
    y_of price_to_y find_drawing if_dragged dragged moved ◌+ℤ◌ ◌-ℤ◌
drag_runs = refl

-- The states before and after the press that takes the line.
unfoldable drawn : ChartDrawings ℤ
unfolding edit_all edit mouse_down pressed_with draw_at draw_over start_drawing drawing_at
    y_to_price mouse_move followed waits_for_offset mouse_up released release click_tool is_active
    ◌+ℤ◌ ◌-ℤ◌
drawn = edit_all fixed root stroke (no_drawings fixed)

unfoldable taken : ChartDrawings ℤ
unfolding drawn edit mouse_down pressed_with select_at selected_as found found_of clicked_handle
    handle_at topmost hits on_line check_line y_of price_to_y find_drawing ◌+ℤ◌ ◌-ℤ◌
taken = edit fixed root (press 1001 view (at 125) (at 75)) drawn

abbrev line : Drawing ℤ
line = record {
  id = 1000;
  type = trend;
  start_x = at 100;
  start_price = at 180;
  end_x = at 150;
  end_price = at 130;
  stage = none;
  offset_price = none;
  text = [];
}

abbrev grip : DrawingDrag ℤ
grip = record {
  id = 1000;
  handle_index = none;
  initial_x = at 125;
  initial_y = at 75;
  initial_start_x = at 100;
  initial_start_price = at 180;
  initial_end_x = at 150;
  initial_end_price = at 130;
}

drawn_runs : drawn.drawings ≡ line ∷ []
unfolding drawn
drawn_runs = refl

edit_all-AreDistinct_example :
    AreDistinct (edit_all fixed root (stroke ++ drag) (no_drawings fixed)).drawings
unfolding IsTimed
edit_all-AreDistinct_example =
    Distinct.edit_all-AreDistinct fixed root (stroke ++ drag) (omega arith, (omega arith, tt))

edit_all-delete_key_example :
    (suc (
        length
          (delete_key fixed (edit_all fixed root (stroke ++ drag) (no_drawings fixed))).drawings)
      ≡ length (edit_all fixed root (stroke ++ drag) (no_drawings fixed)).drawings)
    × All
        (λ (d : Drawing ℤ). d.id ≢ 1000)
        (delete_key fixed (edit_all fixed root (stroke ++ drag) (no_drawings fixed))).drawings
unfolding IsTimed edit_all edit mouse_down pressed_with draw_at draw_over start_drawing drawing_at
    y_to_price mouse_move followed waits_for_offset mouse_up released release click_tool is_active
    select_at selected_as found found_of clicked_handle handle_at topmost hits on_line check_line
    y_of price_to_y find_drawing if_dragged dragged moved ◌+ℤ◌ ◌-ℤ◌
edit_all-delete_key_example =
    Deleted.edit_all-delete_key fixed root (stroke ++ drag) 1000 (omega arith, (omega arith, tt))
      refl

edit_all-moves_last_example :
    (edit fixed root
        (move view (at 135) (at 75))
        (edit_all fixed root (moves fixed ((view, at 90, at 40) ∷ [])) taken)
      ≡ edit fixed root (move view (at 135) (at 75)) taken)
    × ((i : ℕ)
        → i ≢ grip.id
        → find_drawing fixed i
            (edit fixed root
              (move view (at 135) (at 75))
              (edit_all fixed root (moves fixed ((view, at 90, at 40) ∷ [])) taken)).drawings
          ≡ find_drawing fixed i taken.drawings)
unfolding taken
edit_all-moves_last_example =
    Drags.edit_all-moves_last fixed root grip view (at 135) (at 75) ((view, at 90, at 40) ∷ [])
      taken refl refl

abbrev ready : ChartDrawings ℤ
ready = record (no_drawings fixed) { active_drawing_tool = some rect }

edit_all_gesture_example :
    edit_all fixed root
      (press 7 view (at 100) (at 50) ∷ moves fixed ((view, at 90, at 40) ∷ [])
        ++ move view (at 150) (at 100) ∷ release_with none ∷ [])
      ready
    ≡ record ready {
      drawings =
          []
          ++ ended fixed root view
              (at 150)
              (at 100)
              (drawing_at fixed 7 rect (at 100 +ℤ at 0) (y_to_price fixed view.scale (at 50)))
            ∷ [];
      drawing_in_progress = none;
      active_drawing_tool = none;
    }
unfolding ◌-ℤ◌
edit_all_gesture_example =
    Gesture.edit_all_gesture fixed root 7 rect view view (at 100) (at 50) (at 150) (at 100)
      ((view, at 90, at 40) ∷ []) none ready refl refl refl refl refl refl
