-- ===== src/Drawings/Press.antt =====
-- Pressing the left mouse button on the chart: `handleMouseDown` up to the panning.
use test_v.Shared.{
  ℕ, Bool, true, false, ◌&&◌, Option, none, some, [], ◌∷◌, ◌++◌, if◌then◌else◌, ◌==◌,
}
use test_v.Number.{Num, lit, le}
use test_v.Drawings.{
  Tool, is_channel, is_horizontal, Drawing, ChartDrawings, View, y_to_price, find_drawing,
}
use test_v.Drawings.Hits.{found}

abbrev pub is_stage : ℕ → Option ℕ → Bool
is_stage k none = false
is_stage k (some i) = i == k

module _ (n : Num) where
  open n use {Real, add, sub, mul, div, eq}

  -- The price of a channel's base line at `x`.
  unfoldable pub baseline_price_at : Drawing Real → Real → Real
  baseline_price_at d x = add d.start_price (
      mul (sub d.end_price d.start_price)
        (if eq d.end_x d.start_x then lit n 0 else div (sub x d.start_x) (sub d.end_x d.start_x)))

  -- The drawing that a press at this point starts.
  unfoldable pub drawing_at : ℕ → Tool → Real → Real → Drawing Real
  drawing_at now tool x price = record {
    id = now;
    type = tool;
    start_x = x;
    start_price = price;
    end_x = x;
    end_price = price;
    stage = if is_channel tool then some 1 else none;
    offset_price = if is_channel tool then some (lit n 0) else none;
    text = [];
  }

  -- A channel in its second stage waits for the click that sets its offset.
  unfoldable pub waits_for_offset : Option (Drawing Real) → Bool
  waits_for_offset none = false
  waits_for_offset (some d) = is_channel d.type && is_stage 2 d.stage

  unfoldable pub complete_channel :
      Drawing Real → Real → Real → ChartDrawings Real → ChartDrawings Real
  unfolding baseline_price_at
  complete_channel d x price s = record s {
    drawings =
        s.drawings
        ++ record d { offset_price = some (sub price (baseline_price_at d x)); stage = none } ∷ [];
    drawing_in_progress = none;
    active_drawing_tool = none;
  }

  unfoldable pub start_drawing : ℕ → Tool → Real → Real → ChartDrawings Real → ChartDrawings Real
  unfolding drawing_at
  start_drawing now tool x price s =
      if is_horizontal tool
      then record s {
        drawings = s.drawings ++ drawing_at now tool x price ∷ [];
        active_drawing_tool = none;
      }
      else record s { drawing_in_progress = some (drawing_at now tool x price) }

  -- With the active tool, over the drawing in progress.
  unfoldable pub draw_over :
      ℕ → Tool → Real → Real → ChartDrawings Real → Option (Drawing Real) → ChartDrawings Real
  unfolding start_drawing complete_channel waits_for_offset
  draw_over now tool x price s none = start_drawing now tool x price s
  draw_over now tool x price s (some d) =
      if waits_for_offset (some d)
      then complete_channel d x price s
      else start_drawing now tool x price s

  -- Selecting what is hit; a drawing that is hit is dragged.
  unfoldable pub selected_as :
      Real → Real → ChartDrawings Real → Option (ℕ × Option ℕ) → ChartDrawings Real × Bool
  unfolding find_drawing
  selected_as x y s none = (record s { selected_drawing_id = none }, true)
  selected_as x y s (some (i, k)) = elim (find_drawing n i s.drawings) [
    | none ↦ (record s { selected_drawing_id = some i }, true)
    | some d ↦ (
      record s {
        selected_drawing_id = some i;
        drawing_drag_state = some (record {
          id = i;
          handle_index = k;
          initial_x = x;
          initial_y = y;
          initial_start_x = d.start_x;
          initial_start_price = d.start_price;
          initial_end_x = d.end_x;
          initial_end_price = d.end_price;
        });
      },
      false,
    )
  ]

  module _ (view : View Real) where
    -- The press is on the main panel.
    abbrev pub on_panel : Real → Real → Bool
    on_panel x y =
        le n (lit n 30) y && le n y (sub view.total_svg_height (lit n 40)) && le n (lit n 60) x

    unfoldable pub draw_at : ℕ → Tool → Real → Real → ChartDrawings Real → ChartDrawings Real
    unfolding draw_over y_to_price
    draw_at now tool x y s =
        draw_over now tool (add x view.visible_scroll_left) (y_to_price n view.scale y) s
          s.drawing_in_progress

    module _ (sqrt : Real → Real) where
      unfoldable pub select_at : Real → Real → ChartDrawings Real → ChartDrawings Real × Bool
      unfolding found selected_as
      select_at x y s = selected_as x y s (found n sqrt view s.drawings s.selected_drawing_id x y)

      -- A press on the panel, with the active tool or without.
      unfoldable pub pressed_with :
          ℕ → Real → Real → ChartDrawings Real → Option Tool → ChartDrawings Real × Bool
      unfolding draw_at select_at
      pressed_with now x y s (some tool) = (draw_at now tool x y s, false)
      pressed_with now x y s none = select_at x y s

      -- `handleMouseDown`; the flag says whether the press goes on to the panning.
      unfoldable pub mouse_down : ℕ → Real → Real → ChartDrawings Real → ChartDrawings Real × Bool
      unfolding pressed_with
      mouse_down now x y s =
          if on_panel x y then pressed_with now x y s s.active_drawing_tool else (s, true)
