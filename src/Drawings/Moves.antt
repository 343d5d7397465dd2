-- ===== src/Drawings/Moves.antt =====
-- Moving the mouse and releasing it, on a drawing in progress or on a drawing that is dragged.
use test_v.Shared.{
  ℕ, Bool, true, false, not, ◌&&◌, ◌||◌, Option, none, some, [], ◌∷◌, ◌++◌, map, filter,
  if◌then◌else◌, ◌==◌, leb,
}
use test_v.Shared.Text.{Text}
use test_v.Number.{Num}
use test_v.Drawings.{
  Tool, tool_code, is_channel, is_text, Drawing, DrawingDrag, ChartDrawings, View, y_to_price,
}
use test_v.Drawings.Press.{is_stage, waits_for_offset, baseline_price_at}

-- White space, as `trim` takes it away.
unfoldable pub is_space : ℕ → Bool
is_space c =
    leb 9 c && leb c 13
    || c == 32
    || c == 160
    || c == 5760
    || leb 8192 c && leb c 8202
    || c == 8232
    || c == 8233
    || c == 8239
    || c == 8287
    || c == 12288
    || c == 65279

-- `!txt.trim()`
unfoldable pub is_blank : Text → Bool
unfolding is_space
is_blank [] = true
is_blank (c ∷ cs) = is_space c && is_blank cs

-- `activeDrawingTool === tool.id`
unfoldable pub is_active : Tool → Option Tool → Bool
is_active tool none = false
is_active tool (some t) = tool_code tool == tool_code t

module _ (n : Num) where
  open n use {Real, add, sub}

  unfoldable pub moved : DrawingDrag Real → Real → Real → Drawing Real → Drawing Real
  moved g delta_x delta_price d = record d {
    start_x = add g.initial_start_x delta_x;
    end_x = add g.initial_end_x delta_x;
    start_price = add g.initial_start_price delta_price;
    end_price = add g.initial_end_price delta_price;
  }

  -- The handles 1 to 4 of a channel, and of the other drawings.
  unfoldable pub pulled_channel : DrawingDrag Real → ℕ → Real → Real → Drawing Real → Drawing Real
  pulled_channel g k delta_x price d =
      if k == 1
      then record d { start_x = add g.initial_start_x delta_x; start_price = price }
      else if k == 2
      then record d { end_x = add g.initial_end_x delta_x; end_price = price }
      else if k == 3
      then record d { offset_price = some (sub price d.end_price) }
      else if k == 4
      then record d { offset_price = some (sub price d.start_price) }
      else d

  unfoldable pub pulled_box : DrawingDrag Real → ℕ → Real → Real → Drawing Real → Drawing Real
  pulled_box g k delta_x price d =
      if k == 1
      then record d { start_x = add g.initial_start_x delta_x; start_price = price }
      else if k == 2
      then record d { end_x = add g.initial_end_x delta_x; end_price = price }
      else if k == 3
      then record d { end_x = add g.initial_end_x delta_x; start_price = price }
      else if k == 4
      then record d { start_x = add g.initial_start_x delta_x; end_price = price }
      else d

  module _ (view : View Real) where
    unfoldable pub dragged : DrawingDrag Real → Real → Real → Drawing Real → Drawing Real
    unfolding moved pulled_channel pulled_box y_to_price
    dragged g x y d =
        let delta_x = sub x g.initial_x in
        let price = y_to_price n view.scale y in
        elim g.handle_index [
          | none ↦ moved g delta_x (sub price (y_to_price n view.scale g.initial_y)) d
          | some k ↦
              if is_channel d.type
              then pulled_channel g k delta_x price d
              else pulled_box g k delta_x price d
        ]

    -- The drawing in progress follows the mouse.
    unfoldable pub followed : Real → Real → Drawing Real → Drawing Real
    unfolding waits_for_offset baseline_price_at y_to_price
    followed x y d =
        let at_x = add x view.visible_scroll_left in
        let price = y_to_price n view.scale y in
        if waits_for_offset n (some d)
        then record d { offset_price = some (sub price (baseline_price_at n d at_x)) }
        else record d { end_x = at_x; end_price = price }

    unfoldable pub if_dragged : DrawingDrag Real → Real → Real → Drawing Real → Drawing Real
    unfolding dragged
    if_dragged g x y d = if d.id == g.id then dragged g x y d else d

    -- `handleMouseMove`; the flag says whether the move goes on to the panning.
    unfoldable pub mouse_move : Real → Real → ChartDrawings Real → ChartDrawings Real × Bool
    unfolding followed if_dragged
    mouse_move x y s = elim s.drawing_in_progress [
      | some d ↦ (record s { drawing_in_progress = some (followed x y d) }, false)
      | none ↦ elim s.drawing_drag_state [
        | some g ↦ (record s { drawings = map (if_dragged g x y) s.drawings }, false)
        | none ↦ (s, true)
      ]
    ]

  -- What `prompt` returns for a text: nothing, or a text that is kept unless it is blank.
  unfoldable pub released_text :
      Drawing Real → ChartDrawings Real → Option Text → ChartDrawings Real
  unfolding is_blank
  released_text d s none = record s { drawing_in_progress = none; active_drawing_tool = none }
  released_text d s (some txt) =
      let done = record s { drawing_in_progress = none; active_drawing_tool = none } in
      if is_blank txt
      then done
      else record done { drawings = s.drawings ++ record d { text = txt } ∷ [] }

  -- A release ends the drawing in progress, but for the first stage of a channel.
  unfoldable pub release : Option Text → Drawing Real → ChartDrawings Real → ChartDrawings Real
  unfolding released_text
  release answer d s =
      if is_channel d.type && is_stage 1 d.stage
      then record s { drawing_in_progress = some (record d { stage = some 2 }) }
      else if is_text d.type
      then released_text d s answer
      else record s {
        drawings = s.drawings ++ d ∷ [];
        drawing_in_progress = none;
        active_drawing_tool = none;
      }

  -- The release, with the drawing in progress or without.
  unfoldable pub released :
      Option Text → ChartDrawings Real → Option (Drawing Real) → ChartDrawings Real × Bool
  unfolding release
  released answer s (some d) = (release answer d s, false)
  released answer s none = elim s.drawing_drag_state [
    | some g ↦ (record s { drawing_drag_state = none }, false)
    | none ↦ (s, true)
  ]

  -- `handleMouseUpOrLeave`; the flag says whether it ends the panning.
  unfoldable pub mouse_up : Option Text → ChartDrawings Real → ChartDrawings Real × Bool
  unfolding released
  mouse_up answer s = released answer s s.drawing_in_progress

  -- The keys Delete and Backspace.
  unfoldable pub delete_key : ChartDrawings Real → ChartDrawings Real
  delete_key s = elim s.selected_drawing_id [
    | none ↦ s
    | some i ↦ record s {
      drawings = filter (λ (d : Drawing Real). not (d.id == i)) s.drawings;
      selected_drawing_id = none;
    }
  ]

  -- The button that clears the drawings.
  unfoldable pub clear_drawings : ChartDrawings Real → ChartDrawings Real
  clear_drawings s = record s { drawings = []; selected_drawing_id = none }

  -- A tool's button: `setActiveDrawingTool(isActive ? null : tool.id)`.
  unfoldable pub click_tool : Tool → ChartDrawings Real → ChartDrawings Real
  unfolding is_active
  click_tool tool s = record s {
    active_drawing_tool = if is_active tool s.active_drawing_tool then none else some tool;
  }
