-- ===== src/Drawings.antt =====
-- The drawing tools of frontend-chart/src/components/ClusterChart.tsx: what the user draws on the
-- chart, selects, drags and deletes.
--
-- A press comes with the clock, `Date.now()`, which is the new drawing's id. The coordinates of a
-- mouse event are those on the canvas. `Math.sqrt` is a parameter of the hit tests. A press goes on
-- to the panning of the chart, or it does not: this is the Boolean that a press returns.
pub mod Hits
pub mod Press
pub mod Moves
pub mod Events
pub mod Drags
pub mod Ids
pub mod Distinct
pub mod Gesture
pub mod Selected
pub mod Selection
pub mod Deleted
mod Tests
use test_v.Shared.{ℕ, Bool, true, false, Option, none, some, List, [], ◌∷◌, if◌then◌else◌, ◌==◌}
use test_v.Shared.Text.{Text}
use test_v.Number.{Num, lit, num_max}
use test_v.Profile.{PriceScale, or_one}

-- The drawing tools, which are also the types of drawings; `text_note` and `volume_range` are the
-- source's "text" and "volume".
pub data Tool : Type 0 where
  trend arrow channel horizontal rect fibonacci ruler text_note volume_range : Tool

-- Which tool it is, to compare two.
abbrev pub tool_code : Tool → ℕ
tool_code trend = 0
tool_code arrow = 1
tool_code channel = 2
tool_code horizontal = 3
tool_code rect = 4
tool_code fibonacci = 5
tool_code ruler = 6
tool_code text_note = 7
tool_code volume_range = 8

abbrev pub is_channel : Tool → Bool
is_channel channel = true
is_channel _ = false

abbrev pub is_horizontal : Tool → Bool
is_horizontal horizontal = true
is_horizontal _ = false

abbrev pub is_text : Tool → Bool
is_text text_note = true
is_text _ = false

pub record Drawing (R : Type 0) : Type 0 where
  pub id : ℕ
  pub type : Tool
  pub start_x : R
  pub start_price : R
  pub end_x : R
  pub end_price : R
  pub stage : Option ℕ
  pub offset_price : Option R
  pub text : Text

-- `drawingDragState`; its type is "handle" if there is a handle's index, else "move".
pub record DrawingDrag (R : Type 0) : Type 0 where
  pub id : ℕ
  pub handle_index : Option ℕ
  pub initial_x : R
  pub initial_y : R
  pub initial_start_x : R
  pub initial_start_price : R
  pub initial_end_x : R
  pub initial_end_price : R

pub record ChartDrawings (R : Type 0) : Type 0 where
  pub active_drawing_tool : Option Tool
  pub drawings : List (Drawing R)
  pub drawing_in_progress : Option (Drawing R)
  pub selected_drawing_id : Option ℕ
  pub drawing_drag_state : Option (DrawingDrag R)

-- What is visible: the mapping of prices, `visibleScrollLeft`, `totalSvgHeight` and the pair's step.
pub record View (R : Type 0) : Type 0 where
  pub scale : PriceScale R
  pub visible_scroll_left : R
  pub total_svg_height : R
  pub price_step : R

module _ (n : Num) where
  open n use {Real, add, sub, mul, div}

  unfoldable pub y_to_price : PriceScale Real → Real → Real
  y_to_price s y = add s.min_price (
      mul (sub (lit n 1) (div (sub y (lit n 30)) (num_max n (lit n 1) s.chart_height)))
        (or_one n (sub s.max_price s.min_price)))

  -- `const [drawings, setDrawings] = useState([])` and the states beside it.
  abbrev pub no_drawings : ChartDrawings Real
  no_drawings = record {
    active_drawing_tool = none;
    drawings = [];
    drawing_in_progress = none;
    selected_drawing_id = none;
    drawing_drag_state = none;
  }

  -- `drawings.find(item => item.id === id)`
  unfoldable pub find_drawing : ℕ → List (Drawing Real) → Option (Drawing Real)
  find_drawing i [] = none
  find_drawing i (d ∷ ds) = let rest = find_drawing i ds in if d.id == i then some d else rest
