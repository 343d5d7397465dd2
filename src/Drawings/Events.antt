-- ===== src/Drawings/Events.antt =====
-- The user's events on the drawings, and what a sequence of them leads to.
use test_v.Shared.{ℕ, ◌+◌, ◌≤◌, Option, List, [], ◌∷◌}
use test_v.Shared.Text.{Text}
use test_v.Number.{Num}
use test_v.Drawings.{Tool, ChartDrawings, View}
use test_v.Drawings.Press.{mouse_down}
use test_v.Drawings.Moves.{mouse_move, mouse_up, delete_key, clear_drawings, click_tool}

-- A mouse event comes with what is visible at the time.
pub data DrawingEvent (R : Type 0) : Type 0 where
  press : ℕ → View R → R → R → DrawingEvent R
  move : View R → R → R → DrawingEvent R
  release_with : Option Text → DrawingEvent R
  press_delete : DrawingEvent R
  press_clear : DrawingEvent R
  press_tool : Tool → DrawingEvent R

-- The clock has moved on from one press to the next.
module _ {R : Type 0} where
  unfoldable pub IsTimed : ℕ → List (DrawingEvent R) → Type 0
  IsTimed bound [] = Unit
  IsTimed bound (press now view x y ∷ es) = (bound ≤ now) × IsTimed (now + 1) es
  IsTimed bound (e ∷ es) = IsTimed bound es

module _ (n : Num) (sqrt : n.Real → n.Real) where
  unfoldable pub edit : DrawingEvent n.Real → ChartDrawings n.Real → ChartDrawings n.Real
  unfolding mouse_down mouse_move mouse_up delete_key clear_drawings click_tool
  edit (press now view x y) s = (mouse_down n view sqrt now x y s).0
  edit (move view x y) s = (mouse_move n view x y s).0
  edit (release_with answer) s = (mouse_up n answer s).0
  edit press_delete s = delete_key n s
  edit press_clear s = clear_drawings n s
  edit (press_tool tool) s = click_tool n tool s

  unfoldable pub edit_all : List (DrawingEvent n.Real) → ChartDrawings n.Real → ChartDrawings n.Real
  unfolding edit
  edit_all [] s = s
  edit_all (e ∷ es) s = edit_all es (edit e s)
