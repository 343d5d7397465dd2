-- ===== src/Drawings/Hits.antt =====
-- What a press hits: a handle of the selected drawing, or the topmost drawing at the point.
use mathlib.Core.Option
use test_v.Shared.{
  ℕ, Bool, ◌&&◌, ◌||◌, Option, none, some, List, [], ◌∷◌, if◌then◌else◌, get_or, reverse, find?,
}
use test_v.Number.{Num, lit, le, abs, num_min, num_max}
use test_v.Profile.{price_to_y}
use test_v.Drawings.{
  trend, arrow, channel, horizontal, rect, fibonacci, ruler, text_note, volume_range, is_channel,
  Drawing, View, find_drawing,
}

pub record Handle (R : Type 0) : Type 0 where
  pub x : R
  pub y : R
  pub idx : ℕ

module _ (n : Num) (sqrt : n.Real → n.Real) (view : View n.Real) where
  open n use {Real, ratio, add, sub, mul, div, lt, eq}

  unfoldable pub y_of : Real → Real
  unfolding price_to_y
  y_of price = price_to_y n view.scale price

  -- `priceStep || 0.1`
  abbrev pub step_or : Real
  step_or = if eq view.price_step (lit n 0) then ratio 1 10 else view.price_step

  abbrev pub offset_of : Drawing Real → Real
  offset_of d = get_or d.offset_price (mul step_or (lit n 20))

  abbrev pub distance : Real → Real → Real → Real → Real
  distance x1 y1 x2 y2 = sqrt (add (mul (sub x1 x2) (sub x1 x2)) (mul (sub y1 y2) (sub y1 y2)))

  abbrev pub x_of : Real → Real
  x_of x = sub x view.visible_scroll_left

  unfoldable pub handles_of : Drawing Real → List (Handle Real)
  unfolding y_of
  handles_of d =
      let x1 = x_of d.start_x in
      let x2 = x_of d.end_x in
      let y1 = y_of d.start_price in
      let y2 = y_of d.end_price in
      let o = offset_of d in
      if is_channel d.type
      then record { x = x1; y = y1; idx = 1 }
        ∷ record { x = x2; y = y2; idx = 2 }
        ∷ record { x = x2; y = y_of (add d.end_price o); idx = 3 }
        ∷ record { x = x1; y = y_of (add d.start_price o); idx = 4 }
        ∷ []
      else record { x = x1; y = y1; idx = 1 }
        ∷ record { x = x2; y = y2; idx = 2 }
        ∷ record { x = x2; y = y1; idx = 3 }
        ∷ record { x = x1; y = y2; idx = 4 }
        ∷ []

  -- The point is between the least and the greatest coordinates.
  unfoldable pub in_box : Real → Real → Real → Real → Real → Real → Bool
  in_box min_x max_x min_y max_y x y = le n min_x x && le n x max_x && le n min_y y && le n y max_y

  -- `checkLine`
  unfoldable pub check_line : Real → Real → Real → Real → Real → Real → Bool
  check_line px1 py1 px2 py2 x y =
      let len = distance px2 py2 px1 py1 in
      let u =
        div (add (mul (sub x px1) (sub px2 px1)) (mul (sub y py1) (sub py2 py1))) (mul len len) in
      lt (lit n 0) len
      && le n (lit n 0) u
      && le n u (lit n 1)
      && le n (distance x y (add px1 (mul u (sub px2 px1))) (add py1 (mul u (sub py2 py1))))
          (lit n 8)

  -- Near an end or on one of the two lines.
  unfoldable pub on_line : Drawing Real → Real → Real → Bool
  unfolding y_of check_line
  on_line d x y =
      let x1 = x_of d.start_x in
      let x2 = x_of d.end_x in
      let y1 = y_of d.start_price in
      let y2 = y_of d.end_price in
      let y1_off = y_of (add d.start_price (offset_of d)) in
      let y2_off = y_of (add d.end_price (offset_of d)) in
      le n (distance x y x1 y1) (lit n 10)
      || le n (distance x y x2 y2) (lit n 10)
      || le n (distance x y x1 y1_off) (lit n 10)
      || le n (distance x y x2 y2_off) (lit n 10)
      || check_line x1 y1 x2 y2 x y
      || check_line x1 y1_off x2 y2_off x y

  unfoldable pub box_hit : Drawing Real → Real → Real → Bool
  unfolding in_box y_of
  box_hit d x y =
      let x1 = x_of d.start_x in
      let x2 = x_of d.end_x in
      let y1 = y_of d.start_price in
      let y2 = y_of d.end_price in
      in_box (num_min n x1 x2) (num_max n x1 x2) (num_min n y1 y2) (num_max n y1 y2) x y

  -- The box with 10 pixels around it.
  unfoldable pub wide_box_hit : Drawing Real → Real → Real → Bool
  unfolding in_box y_of
  wide_box_hit d x y =
      let x1 = x_of d.start_x in
      let x2 = x_of d.end_x in
      let y1 = y_of d.start_price in
      let y2 = y_of d.end_price in
      in_box (sub (num_min n x1 x2) (lit n 10)) (add (num_max n x1 x2) (lit n 10))
        (sub (num_min n y1 y2) (lit n 10)) (add (num_max n y1 y2) (lit n 10)) x y

  unfoldable pub hits : Drawing Real → Real → Real → Bool
  unfolding box_hit wide_box_hit on_line y_of
  hits d x y = elim d.type [
    | volume_range ↦ box_hit d x y
    | rect ↦ box_hit d x y
    | ruler ↦ box_hit d x y
    | trend ↦ on_line d x y
    | arrow ↦ on_line d x y
    | channel ↦ on_line d x y
    | horizontal ↦ le n (abs n (sub y (y_of d.start_price))) (lit n 8)
    | text_note ↦ wide_box_hit d x y
    | fibonacci ↦ wide_box_hit d x y
  ]

  -- `clickedHandle` of a drawing, as the drawing's id and the handle's index.
  unfoldable pub handle_at : Drawing Real → Real → Real → Option (ℕ × ℕ)
  unfolding handles_of
  handle_at d x y =
      Option.map (λ (h : Handle Real). (d.id, h.idx))
        (find? (λ (h : Handle Real). le n (distance x y h.x h.y) (lit n 10)) (handles_of d))

  -- The handle of the selected drawing at the point.
  unfoldable pub clicked_handle : List (Drawing Real) → Option ℕ → Real → Real → Option (ℕ × ℕ)
  unfolding handle_at find_drawing
  clicked_handle ds none x y = none
  clicked_handle ds (some i) x y = elim (find_drawing n i ds) [
    | none ↦ none
    | some d ↦ handle_at d x y
  ]

  -- The loop from the last drawing to the first.
  unfoldable pub topmost : List (Drawing Real) → Real → Real → Option ℕ
  unfolding hits
  topmost ds x y =
      Option.map (λ (d : Drawing Real). d.id)
        (find? (λ (d : Drawing Real). hits d x y) (reverse ds))

  -- A handle comes before a drawing.
  unfoldable pub found_of : Option (ℕ × ℕ) → Option ℕ → Option (ℕ × Option ℕ)
  found_of (some (i, k)) o = some (i, some k)
  found_of none (some i) = some (i, none)
  found_of none none = none

  -- `foundDrawingId` and `foundHandleIdx`.
  unfoldable pub found : List (Drawing Real) → Option ℕ → Real → Real → Option (ℕ × Option ℕ)
  unfolding clicked_handle topmost found_of
  found ds selected x y = found_of (clicked_handle ds selected x y) (topmost ds x y)
