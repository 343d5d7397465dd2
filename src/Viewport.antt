-- ===== src/Viewport.antt =====
-- Zooming and panning the chart (frontend-chart/src/components/ClusterChart.tsx): the width of the
-- candles, the vertical scale, the scales of the two lower panels, and the offsets.
--
-- The refs that mirror a state for the wheel are that state. `container.scrollLeft`, which the
-- browser keeps within the content, comes with an event that reads it; what an event writes to it
-- is `visible_scroll_left`. `Math.exp` is a parameter. A wheel event that is level does nothing, so
-- it is left out, and `up` says that `deltaY` is negative.
pub mod Fit
pub mod Zoom
pub mod Drags
pub mod Events
pub mod Range
pub mod InRange
pub mod Fits
mod Tests
use test_v.Shared.{
  ℕ, ◌-◌, Bool, true, false, Option, none, some, List, [], ◌∷◌, if◌then◌else◌, drop, length,
}
use test_v.Number.{Num, lit, num_min, num_max}
use test_v.Candle.{ClusterCandle}
use test_v.Profile.{or_one}

-- The candles, the height of the main panel, and whether they are drawn narrow (Japanese or auto).
pub record ShownChart (R : Type 0) : Type 0 where
  pub candles : List (ClusterCandle R)
  pub chart_height : R
  pub is_narrow : Bool

-- Dragging a scale of prices: where the drag started and the scale there.
pub record ScaleDrag (R : Type 0) : Type 0 where
  pub start_y : R
  pub start_scale : R

-- Dragging the time scale.
pub record TimeDrag (R : Type 0) : Type 0 where
  pub start_x : R
  pub start_candle_width : R
  pub zoom_anchor_index : R
  pub zoom_anchor_click_x : R

-- Panning the chart.
pub record Pan (R : Type 0) : Type 0 where
  pub start_x : R
  pub start_y : R
  pub scroll_left : R
  pub start_price_offset : R

pub record Viewport (R : Type 0) : Type 0 where
  pub candle_width : R
  pub vertical_scale : R
  pub price_center_offset : R
  pub visible_scroll_left : R
  pub visible_client_width : R
  pub delta_scale : R
  pub cvd_scale : R
  pub price_drag : Option (ScaleDrag R)
  pub delta_drag : Option (ScaleDrag R)
  pub cvd_drag : Option (ScaleDrag R)
  pub time_drag : Option (TimeDrag R)
  pub pan : Option (Pan R)

module _ (n : Num) where
  open n use {Real, ratio, add, sub, mul, div, lt, floor}

  -- `Math.min(high, Math.max(low, x))`
  unfoldable pub clamp : Real → Real → Real → Real
  clamp low high x = num_min n high (num_max n low x)

  abbrev pub clamp_scale : Real → Real
  clamp_scale x = clamp (ratio 1 10) (lit n 2000) x

  abbrev pub clamp_panel : Real → Real
  clamp_panel x = clamp (ratio 1 100) (lit n 200) x

  -- `minW` and the width within it and 450.
  abbrev pub min_w : Bool → Real
  min_w is_narrow = if is_narrow then lit n 2 else lit n 8

  abbrev pub clamp_width : Bool → Real → Real
  clamp_width is_narrow x = clamp (min_w is_narrow) (lit n 450) x

  -- `candleSpacing` for a width.
  unfoldable pub spacing : Real → Real
  spacing w =
      num_max n (lit n 1) (if lt w (lit n 30) then floor (mul w (ratio 35 100)) else lit n 12)

  -- The largest high and the smallest low, from a start.
  unfoldable pub high_from : Real → List (ClusterCandle Real) → Real
  high_from m [] = m
  high_from m (c ∷ cs) = high_from (if lt m c.high then c.high else m) cs

  unfoldable pub low_from : Real → List (ClusterCandle Real) → Real
  low_from m [] = m
  low_from m (c ∷ cs) = low_from (if lt c.low m then c.low else m) cs

  -- `maxPriceRaw` and `minPriceRaw`, of all candles or of the last 40; 100 and 0 without candles.
  unfoldable pub price_extremes : List (ClusterCandle Real) → Real × Real
  unfolding high_from low_from
  price_extremes [] = (lit n 100, lit n 0)
  price_extremes (c ∷ cs) = (high_from c.high (c ∷ cs), low_from c.low (c ∷ cs))

  unfoldable pub price_range : List (ClusterCandle Real) → Real
  unfolding price_extremes
  price_range cs = let (high, low) = price_extremes cs in or_one n (sub high low)

  unfoldable pub base_price_center : List (ClusterCandle Real) → Real
  unfolding price_extremes
  base_price_center cs = let (high, low) = price_extremes cs in div (add high low) (lit n 2)

  -- `candles.slice(-40)`
  abbrev pub last40 : List (ClusterCandle Real) → List (ClusterCandle Real)
  last40 cs = drop (length cs - 40) cs
