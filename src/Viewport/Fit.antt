-- ===== src/Viewport/Fit.antt =====
-- Fitting 40 candles into the visible width, and the vertical scale for them.
use test_v.Shared.{ℕ, zero, suc, Bool, List, if◌then◌else◌, length, ltb}
use test_v.Number.{Num, lit, le, num_min, num_max}
use test_v.Candle.{ClusterCandle}
use test_v.Viewport.{
  ShownChart, Viewport, spacing, clamp, clamp_scale, price_range, base_price_center, last40,
}

module _ (n : Num) where
  open n use {Real, ratio, add, sub, mul, div, lt}

  -- A candle of `w` pixels with its spacing is no wider than the space.
  unfoldable pub has_room : Real → ℕ → Bool
  unfolding spacing
  has_room space w = le n (add (lit n w) (spacing n (lit n w))) space

  -- The loop from `w` on: the best width so far, until one has no room.
  unfoldable pub fit_from : Real → ℕ → ℕ → ℕ → ℕ
  unfolding has_room
  fit_from space zero w best_width = best_width
  fit_from space (suc rounds) w best_width =
      let rest = fit_from space rounds (suc w) w in if has_room space w then rest else best_width

  -- `for (let w = 2; w < 120; w++)`, from 10.
  unfoldable pub best_width : Real → ℕ
  unfolding fit_from
  best_width space = fit_from space 118 2 10

  -- The space of each of 40 candles.
  unfoldable pub space_per_candle : Real → Real
  space_per_candle width = div (sub (sub width (lit n 60)) (lit n 90)) (lit n 40)

  -- `Math.max(2, bestWidth)`
  unfoldable pub fit_width : Real → Real
  unfolding best_width space_per_candle
  fit_width width = num_max n (lit n 2) (lit n (best_width (space_per_candle width)))

  -- The vertical scale at which the last 40 candles take 70 % of the height, and their centre.
  unfoldable pub fit_last40 : List (ClusterCandle Real) → Viewport Real → Viewport Real
  unfolding clamp price_range base_price_center
  fit_last40 cs v = record v {
    vertical_scale =
        clamp_scale n (div (mul (price_range n cs) (ratio 812 1000)) (price_range n (last40 n cs)));
    price_center_offset = sub (base_price_center n (last40 n cs)) (base_price_center n cs);
  }

  -- `handleResetZoom`
  unfoldable pub reset_zoom : ShownChart Real → Viewport Real → Viewport Real
  unfolding fit_width fit_last40
  reset_zoom chart v = fit_last40 chart.candles (record v {
    candle_width =
        if lt (lit n 100) v.visible_client_width
        then fit_width v.visible_client_width
        else lit n 10;
  })

  -- The width of the candles with their spacing, and the padding on the right of `width` pixels.
  unfoldable pub candles_width : ℕ → Real → Real
  unfolding spacing
  candles_width count w = mul (lit n count) (add w (spacing n w))

  unfoldable pub scroll_width : ℕ → Real → Real → Real
  unfolding candles_width
  scroll_width count w width =
      add (add (add (candles_width count w) (lit n 60)) (lit n 90))
        (n.round (mul width (ratio 85 100)))

  -- The scroll that puts the last candle 120 pixels before the price scale.
  unfoldable pub scroll_to_end : ℕ → Real → Real → Real
  unfolding candles_width scroll_width
  scroll_to_end count w width = num_max n (lit n 0) (
      num_min n (sub (scroll_width count w width) width)
        (sub (add (lit n 60) (candles_width count w)) (sub (sub width (lit n 90)) (lit n 120))))

  -- A new symbol is fitted.
  unfoldable pub fit_symbol : ShownChart Real → Bool → Real → Viewport Real → Viewport Real
  unfolding fit_width fit_last40
  fit_symbol chart is_new client_width v =
      if is_new
      then fit_last40 chart.candles (record v { candle_width = fit_width client_width })
      else v

  unfoldable pub scroll_latest : ShownChart Real → Real → Viewport Real → Viewport Real
  unfolding scroll_to_end
  scroll_latest chart client_width v = record v {
    visible_scroll_left = scroll_to_end (length chart.candles) v.candle_width client_width;
    visible_client_width = client_width;
  }

  -- The effect that shows the latest candles.
  unfoldable pub show_latest : ShownChart Real → Bool → Real → Viewport Real → Viewport Real
  unfolding fit_symbol scroll_latest
  show_latest chart is_new client_width v =
      if ltb 0 (length chart.candles)
      then scroll_latest chart client_width (fit_symbol chart is_new client_width v)
      else v
