-- ===== src/Viewport/Zoom.antt =====
-- Zooming by the wheel and by the buttons.
use test_v.Shared.{Bool, not, ◌&&◌, if◌then◌else◌}
use test_v.Number.{Num, lit, le, num_max}
use test_v.Profile.{PriceScale}
use test_v.Drawings.{y_to_price}
use test_v.Viewport.{
  ShownChart, Viewport, clamp, clamp_scale, clamp_width, spacing, price_range, base_price_center,
}

module _ (n : Num) where
  open n use {Real, ratio, add, sub, mul, div, lt, eq}

  -- The prices that the panel shows at a vertical scale and an offset: `maxPrice` and `minPrice`.
  unfoldable pub price_scale : ShownChart Real → Real → Real → PriceScale Real
  unfolding price_range base_price_center
  price_scale chart vertical_scale offset =
      let zoomed = div (price_range n chart.candles) (num_max n (ratio 1 10) vertical_scale) in
      let center = add (base_price_center n chart.candles) offset in
      record {
        max_price = add center (mul zoomed (ratio 58 100));
        min_price = sub center (mul zoomed (ratio 58 100));
        chart_height = chart.chart_height;
      }

  -- The point is on the main panel.
  abbrev pub on_chart : ShownChart Real → Real → Bool
  on_chart chart y = le n (lit n 30) y && le n y (add (lit n 30) chart.chart_height)

  abbrev pub wheel_multiplier : Bool → Real
  wheel_multiplier up = if up then ratio 108 100 else ratio 92 100

  -- The vertical zoom at the height `y`.
  unfoldable pub zoom_vertically : ShownChart Real → Bool → Real → Viewport Real → Viewport Real
  unfolding price_scale clamp base_price_center y_to_price
  zoom_vertically chart up y v =
      let mouse_price = y_to_price n (price_scale chart v.vertical_scale v.price_center_offset) y in
      let next = clamp_scale n (mul v.vertical_scale (wheel_multiplier up)) in
      let actual = div next v.vertical_scale in
      let base = base_price_center n chart.candles in
      let center = add base v.price_center_offset in
      if on_chart chart y && not (eq actual (lit n 1))
      then record v {
        vertical_scale = next;
        price_center_offset = sub (sub mouse_price (div (sub mouse_price center) actual)) base;
      }
      else v

  -- The horizontal zoom at `x`, with `container.scrollLeft`.
  unfoldable pub zoom_horizontally :
      ShownChart Real → Bool → Real → Real → Viewport Real → Viewport Real
  unfolding clamp spacing
  zoom_horizontally chart up x scroll_left v =
      let next = clamp_width n chart.is_narrow (mul v.candle_width (wheel_multiplier up)) in
      let factor =
        div (add next (spacing n next)) (add v.candle_width (spacing n v.candle_width)) in
      let active_x = sub (add scroll_left x) (lit n 60) in
      if eq next v.candle_width then v else record v {
        candle_width = next;
        visible_scroll_left = num_max n (lit n 0) (sub (add (lit n 60) (mul active_x factor)) x);
      }

  -- `handleWheel`: Shift zooms vertically, Ctrl horizontally, else both.
  unfoldable pub wheel :
      ShownChart Real → Bool → Bool → Bool → Real → Real → Real → Viewport Real → Viewport Real
  unfolding zoom_vertically zoom_horizontally
  wheel chart is_shift is_ctrl up x y scroll_left v =
      if is_shift
      then zoom_vertically chart up y v
      else if is_ctrl
      then zoom_horizontally chart up x scroll_left v
      else zoom_vertically chart up y (zoom_horizontally chart up x scroll_left v)

  -- `handleZoom` and `handleVerticalZoom`, and the wheel on the price scale.
  unfoldable pub zoom_by : ShownChart Real → Real → Viewport Real → Viewport Real
  unfolding clamp
  zoom_by chart factor v = record v {
    candle_width = clamp_width n chart.is_narrow (add v.candle_width factor);
  }

  unfoldable pub zoom_vertically_by : Real → Viewport Real → Viewport Real
  unfolding clamp
  zoom_vertically_by factor v =
      let multiplier = if lt (lit n 0) factor then ratio 125 100 else ratio 8 10 in
      record v { vertical_scale = clamp_scale n (mul v.vertical_scale multiplier) }

  unfoldable pub wheel_on_scale : Bool → Viewport Real → Viewport Real
  unfolding clamp
  wheel_on_scale up v =
      let multiplier = if up then ratio 115 100 else ratio 85 100 in
      record v { vertical_scale = clamp_scale n (mul v.vertical_scale multiplier) }
