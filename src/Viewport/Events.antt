-- ===== src/Viewport/Events.antt =====
-- The user's events on the viewport, and what a sequence of them leads to.
use test_v.Shared.{Bool, List, [], ◌∷◌, none}
use test_v.Number.{Num, lit}
use test_v.Viewport.{ShownChart, Viewport}
use test_v.Viewport.Fit.{reset_zoom, show_latest}
use test_v.Viewport.Zoom.{wheel, zoom_by, zoom_vertically_by, wheel_on_scale}
use test_v.Viewport.Drags.{
  ScalePart, press_scale, drag_price_scale, drag_delta_scale, drag_cvd_scale, drag_time_scale,
  press_chart, drag_chart, release_scales, release_chart,
}

-- The chart at hand comes with the events that read it.
pub data ZoomEvent (R : Type 0) : Type 0 where
  turn_wheel : ShownChart R → Bool → Bool → Bool → R → R → R → ZoomEvent R
  click_zoom : ShownChart R → R → ZoomEvent R
  click_vertical_zoom : R → ZoomEvent R
  click_reset : ShownChart R → ZoomEvent R
  turn_wheel_on_scale : Bool → ZoomEvent R
  candles_shown : ShownChart R → Bool → R → ZoomEvent R
  press_on_scale : ScalePart → R → ZoomEvent R
  move_on_scales : ShownChart R → R → R → R → ZoomEvent R
  press_on_chart : Bool → R → R → R → R → R → ZoomEvent R
  move_on_chart : ShownChart R → R → R → ZoomEvent R
  release_all : ZoomEvent R

module _ (n : Num) (exp : n.Real → n.Real) where
  open n use {Real}

  unfoldable pub zoom : ZoomEvent Real → Viewport Real → Viewport Real
  unfolding wheel zoom_by zoom_vertically_by wheel_on_scale reset_zoom show_latest press_scale
      drag_price_scale drag_delta_scale drag_cvd_scale drag_time_scale press_chart drag_chart
      release_scales release_chart
  zoom (turn_wheel chart is_shift is_ctrl up x y scroll_left) v =
      wheel n chart is_shift is_ctrl up x y scroll_left v
  zoom (click_zoom chart factor) v = zoom_by n chart factor v
  zoom (click_vertical_zoom factor) v = zoom_vertically_by n factor v
  zoom (click_reset chart) v = reset_zoom n chart v
  zoom (turn_wheel_on_scale up) v = wheel_on_scale n up v
  zoom (candles_shown chart is_new client_width) v = show_latest n chart is_new client_width v
  zoom (press_on_scale part y) v = press_scale n exp part y v
  zoom (move_on_scales chart client_width x y) v =
      drag_time_scale n exp chart client_width x
        (drag_cvd_scale n exp y (drag_delta_scale n exp y (drag_price_scale n exp y v)))
  zoom (press_on_chart on_timeline client_x x page_x page_y scroll_left) v =
      press_chart n exp on_timeline client_x x page_x page_y scroll_left v
  zoom (move_on_chart chart page_x page_y) v = drag_chart n exp chart page_x page_y v
  zoom release_all v = release_chart n exp (release_scales n exp v)

  unfoldable pub zoom_all : List (ZoomEvent Real) → Viewport Real → Viewport Real
  unfolding zoom
  zoom_all [] v = v
  zoom_all (e ∷ es) v = zoom_all es (zoom e v)

  -- The state at first.
  abbrev pub first_viewport : Viewport Real
  first_viewport = record {
    candle_width = lit n 145;
    vertical_scale = n.ratio 7 10;
    price_center_offset = lit n 0;
    visible_scroll_left = lit n 0;
    visible_client_width = lit n 800;
    delta_scale = lit n 1;
    cvd_scale = lit n 1;
    price_drag = none;
    delta_drag = none;
    cvd_drag = none;
    time_drag = none;
    pan = none;
  }
