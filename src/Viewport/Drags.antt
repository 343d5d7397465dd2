-- ===== src/Viewport/Drags.antt =====
-- Dragging the scales and the chart.
use test_v.Shared.{Bool, none, some, if◌then◌else◌, length}
use test_v.Number.{Num, lit, num_min, num_max}
use test_v.Viewport.{
  ShownChart, Viewport, ScaleDrag, clamp, clamp_scale, clamp_panel, clamp_width, spacing,
}
use test_v.Viewport.Fit.{scroll_width}
use test_v.Viewport.Zoom.{price_scale}

-- The part of the price panel that is pressed: beside the Delta panel, beside the CVD panel, or
-- beside the prices.
pub data ScalePart : Type 0 where
  delta_part cvd_part price_part : ScalePart

module _ (n : Num) (exp : n.Real → n.Real) where
  open n use {Real, add, sub, mul, div}

  unfoldable pub press_scale : ScalePart → Real → Viewport Real → Viewport Real
  press_scale delta_part y v = record v {
    delta_drag = some (record { start_y = y; start_scale = v.delta_scale });
  }
  press_scale cvd_part y v = record v {
    cvd_drag = some (record { start_y = y; start_scale = v.cvd_scale });
  }
  press_scale price_part y v = record v {
    price_drag = some (record { start_y = y; start_scale = v.vertical_scale });
  }

  -- Up zooms in, down zooms out.
  unfoldable pub dragged_scale : ScaleDrag Real → Real → Real
  dragged_scale d y = mul d.start_scale (exp (div (sub d.start_y y) (lit n 200)))

  -- The three listeners for the scales.
  unfoldable pub drag_price_scale : Real → Viewport Real → Viewport Real
  unfolding dragged_scale clamp
  drag_price_scale y v = elim v.price_drag [
    | none ↦ v
    | some d ↦ record v { vertical_scale = clamp_scale n (dragged_scale d y) }
  ]

  unfoldable pub drag_delta_scale : Real → Viewport Real → Viewport Real
  unfolding dragged_scale clamp
  drag_delta_scale y v = elim v.delta_drag [
    | none ↦ v
    | some d ↦ record v { delta_scale = clamp_panel n (dragged_scale d y) }
  ]

  unfoldable pub drag_cvd_scale : Real → Viewport Real → Viewport Real
  unfolding dragged_scale clamp
  drag_cvd_scale y v = elim v.cvd_drag [
    | none ↦ v
    | some d ↦ record v { cvd_scale = clamp_panel n (dragged_scale d y) }
  ]

  -- The listener for the time scale; the width of the container is `client_width`.
  unfoldable pub drag_time_scale : ShownChart Real → Real → Real → Viewport Real → Viewport Real
  unfolding clamp spacing scroll_width
  drag_time_scale chart client_width x v = elim v.time_drag [
    | none ↦ v
    | some d ↦
        let w = clamp_width n chart.is_narrow (add d.start_candle_width (sub x d.start_x)) in
        let old = spacing n v.candle_width in
        let next =
          sub (add (mul d.zoom_anchor_index (add w old)) (lit n 60)) d.zoom_anchor_click_x in
        let content =
          add (add (add (mul (lit n (length chart.candles)) (add w old)) (lit n 60)) (lit n 90))
            (n.round (mul v.visible_client_width (n.ratio 85 100))) in
        let max_scroll = num_max n (lit n 0) (sub content client_width) in
        record v {
          candle_width = w;
          visible_scroll_left = num_max n (lit n 0) (num_min n max_scroll next);
        }
  ]

  -- `handleMouseDown` beyond the drawings: on the time scale or on the chart. The coordinates are
  -- those in the container, and those on the page less the container's offset.
  unfoldable pub press_chart :
      Bool → Real → Real → Real → Real → Real → Viewport Real → Viewport Real
  unfolding spacing
  press_chart on_timeline client_x x page_x page_y scroll_left v =
      if on_timeline
      then record v {
        time_drag = some (record {
          start_x = client_x;
          start_candle_width = v.candle_width;
          zoom_anchor_index =
              div (sub (add scroll_left x) (lit n 60))
                (add v.candle_width (spacing n v.candle_width));
          zoom_anchor_click_x = x;
        });
      }
      else record v {
        pan = some (record {
          start_x = page_x;
          start_y = page_y;
          scroll_left = scroll_left;
          start_price_offset = v.price_center_offset;
        });
      }

  -- `handleMouseMove` beyond the drawings.
  unfoldable pub drag_chart : ShownChart Real → Real → Real → Viewport Real → Viewport Real
  unfolding price_scale
  drag_chart chart page_x page_y v = elim v.pan [
    | none ↦ v
    | some p ↦
        let s = price_scale n chart v.vertical_scale v.price_center_offset in
        let change =
          mul (div (sub page_y p.start_y) (num_max n (lit n 1) chart.chart_height))
            (sub s.max_price s.min_price) in
        record v {
          visible_scroll_left = sub p.scroll_left (sub page_x p.start_x);
          price_center_offset = add p.start_price_offset change;
        }
  ]

  -- The releases: over the window, and over the chart.
  unfoldable pub release_scales : Viewport Real → Viewport Real
  release_scales v = record v {
    price_drag = none;
    delta_drag = none;
    cvd_drag = none;
    time_drag = none;
  }

  unfoldable pub release_chart : Viewport Real → Viewport Real
  release_chart v = record v { pan = none }
