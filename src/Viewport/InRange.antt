-- ===== src/Viewport/InRange.antt =====
-- The width of the candles and the three scales over the user's events.
use test_v.Shared.{Bool, true, false, refl, List, [], ◌∷◌, if◌then◌else◌, ltb, arith, length}
use test_v.Number.{Num, Laws, lit}
use test_v.Candle.{ClusterCandle}
use test_v.Viewport.{ShownChart, Viewport}
use test_v.Viewport.Fit.{
  best_width, space_per_candle, fit_width, fit_last40, reset_zoom, fit_symbol, scroll_latest,
  show_latest,
}
use test_v.Viewport.Zoom.{
  zoom_vertically, zoom_horizontally, wheel, zoom_by, zoom_vertically_by, wheel_on_scale,
}
use test_v.Viewport.Drags.{
  ScalePart, delta_part, cvd_part, price_part, press_scale, drag_price_scale, drag_delta_scale,
  drag_cvd_scale, drag_time_scale, press_chart, drag_chart, release_scales, release_chart,
}
use test_v.Viewport.Events.{
  ZoomEvent, turn_wheel, click_zoom, click_vertical_zoom, click_reset, turn_wheel_on_scale,
  candles_shown, press_on_scale, move_on_scales, press_on_chart, move_on_chart, release_all, zoom,
  zoom_all, first_viewport,
}
use test_v.Viewport.Range.{
  best_width-le, Literals, IsBetween, IsInRange, num_max-IsBetween, IsInRange-if, IsInRange-elim,
  with_width, with_scale, hundredth_le_one, scale-IsBetween, panel-IsBetween, width-IsBetween,
  lit-IsBetween,
}

module _ (n : Num) (l : Laws n) (c : Literals n l) where
  open n use {Real, ratio, lt}

  zoom_vertically-IsInRange :
      (chart : ShownChart Real) (up : Bool) (y : Real) (v : Viewport Real)
      → IsInRange n l v
      → IsInRange n l (zoom_vertically n chart up y v)
  unfolding zoom_vertically
  zoom_vertically-IsInRange chart up y v h =
      IsInRange-if n l _ _ v (with_scale n l v _ h (scale-IsBetween n l c _) refl refl refl) h

  zoom_horizontally-IsInRange :
      (chart : ShownChart Real) (up : Bool) (x s : Real) (v : Viewport Real)
      → IsInRange n l v
      → IsInRange n l (zoom_horizontally n chart up x s v)
  unfolding zoom_horizontally
  zoom_horizontally-IsInRange chart up x s v h =
      IsInRange-if n l _ v _ h
        (with_width n l v _ h (width-IsBetween n l c chart.is_narrow _) refl refl refl)

  wheel-IsInRange :
      (chart : ShownChart Real) (shift ctrl up : Bool) (x y s : Real) (v : Viewport Real)
      → IsInRange n l v
      → IsInRange n l (wheel n chart shift ctrl up x y s v)
  unfolding wheel
  wheel-IsInRange chart shift ctrl up x y s v h =
      let k = zoom_horizontally-IsInRange chart up x s v h in
      IsInRange-if n l shift _ _ (zoom_vertically-IsInRange chart up y v h)
        (IsInRange-if n l ctrl _ _ k (zoom_vertically-IsInRange chart up y _ k))

  fit_width-IsBetween : (x : Real) → IsBetween n l (lit n 2) (lit n 450) (fit_width n x)
  unfolding fit_width
  fit_width-IsBetween x =
      let (p, q) = best_width-le n (space_per_candle n x) in
      num_max-IsBetween n l _ _ _
        (lit-IsBetween n l c (best_width n (space_per_candle n x)) p (omega (arith, q)))

  fit_last40-IsInRange :
      (cs : List (ClusterCandle Real)) (v : Viewport Real)
      → IsInRange n l v
      → IsInRange n l (fit_last40 n cs v)
  unfolding fit_last40
  fit_last40-IsInRange cs v h = with_scale n l v _ h (scale-IsBetween n l c _) refl refl refl

  reset_zoom-IsInRange :
      (chart : ShownChart Real) (v : Viewport Real)
      → IsInRange n l v
      → IsInRange n l (reset_zoom n chart v)
  unfolding reset_zoom
  reset_zoom-IsInRange chart v h =
      let u : Viewport Real = record v {
        candle_width =
            if lt (lit n 100) v.visible_client_width
            then fit_width n v.visible_client_width
            else lit n 10;
      } in
      fit_last40-IsInRange chart.candles u
        (with_width n l v u h (go (lt (lit n 100) v.visible_client_width)) refl refl refl)
    where
      go :
          (b : Bool)
          → IsBetween n l
              (lit n 2)
              (lit n 450)
              (if b then fit_width n v.visible_client_width else lit n 10)
      go true = fit_width-IsBetween v.visible_client_width
      go false = lit-IsBetween n l c 10 (omega arith) (omega arith)

  fit_symbol-IsInRange :
      (chart : ShownChart Real) (is_new : Bool) (w : Real) (v : Viewport Real)
      → IsInRange n l v
      → IsInRange n l (fit_symbol n chart is_new w v)
  unfolding fit_symbol
  fit_symbol-IsInRange chart is_new w v h =
      let u : Viewport Real = record v { candle_width = fit_width n w } in
      IsInRange-if n l is_new _ v
        (fit_last40-IsInRange chart.candles u
          (with_width n l v u h (fit_width-IsBetween w) refl refl refl))
        h

  show_latest-IsInRange :
      (chart : ShownChart Real) (is_new : Bool) (w : Real) (v : Viewport Real)
      → IsInRange n l v
      → IsInRange n l (show_latest n chart is_new w v)
  unfolding show_latest scroll_latest
  show_latest-IsInRange chart is_new w v h =
      let k = fit_symbol-IsInRange chart is_new w v h in
      IsInRange-if n l (ltb 0 (length chart.candles)) _ v
        (with_width n l _ _ k k.candle_width refl refl refl) h

  module _ (exp : Real → Real) where
    drag_price_scale-IsInRange :
        (y : Real) (v : Viewport Real)
        → IsInRange n l v
        → IsInRange n l (drag_price_scale n exp y v)
    unfolding drag_price_scale
    drag_price_scale-IsInRange y v h =
        IsInRange-elim n l v.price_drag v _ h
          (λ d. with_scale n l v _ h (scale-IsBetween n l c _) refl refl refl)

    drag_delta_scale-IsInRange :
        (y : Real) (v : Viewport Real)
        → IsInRange n l v
        → IsInRange n l (drag_delta_scale n exp y v)
    unfolding drag_delta_scale
    drag_delta_scale-IsInRange y v h = IsInRange-elim n l v.delta_drag v _ h (λ d. record {
      candle_width = h.candle_width;
      vertical_scale = h.vertical_scale;
      delta_scale = panel-IsBetween n l c _;
      cvd_scale = h.cvd_scale;
    })

    drag_cvd_scale-IsInRange :
        (y : Real) (v : Viewport Real) → IsInRange n l v → IsInRange n l (drag_cvd_scale n exp y v)
    unfolding drag_cvd_scale
    drag_cvd_scale-IsInRange y v h = IsInRange-elim n l v.cvd_drag v _ h (λ d. record {
      candle_width = h.candle_width;
      vertical_scale = h.vertical_scale;
      delta_scale = h.delta_scale;
      cvd_scale = panel-IsBetween n l c _;
    })

    drag_time_scale-IsInRange :
        (chart : ShownChart Real) (w x : Real) (v : Viewport Real)
        → IsInRange n l v
        → IsInRange n l (drag_time_scale n exp chart w x v)
    unfolding drag_time_scale
    drag_time_scale-IsInRange chart w x v h =
        IsInRange-elim n l v.time_drag v _ h
          (λ d. with_width n l v _ h (width-IsBetween n l c chart.is_narrow _) refl refl refl)

    drag_chart-IsInRange :
        (chart : ShownChart Real) (x y : Real) (v : Viewport Real)
        → IsInRange n l v
        → IsInRange n l (drag_chart n exp chart x y v)
    unfolding drag_chart
    drag_chart-IsInRange chart x y v h =
        IsInRange-elim n l v.pan v _ h (λ p. with_width n l v _ h h.candle_width refl refl refl)

    press_scale-IsInRange :
        (part : ScalePart) (y : Real) (v : Viewport Real)
        → IsInRange n l v
        → IsInRange n l (press_scale n exp part y v)
    unfolding press_scale
    press_scale-IsInRange delta_part y v h = with_width n l v _ h h.candle_width refl refl refl
    press_scale-IsInRange cvd_part y v h = with_width n l v _ h h.candle_width refl refl refl
    press_scale-IsInRange price_part y v h = with_width n l v _ h h.candle_width refl refl refl

    zoom-IsInRange :
        (e : ZoomEvent Real) (v : Viewport Real) → IsInRange n l v → IsInRange n l (zoom n exp e v)
    unfolding zoom zoom_by zoom_vertically_by wheel_on_scale press_chart release_scales
        release_chart
    zoom-IsInRange (turn_wheel chart shift ctrl up x y s) v h =
        wheel-IsInRange chart shift ctrl up x y s v h
    zoom-IsInRange (click_zoom chart factor) v h =
        with_width n l v _ h (width-IsBetween n l c chart.is_narrow _) refl refl refl
    zoom-IsInRange (click_vertical_zoom factor) v h =
        with_scale n l v _ h (scale-IsBetween n l c _) refl refl refl
    zoom-IsInRange (click_reset chart) v h = reset_zoom-IsInRange chart v h
    zoom-IsInRange (turn_wheel_on_scale up) v h =
        with_scale n l v _ h (scale-IsBetween n l c _) refl refl refl
    zoom-IsInRange (candles_shown chart is_new w) v h = show_latest-IsInRange chart is_new w v h
    zoom-IsInRange (press_on_scale part y) v h = press_scale-IsInRange part y v h
    zoom-IsInRange (move_on_scales chart w x y) v h = drag_time_scale-IsInRange chart w x _ (
        drag_cvd_scale-IsInRange y _
          (drag_delta_scale-IsInRange y _ (drag_price_scale-IsInRange y v h)))
    zoom-IsInRange (press_on_chart on_timeline a x b y s) v h =
        IsInRange-if n l on_timeline _ _ (with_width n l v _ h h.candle_width refl refl refl)
          (with_width n l v _ h h.candle_width refl refl refl)
    zoom-IsInRange (move_on_chart chart x y) v h = drag_chart-IsInRange chart x y v h
    zoom-IsInRange release_all v h = with_width n l v _ h h.candle_width refl refl refl

    zoom_all-keeps :
        (es : List (ZoomEvent Real)) (v : Viewport Real)
        → IsInRange n l v
        → IsInRange n l (zoom_all n exp es v)
    unfolding zoom_all
    zoom_all-keeps [] v h = h
    zoom_all-keeps (e ∷ es) v h = zoom_all-keeps es (zoom n exp e v) (zoom-IsInRange e v h)

    -- From the first state, after any wheel turns, buttons, drags of the scales and of the chart,
    -- and fits to a symbol, with any exponential: candles are 2 to 450 pixels wide, the vertical
    -- scale lies between 0.1 and 2000, and the scales of the Delta and the CVD panel lie between
    -- 0.01 and 200.
    pub zoom_all-IsInRange :
        (es : List (ZoomEvent Real)) → IsInRange n l (zoom_all n exp es (first_viewport n exp))
    zoom_all-IsInRange es = zoom_all-keeps es (first_viewport n exp) (record {
      candle_width = lit-IsBetween n l c 145 (omega arith) (omega arith);
      vertical_scale = record {
        above = c.tenth_le;
        below = l.le_trans _ _ _ c.le_one (c.lit_mono 1 2000 (omega arith));
      };
      delta_scale = record {
        above = hundredth_le_one n l c;
        below = c.lit_mono 1 200 (omega arith);
      };
      cvd_scale = record { above = hundredth_le_one n l c; below = c.lit_mono 1 200 (omega arith) };
    })
