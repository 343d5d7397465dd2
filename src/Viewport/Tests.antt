-- ===== src/Viewport/Tests.antt =====
-- Tests and witnesses for the viewport.
use test_v.Shared.{ℕ, suc, ◌≤◌, true, false, ◌≡◌, ◌⊎◌, refl, List, [], ◌∷◌, arith}
use test_v.Shared.Int.{ℤ, ◌+ℤ◌}
use test_v.Number.{lit}
use test_v.Number.Fixed.{fixed, fixed_laws}
use test_v.Viewport.{ShownChart, clamp, spacing}
use test_v.Viewport.Fit.{has_room, fit_from, best_width}
use test_v.Viewport.Zoom.{zoom_by, zoom_vertically_by}
use test_v.Viewport.Drags.{price_part, press_scale}
use test_v.Viewport.Events.{
  ZoomEvent, click_zoom, click_vertical_zoom, press_on_scale, move_on_scales, zoom, zoom_all,
  first_viewport,
}
use test_v.Viewport.Range.{Literals, IsInRange}
use test_v.Viewport.InRange
use test_v.Viewport.Fits

-- The literals of the instance stand as those of the source.
literals : Literals fixed fixed_laws
literals = record {
  lit_mono = λ a b h. ground arith;
  hundredth_le_tenth = refl;
  tenth_le = refl;
  le_one = refl;
}

-- `e ^ x`, to the first order.
abbrev near_exp : ℤ → ℤ
near_exp x = x +ℤ lit fixed 1

abbrev empty : ShownChart ℤ
empty = record { candles = []; chart_height = lit fixed 200; is_narrow = false }

abbrev events : List (ZoomEvent ℤ)
events =
    click_zoom empty (lit fixed 500)
    ∷ click_vertical_zoom (lit fixed 1)
    ∷ press_on_scale price_part (lit fixed 100)
    ∷ move_on_scales empty (lit fixed 800) (lit fixed 0) (lit fixed 20)
    ∷ []

-- The width stops at 450.
width_runs :
    (zoom_all fixed near_exp events (first_viewport fixed near_exp)).candle_width ≡ lit fixed 450
unfolding zoom_all zoom zoom_by zoom_vertically_by clamp press_scale ◌+ℤ◌
width_runs = refl

zoom_all-IsInRange_example :
    IsInRange fixed fixed_laws (zoom_all fixed near_exp events (first_viewport fixed near_exp))
zoom_all-IsInRange_example = InRange.zoom_all-IsInRange fixed fixed_laws literals near_exp events

-- Eight pixels for a candle: six and two between them.
best_width_runs : best_width fixed (lit fixed 8) ≡ 6
unfolding best_width fit_from has_room spacing ◌+ℤ◌
best_width_runs = refl

-- Two pixels for a candle: none fits, and the width is 10.
no_room_runs : best_width fixed (lit fixed 2) ≡ 10
unfolding best_width fit_from has_room spacing ◌+ℤ◌
no_room_runs = refl

best_width_cases_example :
    ((has_room fixed (lit fixed 8) 2 ≡ false) × (best_width fixed (lit fixed 8) ≡ 10))
    ⊎ ((2 ≤ best_width fixed (lit fixed 8))
        × (best_width fixed (lit fixed 8) ≤ 119)
        × ((k : ℕ)
            → 2 ≤ k
            → k ≤ best_width fixed (lit fixed 8)
            → has_room fixed (lit fixed 8) k ≡ true)
        × ((best_width fixed (lit fixed 8) ≡ 119)
            ⊎ (has_room fixed (lit fixed 8) (suc (best_width fixed (lit fixed 8))) ≡ false)))
best_width_cases_example = Fits.best_width_cases fixed (lit fixed 8)
