-- ===== src/Profile/Bins.antt =====
-- The bins of a drawn volume profile (frontend-chart/src/components/ClusterChart.tsx).
use test_v.Shared.{ℕ, ◌-◌, Bool, ◌&&◌, List, [], ◌∷◌, if◌then◌else◌, drop, take, ◌+◌}
use test_v.Number.{Num, lit, le, num_min, num_max}
use test_v.Candle.{ClusterCell, ClusterCandle}
use test_v.Profile.{PriceScale, price_to_y, floor_index, change_at, filled_with}

-- A drawn profile: its two prices, the step of the pair and the number of price levels.
pub record DrawnProfile (R : Type 0) : Type 0 where
  pub start_price : R
  pub end_price : R
  pub price_step : R
  pub bucket_count : ℕ

module _ (n : Num) where
  open n use {Real, add, sub, div}

  -- The cell lies between the two prices on the canvas.
  unfoldable pub is_inside : PriceScale Real → DrawnProfile Real → Real → Bool
  unfolding price_to_y
  is_inside s d price =
      let y1 = price_to_y n s d.start_price in
      let y2 = price_to_y n s d.end_price in
      let y = price_to_y n s price in le n (num_min n y1 y2) y && le n y (num_max n y1 y2)

  unfoldable pub bin_index : DrawnProfile Real → Real → ℕ
  unfolding floor_index
  bin_index d price =
      floor_index n (d.bucket_count - 1)
        (div (sub (num_max n d.start_price d.end_price) price) d.price_step)

  unfoldable pub add_cells :
      PriceScale Real → DrawnProfile Real → List (ClusterCell Real) → List Real → List Real
  unfolding is_inside bin_index change_at
  add_cells s d [] bins = bins
  add_cells s d (c ∷ cs) bins = add_cells s d cs (
      if is_inside s d c.price
      then change_at (bin_index d c.price) (λ b. add b c.volume) bins
      else bins)

  unfoldable pub add_candles :
      PriceScale Real → DrawnProfile Real → List (ClusterCandle Real) → List Real → List Real
  unfolding add_cells
  add_candles s d [] bins = bins
  add_candles s d (c ∷ cs) bins = add_candles s d cs (add_cells s d c.cells bins)

  -- `profileBins`, for the candles from `startIndex` to `endIndex`.
  unfoldable pub profile_bins :
      PriceScale Real → DrawnProfile Real → ℕ → ℕ → List (ClusterCandle Real) → List Real
  unfolding add_candles filled_with
  profile_bins s d start_index end_index candles =
      add_candles s d (take (end_index + 1 - start_index) (drop start_index candles))
        (filled_with (lit n 0) d.bucket_count)
