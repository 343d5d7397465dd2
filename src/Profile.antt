-- ===== src/Profile.antt =====
-- The volume profile of frontend-chart/src/components/ClusterChart.tsx that the user draws over a
-- range of candles, with its value area.
--
-- The number of price levels of a drawn profile, which the source rounds from prices, is an
-- argument. `Math.floor` is used only to find an index, so an index is found by comparison.
pub mod Bins
pub mod Area
pub mod Sums
pub mod Reached
mod Tests
use test_v.Shared.{
  ℕ, zero, suc, ◌+◌, ◌-◌, Bool, true, false, ◌&&◌, ◌||◌, Option, none, some, List, [], ◌∷◌,
  if◌then◌else◌,
}
use test_v.Number.{Num, lit, le, num_min, num_max}

-- The mapping of prices to the canvas.
pub record PriceScale (R : Type 0) : Type 0 where
  pub max_price : R
  pub min_price : R
  pub chart_height : R

module _ (n : Num) where
  open n use {Real, add, sub, mul, div, eq}

  -- `maxPrice - minPrice || 1`
  abbrev pub or_one : Real → Real
  or_one x = if eq x (lit n 0) then lit n 1 else x

  -- `priceToY`; `margin.top` is 30.
  unfoldable pub price_to_y : PriceScale Real → Real → Real
  price_to_y s price = add (lit n 30) (
      mul s.chart_height
        (sub (lit n 1) (div (sub price s.min_price) (or_one (sub s.max_price s.min_price)))))

  -- `Math.min(bound, Math.max(0, Math.floor(x)))`: the largest index up to the bound that is at most
  -- `x`, or 0.
  unfoldable pub floor_index : ℕ → Real → ℕ
  floor_index zero x = 0
  floor_index (suc b) x =
      let rest = floor_index b x in if le n (lit n (suc b)) x then suc b else rest

-- An array of numbers: `bins[i]`, where it is read in range, and `bins[i] += v`.
module _ {ℓ} {R : Type ℓ} where
  unfoldable pub bin_at : R → List R → ℕ → R
  bin_at z [] i = z
  bin_at z (b ∷ bs) zero = b
  bin_at z (b ∷ bs) (suc i) = bin_at z bs i

  unfoldable pub change_at : ℕ → (R → R) → List R → List R
  change_at i f [] = []
  change_at zero f (b ∷ bs) = f b ∷ bs
  change_at (suc i) f (b ∷ bs) = b ∷ change_at i f bs

  -- `Array.from({ length }, () => z)`
  unfoldable pub filled_with : R → ℕ → List R
  filled_with z zero = []
  filled_with z (suc k) = z ∷ filled_with z k
