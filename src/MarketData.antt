-- ===== src/MarketData.antt =====
-- Public exchange data: frontend-chart/src/lib/marketData.ts, which turns the order book, the
-- candlesticks and the trades of an exchange into the rows and candles of the chart.
--
-- `fetch` and `parseFloat` are the browser's: an answer is a value, with its numbers parsed.
-- `Math.exp` is a parameter. Objects that are keyed by prices are lists of pairs in the order of
-- insertion; the key of a price names the price.
pub mod Depth
pub mod Levels
pub mod Rows
pub mod Sides
pub mod Klines
pub mod Peak
pub mod Count
pub mod Spread
pub mod Ticks
pub mod Tiled
mod Tests
use test_v.Shared.{
  ℕ, Bool, true, false, ◌&&◌, not, Option, none, some, List, [], ◌∷◌, ◌++◌, map, filter,
  if◌then◌else◌,
}
use test_v.Shared.Sort.{sort}
use test_v.Number.{Num, lit, le}

module _ (n : Num) where
  open n use {Real, mul, div, lt, eq, floor, ceil, to_fixed}

  -- The level below and above a price: `Math.floor(p / priceStep) * priceStep`, to four digits.
  abbrev pub level_below : Real → Real → Real
  level_below price_step p = to_fixed 4 (mul (floor (div p price_step)) price_step)

  abbrev pub level_above : Real → Real → Real
  level_above price_step p = to_fixed 4 (mul (ceil (div p price_step)) price_step)

  -- A key that is an array index comes first, in rising order; `Object.keys`.
  abbrev pub is_index : Real → Bool
  is_index p = eq (floor p) p && le n (lit n 0) p && lt p (lit n 4294967295)

  unfoldable pub object_keys : List Real → List Real
  object_keys ps =
      sort (λ a b. lt a b) (filter (λ p. is_index p) ps) ++ filter (λ p. not (is_index p)) ps
