-- ===== src/Candle.antt =====
-- Cluster candles (frontend-chart/src/types.ts) and the mapping of a backend candle to one:
-- `mapBackendCandle` of frontend-chart/src/lib/wsClient.ts and of frontend-chart/src/lib/api.ts.
--
-- A flag that the wire leaves out is `none` (undefined). A cell's volume is present, as the
-- interface `BackendCandle` declares: the loops compute with it before `??` is reached.
pub mod Poc
pub mod ValueArea
pub mod Mapping
mod Tests
use test_v.Shared.{
  ℕ, ◌*◌, Bool, true, false, Option, none, some, List, [], ◌∷◌, map, if◌then◌else◌, get_or,
}
use test_v.Shared.Sort.{sort}
use test_v.Number.{Num, lit, le, min_of, max_of}

pub record ClusterCell (R : Type 0) : Type 0 where
  pub price : R
  pub bid : R
  pub ask : R
  pub volume : R
  pub is_poc : Option Bool
  pub is_buy_imbalance : Option Bool
  pub is_sell_imbalance : Option Bool

pub record ClusterCandle (R : Type 0) : Type 0 where
  pub timestamp : ℕ
  pub open_price : R
  pub high : R
  pub low : R
  pub close : R
  pub volume : R
  pub delta : R
  pub poc_price : R
  pub cells : List (ClusterCell R)
  pub vah : R
  pub val : R
  pub tick_count : Option ℕ

-- The cells of a backend candle have the fields of a cluster cell.
pub record BackendCandle (R : Type 0) : Type 0 where
  pub time : ℕ
  pub open_price : R
  pub high : R
  pub low : R
  pub close : R
  pub volume : R
  pub delta : R
  pub cells : List (ClusterCell R)

module _ (n : Num) where
  open n use {Real, ratio, add, mul, lt}

  -- The first loop: the largest volume so far and its price.
  unfoldable pub poc_scan : List (ClusterCell Real) → Real → Real → Real × Real
  poc_scan [] max_vol poc_price = (max_vol, poc_price)
  poc_scan (c ∷ cs) max_vol poc_price =
      poc_scan cs (if lt max_vol c.volume then c.volume else max_vol)
        (if lt max_vol c.volume then c.price else poc_price)

  -- `sort((a, b) => b.volume - a.volume)`
  abbrev pub by_volume : ClusterCell Real → ClusterCell Real → Bool
  by_volume a b = lt b.volume a.volume

  unfoldable pub sorted_by_vol : List (ClusterCell Real) → List (ClusterCell Real)
  sorted_by_vol cells = sort by_volume cells

  -- The second loop: prices in falling order of volume, up to the one that reaches the target.
  unfoldable pub va_prices : Real → Real → List (ClusterCell Real) → List Real
  va_prices target running [] = []
  va_prices target running (c ∷ cs) =
      let rest = va_prices target (add running c.volume) cs in
      c.price ∷ (if le n target (add running c.volume) then [] else rest)

  unfoldable pub value_area : Real → List (ClusterCell Real) → List Real
  unfolding sorted_by_vol va_prices
  value_area volume cells = va_prices (mul volume (ratio 7 10)) (lit n 0) (sorted_by_vol cells)

  -- `Math.min(...vaPrices)` and `Math.max(...vaPrices)`, or the candle's own bound.
  unfoldable pub lowest : Real → List Real → Real
  lowest low [] = low
  lowest low (p ∷ ps) = min_of n p ps

  unfoldable pub highest : Real → List Real → Real
  highest high [] = high
  highest high (p ∷ ps) = max_of n p ps

  -- The candle with the cells as the caller maps them.
  unfoldable pub with_cells : BackendCandle Real → List (ClusterCell Real) → ClusterCandle Real
  unfolding poc_scan value_area lowest highest
  with_cells bc cells = record {
    timestamp = bc.time * 1000;
    open_price = bc.open_price;
    high = bc.high;
    low = bc.low;
    close = bc.close;
    volume = bc.volume;
    delta = bc.delta;
    poc_price = (poc_scan bc.cells (lit n 0) bc.open_price).1;
    cells = cells;
    vah = highest bc.high (value_area bc.volume bc.cells);
    val = lowest bc.low (value_area bc.volume bc.cells);
    tick_count = none;
  }

  -- The cells of the stream: a missing flag is false.
  abbrev pub flagged : ClusterCell Real → ClusterCell Real
  flagged c = record c {
    is_poc = some (get_or c.is_poc false);
    is_buy_imbalance = some (get_or c.is_buy_imbalance false);
    is_sell_imbalance = some (get_or c.is_sell_imbalance false);
  }

  -- lib/wsClient.ts
  unfoldable pub map_stream_candle : BackendCandle Real → ClusterCandle Real
  unfolding with_cells
  map_stream_candle bc = with_cells bc (map flagged bc.cells)

  -- lib/api.ts: the cells are copied field by field.
  unfoldable pub map_backend_candle : BackendCandle Real → ClusterCandle Real
  unfolding with_cells
  map_backend_candle bc = with_cells bc (
      map
        (λ c. record {
          price = c.price;
          bid = c.bid;
          ask = c.ask;
          volume = c.volume;
          is_poc = c.is_poc;
          is_buy_imbalance = c.is_buy_imbalance;
          is_sell_imbalance = c.is_sell_imbalance;
        })
        bc.cells)
