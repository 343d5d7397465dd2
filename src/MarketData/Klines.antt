-- ===== src/MarketData/Klines.antt =====
-- Candlesticks whose volume is spread over price levels: `fetchBinanceKlines` of
-- frontend-chart/src/lib/marketData.ts.
use test_v.Shared.{
  ℕ, zero, suc, Bool, false, ◌&&◌, Option, none, some, List, [], ◌∷◌, map, foldl, length, find?,
  if◌then◌else◌, ltb, ◌==◌,
}
use test_v.Shared.Sort.{sort}
use test_v.Storage.{Outcome, returned, thrown}
use test_v.Number.{Num, lit, le, abs, num_max}
use test_v.Candle.{ClusterCell, ClusterCandle, value_area, lowest, highest}

-- A row of the exchange, with its numbers parsed.
pub record Kline (R : Type 0) : Type 0 where
  pub timestamp : ℕ
  pub open_price : R
  pub high : R
  pub low : R
  pub close : R
  pub volume : R
  pub taker_buy_vol : R

pub record TempCell (R : Type 0) : Type 0 where
  pub price : R
  pub bid : R
  pub ask : R
  pub volume : R

-- The answer of the repository's server: an exception, a bad status, a result without candles (its
-- status is not "ok" or there is no array), or an array of candles.
pub data ProxyReply (R : Type 0) : Type 0 where
  proxy_failed proxy_status proxy_invalid : ProxyReply R
  proxy_candles : List (ClusterCandle R) → ProxyReply R

-- The answer of the exchange: an exception, a bad status, no array, or the rows.
pub data KlinesReply (R : Type 0) : Type 0 where
  klines_failed klines_status klines_invalid : KlinesReply R
  klines : List (Kline R) → KlinesReply R

-- The candles of the server, if it has any.
unfoldable pub from_proxy : {R : Type 0} → ProxyReply R → Option (List (ClusterCandle R))
from_proxy (proxy_candles (c ∷ cs)) = some (c ∷ cs)
from_proxy (proxy_candles []) = none
from_proxy proxy_failed = none
from_proxy proxy_status = none
from_proxy proxy_invalid = none

module _ (n : Num) where
  open n use {Real, ratio, add, sub, mul, div, lt, eq, floor, ceil, round, to_fixed}

  unfoldable pub kline_start : Real → Kline Real → Real
  kline_start price_step k = mul (floor (div k.low price_step)) price_step

  unfoldable pub kline_end : Real → Kline Real → Real
  kline_end price_step k = mul (ceil (div k.high price_step)) price_step

  -- A range of more than 250 steps is divided by a multiple of the step.
  unfoldable pub active_price_step : Real → Real → Real → Real
  active_price_step start_p end_p price_step =
      let range_units = round (div (sub end_p start_p) price_step) in
      if lt (lit n 250) range_units
      then mul price_step (ceil (div range_units (lit n 250)))
      else price_step

  -- The loop that counts the cells from a price on, with its break.
  unfoldable pub count_cells : ℕ → Real → Real → Real → ℕ → ℕ
  count_cells zero end_p step price count = count
  count_cells (suc fuel) end_p step price count =
      let rest = count_cells fuel end_p step (add price step) (suc count) in
      if le n price end_p then (if ltb 250 (suc count) then suc count else rest) else count

  unfoldable pub parsed_levels : ℕ → Real → Real → List Real
  parsed_levels zero step level = []
  parsed_levels (suc k) step level = to_fixed 4 level ∷ parsed_levels k step (add level step)

  -- `find` and `sort` of the cells by falling price.
  abbrev pub higher_first : ClusterCell Real → ClusterCell Real → Bool
  higher_first a b = lt b.price a.price

  abbrev pub is_poc_cell : ClusterCell Real → Bool
  is_poc_cell c = elim c.is_poc [ none ↦ false | some b ↦ b ]

  -- `|| 1`
  abbrev pub weight_sum_or_one : Real → Real
  weight_sum_or_one x = if eq x (lit n 0) then lit n 1 else x

  -- A level and its share of the volume, divided by the share of the buyers.
  unfoldable pub temp_cell : Kline Real → Real → Real → Real → TempCell Real
  temp_cell k sum_weights price_level w =
      let level_vol = mul k.volume (div w sum_weights) in
      let taker_ratio = if lt (lit n 0) k.volume then div k.taker_buy_vol k.volume else ratio 1 2 in
      record {
        price = price_level;
        bid = mul level_vol (sub (lit n 1) taker_ratio);
        ask = mul level_vol taker_ratio;
        volume = level_vol;
      }

  -- The index of the point of control; `none` is -1.
  unfoldable pub poc_index : List (TempCell Real) → ℕ → Real → Option ℕ → Option ℕ
  poc_index [] idx max_vol poc = poc
  poc_index (c ∷ cs) idx max_vol poc =
      poc_index cs (suc idx) (if lt max_vol c.volume then c.volume else max_vol)
        (if lt max_vol c.volume then some idx else poc)

  abbrev pub is_index_of : Option ℕ → ℕ → Bool
  is_index_of none idx = false
  is_index_of (some k) idx = k == idx

  -- An imbalance: one side is more than 1.8 times the other, in a level that is not small.
  abbrev pub imbalance : Real → Real → Real → Real → Bool
  imbalance mean volume strong weak =
      lt (mul weak (ratio 9 5)) strong && lt (mul mean (ratio 2 5)) volume

  abbrev pub final_cell : Real → Bool → TempCell Real → ClusterCell Real
  final_cell mean is_poc c = record {
    price = c.price;
    bid = to_fixed 4 c.bid;
    ask = to_fixed 4 c.ask;
    volume = to_fixed 4 c.volume;
    is_poc = some is_poc;
    is_buy_imbalance = some (imbalance mean c.volume c.ask c.bid);
    is_sell_imbalance = some (imbalance mean c.volume c.bid c.ask);
  }

  unfoldable pub final_cells : Real → Option ℕ → ℕ → List (TempCell Real) → List (ClusterCell Real)
  final_cells mean poc idx [] = []
  final_cells mean poc idx (c ∷ cs) =
      final_cell mean (is_index_of poc idx) c ∷ final_cells mean poc (suc idx) cs

  -- The candle from its cells.
  unfoldable pub kline_candle_of : Kline Real → List (ClusterCell Real) → ClusterCandle Real
  unfolding value_area lowest highest
  kline_candle_of k cells =
      let sorted_cells = sort higher_first cells in
      let taker_sell_vol = num_max n (lit n 0) (sub k.volume k.taker_buy_vol) in
      let area = value_area n k.volume sorted_cells in
      record {
        timestamp = k.timestamp;
        open_price = to_fixed 4 k.open_price;
        high = to_fixed 4 k.high;
        low = to_fixed 4 k.low;
        close = to_fixed 4 k.close;
        volume = to_fixed 4 k.volume;
        delta = to_fixed 4 (sub k.taker_buy_vol taker_sell_vol);
        poc_price = elim (find? is_poc_cell sorted_cells) [
          | none ↦ to_fixed 4 (div (add k.open_price k.close) (lit n 2))
          | some c ↦ c.price
        ];
        cells = sorted_cells;
        vah = to_fixed 4 (highest n k.high area);
        val = to_fixed 4 (lowest n k.low area);
        tick_count = none;
      }

  -- `Math.exp` and `Math.pow`.
  module _ (exp : Real → Real) (pow : Real → Real → Real) where
    unfoldable pub level_weight : Real → Real → Real → Real
    level_weight center max_distance p =
        let x = div (abs n (sub p center)) (mul max_distance (ratio 9 20)) in
        num_max n (ratio 1 100) (exp (sub (lit n 0) (pow x (lit n 2))))

    unfoldable pub temp_cells : Kline Real → Real → List Real → List (TempCell Real)
    unfolding level_weight temp_cell
    temp_cells k max_distance levels =
        let weight = level_weight (div (add k.open_price k.close) (lit n 2)) max_distance in
        let sum_weights =
          weight_sum_or_one (foldl (λ s w. add s w) (lit n 0) (map weight levels)) in
        map (λ p. temp_cell k sum_weights p (weight p)) levels

    -- The levels of a candlestick; the loop that counts them has its 251 rounds.
    unfoldable pub levels_of : Real → Kline Real → List Real
    unfolding kline_start kline_end active_price_step count_cells parsed_levels
    levels_of price_step k =
        let start_p = kline_start price_step k in
        let end_p = kline_end price_step k in
        let step = active_price_step start_p end_p price_step in
        parsed_levels (count_cells 251 end_p step start_p 0) step start_p

    unfoldable pub temp_cells_of : Real → Kline Real → List (TempCell Real)
    unfolding temp_cells levels_of kline_start kline_end
    temp_cells_of price_step k =
        let distance =
          num_max n (sub (kline_end price_step k) (kline_start price_step k)) price_step in
        temp_cells k distance (levels_of price_step k)

    unfoldable pub kline_candle : Real → Kline Real → ClusterCandle Real
    unfolding temp_cells_of poc_index final_cells kline_candle_of
    kline_candle price_step k =
        let cells = temp_cells_of price_step k in
        let mean = div k.volume (lit n (length cells)) in
        kline_candle_of k (final_cells mean (poc_index cells 0 (lit n 0) none) 0 cells)

    -- The server first; without candles of it, the exchange, whose failures are thrown on.
    unfoldable pub fetch_klines :
        Real → ProxyReply Real → KlinesReply Real → Outcome (List (ClusterCandle Real))
    unfolding from_proxy kline_candle
    fetch_klines price_step proxy reply = elim (from_proxy proxy) [
      | some cs ↦ returned cs
      | none ↦ elim reply [
        | klines_failed ↦ thrown
        | klines_status ↦ thrown
        | klines_invalid ↦ thrown
        | klines ks ↦ returned (map (kline_candle price_step) ks)
      ]
    ]
