-- ===== src/MarketData/Ticks.antt =====
-- Candles that are made of trades: `fetchBinanceTicksAndAggregate` and `getClusterCandles` of
-- frontend-chart/src/lib/marketData.ts.
use mathlib.Core.Option
use test_v.Shared.{
  ℕ, zero, suc, ◌-◌, ◌*◌, max, Bool, false, Option, none, some, List, [], ◌∷◌, ◌++◌, map, foldl,
  length, take, drop, get_last?, get_or, if◌then◌else◌, ltb,
}
use test_v.Shared.Sort.{sort}
use test_v.Shared.Text.{Text, codes, text_eq}
use test_v.Storage.{Outcome, returned, thrown}
use test_v.Number.{Num, lit, min_of, max_of}
use test_v.Candle.{ClusterCell, ClusterCandle, poc_scan, value_area, lowest, highest}
use test_v.MarketData.{level_below, object_keys}
use test_v.MarketData.Klines.{
  ProxyReply, KlinesReply, from_proxy, higher_first, imbalance, fetch_klines,
}

-- An aggregated trade, with its numbers parsed; the source's fields are a, p, q, T and m.
pub record Trade (R : Type 0) : Type 0 where
  pub id : ℕ
  pub trade_price : R
  pub quantity : R
  pub time : ℕ
  pub is_buyer_maker : Bool

-- The answer of the exchange: an exception, a bad status, no array, or trades.
pub data TradesReply (R : Type 0) : Type 0 where
  trades_failed trades_status trades_invalid : TradesReply R
  trades : List (Trade R) → TradesReply R

pub record CellSums (R : Type 0) : Type 0 where
  pub bid : R
  pub ask : R
  pub volume : R

-- An older page: whatever is wrong, it has no trades.
unfoldable pub page_trades : {R : Type 0} → TradesReply R → List (Trade R)
page_trades trades_failed = []
page_trades trades_status = []
page_trades trades_invalid = []
page_trades (trades ts) = ts

-- The latest trades and three pages before them, in the order of their ids.
unfoldable pub target_from_id : ℕ → ℕ → ℕ
target_from_id first_id i = max 1 (first_id - i * 1000)

unfoldable pub all_trades :
    {R : Type 0} → (ℕ → TradesReply R) → Trade R → List (Trade R) → List (Trade R)
unfolding page_trades target_from_id
all_trades page t ts =
    sort (λ a b. ltb a.id b.id)
      ((t ∷ ts)
        ++ page_trades (page (target_from_id t.id 1))
        ++ page_trades (page (target_from_id t.id 2))
        ++ page_trades (page (target_from_id t.id 3)))

-- The slices of a length; `none` where the rounds do not suffice.
unfoldable pub chunks : {A : Type 0} → ℕ → ℕ → List A → Option (List (List A))
chunks rounds c [] = some []
chunks zero c (x ∷ xs) = none
chunks (suc rounds) c (x ∷ xs) =
    Option.map (λ rest. take c (x ∷ xs) ∷ rest) (chunks rounds c (drop c (x ∷ xs)))

module _ (n : Num) where
  open n use {Real, ratio, add, sub, mul, div, lt, eq, to_fixed}

  -- A trade in the sums of a level: the seller's side if the buyer was the maker.
  unfoldable pub with_trade : Trade Real → CellSums Real → CellSums Real
  with_trade t s = record {
    bid = if t.is_buyer_maker then add s.bid t.quantity else s.bid;
    ask = if t.is_buyer_maker then s.ask else add s.ask t.quantity;
    volume = add s.volume t.quantity;
  }

  abbrev pub no_sums : CellSums Real
  no_sums = record { bid = lit n 0; ask = lit n 0; volume = lit n 0 }

  unfoldable pub add_trade :
      Real → Trade Real → List (Real × CellSums Real) → List (Real × CellSums Real)
  unfolding with_trade
  add_trade b t [] = (b, with_trade t no_sums) ∷ []
  add_trade b t ((p, s) ∷ m) =
      let rest = add_trade b t m in if eq p b then (p, with_trade t s) ∷ m else (p, s) ∷ rest

  -- The levels of a chunk.
  unfoldable pub cell_map :
      Real → List (Trade Real) → List (Real × CellSums Real) → List (Real × CellSums Real)
  unfolding add_trade
  cell_map price_step [] m = m
  cell_map price_step (t ∷ ts) m =
      cell_map price_step ts (add_trade (level_below n price_step t.trade_price) t m)

  unfoldable pub sums_at : Real → List (Real × CellSums Real) → CellSums Real
  sums_at p [] = no_sums
  sums_at p ((k, s) ∷ m) = let rest = sums_at p m in if eq k p then s else rest

  unfoldable pub tick_cell : Real → CellSums Real → ClusterCell Real
  tick_cell p s = record {
    price = p;
    bid = to_fixed 4 s.bid;
    ask = to_fixed 4 s.ask;
    volume = to_fixed 4 s.volume;
    is_poc = some false;
    is_buy_imbalance = some false;
    is_sell_imbalance = some false;
  }

  unfoldable pub tick_cells : Real → List (Trade Real) → List (ClusterCell Real)
  unfolding cell_map sums_at tick_cell object_keys
  tick_cells price_step ts =
      let m = cell_map price_step ts [] in
      map (λ p. tick_cell p (sums_at p m)) (object_keys n (map (λ e. e.0) m))

  -- The flags: the point of control, and an imbalance of one side in a level that is not small.
  abbrev pub mark : Real → Real → ClusterCell Real → ClusterCell Real
  mark poc_price mean c = record c {
    is_poc = some (eq c.price poc_price);
    is_buy_imbalance = some (imbalance n mean c.volume c.ask c.bid);
    is_sell_imbalance = some (imbalance n mean c.volume c.bid c.ask);
  }

  -- The candle of a chunk that is not empty.
  unfoldable pub tick_candle : Real → Trade Real → List (Trade Real) → ClusterCandle Real
  unfolding tick_cells poc_scan value_area lowest highest
  tick_candle price_step t ts =
      let prices = map (λ (u : Trade Real). u.trade_price) ts in
      let last = get_or (get_last? ts) t in
      let high = max_of n t.trade_price prices in
      let low = min_of n t.trade_price prices in
      let total_volume = foldl (λ sum (u : Trade Real). add sum u.quantity) (lit n 0) (t ∷ ts) in
      let plain = tick_cells price_step (t ∷ ts) in
      let poc_price =
        (poc_scan n plain (lit n 0) (div (add t.trade_price last.trade_price) (lit n 2))).1 in
      let mean = div total_volume (lit n (length plain)) in
      let cells = sort (higher_first n) (map (mark poc_price mean) plain) in
      let area = value_area n total_volume cells in
      let total_bid = foldl (λ sum (c : ClusterCell Real). add sum c.bid) (lit n 0) cells in
      let total_ask = foldl (λ sum (c : ClusterCell Real). add sum c.ask) (lit n 0) cells in
      record {
        timestamp = last.time;
        open_price = to_fixed 4 t.trade_price;
        high = to_fixed 4 high;
        low = to_fixed 4 low;
        close = to_fixed 4 last.trade_price;
        volume = to_fixed 4 total_volume;
        delta = to_fixed 4 (sub total_ask total_bid);
        poc_price = to_fixed 4 poc_price;
        cells = cells;
        vah = to_fixed 4 (highest n high area);
        val = to_fixed 4 (lowest n low area);
        tick_count = some (length (t ∷ ts));
      }

  -- Chunks of fewer than five trades are skipped.
  unfoldable pub tick_candles : Real → List (List (Trade Real)) → List (ClusterCandle Real)
  unfolding tick_candle
  tick_candles price_step [] = []
  tick_candles price_step ([] ∷ cs) = tick_candles price_step cs
  tick_candles price_step ((t ∷ ts) ∷ cs) =
      let rest = tick_candles price_step cs in
      if ltb (length (t ∷ ts)) 5 then rest else tick_candle price_step t ts ∷ rest

  -- From the exchange. `none` is the endless loop over slices of no trades.
  unfoldable pub from_exchange :
      Real
      → ℕ
      → TradesReply Real
      → (ℕ → TradesReply Real)
      → Option (Outcome (List (ClusterCandle Real)))
  unfolding all_trades chunks tick_candles
  from_exchange price_step compression trades_failed page = some thrown
  from_exchange price_step compression trades_status page = some thrown
  from_exchange price_step compression trades_invalid page = some (returned [])
  from_exchange price_step compression (trades []) page = some (returned [])
  from_exchange price_step compression (trades (t ∷ ts)) page =
      let all = all_trades page t ts in
      Option.map (λ cs. returned (tick_candles price_step cs)) (chunks (length all) compression all)

  -- The server first; without candles of it, the exchange.
  unfoldable pub fetch_ticks :
      Real
      → ℕ
      → ProxyReply Real
      → TradesReply Real
      → (ℕ → TradesReply Real)
      → Option (Outcome (List (ClusterCandle Real)))
  unfolding from_proxy from_exchange
  fetch_ticks price_step compression proxy latest page = elim (from_proxy proxy) [
    | some cs ↦ some (returned cs)
    | none ↦ from_exchange price_step compression latest page
  ]

  -- `getClusterCandles`: the interval "50t" is that of the trades.
  unfoldable pub get_cluster_candles :
      (exp : Real → Real) (pow : Real → Real → Real)
      → Text
      → Real
      → ℕ
      → ProxyReply Real
      → KlinesReply Real
      → TradesReply Real
      → (ℕ → TradesReply Real)
      → Option (Outcome (List (ClusterCandle Real)))
  unfolding fetch_ticks fetch_klines text_eq
  get_cluster_candles exp pow interval price_step compression proxy rows latest page =
      if text_eq interval (codes "50t")
      then fetch_ticks price_step compression proxy latest page
      else some (fetch_klines n exp pow price_step proxy rows)
