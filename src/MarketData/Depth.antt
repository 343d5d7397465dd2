-- ===== src/MarketData/Depth.antt =====
-- The order book: `fetchBinanceDepth` of frontend-chart/src/lib/marketData.ts.
use test_v.Shared.{Bool, Option, none, some, List, [], ◌∷◌, map, take, if◌then◌else◌, get_last?}
use test_v.Shared.Sort.{sort}
use test_v.Number.{Num, lit, num_max}
use test_v.MarketData.{level_below, level_above, object_keys}

pub record OrderBookRow (R : Type 0) : Type 0 where
  pub price : R
  pub amount : R
  pub total : R
  pub percentage : R

-- Price and quantity of an entry of the book.
pub record DepthItem (R : Type 0) : Type 0 where
  pub item_price : R
  pub quantity : R

pub record DepthData (R : Type 0) : Type 0 where
  pub bids : List (DepthItem R)
  pub asks : List (DepthItem R)

-- The answer: an exception, a bad status, data without the two arrays, or the two arrays.
pub data DepthReply (R : Type 0) : Type 0 where
  no_reply bad_status invalid_depth : DepthReply R
  depth_reply : DepthData R → DepthReply R

module _ (n : Num) where
  open n use {Real, add, mul, div, lt, eq}

  -- `x || 0`
  abbrev pub or_zero : Real → Real
  or_zero x = if eq x (lit n 0) then lit n 0 else x

  -- `agg[bucket] = (agg[bucket] || 0) + q`
  unfoldable pub add_amount : Real → Real → List (Real × Real) → List (Real × Real)
  add_amount b q [] = (b, add (lit n 0) q) ∷ []
  add_amount b q ((p, a) ∷ m) =
      let rest = add_amount b q m in if eq p b then (p, add (or_zero a) q) ∷ m else (p, a) ∷ rest

  unfoldable pub aggregate :
      (Real → Real) → List (DepthItem Real) → List (Real × Real) → List (Real × Real)
  unfolding add_amount
  aggregate bucket [] m = m
  aggregate bucket (i ∷ is) m = aggregate bucket is (add_amount (bucket i.item_price) i.quantity m)

  -- `agg[price]`, for a price that is there.
  unfoldable pub amount_at : Real → List (Real × Real) → Real
  amount_at p [] = lit n 0
  amount_at p ((k, a) ∷ m) = let rest = amount_at p m in if eq k p then a else rest

  -- The rows with their running total.
  unfoldable pub rows_from : List (Real × Real) → Real → List Real → List (OrderBookRow Real)
  unfolding amount_at
  rows_from m cumulative [] = []
  rows_from m cumulative (p ∷ ps) =
      let total = add cumulative (amount_at p m) in
      record { price = p; amount = amount_at p m; total = total; percentage = lit n 0 }
      ∷ rows_from m total ps

  -- One side of the book: the first 250 levels in the order of the side.
  unfoldable pub side_rows :
      (Real → Real) → (Real → Real → Bool) → List (DepthItem Real) → List (OrderBookRow Real)
  unfolding aggregate rows_from object_keys
  side_rows bucket before items =
      let m = aggregate bucket items [] in
      rows_from m (lit n 0) (take 250 (sort before (object_keys n (map (λ e. e.0) m))))

  -- The total of the last row, or 1.
  unfoldable pub last_total : List (OrderBookRow Real) → Real
  last_total rows = elim (get_last? rows) [ none ↦ lit n 1 | some r ↦ r.total ]

  unfoldable pub with_percentage : Real → List (OrderBookRow Real) → List (OrderBookRow Real)
  with_percentage max_total rows =
      map
        (λ (r : OrderBookRow Real). record r {
          percentage = mul (div r.total max_total) (lit n 100);
        })
        rows

  unfoldable pub order_book :
      Real → DepthData Real → List (OrderBookRow Real) × List (OrderBookRow Real)
  unfolding side_rows last_total with_percentage
  order_book price_step d =
      let bids = side_rows (λ p. level_below n price_step p) (λ a b. lt b a) d.bids in
      let asks = side_rows (λ p. level_above n price_step p) (λ a b. lt a b) d.asks in
      let max_total = num_max n (last_total bids) (last_total asks) in
      (with_percentage max_total bids, with_percentage max_total asks)

  -- `fetchBinanceDepth`: null whenever something is wrong.
  unfoldable pub fetch_depth :
      Real → DepthReply Real → Option (List (OrderBookRow Real) × List (OrderBookRow Real))
  unfolding order_book
  fetch_depth price_step no_reply = none
  fetch_depth price_step bad_status = none
  fetch_depth price_step invalid_depth = none
  fetch_depth price_step (depth_reply d) = some (order_book price_step d)
