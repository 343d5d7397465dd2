-- ===== src/MarketData/Tests.antt =====
-- Tests and witnesses for the data of the exchange, on a book of three levels.
use mathlib.Core.Option
use test_v.Shared.{
  ℕ, All, filter, ◌⊎◌, Bool, ◌==◌, true, false, ◌≡◌, refl, ap, Option, some, if◌then◌else◌, List,
  [], ◌∷◌, map, arith,
}
use test_v.Shared.Int.{ℤ, pos, negsuc, ◌+ℤ◌, ◌-ℤ◌, ltb_ℤ}
use test_v.Shared.Sort.{sort}
use test_v.Storage.{Outcome, returned, thrown}
use test_v.Candle.{ClusterCell, ClusterCandle}
use test_v.Number.{lit, neg}
use test_v.Number.Fixed.{fixed, fixed_laws}
use test_v.MarketData.{level_below, level_above}
use test_v.MarketData.Depth.{DepthItem, DepthData, order_book}
use test_v.MarketData.Levels.{EqLaws}
use test_v.MarketData.Klines.{
  Kline, TempCell, proxy_failed, from_proxy, kline_candle, temp_cells_of, is_poc_cell,
}
use test_v.MarketData.Peak.{IsPeak}
use test_v.MarketData.Spread
use test_v.MarketData.Spread.{IsSpread}
use test_v.MarketData.Ticks.{Trade, TradesReply, trades, trades_failed, fetch_ticks}
use test_v.MarketData.Tiled
use test_v.MarketData.Tiled.{IsTiled, pages_of}
use test_v.MarketData.Sides
use test_v.MarketData.Rows.{IsSide}

eq→≡ : (a b : ℤ) → fixed.eq a b ≡ true → a ≡ b
eq→≡ (pos m) (pos k) h = ap pos (ground arith)
eq→≡ (pos m) (negsuc k) h = absurd (ground arith)
eq→≡ (negsuc m) (pos k) h = absurd (ground arith)
eq→≡ (negsuc m) (negsuc k) h = ap negsuc (ground arith)

eq_refl : (a : ℤ) → fixed.eq a a ≡ true
eq_refl a = ground arith

lt_total : (a b : ℤ) → ltb_ℤ a b ≡ false → ltb_ℤ b a ≡ false → a ≡ b
lt_total (pos m) (pos k) h i = ap pos (ground arith)
lt_total (pos m) (negsuc k) h i = absurd (ground arith)
lt_total (negsuc m) (pos k) h i = absurd (ground arith)
lt_total (negsuc m) (negsuc k) h i = ap negsuc (ground arith)

-- The integers of the tests have the laws of the keys.
fixed_eq_laws : EqLaws fixed
fixed_eq_laws = record { eq→≡ = eq→≡; eq_refl = eq_refl; lt_total = lt_total }

abbrev offer : ℕ → ℕ → DepthItem ℤ
offer p v = record { item_price = lit fixed p; quantity = lit fixed v }

abbrev book : DepthData ℤ
book = record {
  bids = offer 112 1 ∷ offer 99 2 ∷ offer 111 3 ∷ [];
  asks = offer 113 4 ∷ offer 121 5 ∷ [];
}

bid_totals :
    map (λ r. r.total) (order_book fixed (lit fixed 10) book).0 ≡ lit fixed 4 ∷ lit fixed 6 ∷ []
unfolding order_book sort ◌+ℤ◌
bid_totals = refl

ask_prices :
    map (λ r. r.price) (order_book fixed (lit fixed 10) book).1 ≡ lit fixed 120 ∷ lit fixed 130 ∷ []
unfolding order_book sort ◌+ℤ◌
ask_prices = refl

order_book-IsSide_example :
    IsSide fixed fixed_eq_laws
      (λ p. level_below fixed (lit fixed 10) p)
      (λ a b. ltb_ℤ b a)
      book.bids
      (order_book fixed (lit fixed 10) book).0
    × IsSide fixed fixed_eq_laws
        (λ p. level_above fixed (lit fixed 10) p)
        (λ a b. ltb_ℤ a b)
        book.asks
        (order_book fixed (lit fixed 10) book).1
order_book-IsSide_example =
    Sides.order_book-IsSide fixed fixed_laws fixed_eq_laws (lit fixed 10) book

abbrev kline : Kline ℤ
kline = record {
  timestamp = 60;
  open_price = lit fixed 101;
  high = lit fixed 119;
  low = lit fixed 100;
  close = lit fixed 109;
  volume = lit fixed 30;
  taker_buy_vol = lit fixed 10;
}

-- A bell of two heights: 1 where the exponent is above -1, and 0 elsewhere.
abbrev bell : ℤ → ℤ
bell x = if ltb_ℤ (neg fixed (lit fixed 1)) x then lit fixed 1 else lit fixed 0

abbrev spread : ClusterCandle ℤ
spread = kline_candle fixed bell (λ x y. fixed.mul x x) (lit fixed 10) kline

spread_prices : map (λ c. c.price) spread.cells ≡ lit fixed 120 ∷ lit fixed 110 ∷ lit fixed 100 ∷ []
unfolding kline_candle sort ◌+ℤ◌ ◌-ℤ◌
spread_prices = refl

spread_poc : spread.poc_price ≡ lit fixed 100
unfolding kline_candle sort ◌+ℤ◌ ◌-ℤ◌
spread_poc = refl

kline_candle-IsSpread_example :
    IsSpread fixed bell (λ x y. fixed.mul x x) (lit fixed 10) kline spread
kline_candle-IsSpread_example =
    Spread.kline_candle-IsSpread fixed bell (λ x y. fixed.mul x x) (lit fixed 10) kline fixed_laws

abbrev trade : ℕ → ℕ → Bool → Trade ℤ
trade i p m = record {
  id = i;
  trade_price = lit fixed p;
  quantity = lit fixed 1;
  time = i;
  is_buyer_maker = m;
}

-- Two latest trades, and four of the page from 1, which is asked for twice.
abbrev page : ℕ → TradesReply ℤ
page i =
    if i == 1
    then trades (trade 1 112 true ∷ trade 2 113 false ∷ trade 3 111 false ∷ trade 4 125 true ∷ [])
    else trades_failed

abbrev latest : Trade ℤ
latest = trade 2001 110 true

abbrev later : List (Trade ℤ)
later = trade 2002 121 false ∷ []

abbrev fetched : Option (Outcome (List (ClusterCandle ℤ)))
fetched = fetch_ticks fixed (lit fixed 10) 7 proxy_failed (trades (latest ∷ later)) page

-- The candle of the first seven; three trades are left over.
fetched_volume :
    Option.map
      (λ o. elim o as (λ x. List ℤ) [ returned cs ↦ map (λ c. c.volume) cs | thrown ↦ [] ])
      fetched
    ≡ some (lit fixed 7 ∷ [])
unfolding fetch_ticks sort ◌+ℤ◌ ◌-ℤ◌
fetched_volume = refl

fetch_ticks-IsTiled_example :
    (candles : List (ClusterCandle ℤ)) × (fetched ≡ some (returned candles))
    × IsTiled fixed (lit fixed 10) 7 (pages_of page latest later) candles
unfolding from_proxy
fetch_ticks-IsTiled_example =
    Tiled.fetch_ticks-IsTiled fixed (lit fixed 10) 7 proxy_failed page latest later (omega arith)
      refl

abbrev distant : ℤ → ℤ
distant x = lit fixed 0

abbrev temps : List (TempCell ℤ)
temps = temp_cells_of fixed distant fixed.mul (lit fixed 10) kline

abbrev flat : ClusterCandle ℤ
flat = kline_candle fixed distant fixed.mul (lit fixed 10) kline

kline_candle-poc_example :
    All (λ c. ltb_ℤ (lit fixed 0) c.volume ≡ false) temps
      × (filter (is_poc_cell fixed) flat.cells ≡ [])
      × (flat.poc_price
          ≡ fixed.to_fixed 4 (fixed.div (fixed.add kline.open_price kline.close) (lit fixed 2)))
    ⊎ ((m : IsPeak fixed temps) × (ltb_ℤ (lit fixed 0) m.cell.volume ≡ true)
        × (d : ClusterCell ℤ) × (filter (is_poc_cell fixed) flat.cells ≡ d ∷ [])
        × (d.price ≡ m.cell.price)
        × (d.volume ≡ fixed.to_fixed 4 m.cell.volume)
        × (flat.poc_price ≡ d.price))
kline_candle-poc_example =
    Spread.kline_candle-poc fixed distant fixed.mul (lit fixed 10) kline fixed_laws
