-- ===== src/Trading/Tests.antt =====
-- Tests and witnesses for the trading simulator.
use test_v.Shared.{ℕ, true, false, ◌≡◌, ◌⊎◌, refl, none, List, [], ◌∷◌, arith, filter}
use test_v.Shared.Int.{ℤ, negsuc, ◌+ℤ◌, ◌-ℤ◌}
use test_v.Shared.Text.{codes}
use test_v.Number.{lit, le, neg, num_min, num_max}
use test_v.Number.Fixed.{fixed, fixed_laws}
use test_v.Trading.{add_log, buy, sell, LimitOrder, ActivePair, Simulator}
use test_v.Trading.Orders.{market_buy, close_position}
use test_v.Trading.Matching.{Fills, fill_buy, on_price, price_triggers}
use test_v.Trading.Actions
use test_v.Trading.Actions.{Action, buy_market, sell_market, place, tick, close, session, IsTidy}
use test_v.Trading.Book
use test_v.Trading.Book.{spared}
use test_v.Trading.Cash
use test_v.Trading.Trigger

abbrev btc : ℕ → ActivePair ℤ
btc p = record { symbol = codes "BTCUSDT"; price = lit fixed p }

abbrev start : Simulator ℤ
start = record {
  holding = record { balance = lit fixed 1000; position = lit fixed 0; entry_price = lit fixed 0 };
  limit_orders = [];
  trade_logs = [];
  prev_price = lit fixed 100;
}

-- One unit is bought at 100 and closed at 110: the cash grows by 20, twice the gain.
round_trip :
    (close_position fixed
      (btc 110)
      (market_buy fixed (btc 100) (lit fixed 1) start)).holding.balance
    ≡ lit fixed 1020
unfolding close_position market_buy add_log ◌+ℤ◌ ◌-ℤ◌
round_trip = refl

abbrev short : Simulator ℤ
short = record start {
  holding = record {
    balance = lit fixed 1000;
    position = negsuc 19999;
    entry_price = lit fixed 120;
  };
}

abbrev cover : LimitOrder ℤ
cover = record {
  id = codes "1";
  price = lit fixed 100;
  size = lit fixed 1;
  side = buy;
  symbol = codes "BTCUSDT";
}

abbrev before_fills : Fills fixed
before_fills = record { holding = short.holding; logs = [] }

market_buy-fill_buy_example :
    ((market_buy fixed (btc 100) cover.size short).holding.position
      ≡ fixed.to_fixed 4 (fill_buy fixed (btc 100) cover before_fills).holding.position)
    × ((market_buy fixed (btc 100) cover.size short).holding.entry_price
        ≡ fixed.to_fixed 4 (fill_buy fixed (btc 100) cover before_fills).holding.entry_price)
    × ((le fixed (lit fixed 0) short.holding.position ≡ true)
          × ((market_buy fixed (btc 100) cover.size short).holding.balance
              ≡ fixed.to_fixed 2 (fill_buy fixed (btc 100) cover before_fills).holding.balance)
        ⊎ ((le fixed (lit fixed 0) short.holding.position ≡ false)
            × ((market_buy fixed (btc 100) cover.size short).holding.balance
                ≡ fixed.to_fixed 2
                    (fixed.sub short.holding.balance (fixed.mul (lit fixed 100) cover.size)))
            × ((fill_buy fixed (btc 100) cover before_fills).holding.balance
                ≡ fixed.add
                    (fixed.sub short.holding.balance (fixed.mul (lit fixed 100) cover.size))
                    (fixed.mul
                      (num_min fixed (neg fixed short.holding.position) cover.size)
                      (fixed.sub short.holding.entry_price (lit fixed 100))))))
market_buy-fill_buy_example =
    Cash.market_buy-fill_buy fixed (btc 100) cover short before_fills refl refl refl refl

-- A price that rises from 90 to 110 hits a buy order at 100.
price_triggers_lem_example :
    (price_triggers fixed buy (lit fixed 90) (lit fixed 110) (lit fixed 100)
      ≡ le fixed (num_min fixed (lit fixed 90) (lit fixed 110)) (lit fixed 100))
    × (price_triggers fixed sell (lit fixed 90) (lit fixed 110) (lit fixed 100)
        ≡ le fixed (lit fixed 100) (num_max fixed (lit fixed 90) (lit fixed 110)))
price_triggers_lem_example =
    Trigger.price_triggers_lem fixed fixed_laws (lit fixed 90) (lit fixed 110) (lit fixed 100)

abbrev waiting : Simulator ℤ
waiting = record start { limit_orders = cover ∷ record cover { symbol = codes "ETHUSDT" } ∷ [] }

on_price-filter_example :
    ((on_price fixed (btc 95) waiting).limit_orders
      ≡ filter (spared fixed (btc 95) (lit fixed 100)) waiting.limit_orders)
    × ((on_price fixed (btc 95) waiting).prev_price ≡ lit fixed 95)
on_price-filter_example = Book.on_price-filter fixed (btc 95) waiting refl

abbrev actions : List (Action ℤ)
actions =
    place (btc 100) (lit fixed 1) (lit fixed 98) (codes "1") buy none
    ∷ place (btc 100) (lit fixed 1) (lit fixed 102) (codes "2") sell none
    ∷ tick (btc 103)
    ∷ sell_market (btc 103) (lit fixed 2)
    ∷ []

session-IsTidy_example : IsTidy fixed (session fixed actions start)
session-IsTidy_example =
    Actions.session-IsTidy fixed fixed_laws actions start
      (record { ladder = tt; log_bound = omega arith })
