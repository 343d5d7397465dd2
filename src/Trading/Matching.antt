-- ===== src/Trading/Matching.antt =====
-- The matching engine of the simulator: the effect of frontend-chart/src/components/DOMSidebar.tsx
-- that runs when the price or the state changes.
use test_v.Shared.{Bool, true, false, ◌||◌, ◌&&◌, List, [], ◌∷◌, if◌then◌else◌}
use test_v.Shared.Text.{text_eq}
use test_v.Number.{Num, lit, le, num_min, num_max}
use test_v.Trading.{
  Side, buy, sell, LimitOrder, buy_log, sell_log, cancel_log, limit_filled, limit_rejected,
  ActivePair, Holding, Simulator, TradeLog, logged,
}
use test_v.Trading.Orders.{bought, sold, short_profit, stored}

module _ (n : Num) where
  open n use {Real, add, sub, mul, lt, eq}

  unfoldable pub between : Real → Real → Real → Bool
  between prev current price =
      le n (num_min n prev current) price && le n price (num_max n prev current)

  unfoldable pub price_triggers : Side → Real → Real → Real → Bool
  unfolding between
  price_triggers buy prev current price = le n current price || between prev current price
  price_triggers sell prev current price = le n price current || between prev current price

  -- Only orders of the active symbol are looked at.
  unfoldable pub is_triggered : ActivePair Real → Real → LimitOrder Real → Bool
  unfolding price_triggers
  is_triggered pair prev o =
      text_eq o.symbol pair.symbol && price_triggers o.side prev pair.price o.price

  -- The variables of the loop: the updated values, and the log.
  pub record Fills : Type 0 where
    pub holding : Holding Real
    pub logs : List (TradeLog Real)

  -- The cash after paying for a buy order: a covered short position pays its profit.
  unfoldable pub paid : LimitOrder Real → Holding Real → Real
  unfolding short_profit
  paid o h =
      let cash = sub h.balance (mul o.price o.size) in
      if le n (lit n 0) h.position then cash else add cash (short_profit n o.price o.size h)

  -- A buy order that was hit: filled if the cash suffices, and gone in either case.
  unfoldable pub fill_buy : ActivePair Real → LimitOrder Real → Fills → Fills
  unfolding bought paid
  fill_buy pair o f =
      if le n (mul o.price o.size) f.holding.balance
      then record {
        holding = record (bought n o.price o.size f.holding) { balance = paid o f.holding };
        logs = logged (limit_filled buy o.size pair.symbol o.price) buy_log f.logs;
      }
      else record f { logs = logged (limit_rejected o.price) cancel_log f.logs }

  unfoldable pub fill_sell : ActivePair Real → LimitOrder Real → Fills → Fills
  unfolding sold
  fill_sell pair o f = record {
    holding = sold n o.price o.size f.holding;
    logs = logged (limit_filled sell o.size pair.symbol o.price) sell_log f.logs;
  }

  unfoldable pub fill : Side → ActivePair Real → LimitOrder Real → Fills → Fills
  unfolding fill_buy fill_sell
  fill buy pair o f = fill_buy pair o f
  fill sell pair o f = fill_sell pair o f

  -- The loop over the orders: the fills in order, the orders that stay, and `anyFilled`.
  unfoldable pub match_orders :
      ActivePair Real
      → Real
      → List (LimitOrder Real)
      → Fills
      → Fills × List (LimitOrder Real) × Bool
  unfolding is_triggered
  match_orders pair prev [] f = (f, [], false)
  match_orders pair prev (o ∷ os) f =
      let hit = is_triggered pair prev o in
      let (f', rest, any) = match_orders pair prev os (if hit then fill o.side pair o f else f) in
      if hit then (f', rest, true) else (f', o ∷ rest, any)

  -- The effect.
  unfoldable pub on_price : ActivePair Real → Simulator Real → Simulator Real
  unfolding match_orders
  on_price pair s =
      if eq pair.price s.prev_price
      then s
      else let (f, rest, any) =
          match_orders pair s.prev_price s.limit_orders
            (record { holding = s.holding; logs = s.trade_logs }) in
        if any
        then record {
          holding = stored n f.holding;
          limit_orders = rest;
          trade_logs = f.logs;
          prev_price = pair.price;
        }
        else record s { trade_logs = f.logs; prev_price = pair.price }
