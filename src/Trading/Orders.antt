-- ===== src/Trading/Orders.antt =====
-- The buttons of the simulator: market orders, limit orders and the close of the position
-- (frontend-chart/src/components/DOMSidebar.tsx).
use test_v.Shared.{Bool, not, ◌||◌, Option, none, some, [], ◌∷◌, ◌++◌, if◌then◌else◌, filter, find?}
use test_v.Shared.Sort.{sort}
use test_v.Shared.Text.{Text, text_eq}
use test_v.Number.{Num, lit, le, neg, abs, num_min}
use test_v.Trading.{
  Side, buy, sell, LimitOrder, buy_log, sell_log, cancel_log, info_log, market_filled,
  market_rejected, invalid_limit, limit_placed, limit_cancelled, all_cancelled, closed_long,
  closed_short, ActivePair, Holding, Simulator, add_log,
}

module _ (n : Num) where
  open n use {Real, add, sub, mul, div, lt, eq, to_fixed}

  -- The average price of `held` units at `entry` and `size` more at `price`.
  abbrev pub average : Real → Real → Real → Real → Real
  average held entry size price =
      if lt (lit n 0) (add held size)
      then div (add (mul held entry) (mul price size)) (add held size)
      else lit n 0

  -- A position that the trade brings to 0 has no entry price.
  abbrev pub entry_left : Real → Real → Real
  entry_left position entry = if eq position (lit n 0) then lit n 0 else entry

  abbrev pub covered_short : Real → Real → Real
  covered_short position size = num_min n (neg n position) size

  abbrev pub covered_long : Real → Real → Real
  covered_long position size = num_min n position size

  -- The position and the entry price after a limit order to buy.
  unfoldable pub bought : Real → Real → Holding Real → Holding Real
  bought price size h =
      if le n (lit n 0) h.position
      then record h {
        position = add h.position size;
        entry_price = average h.position h.entry_price size price;
      }
      else if lt (lit n 0) (sub size (covered_short h.position size))
      then record h { position = sub size (covered_short h.position size); entry_price = price }
      else record h {
        position = add h.position (covered_short h.position size);
        entry_price = entry_left (add h.position (covered_short h.position size)) h.entry_price;
      }

  -- What a limit order that covers a short position earns.
  unfoldable pub short_profit : Real → Real → Holding Real → Real
  short_profit price size h = mul (covered_short h.position size) (sub h.entry_price price)

  -- After a limit order to sell: position, entry price and cash.
  unfoldable pub sold : Real → Real → Holding Real → Holding Real
  sold price size h =
      if le n h.position (lit n 0)
      then record h {
        position = neg n (add (abs n h.position) size);
        entry_price = average (abs n h.position) h.entry_price size price;
      }
      else let cash =
          add (add h.balance (mul (covered_long h.position size) (sub price h.entry_price)))
            (mul (covered_long h.position size) price) in
        if lt (lit n 0) (sub size (covered_long h.position size))
        then record {
          balance = cash;
          position = neg n (sub size (covered_long h.position size));
          entry_price = price;
        }
        else record {
          balance = cash;
          position = sub h.position (covered_long h.position size);
          entry_price = entry_left (sub h.position (covered_long h.position size)) h.entry_price;
        }

  -- The position and the entry price that `handleMarketBuy` computes.
  unfoldable pub market_bought : Real → Real → Holding Real → Holding Real
  market_bought price size h =
      if le n (lit n 0) h.position
      then (let next_size = add h.position size in
          record h {
            position = next_size;
            entry_price =
                if lt (lit n 0) next_size
                then div (add (mul h.position h.entry_price) (mul price size)) next_size
                else lit n 0;
          })
      else let short_covered = num_min n (neg n h.position) size in
        let remaining_long = sub size short_covered in
        if lt (lit n 0) remaining_long
        then record h { position = remaining_long; entry_price = price }
        else let next_position = add h.position short_covered in
          record h {
            position = next_position;
            entry_price = if eq next_position (lit n 0) then lit n 0 else h.entry_price;
          }

  -- The profit of a covered short position in `handleMarketBuy`.
  unfoldable pub market_profit : Real → Real → Holding Real → Real
  market_profit price size h =
      let short_covered = num_min n (neg n h.position) size in
      mul short_covered (sub h.entry_price price)

  -- The position, the entry price and the cash that `handleMarketSell` computes.
  unfoldable pub market_sold : Real → Real → Holding Real → Holding Real
  market_sold price size h =
      if le n h.position (lit n 0)
      then (let prev_size = abs n h.position in
          let next_size = add prev_size size in
          record h {
            position = neg n next_size;
            entry_price =
                if lt (lit n 0) next_size
                then div (add (mul prev_size h.entry_price) (mul price size)) next_size
                else lit n 0;
          })
      else let long_covered = num_min n h.position size in
        let remaining_short = sub size long_covered in
        let profit = mul long_covered (sub price h.entry_price) in
        let cash = add (add h.balance profit) (mul long_covered price) in
        if lt (lit n 0) remaining_short
        then record { balance = cash; position = neg n remaining_short; entry_price = price }
        else let next_position = sub h.position long_covered in
          record {
            balance = cash;
            position = next_position;
            entry_price = if eq next_position (lit n 0) then lit n 0 else h.entry_price;
          }

  -- The three setters at the end of a trade round what they store.
  abbrev pub stored : Holding Real → Holding Real
  stored h = record {
    balance = to_fixed 2 h.balance;
    position = to_fixed 4 h.position;
    entry_price = to_fixed 4 h.entry_price;
  }

  abbrev pub with_holding : Holding Real → Simulator Real → Simulator Real
  with_holding h s = record s { holding = h }

  -- `handleMarketBuy`: the first `setBalance`, which adds the profit of a covered short position, is
  -- followed by a second that sets the balance to a value computed without it.
  unfoldable pub market_buy : ActivePair Real → Real → Simulator Real → Simulator Real
  unfolding market_bought market_profit
  market_buy pair trade_size s =
      if le n trade_size (lit n 0)
      then s
      else if lt s.holding.balance (mul pair.price trade_size)
      then add_log (market_rejected s.holding.balance (mul pair.price trade_size)) cancel_log s
      else let h = s.holding in
        let next_balance = sub h.balance (mul pair.price trade_size) in
        let first =
          if le n (lit n 0) h.position
          then s
          else with_holding
              (record h {
                balance = to_fixed 2 (add h.balance (market_profit pair.price trade_size h));
              })
              s in
        let second =
          with_holding
            (stored (record (market_bought pair.price trade_size h) { balance = next_balance }))
            first in
        add_log (market_filled buy trade_size pair.symbol pair.price) buy_log second

  -- `handleMarketSell`
  unfoldable pub market_sell : ActivePair Real → Real → Simulator Real → Simulator Real
  unfolding market_sold
  market_sell pair trade_size s =
      if le n trade_size (lit n 0)
      then s
      else add_log (market_filled sell trade_size pair.symbol pair.price) sell_log
          (with_holding (stored (market_sold pair.price trade_size s.holding)) s)

  -- `customPrice || limitPrice`
  abbrev pub target_price : Option Real → Real → Real
  target_price none limit_price = limit_price
  target_price (some p) limit_price = if eq p (lit n 0) then limit_price else p

  abbrev pub by_price : LimitOrder Real → LimitOrder Real → Bool
  by_price a b = lt b.price a.price

  -- `handlePlaceLimit`; `id` is the random identifier.
  unfoldable pub place_limit :
      ActivePair Real → Real → Real → Text → Side → Option Real → Simulator Real → Simulator Real
  place_limit pair trade_size limit_price id side custom s =
      let target = target_price custom limit_price in
      if le n target (lit n 0) || le n trade_size (lit n 0)
      then add_log invalid_limit cancel_log s
      else add_log (limit_placed side trade_size target) info_log (record s {
        limit_orders = sort by_price (
            s.limit_orders
            ++ record {
              id = id;
              price = to_fixed 4 target;
              size = trade_size;
              side = side;
              symbol = pair.symbol;
            }
              ∷ []);
      })

  abbrev pub has_id : Text → LimitOrder Real → Bool
  has_id id o = text_eq o.id id

  -- `cancelLimitOrder`
  unfoldable pub cancel_limit_order : Text → Simulator Real → Simulator Real
  cancel_limit_order id s = elim (find? (has_id id) s.limit_orders) [
    | none ↦ s
    | some found ↦
        add_log (limit_cancelled found.side found.price) cancel_log
          (record s { limit_orders = filter (λ o. not (has_id id o)) s.limit_orders })
  ]

  -- `handleCancelAll`
  unfoldable pub cancel_all : Simulator Real → Simulator Real
  cancel_all s = elim s.limit_orders [
    | [] ↦ s
    | o ∷ os ↦ add_log all_cancelled cancel_log (record s { limit_orders = [] })
  ]

  -- `handleClosePosition`
  unfoldable pub close_position : ActivePair Real → Simulator Real → Simulator Real
  close_position pair s =
      let h = s.holding in
      if eq h.position (lit n 0)
      then s
      else if lt (lit n 0) h.position
      then add_log (closed_long h.position pair.price) sell_log (
          with_holding
            (record {
              balance = to_fixed 2 (
                  add h.balance (
                    add (mul h.position (sub pair.price h.entry_price))
                      (mul h.position pair.price)));
              position = lit n 0;
              entry_price = lit n 0;
            })
            s)
      else add_log (closed_short (abs n h.position) pair.price) buy_log (
          with_holding
            (record {
              balance =
                  to_fixed 2
                    (add h.balance (mul (abs n h.position) (sub h.entry_price pair.price)));
              position = lit n 0;
              entry_price = lit n 0;
            })
            s)
