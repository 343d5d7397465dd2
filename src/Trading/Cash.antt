-- ===== src/Trading/Cash.antt =====
-- The cash of the simulator.
use test_v.Shared.{true, false, ◌≡◌, ◌⊎◌, inl, inr, Bool-cases, arith}
use test_v.Number.{Num, Laws, lit, le, neg, num_min}
use test_v.Number.Order.{Le}
use test_v.Trading.{LimitOrder, ActivePair, Holding, Simulator, add_log}
use test_v.Trading.Orders.{market_buy, market_bought, bought, short_profit}
use test_v.Trading.Matching.{Fills, fill_buy, paid}

module _ (n : Num) where
  open n use {Real, add, sub, mul, lt, to_fixed}

  -- The two copies of the computation agree.
  market_bought-bought :
      (price size : Real) (h : Holding Real)
      → ((market_bought n price size h).position ≡ (bought n price size h).position)
        × ((market_bought n price size h).entry_price ≡ (bought n price size h).entry_price)
  unfolding market_bought bought
  market_bought-bought price size h = (ground arith, ground arith)

  module _ (pair : ActivePair Real) (o : LimitOrder Real) (s : Simulator Real) (f : Fills n)
      (same_price : o.price ≡ pair.price) (same_holding : f.holding ≡ s.holding) where
    -- A market order to buy and a limit order to buy that is filled at the same price, from the same
    -- holding, with a positive size and enough cash: from every position, long, short or none, they
    -- lead to the same position and entry price, up to the rounding of what is stored. From a
    -- position that is not short they lead to the same cash, up to rounding. From a short position
    -- the limit order pays the profit of the units it covers, and the market order loses it.
    pub market_buy-fill_buy :
        le n o.size (lit n 0) ≡ false
        → lt s.holding.balance (mul pair.price o.size) ≡ false
        → ((market_buy n pair o.size s).holding.position
            ≡ to_fixed 4 (fill_buy n pair o f).holding.position)
          × ((market_buy n pair o.size s).holding.entry_price
              ≡ to_fixed 4 (fill_buy n pair o f).holding.entry_price)
          × ((le n (lit n 0) s.holding.position ≡ true)
                × ((market_buy n pair o.size s).holding.balance
                    ≡ to_fixed 2 (fill_buy n pair o f).holding.balance)
              ⊎ ((le n (lit n 0) s.holding.position ≡ false)
                  × ((market_buy n pair o.size s).holding.balance
                      ≡ to_fixed 2 (sub s.holding.balance (mul pair.price o.size)))
                  × ((fill_buy n pair o f).holding.balance
                      ≡ add (sub s.holding.balance (mul pair.price o.size)) (
                          mul
                            (num_min n (neg n s.holding.position) o.size)
                            (sub s.holding.entry_price pair.price)))))
    unfolding market_buy fill_buy add_log paid short_profit
    market_buy-fill_buy some_size funds =
        let e = market_bought-bought pair.price o.size s.holding in
        elim (Bool-cases (le n (lit n 0) s.holding.position)) [
          | inl q ↦ (ground arith, ground arith, inl (q, ground arith))
          | inr q ↦ (ground arith, ground arith, inr (q, ground arith, ground arith))
        ]

module _ (n : Num) (l : Laws n) where
  open n use {Real, add, sub, mul, lt, to_fixed}

  -- From a balance that is not negative a market buy leads to one that is not negative, on each of its
  -- branches.
  market_buy_nonneg :
      (pair : ActivePair Real) (size : Real) (s : Simulator Real)
      → Le n l (lit n 0) s.holding.balance
      → Le n l (lit n 0) (market_buy n pair size s).holding.balance
  unfolding market_buy add_log
  market_buy_nonneg pair size s h =
      let cost = mul pair.price size in
      ground (
        arith,
        l.sub_nonneg s.holding.balance cost,
        l.to_fixed_nonneg 2 (sub s.holding.balance cost),
      )
