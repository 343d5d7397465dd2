-- ===== src/Trading/Trigger.antt =====
-- When a limit order is hit by a move of the price.
use test_v.Shared.{◌≡◌, arith}
use test_v.Number.{Num, Laws, le, num_min, num_max}
use test_v.Trading.{buy, sell}
use test_v.Trading.Matching.{price_triggers, between}

module _ (n : Num) (l : Laws n) where
  open n use {Real, lt}

  -- A buy order is hit exactly when its limit is not below the lower of the two prices: also by a
  -- price that rises from below the limit to above it. A sell order is hit exactly when its limit is
  -- not above the higher of the two prices.
  pub price_triggers_lem :
      (prev current price : Real)
      → (price_triggers n buy prev current price ≡ le n (num_min n prev current) price)
        × (price_triggers n sell prev current price ≡ le n price (num_max n prev current))
  unfolding price_triggers between
  price_triggers_lem prev current price = ground (
    arith,
    l.lt_asym prev current,
    l.lt_asym current prev,
    l.lt_asym price current,
    l.lt_asym price prev,
    l.le_trans prev current price,
    l.le_trans current prev price,
    l.le_trans price current prev,
    l.le_trans price prev current,
  )
