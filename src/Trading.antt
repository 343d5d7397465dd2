-- ===== src/Trading.antt =====
-- The trading simulator of frontend-chart/src/components/DOMSidebar.tsx: its state and its log.
--
-- The state of the React component is a record. A handler reads the values of the last rendering and
-- queues updates; the updates of one handler are applied in order before the next handler runs, so
-- a handler is a function from state to state. What is stored under `procluster_…_v2` follows the
-- state. `Math.random().toString()` is an argument, and the time of a log line is left out.
pub mod Orders
pub mod Matching
pub mod Cash
pub mod Trigger
pub mod Actions
pub mod Book
mod Tests
use test_v.Shared.{ℕ, List, [], ◌∷◌, take}
use test_v.Shared.Text.{Text}

pub data Side : Type 0 where
  buy sell : Side

pub record LimitOrder (R : Type 0) : Type 0 where
  pub id : Text
  pub price : R
  pub size : R
  pub side : Side
  pub symbol : Text

pub data LogType : Type 0 where
  info_log buy_log sell_log cancel_log : LogType

-- The text of a log line, by what it is about.
pub data Message (R : Type 0) : Type 0 where
  limit_filled : Side → R → Text → R → Message R
  limit_rejected : R → Message R
  market_filled : Side → R → Text → R → Message R
  market_rejected : R → R → Message R
  invalid_limit : Message R
  limit_placed : Side → R → R → Message R
  limit_cancelled : Side → R → Message R
  all_cancelled : Message R
  closed_long : R → R → Message R
  closed_short : R → R → Message R

pub record TradeLog (R : Type 0) : Type 0 where
  pub message : Message R
  pub kind : LogType

-- `activePair`, as far as it is used here.
pub record ActivePair (R : Type 0) : Type 0 where
  pub symbol : Text
  pub price : R

-- Cash, signed position and average entry price.
pub record Holding (R : Type 0) : Type 0 where
  pub balance : R
  pub position : R
  pub entry_price : R

pub record Simulator (R : Type 0) : Type 0 where
  pub holding : Holding R
  pub limit_orders : List (LimitOrder R)
  pub trade_logs : List (TradeLog R)
  -- `prevPriceRef`
  pub prev_price : R

-- The newest 30 lines, the last one first.
unfoldable pub logged : {R : Type 0} → Message R → LogType → List (TradeLog R) → List (TradeLog R)
logged message kind logs = take 30 (record { message = message; kind = kind } ∷ logs)

unfoldable pub add_log : {R : Type 0} → Message R → LogType → Simulator R → Simulator R
unfolding logged
add_log message kind s = record s { trade_logs = logged message kind s.trade_logs }
