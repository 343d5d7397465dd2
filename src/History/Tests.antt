-- ===== src/History/Tests.antt =====
-- Tests and witnesses for the candles of a chart.
use test_v.Shared.{ℕ, false, ◌≡◌, refl, none, List, [], ◌∷◌, map, arith}
use test_v.Shared.Int.{ℤ}
use test_v.Shared.Text.{codes}
use test_v.Number.{lit}
use test_v.Number.Fixed.{fixed}
use test_v.Candle.{ClusterCandle}
use test_v.Tiers.Capacity.{Interval, m5, m15}
use test_v.History.Window.{slice_last, flushed, prepended}
use test_v.History.Chart.{
  Settings, Chart, ChartEvent, changed, loaded, load_more, more_loaded, received, flushing,
  chart_run, chart_step, load, handle_load_more, answer_more, base_compression,
}
use test_v.History.Bounds
use test_v.History.Bounds.{IsBounded, IsLimit}
use test_v.History.Requests
use test_v.History.Requests.{IsSingle}

abbrev candle : ℕ → ClusterCandle ℤ
candle t = record {
  timestamp = t;
  open_price = lit fixed 1;
  high = lit fixed 2;
  low = lit fixed 1;
  close = lit fixed 2;
  volume = lit fixed 3;
  delta = lit fixed 1;
  poc_price = lit fixed 1;
  cells = [];
  vah = lit fixed 2;
  val = lit fixed 1;
  tick_count = none;
}

abbrev times : List (ClusterCandle ℤ) → List ℕ
times cs = map (λ c. c.timestamp) cs

abbrev two_candles : List (ClusterCandle ℤ)
two_candles = candle 3 ∷ candle 5 ∷ []

-- `slice(-0)` keeps the whole list: a limit of 0 candles is no limit.
no_limit : times (flushed 0 (candle 7) two_candles) ≡ 3 ∷ 5 ∷ 7 ∷ []
unfolding flushed slice_last
no_limit = refl

abbrev btc : Settings
btc = record {
  symbol = codes "BTCUSDT";
  is_futures = false;
  interval = m15;
  compression_multiplier = 2;
}

btc_base : base_compression btc ≡ 500
unfolding base_compression
btc_base = refl

abbrev chart : Chart ℤ
chart = record {
  settings = btc;
  version = 1;
  candles = two_candles;
  load_id = 1;
  price = lit fixed 2;
  is_loading_more = false;
  more = [];
  buffer = none;
}

abbrev three : Interval → ℕ
three i = 3

abbrev hundred : Interval → ℕ
hundred i = 100

-- An answer to a request for older candles is put in front of the candles of the new settings: it
-- has no `active` test.
abbrev stale_more : List (ChartEvent ℤ)
stale_more =
    load_more 3000
    ∷ changed (record btc { symbol = codes "ETHUSDT"; interval = m5 })
    ∷ loaded 2 (candle 4 ∷ [])
    ∷ more_loaded (candle 9 ∷ [])
    ∷ []

stale_answer : times (chart_run hundred stale_more chart).candles ≡ 9 ∷ 4 ∷ []
unfolding chart_run chart_step load handle_load_more answer_more slice_last prepended
stale_answer = refl

abbrev busy : List (ChartEvent ℤ)
busy = load_more 3000 ∷ received (candle 7) ∷ flushing ∷ more_loaded (candle 1 ∷ candle 2 ∷ []) ∷ []

chart_run-IsBounded_example : IsBounded three 3 (chart_run three busy chart)
chart_run-IsBounded_example =
    Bounds.chart_run-IsBounded three 3 busy chart (λ i. (omega arith, omega arith)) (omega arith)

chart_run-IsSingle_example : IsSingle three (chart_run three busy chart)
chart_run-IsSingle_example = Requests.chart_run-IsSingle three busy chart refl
