-- ===== src/History/Chart.antt =====
-- A chart as a state machine over its events (frontend-chart/src/App.tsx).
use test_v.Shared.{
  ℕ, suc, ◌*◌, ◌/◌, Bool, true, false, ◌&&◌, ◌||◌, Option, none, some, List, [], ◌∷◌, ◌++◌, map,
  if◌then◌else◌, leb, ◌-◌, ◌==◌, get_last?,
}
use test_v.Shared.Text.{Text, codes}
use test_v.Candle.{ClusterCandle}
use test_v.Tiers.Capacity.{Interval}
use test_v.History.Window.{slice_last, flushed, prepended}

-- What a chart shows; `compression` is the multiplier that the user chooses.
pub record Settings : Type 0 where
  pub symbol : Text
  pub is_futures : Bool
  pub interval : Interval
  pub compression_multiplier : ℕ

-- The parameters of `getClusterCandles`.
pub record CandleRequest : Type 0 where
  pub symbol : Text
  pub market : Text
  pub tf : Interval
  pub compression : ℕ
  pub before : Option ℕ

abbrev pub to_upper_case : Text → Text
to_upper_case s = map (λ c. if leb 97 c && leb c 122 then c - 32 else c) s

abbrev pub starts_with : Text → Text → Bool
starts_with s [] = true
starts_with [] (c ∷ cs) = false
starts_with (d ∷ ds) (c ∷ cs) = (d == c) && starts_with ds cs

abbrev pub includes : Text → Text → Bool
includes [] part = starts_with [] part
includes (c ∷ cs) part = starts_with (c ∷ cs) part || includes cs part

unfoldable pub base_compression : Settings → ℕ
base_compression s =
    if includes (to_upper_case s.symbol) (codes "BTC") then if s.is_futures then 25 else 500 else 25

unfoldable pub request_of : Settings → Option ℕ → CandleRequest
unfolding base_compression
request_of s before = record {
  symbol = s.symbol;
  market = if s.is_futures then codes "futures" else codes "spot";
  tf = s.interval;
  compression = base_compression s * s.compression_multiplier;
  before = before;
}

-- `version` counts the runs of the loading effect; the answer to an earlier run finds its `active`
-- false. `more` holds the requests for older candles that are not answered.
pub record Chart (R : Type 0) : Type 0 where
  pub settings : Settings
  pub version : ℕ
  pub candles : List (ClusterCandle R)
  pub load_id : ℕ
  pub price : R
  pub is_loading_more : Bool
  pub more : List CandleRequest
  pub buffer : Option (ClusterCandle R)

pub data ChartEvent (R : Type 0) : Type 0 where
  changed : Settings → ChartEvent R
  loaded : ℕ → List (ClusterCandle R) → ChartEvent R
  load_failed : ℕ → ChartEvent R
  load_more : ℕ → ChartEvent R
  more_loaded : List (ClusterCandle R) → ChartEvent R
  more_failed : ChartEvent R
  received : ClusterCandle R → ChartEvent R
  flushing : ChartEvent R

module _ {R : Type 0} where
  -- The close of the last candle, if there is one.
  abbrev pub last_close : R → Option (ClusterCandle R) → R
  last_close price none = price
  last_close price (some c) = c.close

  module _ (max_candles : Interval → ℕ) where
    -- The answer to a run of the loading effect.
    unfoldable pub load : ℕ → List (ClusterCandle R) → Chart R → Chart R
    unfolding slice_last
    load v cs chart =
        if v == chart.version
        then record chart {
          candles = slice_last (max_candles chart.settings.interval) cs;
          load_id = suc chart.load_id;
          price = last_close chart.price (get_last? cs);
        }
        else chart

    unfoldable pub fail_load : ℕ → Chart R → Chart R
    fail_load v chart = if v == chart.version then record chart { candles = [] } else chart

    unfoldable pub handle_load_more : ℕ → Chart R → Chart R
    unfolding request_of
    handle_load_more oldest chart = if chart.is_loading_more then chart else record chart {
      is_loading_more = true;
      more = chart.more ++ request_of chart.settings (some (oldest / 1000)) ∷ [];
    }

    -- The answer to the oldest request for more; there is none without a request.
    unfoldable pub answer_more : List CandleRequest → List (ClusterCandle R) → Chart R → Chart R
    unfolding prepended
    answer_more [] cs chart = chart
    answer_more (r ∷ rs) cs chart = record chart {
      candles = prepended (max_candles r.tf) cs chart.candles;
      is_loading_more = false;
      more = rs;
    }

    unfoldable pub fail_more : List CandleRequest → Chart R → Chart R
    fail_more [] chart = chart
    fail_more (r ∷ rs) chart = record chart { is_loading_more = false; more = rs }

    -- The flusher, which runs every 200 ms.
    unfoldable pub flush : Option (ClusterCandle R) → Chart R → Chart R
    unfolding flushed
    flush none chart = chart
    flush (some candle) chart = record chart {
      buffer = none;
      candles = flushed (max_candles chart.settings.interval) candle chart.candles;
      price = candle.close;
    }

    unfoldable pub chart_step : ChartEvent R → Chart R → Chart R
    unfolding load fail_load handle_load_more answer_more fail_more flush
    chart_step (changed s) chart = record chart { settings = s; version = suc chart.version }
    chart_step (loaded v cs) chart = load v cs chart
    chart_step (load_failed v) chart = fail_load v chart
    chart_step (load_more oldest) chart = handle_load_more oldest chart
    chart_step (more_loaded cs) chart = answer_more chart.more cs chart
    chart_step more_failed chart = fail_more chart.more chart
    chart_step (received candle) chart = record chart { buffer = some candle }
    chart_step flushing chart = flush chart.buffer chart

    unfoldable pub chart_run : List (ChartEvent R) → Chart R → Chart R
    unfolding chart_step
    chart_run [] chart = chart
    chart_run (e ∷ es) chart = chart_run es (chart_step e chart)
