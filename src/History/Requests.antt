-- ===== src/History/Requests.antt =====
-- Requests for older candles, and answers that come late.
use test_v.Shared.{
  ◌/◌, ℕ, Bool, true, false, ◌≡◌, ap, ◌∙◌, Option, none, some, List, [], ◌∷◌, ◌==◌, length,
  length-append, arith, Bool-cases, inl, inr,
}
use test_v.Candle.{ClusterCandle}
use test_v.Tiers.Capacity.{Interval}
use test_v.History.Chart.{
  Chart, ChartEvent, changed, loaded, load_failed, load_more, more_loaded, more_failed, received,
  flushing, load, fail_load, handle_load_more, answer_more, fail_more, flush, chart_step, chart_run,
  CandleRequest, request_of,
}

-- The flag says how many requests for older candles are out.
abbrev pub count_of : Bool → ℕ
count_of true = 1
count_of false = 0

single_tail :
    (b : Bool) (r : CandleRequest) (rs : List CandleRequest)
    → length (r ∷ rs) ≡ count_of b
    → length rs ≡ 0
single_tail true r rs h = omega (arith, h)
single_tail false r rs h = absurd (omega (arith, h))

module _ {R : Type 0} (max_candles : Interval → ℕ) where
  abbrev pub IsSingle : Chart R → Type 0
  IsSingle chart = length chart.more ≡ count_of chart.is_loading_more

  answer_more-IsSingle :
      (rs : List CandleRequest) (cs : List (ClusterCandle R)) (chart : Chart R)
      → length rs ≡ count_of chart.is_loading_more
      → IsSingle chart
      → IsSingle (answer_more max_candles rs cs chart)
  unfolding answer_more
  answer_more-IsSingle [] cs chart e h = h
  answer_more-IsSingle (r ∷ rs) cs chart e h = single_tail chart.is_loading_more r rs e

  fail_more-IsSingle :
      (rs : List CandleRequest) (chart : Chart R)
      → length rs ≡ count_of chart.is_loading_more
      → IsSingle chart
      → IsSingle (fail_more max_candles rs chart)
  unfolding fail_more
  fail_more-IsSingle [] chart e h = h
  fail_more-IsSingle (r ∷ rs) chart e h = single_tail chart.is_loading_more r rs e

  flush-IsSingle :
      (b : Option (ClusterCandle R)) (chart : Chart R)
      → IsSingle chart
      → IsSingle (flush max_candles b chart)
  unfolding flush
  flush-IsSingle none chart h = h
  flush-IsSingle (some c) chart h = h

  chart_step-IsSingle :
      (e : ChartEvent R) (chart : Chart R)
      → IsSingle chart
      → IsSingle (chart_step max_candles e chart)
  unfolding chart_step load fail_load handle_load_more answer_more fail_more flush
  chart_step-IsSingle (changed s) chart h = h
  chart_step-IsSingle (loaded v cs) chart h = elim (Bool-cases (v == chart.version)) [
    | inl p ↦ rw p h
    | inr p ↦ rw p h
  ]
  chart_step-IsSingle (load_failed v) chart h = elim (Bool-cases (v == chart.version)) [
    | inl p ↦ rw p h
    | inr p ↦ rw p h
  ]
  chart_step-IsSingle (load_more oldest) chart h = elim (Bool-cases chart.is_loading_more) [
    | inl p ↦ rw p (h ∙ ap count_of p)
    | inr p ↦ rw p (
        omega (
          arith,
          h ∙ ap count_of p,
          length-append chart.more (request_of chart.settings (some (oldest / 1000)) ∷ []),
        ))
  ]
  chart_step-IsSingle (more_loaded cs) chart h = answer_more-IsSingle chart.more cs chart h h
  chart_step-IsSingle more_failed chart h = fail_more-IsSingle chart.more chart h h
  chart_step-IsSingle (received c) chart h = h
  chart_step-IsSingle flushing chart h = flush-IsSingle chart.buffer chart h

  -- If the flag counts the open requests for older candles, it does so after any sequence of events:
  -- never more than one is open.
  pub chart_run-IsSingle :
      (es : List (ChartEvent R)) (chart : Chart R)
      → IsSingle chart
      → IsSingle (chart_run max_candles es chart)
  unfolding chart_run
  chart_run-IsSingle [] chart h = h
  chart_run-IsSingle (e ∷ es) chart h =
      chart_run-IsSingle es (chart_step max_candles e chart) (chart_step-IsSingle e chart h)
