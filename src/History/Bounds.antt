-- ===== src/History/Bounds.antt =====
-- The number of candles that a chart keeps.
use test_v.Shared.{
  ℕ, zero, suc, ◌-◌, ◌<◌, ◌≤◌, ◌≡◌, refl, ap, Option, none, some, List, [], ◌∷◌, ◌++◌, ltb, ◌==◌,
  length, length-drop, get_last?, arith, Bool-cases, Option-cases, inl, inr,
}
use test_v.Candle.{ClusterCandle}
use test_v.Tiers.Capacity.{Interval}
use test_v.History.Window.{slice_last, replace_last, flushed, prepended}
use test_v.History.Chart.{
  Chart, ChartEvent, changed, loaded, load_failed, load_more, more_loaded, more_failed, received,
  flushing, load, fail_load, handle_load_more, answer_more, fail_more, flush, chart_step, chart_run,
  CandleRequest,
}

length-slice_last {ℓ} : {A : Type ℓ} (k : ℕ) (xs : List A) → 0 < k → length (slice_last k xs) ≤ k
unfolding slice_last
length-slice_last zero xs h = absurd (omega (arith, h))
length-slice_last (suc k) xs h = omega (arith, length-drop (length xs - suc k) xs)

length-replace_last {ℓ} :
    {A : Type ℓ} (a : A) (xs : List A) → length (replace_last a xs) ≡ length xs
unfolding replace_last
length-replace_last a [] = refl
length-replace_last a (x ∷ []) = refl
length-replace_last a (x ∷ y ∷ xs) = ap suc (length-replace_last a (y ∷ xs))

-- Every interval keeps at least one candle and at most `bound`.
abbrev pub IsLimit : (Interval → ℕ) → ℕ → Type 0
IsLimit max_candles bound = (i : Interval) → (0 < max_candles i) × (max_candles i ≤ bound)

module _ {R : Type 0} where
  length-flushed :
      (k bound : ℕ) (c : ClusterCandle R) (prev : List (ClusterCandle R))
      → 0 < k
      → k ≤ bound
      → length prev ≤ bound
      → length (flushed k c prev) ≤ bound
  unfolding flushed
  length-flushed k bound c prev h hb hp = elim (Option-cases (get_last? prev)) [
    | inl e ↦ rw (flushed, e) (omega (arith, h, hb))
    | inr (l, e) ↦ elim (Bool-cases (ltb l.timestamp c.timestamp)) [
      | inl p ↦ rw (flushed, e, p) (omega (arith, hb, length-slice_last k (prev ++ c ∷ []) h))
      | inr p ↦ elim (Bool-cases (c.timestamp == l.timestamp)) [
        | inl q ↦ rw (flushed, e, p, q) (omega (arith, hp, length-replace_last c prev))
        | inr q ↦ rw (flushed, e, p, q) hp
      ]
    ]
  ]

  module _ (max_candles : Interval → ℕ) (bound : ℕ) where
    abbrev pub IsBounded : Chart R → Type 0
    IsBounded chart = length chart.candles ≤ bound

    slice_last-bound :
        (i : Interval) (cs : List (ClusterCandle R))
        → IsLimit max_candles bound
        → length (slice_last (max_candles i) cs) ≤ bound
    slice_last-bound i cs h =
        let limit = h i in omega (arith, limit.1, length-slice_last (max_candles i) cs limit.0)

    answer_more-IsBounded :
        (rs : List CandleRequest) (cs : List (ClusterCandle R)) (chart : Chart R)
        → IsLimit max_candles bound
        → IsBounded chart
        → IsBounded (answer_more max_candles rs cs chart)
    unfolding answer_more prepended
    answer_more-IsBounded [] cs chart h hc = hc
    answer_more-IsBounded (r ∷ rs) cs chart h hc = slice_last-bound r.tf (cs ++ chart.candles) h

    fail_more-IsBounded :
        (rs : List CandleRequest) (chart : Chart R)
        → IsBounded chart
        → IsBounded (fail_more max_candles rs chart)
    unfolding fail_more
    fail_more-IsBounded [] chart hc = hc
    fail_more-IsBounded (r ∷ rs) chart hc = hc

    flush-IsBounded :
        (b : Option (ClusterCandle R)) (chart : Chart R)
        → IsLimit max_candles bound
        → IsBounded chart
        → IsBounded (flush max_candles b chart)
    unfolding flush
    flush-IsBounded none chart h hc = hc
    flush-IsBounded (some c) chart h hc =
        let i = chart.settings.interval in
        length-flushed (max_candles i) bound c chart.candles (h i).0 (h i).1 hc

    chart_step-IsBounded :
        (e : ChartEvent R) (chart : Chart R)
        → IsLimit max_candles bound
        → IsBounded chart
        → IsBounded (chart_step max_candles e chart)
    unfolding chart_step load fail_load handle_load_more answer_more fail_more flush
    chart_step-IsBounded (changed s) chart h hc = hc
    chart_step-IsBounded (loaded v cs) chart h hc = elim (Bool-cases (v == chart.version)) [
      | inl p ↦ rw p (slice_last-bound chart.settings.interval cs h)
      | inr p ↦ rw p hc
    ]
    chart_step-IsBounded (load_failed v) chart h hc = elim (Bool-cases (v == chart.version)) [
      | inl p ↦ rw p (omega arith)
      | inr p ↦ rw p hc
    ]
    chart_step-IsBounded (load_more oldest) chart h hc = elim (Bool-cases chart.is_loading_more) [
      | inl p ↦ rw p hc
      | inr p ↦ rw p hc
    ]
    chart_step-IsBounded (more_loaded cs) chart h hc =
        answer_more-IsBounded chart.more cs chart h hc
    chart_step-IsBounded more_failed chart h hc = fail_more-IsBounded chart.more chart hc
    chart_step-IsBounded (received c) chart h hc = hc
    chart_step-IsBounded flushing chart h hc = flush-IsBounded chart.buffer chart h hc

    -- If each interval keeps between one and `bound` candles, a chart never holds more than `bound`,
    -- whatever the order of its events: answers late or lost, changed settings, flushes.
    pub chart_run-IsBounded :
        (es : List (ChartEvent R)) (chart : Chart R)
        → IsLimit max_candles bound
        → IsBounded chart
        → IsBounded (chart_run max_candles es chart)
    unfolding chart_run
    chart_run-IsBounded [] chart h hc = hc
    chart_run-IsBounded (e ∷ es) chart h hc =
        chart_run-IsBounded es (chart_step max_candles e chart) h
          (chart_step-IsBounded e chart h hc)
