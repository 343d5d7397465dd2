-- ===== src/MarketData/Spread.antt =====
-- The levels over which a candlestick is spread, and the candle that is made of them.
use test_v.Shared.{
  ℕ, zero, suc, ◌+◌, true, false, ◌≡◌, refl, sym, ap, subst, ◌∙◌, ◌⊎◌, inl, inr, Option, none, some,
  List, [], ◌∷◌, map, length, length-map, filter, All, Bool-cases, arith,
}
use mathlib.Core.List.{Perm}
use mathlib.Core.List.Perm
use test_v.Shared.Sort.{sort, sort-perm, sort-IsSorted, length-sort, IsSorted}
use test_v.Number.{Num, Laws, lit}
use test_v.Candle.{ClusterCell, ClusterCandle}
use test_v.MarketData.Klines.{
  Kline, TempCell, kline_start, kline_end, active_price_step, count_cells, parsed_levels,
  higher_first, is_poc_cell, temp_cell, poc_index, final_cells, kline_candle_of, temp_cells,
  levels_of, temp_cells_of, kline_candle,
}
use test_v.MarketData.Peak.{
  IsPeak, poc_index_cases, filter-final_cells, filter-final_cells_unmarked, find?-filter,
  find?-filter_empty, filter-sort_one, filter-sort_none,
}
use test_v.MarketData.Count.{walk, IsCounted, count_cells-IsCounted}

module _ (n : Num) where
  open n use {Real, add, sub, mul, div, lt, to_fixed, floor, ceil, round}

  length-parsed_levels : (k : ℕ) (step p : Real) → length (parsed_levels n k step p) ≡ k
  unfolding parsed_levels
  length-parsed_levels zero step p = refl
  length-parsed_levels (suc k) step p = ap suc (length-parsed_levels k step (add p step))

  parsed_levels-walk :
      (k : ℕ) (step p : Real) → parsed_levels n k step p ≡ map (to_fixed 4) (walk n k step p)
  unfolding parsed_levels
  parsed_levels-walk zero step p = refl
  parsed_levels-walk (suc k) step p =
      ap (◌∷◌ (to_fixed 4 p)) (parsed_levels-walk k step (add p step))

  prices-final_cells :
      (mean : Real) (poc : Option ℕ) (idx : ℕ) (cs : List (TempCell Real))
      → map (λ c. c.price) (final_cells n mean poc idx cs) ≡ map (λ c. c.price) cs
  unfolding final_cells
  prices-final_cells mean poc idx [] = refl
  prices-final_cells mean poc idx (c ∷ cs) =
      ap (◌∷◌ c.price) (prices-final_cells mean poc (suc idx) cs)

  length-final_cells :
      (mean : Real) (poc : Option ℕ) (idx : ℕ) (cs : List (TempCell Real))
      → length (final_cells n mean poc idx cs) ≡ length cs
  unfolding final_cells
  length-final_cells mean poc idx [] = refl
  length-final_cells mean poc idx (c ∷ cs) = ap suc (length-final_cells mean poc (suc idx) cs)

  prices-temp_cells :
      (k : Kline Real) (sum_weights : Real) (weight : Real → Real) (levels : List Real)
      → map (λ c. c.price) (map (λ p. temp_cell n k sum_weights p (weight p)) levels) ≡ levels
  unfolding temp_cell
  prices-temp_cells k sum_weights weight [] = refl
  prices-temp_cells k sum_weights weight (p ∷ ps) =
      ap (◌∷◌ p) (prices-temp_cells k sum_weights weight ps)

  module _ (exp : Real → Real) (pow : Real → Real → Real) (price_step : Real) (k : Kline Real) where
    -- The step and the levels that a candlestick has.
    abbrev pub step_of : Real
    step_of = active_price_step n (kline_start n price_step k) (kline_end n price_step k) price_step

    -- A candle of a candlestick: its cells fall in price, and their prices are those of a walk from
    -- `start`, a `step` apart and rounded to four digits, which goes on up to `bound` or to 251
    -- cells. `start` is `floor(low / price_step) * price_step`, `bound` is
    -- `ceil(high / price_step) * price_step`, and `step` is `price_step` or, where the range is of
    -- more than 250 units, `price_step * ceil(units / 250)`.
    pub record IsSpread (candle : ClusterCandle Real) : Type 0 where
      pub start : Real
      pub bound : Real
      pub units : Real
      pub step : Real
      pub start_is : start ≡ mul (floor (div k.low price_step)) price_step
      pub bound_is : bound ≡ mul (ceil (div k.high price_step)) price_step
      pub units_are : units ≡ round (div (sub bound start) price_step)
      pub step_is :
          ((lt (lit n 250) units ≡ false) × (step ≡ price_step))
          ⊎ ((lt (lit n 250) units ≡ true) × (step ≡ mul price_step (ceil (div units (lit n 250)))))
      pub ordered : IsSorted (higher_first n) candle.cells
      pub levels :
          Perm
            (map (λ c. c.price) candle.cells)
            (map (to_fixed 4) (walk n (length candle.cells) step start))
      pub counted : IsCounted n 251 bound step start (length candle.cells)

    units_of : Real
    units_of = round (div (sub (kline_end n price_step k) (kline_start n price_step k)) price_step)

    step_of_cases :
        ((lt (lit n 250) units_of ≡ false) × (step_of ≡ price_step))
        ⊎ ((lt (lit n 250) units_of ≡ true)
            × (step_of ≡ mul price_step (ceil (div units_of (lit n 250)))))
    unfolding active_price_step units_of
    step_of_cases = elim (Bool-cases (lt (lit n 250) units_of)) [
      | inl e ↦ inr (e, rw e refl)
      | inr e ↦ inl (e, rw e refl)
    ]

    count_of : ℕ
    count_of = count_cells n 251 (kline_end n price_step k) step_of (kline_start n price_step k) 0

    prices-temp_cells_of :
        map (λ c. c.price) (temp_cells_of n exp pow price_step k)
        ≡ map (to_fixed 4) (walk n count_of step_of (kline_start n price_step k))
    unfolding temp_cells_of temp_cells levels_of count_of
    prices-temp_cells_of =
        prices-temp_cells k _ _ _ ∙ parsed_levels-walk count_of step_of (kline_start n price_step k)

    length-temp_cells_of : length (temp_cells_of n exp pow price_step k) ≡ count_of
    unfolding temp_cells_of temp_cells levels_of count_of
    length-temp_cells_of =
        length-map (levels_of n exp pow price_step k) _
        ∙ length-parsed_levels count_of step_of (kline_start n price_step k)

    -- The cells before they are sorted.
    unsorted : List (ClusterCell Real)
    unsorted =
        let cells = temp_cells_of n exp pow price_step k in
        final_cells n (div k.volume (lit n (length cells))) (poc_index n cells 0 (lit n 0) none) 0
          cells

    cells-kline_candle :
        (kline_candle n exp pow price_step k).cells ≡ sort (higher_first n) unsorted
    unfolding kline_candle unsorted
    cells-kline_candle = refl

    length-cells : length (kline_candle n exp pow price_step k).cells ≡ count_of
    unfolding unsorted
    length-cells =
        ap length cells-kline_candle
        ∙ length-sort (higher_first n) unsorted
        ∙ length-final_cells _ _ 0 (temp_cells_of n exp pow price_step k)
        ∙ length-temp_cells_of

    prices-unsorted :
        map (λ c. c.price) unsorted
        ≡ map (to_fixed 4) (
            walk n
              (length (kline_candle n exp pow price_step k).cells)
              step_of
              (kline_start n price_step k))
    unfolding unsorted
    prices-unsorted =
        prices-final_cells _ _ 0 (temp_cells_of n exp pow price_step k)
        ∙ prices-temp_cells_of
        ∙ ap (λ m. map (to_fixed 4) (walk n m step_of (kline_start n price_step k)))
            (sym length-cells)

    -- Whatever the numbers of the candlestick are, its cells fall in price, and their prices are
    -- those of the walk from `floor(low / price_step) * price_step` that `IsSpread` states, rounded
    -- to four digits: each level is up to `ceil(high / price_step) * price_step`, and the next is
    -- above it, unless there are 251 levels, the most that there are. A step is the pair's, or a
    -- multiple of it where the range is of more than 250.
    pub kline_candle-IsSpread : (l : Laws n) → IsSpread (kline_candle n exp pow price_step k)
    unfolding count_of units_of kline_start kline_end
    kline_candle-IsSpread l = record {
      start = kline_start n price_step k;
      bound = kline_end n price_step k;
      units = units_of;
      step = step_of;
      start_is = refl;
      bound_is = refl;
      units_are = refl;
      step_is = step_of_cases;
      ordered = rw cells-kline_candle (
          sort-IsSorted (higher_first n) (λ a b h. l.lt_asym b.price a.price h)
            (λ a b c h i. l.le_trans c.price b.price a.price i h) unsorted);
      levels =
          subst (Perm (map (λ c. c.price) (kline_candle n exp pow price_step k).cells))
            prices-unsorted
            (subst (λ cs. Perm (map (λ c. c.price) cs) (map (λ c. c.price) unsorted))
              (sym cells-kline_candle)
              (Perm.map (λ c. c.price) (sort-perm (higher_first n) unsorted)));
      counted =
          subst (IsCounted n 251 (kline_end n price_step k) step_of (kline_start n price_step k))
            (sym length-cells)
            (count_cells-IsCounted n 251 (kline_end n price_step k) step_of
              (kline_start n price_step k) (omega arith));
    }

    abbrev price_of : Option (ClusterCell Real) → Real
    price_of none = to_fixed 4 (div (add k.open_price k.close) (lit n 2))
    price_of (some c) = c.price

    poc_price_none :
        (cells : List (ClusterCell Real))
        → filter (is_poc_cell n) (sort (higher_first n) cells) ≡ []
        → (kline_candle_of n k cells).poc_price
          ≡ to_fixed 4 (div (add k.open_price k.close) (lit n 2))
    unfolding kline_candle_of
    poc_price_none cells h =
        ap price_of (find?-filter_empty (is_poc_cell n) (sort (higher_first n) cells) h)

    poc_price_one :
        (cells : List (ClusterCell Real)) (c : ClusterCell Real)
        → filter (is_poc_cell n) (sort (higher_first n) cells) ≡ c ∷ []
        → (kline_candle_of n k cells).poc_price ≡ c.price
    unfolding kline_candle_of
    poc_price_one cells c h =
        ap price_of (find?-filter (is_poc_cell n) c [] (sort (higher_first n) cells) h)

    -- Either no level has a positive volume, no cell is marked, and the candle's point of control is
    -- the middle between open and close, rounded; or exactly one cell is marked, its price and its
    -- rounded volume are those of the first level of the largest volume, and its price is the
    -- candle's point of control.
    pub kline_candle-poc :
        (l : Laws n)
        → All (λ c. lt (lit n 0) c.volume ≡ false) (temp_cells_of n exp pow price_step k)
            × (filter (is_poc_cell n) (kline_candle n exp pow price_step k).cells ≡ [])
            × ((kline_candle n exp pow price_step k).poc_price
                ≡ to_fixed 4 (div (add k.open_price k.close) (lit n 2)))
          ⊎ ((m : IsPeak n (temp_cells_of n exp pow price_step k)) × (lt (lit n 0) m.cell.volume
                ≡ true)
              × (d : ClusterCell Real) × (filter
                    (is_poc_cell n)
                    (kline_candle n exp pow price_step k).cells
                  ≡ d ∷ [])
              × (d.price ≡ m.cell.price)
              × (d.volume ≡ to_fixed 4 m.cell.volume)
              × ((kline_candle n exp pow price_step k).poc_price ≡ d.price))
    unfolding kline_candle kline_candle_of
    kline_candle-poc l =
        elim (poc_index_cases n l (temp_cells_of n exp pow price_step k) 0 (lit n 0) none) [
          | inl (e, h) ↦
              let cells = temp_cells_of n exp pow price_step k in
              let mean = div k.volume (lit n (length cells)) in
              let f =
                filter-sort_none (is_poc_cell n) (higher_first n) (final_cells n mean none 0 cells)
                  (filter-final_cells_unmarked n mean 0 cells) in
              inl (h, rw (e, f) refl, rw e (poc_price_none _ f))
          | inr (m, e, h) ↦
              let cells = temp_cells_of n exp pow price_step k in
              let mean = div k.volume (lit n (length cells)) in
              let (d, g, q, v) = filter-final_cells n mean 0 m.earlier m.cell m.later in
              let f = filter-sort_one (is_poc_cell n) (higher_first n) d _ (
                subst
                  (λ cs.
                    filter (is_poc_cell n) (final_cells n mean (some (0 + length m.earlier)) 0 cs)
                    ≡ d ∷ [])
                  (sym m.split) g) in
              inr (m, h, d, rw e f, q, v, rw e (poc_price_one _ d f))
        ]
