-- ===== src/ClusterSearch/Tests.antt =====
-- Tests and witnesses for the cluster search, on a candle of three cells.
use test_v.Shared.{
  length, arith, ℕ, ◌+◌, ◌≡◌, refl, inr, none, some, List, [], ◌∷◌, map, In, if◌then◌else◌,
}
use test_v.Shared.Int.{ℤ, pos, negsuc, ◌+ℤ◌, ◌-ℤ◌}
use test_v.Shared.Sort.{sort}
use test_v.Shared.Text.{codes}
use test_v.Number.{lit, le}
use test_v.Number.Fixed.{fixed}
use test_v.Candle.{ClusterCell, ClusterCandle}
use test_v.ClusterSearch.{SearchSettings, filter_of, Filter, medium, body}
use test_v.ClusterSearch.Search.{
  sum_over, sum_volume, sum_bid, sum_ask, percent_of, ask_percent_of, mid_price, in_location,
  match_of, size_of, pushed, scan, sorted_cells, window_size, filter_matches,
}
use test_v.ClusterSearch.Drawing.{DrawStyle, drawn, draw_scan, draw_filter, items_to_draw}
use test_v.ClusterSearch.Drawn.{HasZeroProducts}
use test_v.ClusterSearch.Windows.{IsWindow}
use test_v.ClusterSearch.Hits
use test_v.ClusterSearch.Hits.{IsHit, min_body, max_body, sorted}

abbrev cell : ℕ → ℕ → ℕ → ClusterCell ℤ
cell p b a = record {
  price = lit fixed p;
  bid = lit fixed b;
  ask = lit fixed a;
  volume = lit fixed (b + a);
  is_poc = none;
  is_buy_imbalance = none;
  is_sell_imbalance = none;
}

abbrev candle : ClusterCandle ℤ
candle = record {
  timestamp = 60000;
  open_price = lit fixed 101;
  high = lit fixed 103;
  low = lit fixed 101;
  close = lit fixed 103;
  volume = lit fixed 11;
  delta = lit fixed 5;
  poc_price = lit fixed 102;
  cells = cell 101 1 1 ∷ cell 102 1 5 ∷ cell 103 1 2 ∷ [];
  vah = lit fixed 103;
  val = lit fixed 102;
  tick_count = none;
}

abbrev filter : Filter ℤ
filter = record {
  kind = medium;
  merge_levels = 2;
  imbalance_percent = lit fixed 60;
  min_delta = lit fixed 5;
  location = body;
  min_volume = lit fixed 5;
  max_volume = some (lit fixed 500);
  min_size = lit fixed 4;
  max_size = lit fixed 12;
  color_bid = codes "#ef4444";
  color_ask = codes "#10b981";
}

-- Of the two windows of two cells only the upper one has a delta of 5.
one_match : map (λ m. m.sum_volume) (filter_matches fixed filter candle) ≡ lit fixed 9 ∷ []
unfolding filter_matches scan pushed match_of sum_volume sum_bid sum_ask sum_over ask_percent_of
    mid_price size_of in_location sorted_cells sort ◌+ℤ◌ ◌-ℤ◌
one_match = refl

abbrev upper : ClusterCell ℤ
upper = cell 103 1 2

abbrev below : List (ClusterCell ℤ)
below = cell 102 1 5 ∷ []

upper-IsWindow :
    IsWindow
      (window_size fixed filter (sorted fixed filter candle))
      (sorted fixed filter candle)
      upper
      below
unfolding sorted_cells sort
upper-IsWindow = record { before = []; after = cell 101 1 1 ∷ []; split = refl; size = refl }

upper-IsHit :
    IsHit fixed filter (min_body fixed filter candle) (max_body fixed filter candle) upper below
unfolding sum_volume sum_bid sum_ask sum_over ask_percent_of mid_price in_location ◌+ℤ◌ ◌-ℤ◌
upper-IsHit = record {
  positive = refl;
  at_least = refl;
  at_most = refl;
  dominant = inr refl;
  delta = refl;
  located = refl;
}

In-filter_matches_example :
    In (match_of fixed filter upper below) (filter_matches fixed filter candle)
In-filter_matches_example =
    Hits.In-filter_matches fixed filter candle upper below upper-IsWindow upper-IsHit

filter_matches-IsHit_example :
    (first : ClusterCell ℤ) × (rest : List (ClusterCell ℤ)) × IsWindow
      (window_size fixed filter (sorted fixed filter candle))
      (sorted fixed filter candle)
      first
      rest
    × IsHit fixed filter (min_body fixed filter candle) (max_body fixed filter candle) first rest
    × (match_of fixed filter upper below ≡ match_of fixed filter first rest)
    × ((match_of fixed filter upper below).color ≡ (
        if le fixed filter.imbalance_percent
          (percent_of fixed (sum_bid fixed (first ∷ rest)) (sum_volume fixed (first ∷ rest)))
        then filter.color_bid
        else filter.color_ask))
filter_matches-IsHit_example =
    Hits.filter_matches-IsHit fixed filter candle (match_of fixed filter upper below)
      (Hits.In-filter_matches fixed filter candle upper below upper-IsWindow upper-IsHit)

fixed-HasZeroProducts : HasZeroProducts fixed
fixed-HasZeroProducts (pos a) h = ground (arith, h)
fixed-HasZeroProducts (negsuc a) h = ground (arith, h)

abbrev settings : SearchSettings ℤ
settings = record {
  merge_levels = some 2;
  imbalance_percent = none;
  enabled = λ k. none;
  own_merge_levels = λ k. none;
  own_imbalance_percent = λ k. none;
  min_delta = λ k. none;
  location = λ k. none;
  min_volume = λ k. some (lit fixed 5);
  max_volume = none;
  min_size = λ k. none;
  max_size = λ k. none;
  color_bid = λ k. none;
  color_ask = λ k. none;
}

abbrev style : DrawStyle ℤ
style = record { shape = λ k. none; opacity = λ k. none }

-- Both windows of two cells pass both filters.
four_items : length (items_to_draw fixed style settings candle) ≡ 4
unfolding items_to_draw draw_filter draw_scan drawn filter_of sum_volume sum_bid sum_ask sum_over
    mid_price in_location sorted_cells sort ◌+ℤ◌ ◌-ℤ◌
four_items = refl
