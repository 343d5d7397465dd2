-- ===== src/Candle/Tests.antt =====
-- Tests and witnesses for the mapping of candles, on a candle of three cells.
use test_v.Shared.{◌+◌, ℕ, false, some, ◌≡◌, refl, inl, inr, List, [], ◌∷◌}
use test_v.Shared.Int.{ℤ, ◌+ℤ◌}
use test_v.Shared.Sort.{sort, IsSorted}
use test_v.Number.{lit}
use test_v.Number.Fixed.{fixed, fixed_laws}
use test_v.Number.Order.{Le}
use test_v.Candle.{ClusterCell, BackendCandle, by_volume, value_area, map_stream_candle}
use test_v.Candle.ValueArea
use test_v.Candle.ValueArea.{IsCut, Bounds}
use test_v.Candle.Mapping.{HasFlags}
use mathlib.Core.List.{Perm}

abbrev cell : ℕ → ℕ → ℕ → ClusterCell ℤ
cell p b a = record {
  price = lit fixed p;
  bid = lit fixed b;
  ask = lit fixed a;
  volume = lit fixed (b + a);
  is_poc = some false;
  is_buy_imbalance = some false;
  is_sell_imbalance = some false;
}

abbrev cells : List (ClusterCell ℤ)
cells = cell 101 1 1 ∷ cell 102 3 3 ∷ cell 103 1 2 ∷ []

abbrev candle : BackendCandle ℤ
candle = record {
  time = 60;
  open_price = lit fixed 101;
  high = lit fixed 104;
  low = lit fixed 100;
  close = lit fixed 103;
  volume = lit fixed 11;
  delta = lit fixed 1;
  cells = cells;
}

poc_of_candle : (map_stream_candle fixed candle).poc_price ≡ lit fixed 102
unfolding map_stream_candle
poc_of_candle = refl

area_of_candle : value_area fixed (lit fixed 11) cells ≡ lit fixed 102 ∷ lit fixed 103 ∷ []
unfolding value_area sort ◌+ℤ◌
area_of_candle = refl

value_area-IsCut_example :
    (sorted : List (ClusterCell ℤ)) × Perm sorted cells
    × IsSorted (by_volume fixed) sorted
    × IsCut fixed
        (fixed.mul (lit fixed 11) (fixed.ratio 7 10))
        (lit fixed 0)
        sorted
        (value_area fixed (lit fixed 11) cells)
value_area-IsCut_example = ValueArea.value_area-IsCut fixed fixed_laws (lit fixed 11) cells

val-le-poc_price-le-vah_example :
    Le fixed fixed_laws
      (map_stream_candle fixed candle).val
      (map_stream_candle fixed candle).poc_price
    × Le fixed fixed_laws
        (map_stream_candle fixed candle).poc_price
        (map_stream_candle fixed candle).vah
val-le-poc_price-le-vah_example =
    ValueArea.val-le-poc_price-le-vah fixed fixed_laws candle (cell 102 3 3) (inr (inl refl)) refl

flags : (p b a : ℕ) → HasFlags (cell p b a)
flags p b a = record {
  poc = false;
  buy = false;
  sell = false;
  has_poc = refl;
  has_buy = refl;
  has_sell = refl;
}
