-- ===== src/ClusterSearch/Drawing.antt =====
-- The copy of the filters in the drawing of frontend-chart/src/components/ClusterChart.tsx.
use test_v.Shared.{
  ℕ, ◌-◌, not, ◌&&◌, ◌||◌, Option, none, some, get_or, List, [], ◌∷◌, ◌++◌, if◌then◌else◌, leb,
  length, take,
}
use test_v.Shared.Text.{Text, codes}
use test_v.Number.{Num, lit, le, abs, num_min, num_max}
use test_v.Candle.{ClusterCell, ClusterCandle}
use test_v.ClusterSearch.{Filter, FilterType, medium, large, SearchSettings, Match, filter_of}
use test_v.ClusterSearch.Search.{
  sum_volume, sum_bid, sum_ask, percent_of, mid_price, over_max, in_location, size_of, sorted_cells,
  window_size, is_enabled,
}

pub record DrawStyle (R : Type 0) : Type 0 where
  pub shape : FilterType → Option Text
  pub opacity : FilterType → Option R

pub record DrawnItem (R : Type 0) : Type 0 where
  pub price : R
  pub color : Text
  pub shape : Text
  pub opacity : R
  pub size : R

abbrev pub shape_of : FilterType → Option Text → Text
shape_of medium s = get_or s (codes "circle")
shape_of large s = get_or s (codes "rhombus")

module _ (n : Num) (style : DrawStyle n.Real) where
  open n use {Real, sub, lt, ratio}

  abbrev pub opacity_of : FilterType → Option Real → Real
  opacity_of medium o = get_or o (ratio 7 10)
  opacity_of large o = get_or o (ratio 9 10)

  -- The object that is pushed onto `itemsToDraw`.
  unfoldable pub item_at : FilterType → Real → Text → Real → DrawnItem Real
  item_at kind price color size = record {
    price = price;
    color = color;
    shape = shape_of kind (style.shape kind);
    opacity = opacity_of kind (style.opacity kind);
    size = size;
  }

  -- One round of the loop in the drawing; both percentages are computed the same way here.
  unfoldable pub drawn :
      Filter Real
      → Real
      → Real
      → ClusterCell Real
      → List (ClusterCell Real)
      → Option (DrawnItem Real)
  unfolding item_at
  drawn f lo hi first rest =
      let w = first ∷ rest in
      let volume = sum_volume n w in
      let is_bid_dominant = le n f.imbalance_percent (percent_of n (sum_bid n w) volume) in
      let is_ask_dominant = le n f.imbalance_percent (percent_of n (sum_ask n w) volume) in
      if le n volume (lit n 0)
      then none
      else if lt volume f.min_volume || over_max n f.max_volume volume
      then none
      else if not is_bid_dominant && not is_ask_dominant
      then none
      else if lt (abs n (sub (sum_ask n w) (sum_bid n w))) f.min_delta
      then none
      else if not (in_location n f.location lo hi (mid_price n first rest))
      then none
      else some (
          item_at f.kind (mid_price n first rest)
            (if is_bid_dominant then f.color_bid else f.color_ask) (size_of n f volume))

  abbrev pub push_item : Option (DrawnItem Real) → List (DrawnItem Real) → List (DrawnItem Real)
  push_item none is = is
  push_item (some i) is = i ∷ is

  unfoldable pub draw_scan :
      Filter Real → Real → Real → ℕ → List (ClusterCell Real) → List (DrawnItem Real)
  unfolding drawn
  draw_scan f lo hi k [] = []
  draw_scan f lo hi k (c ∷ cs) =
      let rest = draw_scan f lo hi k cs in
      if leb k (length (c ∷ cs)) then push_item (drawn f lo hi c (take (k - 1) cs)) rest else []

  unfoldable pub draw_filter : Filter Real → ClusterCandle Real → List (DrawnItem Real)
  unfolding draw_scan
  draw_filter f candle =
      let cells = sorted_cells n candle.cells in
      draw_scan f (num_min n candle.open_price candle.close)
        (num_max n candle.open_price candle.close) (window_size n f cells) cells

  -- `itemsToDraw`
  unfoldable pub items_to_draw : SearchSettings Real → ClusterCandle Real → List (DrawnItem Real)
  unfolding draw_filter
  items_to_draw s candle =
      (if is_enabled n (s.enabled medium) then draw_filter (filter_of n medium s) candle else [])
      ++ (if is_enabled n (s.enabled large) then draw_filter (filter_of n large s) candle else [])

  -- How a match looks.
  unfoldable pub item_of : Match Real → DrawnItem Real
  item_of m = item_at m.filter_type m.price m.color m.size
