-- ===== src/ClusterSearch/Search.antt =====
-- One filter over the cells of a candle (frontend-chart/src/components/ClusterChart.tsx).
use test_v.Shared.{
  ◌-◌, ℕ, Bool, true, false, not, ◌&&◌, ◌||◌, Option, none, some, List, [], ◌∷◌, ◌++◌,
  if◌then◌else◌, leb, length, take, get_last?, min, max,
}
use test_v.Shared.Sort.{sort}
use test_v.Number.{Num, lit, le, abs, num_min, num_max}
use test_v.Candle.{ClusterCell, ClusterCandle}
use test_v.ClusterSearch.{
  Location, any_location, body, lower_wick, upper_wick, FilterType, medium, large, SearchSettings,
  Filter, Match, filter_of,
}

module _ (n : Num) where
  open n use {Real, add, sub, mul, div, lt, eq}

  -- The loop over the cells of a window, from given sums.
  unfoldable pub sum_over : (ClusterCell Real → Real) → Real → List (ClusterCell Real) → Real
  sum_over f total [] = total
  sum_over f total (c ∷ cs) = sum_over f (add total (f c)) cs

  -- `sumVolume`, `sumBid` and `sumAsk`.
  unfoldable pub sum_volume : List (ClusterCell Real) → Real
  unfolding sum_over
  sum_volume w = sum_over (λ c. c.volume) (lit n 0) w

  unfoldable pub sum_bid : List (ClusterCell Real) → Real
  unfolding sum_over
  sum_bid w = sum_over (λ c. c.bid) (lit n 0) w

  unfoldable pub sum_ask : List (ClusterCell Real) → Real
  unfolding sum_over
  sum_ask w = sum_over (λ c. c.ask) (lit n 0) w

  abbrev pub percent_of : Real → Real → Real
  percent_of part total = mul (div part total) (lit n 100)

  -- The medium filter's guard tests the quotient times 105.
  unfoldable pub ask_percent_of : FilterType → Real → Real → Real
  ask_percent_of medium part total =
      if eq (mul (div part total) (lit n 105)) (lit n 0) then lit n 0 else percent_of part total
  ask_percent_of large part total = percent_of part total

  -- `(sortedCells[i].price + sortedCells[i + K - 1].price) / 2`
  abbrev pub last_price : ClusterCell Real → Option (ClusterCell Real) → Real
  last_price first none = first.price
  last_price first (some c) = c.price

  unfoldable pub mid_price : ClusterCell Real → List (ClusterCell Real) → Real
  mid_price first rest =
      div (add first.price (last_price first (get_last? (first ∷ rest)))) (lit n 2)

  abbrev pub over_max : Option Real → Real → Bool
  over_max none volume = false
  over_max (some m) volume = lt m volume

  unfoldable pub in_location : Location → Real → Real → Real → Bool
  in_location any_location min_body max_body mid = true
  in_location body min_body max_body mid = le n min_body mid && le n mid max_body
  in_location lower_wick min_body max_body mid = lt mid min_body
  in_location upper_wick min_body max_body mid = lt max_body mid

  abbrev pub size_range : Filter Real → Option Real → Real
  size_range f none = mul f.min_volume (lit n 2)
  size_range f (some m) = sub m f.min_volume

  unfoldable pub size_of : Filter Real → Real → Real
  size_of f volume =
      let range = size_range f f.max_volume in
      let ratio =
        if lt (lit n 0) range
        then num_min n (lit n 1) (div (sub volume f.min_volume) range)
        else lit n 0 in
      add f.min_size (mul ratio (sub f.max_size f.min_size))

  -- The object that is pushed for the window `first ∷ rest`.
  unfoldable pub match_of : Filter Real → ClusterCell Real → List (ClusterCell Real) → Match Real
  unfolding sum_volume sum_bid sum_ask ask_percent_of mid_price size_of
  match_of f first rest =
      let w = first ∷ rest in
      let bid_percent = percent_of (sum_bid w) (sum_volume w) in
      let ask_percent = ask_percent_of f.kind (sum_ask w) (sum_volume w) in
      record {
        filter_type = f.kind;
        sum_volume = sum_volume w;
        bid_percent = bid_percent;
        ask_percent = ask_percent;
        is_bid_dominant = le n f.imbalance_percent bid_percent;
        is_ask_dominant = le n f.imbalance_percent ask_percent;
        price = mid_price first rest;
        size = size_of f (sum_volume w);
        color = if le n f.imbalance_percent bid_percent then f.color_bid else f.color_ask;
      }

  -- One round of the loop: what a window pushes, between the `continue`s.
  unfoldable pub pushed :
      Filter Real → Real → Real → ClusterCell Real → List (ClusterCell Real) → Option (Match Real)
  unfolding match_of in_location
  pushed f min_body max_body first rest =
      let w = first ∷ rest in
      let m = match_of f first rest in
      if le n m.sum_volume (lit n 0)
      then none
      else if lt m.sum_volume f.min_volume || over_max f.max_volume m.sum_volume
      then none
      else if not m.is_bid_dominant && not m.is_ask_dominant
      then none
      else if lt (abs n (sub (sum_ask w) (sum_bid w))) f.min_delta
      then none
      else if not (in_location f.location min_body max_body m.price)
      then none
      else some m

  abbrev pub push : Option (Match Real) → List (Match Real) → List (Match Real)
  push none ms = ms
  push (some m) ms = m ∷ ms

  -- `for (let i = 0; i <= sortedCells.length - K; i++)`, on the cells from `i` on.
  unfoldable pub scan : Filter Real → Real → Real → ℕ → List (ClusterCell Real) → List (Match Real)
  unfolding pushed
  scan f min_body max_body k [] = []
  scan f min_body max_body k (c ∷ cs) =
      let rest = scan f min_body max_body k cs in
      if leb k (length (c ∷ cs))
      then push (pushed f min_body max_body c (take (k - 1) cs)) rest
      else []

  unfoldable pub sorted_cells : List (ClusterCell Real) → List (ClusterCell Real)
  sorted_cells cells = sort (λ a b. lt b.price a.price) cells

  -- `Math.max(1, Math.min(mergeLevels, sortedCells.length))`
  abbrev pub window_size : Filter Real → List (ClusterCell Real) → ℕ
  window_size f sorted = max 1 (min f.merge_levels (length sorted))

  unfoldable pub filter_matches : Filter Real → ClusterCandle Real → List (Match Real)
  unfolding scan sorted_cells
  filter_matches f candle =
      let sorted = sorted_cells candle.cells in
      scan f (num_min n candle.open_price candle.close) (num_max n candle.open_price candle.close)
        (window_size f sorted) sorted

  -- `enabled !== false`
  abbrev pub is_enabled : Option Bool → Bool
  is_enabled (some false) = false
  is_enabled _ = true

  -- The matches of a candle: those of the medium filter, then those of the large one.
  unfoldable pub cluster_matches : SearchSettings Real → ClusterCandle Real → List (Match Real)
  unfolding filter_of filter_matches
  cluster_matches s candle =
      (if is_enabled (s.enabled medium) then filter_matches (filter_of n medium s) candle else [])
      ++ (if is_enabled (s.enabled large) then filter_matches (filter_of n large s) candle else [])
