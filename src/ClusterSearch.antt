-- ===== src/ClusterSearch.antt =====
-- The cluster search: the two filters of frontend-chart/src/components/ClusterChart.tsx over the
-- cells of a candle, as the handler of the mouse and as the drawing compute them.
--
-- The number of merged levels is a natural number. What is left out: which candles are looked at,
-- and the distance of a match from the mouse.
pub mod Search
pub mod Windows
pub mod Hits
pub mod Drawing
pub mod Drawn
mod Tests
use test_v.Shared.{ℕ, Bool, false, true, Option, none, some, get_or}
use test_v.Shared.Text.{Text, codes}
use test_v.Number.{Num, lit}

pub data Location : Type 0 where
  any_location body lower_wick upper_wick : Location

pub data FilterType : Type 0 where
  medium large : FilterType

-- The settings of the indicator that the search reads.
pub record SearchSettings (R : Type 0) : Type 0 where
  pub merge_levels : Option ℕ
  pub imbalance_percent : Option R
  pub enabled : FilterType → Option Bool
  pub own_merge_levels : FilterType → Option ℕ
  pub own_imbalance_percent : FilterType → Option R
  pub min_delta : FilterType → Option R
  pub location : FilterType → Option Location
  pub min_volume : FilterType → Option R
  pub max_volume : Option R
  pub min_size : FilterType → Option R
  pub max_size : FilterType → Option R
  pub color_bid : FilterType → Option Text
  pub color_ask : FilterType → Option Text

-- The variables of one filter; only the medium one has a largest volume.
pub record Filter (R : Type 0) : Type 0 where
  pub kind : FilterType
  pub merge_levels : ℕ
  pub imbalance_percent : R
  pub min_delta : R
  pub location : Location
  pub min_volume : R
  pub max_volume : Option R
  pub min_size : R
  pub max_size : R
  pub color_bid : Text
  pub color_ask : Text

pub record Match (R : Type 0) : Type 0 where
  pub filter_type : FilterType
  pub sum_volume : R
  pub bid_percent : R
  pub ask_percent : R
  pub is_bid_dominant : Bool
  pub is_ask_dominant : Bool
  pub price : R
  pub size : R
  pub color : Text

module _ (n : Num) where
  open n use {Real}

  -- The defaults of a filter.
  unfoldable pub filter_of : FilterType → SearchSettings Real → Filter Real
  filter_of medium s = record {
    kind = medium;
    merge_levels = get_or (s.own_merge_levels medium) (get_or s.merge_levels 1);
    imbalance_percent =
        get_or (s.own_imbalance_percent medium) (get_or s.imbalance_percent (lit n 60));
    min_delta = get_or (s.min_delta medium) (lit n 0);
    location = get_or (s.location medium) any_location;
    min_volume = get_or (s.min_volume medium) (lit n 100);
    max_volume = some (get_or s.max_volume (lit n 500));
    min_size = get_or (s.min_size medium) (lit n 4);
    max_size = get_or (s.max_size medium) (lit n 12);
    color_bid = get_or (s.color_bid medium) (codes "#ef4444");
    color_ask = get_or (s.color_ask medium) (codes "#10b981");
  }
  filter_of large s = record {
    kind = large;
    merge_levels = get_or (s.own_merge_levels large) (get_or s.merge_levels 1);
    imbalance_percent =
        get_or (s.own_imbalance_percent large) (get_or s.imbalance_percent (lit n 60));
    min_delta = get_or (s.min_delta large) (lit n 0);
    location = get_or (s.location large) any_location;
    min_volume = get_or (s.min_volume large) (lit n 500);
    max_volume = none;
    min_size = get_or (s.min_size large) (lit n 10);
    max_size = get_or (s.max_size large) (lit n 20);
    color_bid = get_or (s.color_bid large) (codes "#f43f5e");
    color_ask = get_or (s.color_ask large) (codes "#34d399");
  }
