-- ===== src/Profile/Area.antt =====
-- The point of control and the value area of a drawn profile
-- (frontend-chart/src/components/ClusterChart.tsx).
use test_v.Shared.{
  ℕ, zero, suc, ◌+◌, ◌-◌, Bool, ◌&&◌, ◌||◌, List, [], ◌∷◌, if◌then◌else◌, ltb, length,
}
use test_v.Number.{Num, lit, le}
use test_v.Profile.{bin_at}

pub record Totals (R : Type 0) : Type 0 where
  pub total_volume : R
  pub max_bin_val : R
  pub poc_idx : ℕ

pub record Area (R : Type 0) : Type 0 where
  pub low_idx : ℕ
  pub high_idx : ℕ
  pub va_volume : R

module _ (n : Num) where
  open n use {Real, ratio, add, mul, lt}

  -- The loop over the bins, from the bin with index `b` on.
  unfoldable pub totals_from : ℕ → List Real → Totals Real → Totals Real
  totals_from b [] t = t
  totals_from b (v ∷ vs) t = totals_from (suc b) vs (record {
    total_volume = add t.total_volume v;
    max_bin_val = if lt t.max_bin_val v then v else t.max_bin_val;
    poc_idx = if lt t.max_bin_val v then b else t.poc_idx;
  })

  unfoldable pub totals_of : List Real → Totals Real
  unfolding totals_from
  totals_of bins =
      totals_from 0 bins (record { total_volume = lit n 0; max_bin_val = lit n 0; poc_idx = 0 })

  module _ (bins : List Real) (target : Real) where
    -- `bucketCount - 1`
    abbrev pub top : ℕ
    top = length bins - 1

    abbrev pub goes_on : Area Real → Bool
    goes_on a = lt a.va_volume target && (ltb 0 a.low_idx || ltb a.high_idx top)

    abbrev pub add_low_vol : Area Real → Real
    unfolding bin_at
    add_low_vol a = if ltb 0 a.low_idx then bin_at (lit n 0) bins (a.low_idx - 1) else lit n 0

    abbrev pub add_high_vol : Area Real → Real
    unfolding bin_at
    add_high_vol a = if ltb a.high_idx top then bin_at (lit n 0) bins (a.high_idx + 1) else lit n 0

    abbrev pub take_low : Area Real → Area Real
    take_low a = record a { va_volume = add a.va_volume (add_low_vol a); low_idx = a.low_idx - 1 }

    abbrev pub take_high : Area Real → Area Real
    take_high a = record a {
      va_volume = add a.va_volume (add_high_vol a);
      high_idx = a.high_idx + 1;
    }

    -- The body of the loop; the last branch is its `break`.
    unfoldable pub widen : Area Real → Area Real
    widen a =
        if le n (add_high_vol a) (add_low_vol a) && ltb 0 a.low_idx
        then take_low a
        else if ltb a.high_idx top
        then take_high a
        else if ltb 0 a.low_idx
        then take_low a
        else a

    -- The loop, with fuel for its rounds.
    unfoldable pub widen_all : ℕ → Area Real → Area Real
    unfolding widen
    widen_all zero a = a
    widen_all (suc fuel) a = let rest = widen_all fuel (widen a) in if goes_on a then rest else a

  -- The area before the loop: the largest bin, and 70 % of the volume.
  unfoldable pub start_area : List Real → Area Real
  unfolding totals_of bin_at
  start_area bins =
      let poc = (totals_of bins).poc_idx in
      record { low_idx = poc; high_idx = poc; va_volume = bin_at (lit n 0) bins poc }

  unfoldable pub target_volume : List Real → Real
  unfolding totals_of
  target_volume bins = mul (totals_of bins).total_volume (ratio 7 10)

  -- The value area: one round for each bin is enough.
  unfoldable pub profile_area : List Real → Area Real
  unfolding totals_of widen_all start_area target_volume
  profile_area bins =
      let t = totals_of bins in
      if lt (lit n 0) t.total_volume && lt (lit n 0) t.max_bin_val
      then widen_all bins (target_volume bins) (length bins) (start_area bins)
      else start_area bins
