-- ===== src/Profile/Tests.antt =====
-- Tests and witnesses for the drawn volume profile.
use test_v.Shared.{
  ◌+◌, ◌*◌, ◌-◌, ◌≡◌, ◌<◌, ◌≤◌, ◌⊎◌, refl, false, List, [], ◌∷◌, arith, length, foldl,
}
use test_v.Shared.Int.{ℤ, ◌+ℤ◌, ltb_ℤ}
use test_v.Number.{lit}
use test_v.Number.Fixed.{fixed}
use test_v.Profile.{bin_at}
use test_v.Profile.Area.{
  totals_from, totals_of, start_area, target_volume, widen, widen_all, profile_area,
}
use test_v.Profile.Reached
use test_v.Profile.Sums.{IsSummed}

abbrev bins : List ℤ
bins = lit fixed 1 ∷ lit fixed 4 ∷ lit fixed 9 ∷ lit fixed 6 ∷ lit fixed 5 ∷ lit fixed 2 ∷ []

-- The largest bin, then the one below it and the next: 20 of 27.
area_runs : (profile_area fixed bins).low_idx * 10 + (profile_area fixed bins).high_idx ≡ 24
unfolding profile_area widen_all widen start_area target_volume totals_of totals_from bin_at ◌+ℤ◌
area_runs = refl

profile_area_ends_example :
    ((profile_area fixed bins).low_idx ≤ (totals_of fixed bins).poc_idx)
    × ((totals_of fixed bins).poc_idx ≤ (profile_area fixed bins).high_idx)
    × ((profile_area fixed bins).high_idx < length bins)
    × IsSummed fixed bins (totals_of fixed bins).poc_idx (profile_area fixed bins)
    × ((ltb_ℤ
            (profile_area fixed bins).va_volume
            (fixed.mul (foldl fixed.add (lit fixed 0) bins) (fixed.ratio 7 10))
          ≡ false)
        ⊎ (((profile_area fixed bins).low_idx ≡ 0)
            × ((profile_area fixed bins).high_idx ≡ length bins - 1)))
unfolding totals_of totals_from ◌+ℤ◌
profile_area_ends_example = Reached.profile_area_ends fixed bins (omega arith) refl refl
