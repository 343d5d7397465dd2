-- ===== src/Profile/Reached.antt =====
-- Where the loop over the value area of a drawn profile ends.
use test_v.Shared.{
  ℕ, zero, suc, ◌+◌, ◌-◌, ◌≤◌, ◌<◌, true, false, ◌≡◌, refl, ◌⊎◌, inl, inr, List, [], ◌∷◌, length,
  foldl, arith, Bool-cases,
}
use mathlib.Core.List.Perm
use test_v.Number.{Num, lit}
use test_v.Profile.Sums.{IsSummed, widen-IsSummed, total_volume-totals_of}
use test_v.Profile.Area.{
  Totals, Area, totals_from, totals_of, start_area, target_volume, top, goes_on, widen, widen_all,
  profile_area,
}

module _ (n : Num) where
  open n use {Real, ratio, add, mul, lt}

  -- The index of the largest bin stays that of a bin.
  totals_from-poc_idx :
      (vs : List Real) (b size : ℕ) (t : Totals Real)
      → b + length vs ≡ size
      → t.poc_idx < size
      → (totals_from n b vs t).poc_idx < size
  unfolding totals_from
  totals_from-poc_idx [] b size t e h = h
  totals_from-poc_idx (v ∷ vs) b size t e h =
      totals_from-poc_idx vs (suc b) size _ (omega arith)
        (elim (Bool-cases (lt t.max_bin_val v)) [ inl q ↦ rw q (omega arith) | inr q ↦ rw q h ])

  poc_idx-lt-length :
      (bins : List Real) → 0 < length bins → (totals_of n bins).poc_idx < length bins
  unfolding totals_of
  poc_idx-lt-length bins h = totals_from-poc_idx bins 0 (length bins) _ (omega arith) h

  module _ (bins : List Real) (target : Real) where
    -- The bins that are not taken.
    left_out : Area Real → ℕ
    left_out a = a.low_idx + (top n bins target - a.high_idx)

    -- The area holds the bin `poc` and ends at a bin.
    Holds : ℕ → Area Real → Type 0
    Holds poc a = (a.low_idx ≤ poc) × (poc ≤ a.high_idx) × (a.high_idx ≤ top n bins target)

    -- A round of the loop takes one more bin.
    widen-Holds :
        (poc : ℕ) (a : Area Real)
        → goes_on n bins target a ≡ true
        → Holds poc a
        → Holds poc (widen n bins target a) × (left_out (widen n bins target a) < left_out a)
    unfolding widen left_out Holds
    widen-Holds poc a g h = ground arith

    widen_all-Holds :
        (poc fuel : ℕ) (a : Area Real)
        → left_out a ≤ fuel
        → Holds poc a
        → Holds poc (widen_all n bins target fuel a)
          × (goes_on n bins target (widen_all n bins target fuel a) ≡ false)
    unfolding widen_all left_out Holds
    widen_all-Holds poc zero a e h = ground arith
    widen_all-Holds poc (suc fuel) a e h = elim (Bool-cases (goes_on n bins target a)) [
      | inl q ↦
          let (k, s) = widen-Holds poc a q h in
          rw q (widen_all-Holds poc fuel (widen n bins target a) (omega arith) k)
      | inr q ↦ rw q (h, q)
    ]

    widen_all-IsSummed :
        (poc fuel : ℕ) (a : Area Real)
        → Holds poc a
        → IsSummed n bins poc a
        → IsSummed n bins poc (widen_all n bins target fuel a)
    unfolding widen_all Holds
    widen_all-IsSummed poc zero a h s = s
    widen_all-IsSummed poc (suc fuel) a h s = elim (Bool-cases (goes_on n bins target a)) [
      | inl q ↦
          let (k, less) = widen-Holds poc a q h in
          rw q (
            widen_all-IsSummed poc fuel (widen n bins target a) k
              (widen-IsSummed n bins target poc a (omega arith) s))
      | inr q ↦ rw q s
    ]

  -- A single bin is its sum.
  start_area-IsSummed :
      (bins : List Real) → IsSummed n bins (totals_of n bins).poc_idx (start_area n bins)
  unfolding start_area
  start_area-IsSummed bins =
      let e : (totals_of n bins).poc_idx + 1 - (totals_of n bins).poc_idx ≡ 1 = omega arith in
      record { others = []; taken = rw e Perm.rfl; summed = refl }

  -- The loop that computes the value area ends before its rounds run out: the area lies among the
  -- bins and holds the bin of the point of control. Its volume is that bin with the other bins of the
  -- area added, each once, and it is at least 70 % of the sum of all bins, or the area is every bin.
  -- This is for a profile with a bin, a positive total and a positive largest bin.
  pub profile_area_ends :
      (bins : List Real)
      → 0 < length bins
      → lt (lit n 0) (totals_of n bins).total_volume ≡ true
      → lt (lit n 0) (totals_of n bins).max_bin_val ≡ true
      → ((profile_area n bins).low_idx ≤ (totals_of n bins).poc_idx)
        × ((totals_of n bins).poc_idx ≤ (profile_area n bins).high_idx)
        × ((profile_area n bins).high_idx < length bins)
        × IsSummed n bins (totals_of n bins).poc_idx (profile_area n bins)
        × ((lt (profile_area n bins).va_volume (mul (foldl add (lit n 0) bins) (ratio 7 10))
              ≡ false)
            ⊎ (((profile_area n bins).low_idx ≡ 0)
                × ((profile_area n bins).high_idx ≡ length bins - 1)))
  unfolding profile_area start_area left_out Holds target_volume
  profile_area_ends bins h p q =
      let poc = poc_idx-lt-length bins h in
      let total = total_volume-totals_of n bins in
      let (k, e) =
        widen_all-Holds bins (target_volume n bins) (totals_of n bins).poc_idx (length bins)
          (start_area n bins) (omega arith) (omega arith) in
      let s =
        widen_all-IsSummed bins (target_volume n bins) (totals_of n bins).poc_idx (length bins)
          (start_area n bins) (omega arith) (start_area-IsSummed bins) in
      (ground arith, ground arith, ground arith, rw (p, q) s, ground arith)
