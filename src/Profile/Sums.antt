-- ===== src/Profile/Sums.antt =====
-- The volume of the value area of a drawn profile, as a sum of the bins of the area.
use test_v.Shared.{
  ℕ, zero, suc, ◌+◌, ◌-◌, ◌≤◌, ◌<◌, true, ◌≡◌, refl, sym, ap, subst, ◌∙◌, ◌⊎◌, inl, inr, List, [],
  ◌∷◌, ◌++◌, foldl, arith, ltb, ltb→lt, Bool-cases,
}
use mathlib.Core.List.{Perm}
use mathlib.Core.List.Perm
use test_v.Number.{Num, lit, le}
use test_v.Profile.{bin_at}
use test_v.Profile.Area.{
  Totals, Area, totals_from, totals_of, top, add_low_vol, add_high_vol, take_low, take_high, widen,
}

module _ (n : Num) where
  open n use {Real, add, lt}

  total_volume-totals_from :
      (vs : List Real) (b : ℕ) (t : Totals Real)
      → (totals_from n b vs t).total_volume ≡ foldl add t.total_volume vs
  unfolding totals_from
  total_volume-totals_from [] b t = refl
  total_volume-totals_from (v ∷ vs) b t = total_volume-totals_from vs (suc b) _

  pub total_volume-totals_of :
      (bins : List Real) → (totals_of n bins).total_volume ≡ foldl add (lit n 0) bins
  unfolding totals_of
  total_volume-totals_of bins = total_volume-totals_from bins 0 _

  module _ (bins : List Real) where
    -- A number of bins from an index on.
    abbrev pub slice : ℕ → ℕ → List Real
    slice i zero = []
    slice i (suc k) = bin_at (lit n 0) bins i ∷ slice (suc i) k

    -- A first bin, and those that were added to it, the last one in front.
    abbrev pub added_to : Real → List Real → Real
    added_to first [] = first
    added_to first (v ∷ vs) = add (added_to first vs) v

    -- The volume of an area is the bin `poc` with the other bins of the area added, each once.
    pub record IsSummed (poc : ℕ) (a : Area Real) : Type 0 where
      pub others : List Real
      pub taken :
          Perm (bin_at (lit n 0) bins poc ∷ others) (slice a.low_idx (a.high_idx + 1 - a.low_idx))
      pub summed : a.va_volume ≡ added_to (bin_at (lit n 0) bins poc) others

    slice_snoc : (i k : ℕ) → slice i (suc k) ≡ slice i k ++ bin_at (lit n 0) bins (i + k) ∷ []
    slice_snoc i zero = ap (λ j. bin_at (lit n 0) bins j ∷ []) (omega arith)
    slice_snoc i (suc k) =
        let e : suc i + k ≡ i + suc k = omega arith in
        ap (◌∷◌ (bin_at (lit n 0) bins i))
          (slice_snoc (suc i) k ∙ ap (λ j. slice (suc i) k ++ bin_at (lit n 0) bins j ∷ []) e)

    snoc_Perm : (v : Real) (vs : List Real) → Perm (v ∷ vs) (vs ++ v ∷ [])
    snoc_Perm v [] = Perm.rfl
    snoc_Perm v (w ∷ ws) = Perm.trans (Perm.swap w v ws) (Perm.cons w (snoc_Perm v ws))

    -- One more bin is added, in front of the others.
    add_bin :
        (p b v : Real) (others us ws : List Real)
        → Perm (p ∷ others) us
        → Perm (b ∷ us) ws
        → v ≡ added_to p others
        → Perm (p ∷ b ∷ others) ws × (add v b ≡ added_to p (b ∷ others))
    add_bin p b v others us ws h k e =
        (Perm.trans (Perm.swap b p others) (Perm.trans (Perm.cons b h) k), ap (λ x. add x b) e)

    take_low-IsSummed :
        (target : Real) (poc : ℕ) (a : Area Real)
        → 0 < a.low_idx
        → a.low_idx ≤ a.high_idx
        → IsSummed poc a
        → IsSummed poc (take_low n bins target a)
    unfolding bin_at
    take_low-IsSummed target poc a h o s =
        let b = bin_at (lit n 0) bins (a.low_idx - 1) in
        let q : ltb 0 a.low_idx ≡ true = ground arith in
        let e : suc (a.low_idx - 1) ≡ a.low_idx = omega arith in
        let c : a.high_idx + 1 - (a.low_idx - 1) ≡ suc (a.high_idx + 1 - a.low_idx) = omega arith in
        let k : b ∷ slice a.low_idx (a.high_idx + 1 - a.low_idx)
            ≡ slice (a.low_idx - 1) (a.high_idx + 1 - (a.low_idx - 1)) =
          ap (λ i. b ∷ slice i (a.high_idx + 1 - a.low_idx)) (sym e)
          ∙ ap (slice (a.low_idx - 1)) (sym c) in
        let (x, y) =
          add_bin (bin_at (lit n 0) bins poc) b a.va_volume s.others _ _ s.taken
            (subst (Perm (b ∷ slice a.low_idx (a.high_idx + 1 - a.low_idx))) k Perm.rfl) s.summed in
        record { others = b ∷ s.others; taken = x; summed = rw q y }

    take_high-IsSummed :
        (target : Real) (poc : ℕ) (a : Area Real)
        → a.high_idx < top n bins target
        → a.low_idx ≤ a.high_idx
        → IsSummed poc a
        → IsSummed poc (take_high n bins target a)
    unfolding bin_at
    take_high-IsSummed target poc a h o s =
        let b = bin_at (lit n 0) bins (a.high_idx + 1) in
        let q : ltb a.high_idx (top n bins target) ≡ true = ground arith in
        let e : a.low_idx + (a.high_idx + 1 - a.low_idx) ≡ a.high_idx + 1 = omega arith in
        let c : suc (a.high_idx + 1 - a.low_idx) ≡ a.high_idx + 1 + 1 - a.low_idx = omega arith in
        let us = slice a.low_idx (a.high_idx + 1 - a.low_idx) in
        let k : us ++ b ∷ [] ≡ slice a.low_idx (a.high_idx + 1 + 1 - a.low_idx) =
          ap (λ i. us ++ bin_at (lit n 0) bins i ∷ []) (sym e)
          ∙ sym (slice_snoc a.low_idx (a.high_idx + 1 - a.low_idx))
          ∙ ap (slice a.low_idx) c in
        let (x, y) =
          add_bin (bin_at (lit n 0) bins poc) b a.va_volume s.others us _ s.taken
            (subst (Perm (b ∷ us)) k (snoc_Perm b us)) s.summed in
        record { others = b ∷ s.others; taken = x; summed = rw q y }

    -- A round takes the bin below the area, the bin above it, or none.
    widen_cases :
        (target : Real) (a : Area Real)
        → (0 < a.low_idx) × (widen n bins target a ≡ take_low n bins target a)
          ⊎ ((a.high_idx < top n bins target) × (widen n bins target a ≡ take_high n bins target a))
          ⊎ (widen n bins target a ≡ a)
    unfolding widen
    widen_cases target a = elim (Bool-cases (ltb 0 a.low_idx)) [
      | inl e ↦
          elim (Bool-cases (le n (add_high_vol n bins target a) (add_low_vol n bins target a))) [
            | inl f ↦ inl (ltb→lt _ _ e, rw (f, e) refl)
            | inr f ↦ elim (Bool-cases (ltb a.high_idx (top n bins target))) [
              | inl g ↦ inr (inl (ltb→lt _ _ g, rw (f, g) refl))
              | inr g ↦ inl (ltb→lt _ _ e, rw (f, g, e) refl)
            ]
          ]
      | inr e ↦ ground arith
    ]

    pub widen-IsSummed :
        (target : Real) (poc : ℕ) (a : Area Real)
        → a.low_idx ≤ a.high_idx
        → IsSummed poc a
        → IsSummed poc (widen n bins target a)
    widen-IsSummed target poc a o s = elim (widen_cases target a) [
      | inl (h, e) ↦ subst (IsSummed poc) (sym e) (take_low-IsSummed target poc a h o s)
      | inr (inl (h, e)) ↦ subst (IsSummed poc) (sym e) (take_high-IsSummed target poc a h o s)
      | inr (inr e) ↦ subst (IsSummed poc) (sym e) s
    ]
