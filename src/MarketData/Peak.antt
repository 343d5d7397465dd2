-- ===== src/MarketData/Peak.antt =====
-- The point of control of a candlestick's levels, by the index that the loop keeps.
use test_v.Shared.{
  ℕ, suc, ◌+◌, ◌≤◌, Bool, true, false, ◌≡◌, refl, ap, subst, ◌∙◌, ◌⊎◌, inl, inr, Option, none, some,
  List, [], ◌∷◌, ◌++◌, length, filter, find?, All, Bool-cases, arith, ◌==◌,
}
use test_v.Shared.Sort.{insert, sort}
use test_v.Number.{Num, Laws}
use test_v.Number.Order.{lt_trans, lt_of_le-lt}
use test_v.Candle.{ClusterCell}
use test_v.MarketData.Klines.{TempCell, poc_index, final_cell, final_cells, is_poc_cell}

-- `cell` is the first level of the largest volume.
pub record IsPeak (n : Num) (cells : List (TempCell n.Real)) : Type 0 where
  pub earlier : List (TempCell n.Real)
  pub cell : TempCell n.Real
  pub later : List (TempCell n.Real)
  pub split : cells ≡ earlier ++ cell ∷ later
  pub above_earlier : All (λ b. n.lt b.volume cell.volume ≡ true) earlier
  pub not_below_later : All (λ a. n.lt cell.volume a.volume ≡ false) later

-- A smaller level in front.
past :
    (n : Num) (c : TempCell n.Real) {cs : List (TempCell n.Real)} (m : IsPeak n cs)
    → n.lt c.volume m.cell.volume ≡ true
    → IsPeak n (c ∷ cs)
past n c m h = record {
  earlier = c ∷ m.earlier;
  cell = m.cell;
  later = m.later;
  split = ap (◌∷◌ c) m.split;
  above_earlier = (h, m.above_earlier);
  not_below_later = m.not_below_later;
}

module _ (n : Num) (l : Laws n) where
  open n use {Real, lt}

  pub poc_index_cases :
      (cells : List (TempCell Real)) (idx : ℕ) (mv : Real) (poc : Option ℕ)
      → (poc_index n cells idx mv poc ≡ poc) × All (λ c. lt mv c.volume ≡ false) cells
        ⊎ ((m : IsPeak n cells) × (poc_index n cells idx mv poc ≡ some (idx + length m.earlier))
            × (lt mv m.cell.volume ≡ true))
  unfolding poc_index past
  poc_index_cases [] idx mv poc = inl (refl, tt)
  poc_index_cases (c ∷ cs) idx mv poc = elim (Bool-cases (lt mv c.volume)) [
    | inl e ↦ elim (poc_index_cases cs (suc idx) c.volume (some idx)) [
      | inl (r, h) ↦ inr (
        record {
          earlier = [];
          cell = c;
          later = cs;
          split = refl;
          above_earlier = tt;
          not_below_later = h;
        },
        rw e (r ∙ ap some (omega arith)),
        e,
      )
      | inr (m, r, h) ↦ inr (
        past n c m h,
        rw e (r ∙ ap some (omega arith)),
        lt_trans n l mv c.volume m.cell.volume e h,
      )
    ]
    | inr e ↦ elim (poc_index_cases cs (suc idx) mv poc) [
      | inl (r, h) ↦ inl (rw e r, (e, h))
      | inr (m, r, h) ↦ inr (
        past n c m (lt_of_le-lt n l c.volume mv m.cell.volume e h),
        rw e (r ∙ ap some (omega arith)),
        h,
      )
    ]
  ]

module _ (n : Num) where
  open n use {Real, to_fixed}

  -- No index, no marked cell.
  pub filter-final_cells_unmarked :
      (mean : Real) (idx : ℕ) (cs : List (TempCell Real))
      → filter (is_poc_cell n) (final_cells n mean none idx cs) ≡ []
  unfolding final_cells
  filter-final_cells_unmarked mean idx [] = refl
  filter-final_cells_unmarked mean idx (c ∷ cs) = filter-final_cells_unmarked mean (suc idx) cs

  filter-final_cells_past :
      (mean : Real) (k idx : ℕ) (cs : List (TempCell Real))
      → 1 + k ≤ idx
      → filter (is_poc_cell n) (final_cells n mean (some k) idx cs) ≡ []
  unfolding final_cells
  filter-final_cells_past mean k idx [] h = refl
  filter-final_cells_past mean k idx (c ∷ cs) h =
      let e : (k == idx) ≡ false = ground arith in
      rw e (filter-final_cells_past mean k (suc idx) cs (omega arith))

  -- The level of the index is the one cell that is marked.
  pub filter-final_cells :
      (mean : Real) (idx : ℕ) (earlier : List (TempCell Real)) (c : TempCell Real)
      (later : List (TempCell Real))
      → (d : ClusterCell Real) × (filter
            (is_poc_cell n)
            (final_cells n mean (some (idx + length earlier)) idx (earlier ++ c ∷ later))
          ≡ d ∷ [])
        × (d.price ≡ c.price)
        × (d.volume ≡ to_fixed 4 c.volume)
  unfolding final_cells
  filter-final_cells mean idx [] c later =
      let e : (idx + 0 == idx) ≡ true = ground arith in
      (
        final_cell n mean true c,
        rw e (
            ap (◌∷◌ (final_cell n mean true c))
              (filter-final_cells_past mean (idx + 0) (suc idx) later (omega arith))),
        refl,
        refl,
      )
  filter-final_cells mean idx (b ∷ bs) c later =
      let e : (idx + suc (length bs) == idx) ≡ false = ground arith in
      let (d, f, g, v) = filter-final_cells mean (suc idx) bs c later in
      let k : suc idx + length bs ≡ idx + suc (length bs) = omega arith in
      (
        d,
        rw e (
            subst
              (λ j.
                filter (is_poc_cell n) (final_cells n mean (some j) (suc idx) (bs ++ c ∷ later))
                ≡ d ∷ [])
              k f),
        g,
        v,
      )

module _ {A : Type 0} (p : A → Bool) where
  pub find?-filter_empty : (xs : List A) → filter p xs ≡ [] → find? p xs ≡ none
  find?-filter_empty [] h = refl
  find?-filter_empty (x ∷ xs) h = grind (arith, find?-filter_empty xs)

  pub find?-filter : (a : A) (rest xs : List A) → filter p xs ≡ a ∷ rest → find? p xs ≡ some a
  find?-filter a rest [] h = grind arith
  find?-filter a rest (x ∷ xs) h = grind (arith, find?-filter a rest xs)

  module _ (before : A → A → Bool) where
    filter-insert_other :
        (x : A) (ys : List A) → p x ≡ false → filter p (insert before x ys) ≡ filter p ys
    unfolding insert
    filter-insert_other x [] h = rw h
    filter-insert_other x (y ∷ ys) h = elim (Bool-cases (before y x)) [
      | inl e ↦ rw (e, filter-insert_other x ys h)
      | inr e ↦ rw (e, h)
    ]

    filter-insert_one :
        (x : A) (ys : List A)
        → p x ≡ true
        → filter p ys ≡ []
        → filter p (insert before x ys) ≡ x ∷ []
    unfolding insert
    filter-insert_one x [] h k = rw h
    filter-insert_one x (y ∷ ys) h k = elim (Bool-cases (p y)) [
      | inl e ↦ grind arith
      | inr e ↦ grind (arith, filter-insert_one x ys)
    ]

    -- Sorting a list with none that passes, or with one.
    pub filter-sort_none : (xs : List A) → filter p xs ≡ [] → filter p (sort before xs) ≡ []
    unfolding sort
    filter-sort_none [] h = refl
    filter-sort_none (x ∷ xs) h = elim (Bool-cases (p x)) [
      | inl e ↦ grind arith
      | inr e ↦ grind (arith, filter-insert_other x (sort before xs) e, filter-sort_none xs)
    ]

    pub filter-sort_one :
        (a : A) (xs : List A) → filter p xs ≡ a ∷ [] → filter p (sort before xs) ≡ a ∷ []
    unfolding sort
    filter-sort_one a [] h = h
    filter-sort_one a (x ∷ xs) h = elim (Bool-cases (p x)) [
      | inl e ↦ grind (arith, filter-insert_one x (sort before xs) e, filter-sort_none xs)
      | inr e ↦ grind (arith, filter-insert_other x (sort before xs) e, filter-sort_one a xs)
    ]
