-- ===== src/Candle/Poc.antt =====
-- The point of control of a mapped candle, which the loop over the cells computes.
use test_v.Shared.{
  Bool, true, false, ◌≡◌, refl, ap, ◌⊎◌, inl, inr, List, [], ◌∷◌, ◌++◌, All, Bool-cases,
}
use test_v.Shared.Sort.{insert, sort, sort-All}
use test_v.Number.{Num, Laws, lit}
use test_v.Number.Order.{lt_trans, lt_of_le-lt}
use test_v.Candle.{ClusterCell, BackendCandle, poc_scan, by_volume, map_stream_candle}

-- `c` is the first cell of the largest volume: larger than all before, as large as all after.
pub record IsFirstMax (n : Num) (cells : List (ClusterCell n.Real)) : Type 0 where
  pub earlier : List (ClusterCell n.Real)
  pub cell : ClusterCell n.Real
  pub later : List (ClusterCell n.Real)
  pub split : cells ≡ earlier ++ cell ∷ later
  pub above_earlier : All (λ b. n.lt b.volume cell.volume ≡ true) earlier
  pub not_below_later : All (λ a. n.lt cell.volume a.volume ≡ false) later

-- A smaller cell in front.
past :
    (n : Num) (c : ClusterCell n.Real) {cs : List (ClusterCell n.Real)} (m : IsFirstMax n cs)
    → n.lt c.volume m.cell.volume ≡ true
    → IsFirstMax n (c ∷ cs)
past n c m h = record {
  earlier = c ∷ m.earlier;
  cell = m.cell;
  later = m.later;
  split = ap (◌∷◌ c) m.split;
  above_earlier = (h, m.above_earlier);
  not_below_later = m.not_below_later;
}

module _ (n : Num) (l : Laws n) where
  open n use {Real, lt}

  -- From any start: no cell is larger than the volume at hand, or the first largest one is found.
  pub poc_scan_cases :
      (cells : List (ClusterCell Real)) (mv pp : Real)
      → (poc_scan n cells mv pp ≡ (mv, pp)) × All (λ c. lt mv c.volume ≡ false) cells
        ⊎ ((m : IsFirstMax n cells) × (poc_scan n cells mv pp ≡ (m.cell.volume, m.cell.price))
            × (lt mv m.cell.volume ≡ true))
  unfolding poc_scan past
  poc_scan_cases [] mv pp = inl (refl, tt)
  poc_scan_cases (c ∷ cs) mv pp = elim (Bool-cases (lt mv c.volume)) [
    | inl e ↦ elim (poc_scan_cases cs c.volume c.price) [
      | inl (r, h) ↦ inr (
        record {
          earlier = [];
          cell = c;
          later = cs;
          split = refl;
          above_earlier = tt;
          not_below_later = h;
        },
        rw e r,
        e,
      )
      | inr (m, r, h) ↦ inr (past n c m h, rw e r, lt_trans n l mv c.volume m.cell.volume e h)
    ]
    | inr e ↦ elim (poc_scan_cases cs mv pp) [
      | inl (r, h) ↦ inl (rw e r, (e, h))
      | inr (m, r, h) ↦ inr (past n c m (lt_of_le-lt n l c.volume mv m.cell.volume e h), rw e r, h)
    ]
  ]

  -- The point of control is the price of the first cell of the largest volume; if no cell has a
  -- positive volume, it is the candle's open.
  pub poc_price-IsFirstMax :
      (bc : BackendCandle Real)
      → ((map_stream_candle n bc).poc_price ≡ bc.open_price)
          × All (λ c. lt (lit n 0) c.volume ≡ false) bc.cells
        ⊎ ((m : IsFirstMax n bc.cells) × ((map_stream_candle n bc).poc_price ≡ m.cell.price)
            × (lt (lit n 0) m.cell.volume ≡ true))
  unfolding map_stream_candle
  poc_price-IsFirstMax bc = elim (poc_scan_cases bc.cells (lit n 0) bc.open_price) [
    | inl (r, h) ↦ inl (ap (λ p. p.1) r, h)
    | inr (m, r, h) ↦ inr (m, ap (λ p. p.1) r, h)
  ]

insert_first {ℓ} :
    {A : Type ℓ} (before : A → A → Bool) (x : A) (ys : List A)
    → All (λ y. before y x ≡ false) ys
    → insert before x ys ≡ x ∷ ys
unfolding insert
insert_first before x [] h = refl
insert_first before x (y ∷ ys) h = rw h.0

-- Sorted by falling volume, the first cell of the largest volume comes first.
pub sort_first_max :
    (n : Num) (earlier : List (ClusterCell n.Real)) (c : ClusterCell n.Real)
    (later : List (ClusterCell n.Real))
    → All (λ b. n.lt b.volume c.volume ≡ true) earlier
    → All (λ a. n.lt c.volume a.volume ≡ false) later
    → (rest : List (ClusterCell n.Real)) × (sort (by_volume n) (earlier ++ c ∷ later) ≡ c ∷ rest)
unfolding sort
sort_first_max n [] c later h k = (
  sort (by_volume n) later,
  insert_first (by_volume n) c (sort (by_volume n) later)
      (sort-All (by_volume n) (λ a. n.lt c.volume a.volume ≡ false) later k),
)
sort_first_max n (b ∷ bs) c later h k =
    let (rest, e) = sort_first_max n bs c later h.1 k in
    (insert (by_volume n) b rest, rw (e, insert, h.0))
