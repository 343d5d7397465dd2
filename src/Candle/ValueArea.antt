-- ===== src/Candle/ValueArea.antt =====
-- The value area of a mapped candle, and its bounds.
use test_v.Shared.{
  true, false, ◌≡◌, refl, sym, ap, subst, ◌∙◌, ◌⊎◌, inl, inr, List, [], ◌∷◌, ◌++◌, map, All, In,
  All-In, Bool-cases, if◌then◌else◌,
}
use mathlib.Core.List.{Perm}
use test_v.Shared.Sort.{insert, sort, sort-perm, sort-IsSorted, IsSorted}
use test_v.Number.{Num, Laws, lit, le}
use test_v.Number.Order.{
  Le, min_of-le, min_of-le-All, min_of-In, le-max_of, All-le-max_of, max_of-In,
}
use test_v.Candle.{
  ClusterCell, BackendCandle, by_volume, sorted_by_vol, va_prices, value_area, lowest, highest,
  map_stream_candle,
}
use test_v.Candle.Poc.{IsFirstMax, poc_price-IsFirstMax, sort_first_max}

module _ (n : Num) where
  open n use {Real, ratio, add, mul, lt}

  -- The running volume after some cells.
  abbrev pub total : Real → List (ClusterCell Real) → Real
  total running [] = running
  total running (c ∷ cs) = total (add running c.volume) cs

  -- Every proper prefix of the cells that is not empty stays below the target.
  abbrev pub StaysBelow : Real → Real → List (ClusterCell Real) → Type 0
  StaysBelow target running [] = Unit
  StaysBelow target running (c ∷ []) = Unit
  StaysBelow target running (c ∷ d ∷ cs) =
      (le n target (add running c.volume) ≡ false)
      × StaysBelow target (add running c.volume) (d ∷ cs)

  -- The cells are cut where the target is first reached.
  pub record IsCut (target running : Real) (cells : List (ClusterCell Real)) (prices : List Real)
      : Type 0 where
    pub taken : List (ClusterCell Real)
    pub left : List (ClusterCell Real)
    pub split : cells ≡ taken ++ left
    pub taken_prices : prices ≡ map (λ c. c.price) taken
    pub below : StaysBelow target running taken
    pub reached : (left ≡ []) ⊎ (le n target (total running taken) ≡ true)

  IsCut-cons :
      (target running : Real) (c : ClusterCell Real) (cs : List (ClusterCell Real)) (ps : List Real)
      → le n target (add running c.volume) ≡ false
      → IsCut target (add running c.volume) cs ps
      → IsCut target running (c ∷ cs) (c.price ∷ ps)
  IsCut-cons target running c cs ps e k = record {
    taken = c ∷ k.taken;
    left = k.left;
    split = ap (◌∷◌ c) k.split;
    taken_prices = ap (◌∷◌ c.price) k.taken_prices;
    below = go k.taken k.below;
    reached = k.reached;
  }
    where
      go :
          (t : List (ClusterCell Real))
          → StaysBelow target (add running c.volume) t
          → StaysBelow target running (c ∷ t)
      go [] h = tt
      go (d ∷ t) h = (e, h)

  va_prices-IsCut :
      (target running : Real) (cells : List (ClusterCell Real))
      → IsCut target running cells (va_prices n target running cells)
  unfolding va_prices
  va_prices-IsCut target running [] = record {
    taken = [];
    left = [];
    split = refl;
    taken_prices = refl;
    below = tt;
    reached = inl refl;
  }
  va_prices-IsCut target running (c ∷ cs) = elim (Bool-cases (le n target (add running c.volume))) [
    | inl e ↦
        subst
          (λ b.
            IsCut target running (c ∷ cs)
              (c.price ∷ (if b then [] else va_prices n target (add running c.volume) cs)))
          (sym e)
          (record {
            taken = c ∷ [];
            left = cs;
            split = refl;
            taken_prices = refl;
            below = tt;
            reached = inr e;
          })
    | inr e ↦
        subst
          (λ b.
            IsCut target running (c ∷ cs)
              (c.price ∷ (if b then [] else va_prices n target (add running c.volume) cs)))
          (sym e)
          (IsCut-cons target running c cs (va_prices n target (add running c.volume) cs) e
            (va_prices-IsCut target (add running c.volume) cs))
  ]

  va_prices-cons :
      (target running : Real) (c : ClusterCell Real) (cs : List (ClusterCell Real))
      → (ps : List Real) × (va_prices n target running (c ∷ cs) ≡ c.price ∷ ps)
  unfolding va_prices
  va_prices-cons target running c cs = (
    (if le n target (add running c.volume)
        then []
        else va_prices n target (add running c.volume) cs),
    refl,
  )

  -- The area of sorted cells begins with the price of the first.
  value_area-cons :
      (volume : Real) (cells : List (ClusterCell Real)) (c : ClusterCell Real)
      (cs : List (ClusterCell Real))
      → sorted_by_vol n cells ≡ c ∷ cs
      → (ps : List Real) × (value_area n volume cells ≡ c.price ∷ ps)
  unfolding value_area
  value_area-cons volume cells c cs e =
      let (ps, v) = va_prices-cons (mul volume (ratio 7 10)) (lit n 0) c cs in
      (ps, ap (va_prices n (mul volume (ratio 7 10)) (lit n 0)) e ∙ v)

  insert_some :
      (c : ClusterCell Real) (s : List (ClusterCell Real))
      → (d : ClusterCell Real) × (rest : List (ClusterCell Real)) × (insert (by_volume n) c s
          ≡ d ∷ rest)
  unfolding insert
  insert_some c [] = (c, [], refl)
  insert_some c (d ∷ s) = elim (Bool-cases (by_volume n d c)) [
    | inl e ↦ (d, insert (by_volume n) c s, rw e)
    | inr e ↦ (c, d ∷ s, rw e)
  ]

  -- The area is empty only without cells.
  value_area_cases :
      (volume : Real) (cells : List (ClusterCell Real))
      → (cells ≡ []) × (value_area n volume cells ≡ [])
        ⊎ ((p : Real) × (ps : List Real) × (value_area n volume cells ≡ p ∷ ps))
  unfolding value_area sort
  value_area_cases volume [] = inl (refl, refl)
  value_area_cases volume (c ∷ cs) =
      let (d, rest, e) = insert_some c (sort (by_volume n) cs) in
      let (ps, v) = value_area-cons volume (c ∷ cs) d rest e in inr (d.price, ps, v)

  -- It begins with the price of the first cell of the largest volume.
  value_area-first :
      (volume : Real) (cells : List (ClusterCell Real)) (m : IsFirstMax n cells)
      → (ps : List Real) × (value_area n volume cells ≡ m.cell.price ∷ ps)
  unfolding sorted_by_vol
  value_area-first volume cells m =
      let (rest, e) = sort_first_max n m.earlier m.cell m.later m.above_earlier m.not_below_later in
      value_area-cons volume cells m.cell rest (ap (sort (by_volume n)) m.split ∙ e)

module _ (n : Num) (l : Laws n) where
  open n use {Real, ratio, mul, lt}

  -- The prices of the value area are those of the largest cells, in falling order of volume, cut
  -- where their volumes first reach 70 % of the candle's volume.
  pub value_area-IsCut :
      (volume : Real) (cells : List (ClusterCell Real))
      → (sorted : List (ClusterCell Real)) × Perm sorted cells
        × IsSorted (by_volume n) sorted
        × IsCut n (mul volume (ratio 7 10)) (lit n 0) sorted (value_area n volume cells)
  unfolding value_area
  value_area-IsCut volume cells = (
    sorted_by_vol n cells,
    sort-perm (by_volume n) cells,
    sort-IsSorted (by_volume n) (λ a b h. l.lt_asym b.volume a.volume h)
        (λ a b c h k. l.le_trans c.volume b.volume a.volume k h) cells,
    va_prices-IsCut n (mul volume (ratio 7 10)) (lit n 0) (sorted_by_vol n cells),
  )

  -- The bounds hold the prices and are two of them.
  pub record Bounds (low high : Real) (prices : List Real) : Type 0 where
    pub above_low : All (λ p. Le n l low p) prices
    pub below_high : All (λ p. Le n l p high) prices
    pub low-In : In low prices
    pub high-In : In high prices

  bounds :
      (lo hi p : Real) (ps : List Real)
      → Bounds (lowest n lo (p ∷ ps)) (highest n hi (p ∷ ps)) (p ∷ ps)
  unfolding lowest highest
  bounds lo hi p ps = record {
    above_low = (min_of-le n l p ps, min_of-le-All n l p ps);
    below_high = (le-max_of n l p ps, All-le-max_of n l p ps);
    low-In = min_of-In n l p ps;
    high-In = max_of-In n l p ps;
  }

  -- The value area is empty only without cells, and the bounds are then those of the candle;
  -- otherwise `val` and `vah` are its lowest and its highest price.
  val_vah-Bounds :
      (bc : BackendCandle Real)
      → (bc.cells ≡ [])
          × ((map_stream_candle n bc).val ≡ bc.low)
          × ((map_stream_candle n bc).vah ≡ bc.high)
        ⊎ Bounds
            (map_stream_candle n bc).val
            (map_stream_candle n bc).vah
            (value_area n bc.volume bc.cells)
  unfolding map_stream_candle
  val_vah-Bounds bc = elim (value_area_cases n bc.volume bc.cells) [
    | inl (e, v) ↦ inl (e, ap (lowest n bc.low) v, ap (highest n bc.high) v)
    | inr (p, ps, v) ↦ inr (
        subst (λ w. Bounds (lowest n bc.low w) (highest n bc.high w) w) (sym v)
          (bounds bc.low bc.high p ps))
  ]

  -- A candle with a cell of positive volume has its point of control in the value area.
  pub val-le-poc_price-le-vah :
      (bc : BackendCandle Real) (c : ClusterCell Real)
      → In c bc.cells
      → lt (lit n 0) c.volume ≡ true
      → Le n l (map_stream_candle n bc).val (map_stream_candle n bc).poc_price
        × Le n l (map_stream_candle n bc).poc_price (map_stream_candle n bc).vah
  unfolding map_stream_candle lowest highest
  val-le-poc_price-le-vah bc c i pos = elim (poc_price-IsFirstMax n l bc) [
    | inl (e, none_traded) ↦
        let idle = All-In (λ c. lt (lit n 0) c.volume ≡ false) c bc.cells none_traded i in
        absurd (cc (pos, idle))
    | inr (m, e, h) ↦
        let (ps, v) = value_area-first n bc.volume bc.cells m in
        (rw (e, v) (min_of-le n l m.cell.price ps), rw (e, v) (le-max_of n l m.cell.price ps))
  ]
