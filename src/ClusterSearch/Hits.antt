-- ===== src/ClusterSearch/Hits.antt =====
-- The windows that a filter finds.
use test_v.Shared.{
  Bool, true, false, not, ◌&&◌, ◌||◌, ◌≡◌, refl, ap, ◌⊎◌, inl, inr, Option, none, some, List, ◌∷◌,
  if◌then◌else◌, In, arith, Bool-cases,
}
use test_v.Number.{Num, lit, le, abs, num_min, num_max}
use test_v.Candle.{ClusterCell, ClusterCandle}
use test_v.ClusterSearch.{Filter, Match}
use test_v.ClusterSearch.Search.{
  sum_volume, sum_bid, sum_ask, percent_of, ask_percent_of, mid_price, over_max, in_location,
  match_of, pushed, sorted_cells, window_size, filter_matches,
}
use test_v.ClusterSearch.Windows.{IsWindow, scan-IsWindow, In-scan}

module _ {A : Type 0} where
  -- Five guards that skip, and a value.
  abbrev pub guarded : Bool → Bool → Bool → Bool → Bool → A → Option A
  guarded a b c d e x =
      if a
      then none
      else if b
      then none
      else if c
      then none
      else if d
      then none
      else if e
      then none
      else some x

  guarded_open :
      (a b c d e : Bool) (x y : A)
      → guarded a b c d e x ≡ some y
      → (a ≡ false) × (b ≡ false) × (c ≡ false) × (d ≡ false) × (e ≡ false) × (y ≡ x)
  guarded_open true b c d e x y h = absurd (cc)
  guarded_open false true c d e x y h = absurd (cc)
  guarded_open false false true d e x y h = absurd (cc)
  guarded_open false false false true e x y h = absurd (cc)
  guarded_open false false false false true x y h = absurd (cc)
  guarded_open false false false false false x y h = (refl, refl, refl, refl, refl, cc)

or_false : (a b : Bool) → (a || b) ≡ false → (a ≡ false) × (b ≡ false)
or_false a b h = ground (arith, h)

not_both : (a b : Bool) → (not a && not b) ≡ false → (a ≡ true) ⊎ (b ≡ true)
not_both true b h = inl refl
not_both false true h = inr refl
not_both false false h = absurd (cc)

holds_by : (a : Bool) → not a ≡ false → a ≡ true
holds_by true h = refl
holds_by false h = absurd (cc)

module _ (n : Num) (f : Filter n.Real) (lo hi : n.Real) where
  open n use {Real, sub, lt}

  -- The window `first ∷ rest` passes the tests of the code: a positive volume that is neither below
  -- the minimum nor above the maximum, a share of the bid or of the ask that is at least the
  -- percentage of the settings, a delta that is not below the minimum, and the place in the candle.
  pub record IsHit (first : ClusterCell Real) (rest : List (ClusterCell Real)) : Type 0 where
    pub positive : lt (lit n 0) (sum_volume n (first ∷ rest)) ≡ true
    pub at_least : lt (sum_volume n (first ∷ rest)) f.min_volume ≡ false
    pub at_most : over_max n f.max_volume (sum_volume n (first ∷ rest)) ≡ false
    pub dominant :
        (le n f.imbalance_percent
            (percent_of n (sum_bid n (first ∷ rest)) (sum_volume n (first ∷ rest)))
          ≡ true)
        ⊎ (le n f.imbalance_percent
              (ask_percent_of n f.kind (sum_ask n (first ∷ rest)) (sum_volume n (first ∷ rest)))
            ≡ true)
    pub delta :
        lt (abs n (sub (sum_ask n (first ∷ rest)) (sum_bid n (first ∷ rest)))) f.min_delta ≡ false
    pub located : in_location n f.location lo hi (mid_price n first rest) ≡ true

  pushed-IsHit :
      (first : ClusterCell Real) (rest : List (ClusterCell Real)) (m : Match Real)
      → pushed n f lo hi first rest ≡ some m
      → IsHit first rest × (m ≡ match_of n f first rest)
  unfolding pushed match_of
  pushed-IsHit first rest m h =
      let (a, b, c, d, e, same) = guarded_open _ _ _ _ _ (match_of n f first rest) m h in
      let (low, high) = or_false _ _ b in
      (
        record {
          positive = holds_by _ a;
          at_least = low;
          at_most = high;
          dominant = not_both _ _ c;
          delta = d;
          located = holds_by _ e;
        },
        same,
      )

  hit_pushed :
      (first : ClusterCell Real) (rest : List (ClusterCell Real))
      → IsHit first rest
      → pushed n f lo hi first rest ≡ some (match_of n f first rest)
  unfolding pushed match_of
  hit_pushed first rest h = elim h.dominant [
    | inl e ↦ rw (h.positive, h.at_least, h.at_most, e, h.delta, h.located) refl
    | inr e ↦
        elim (Bool-cases (
          le n f.imbalance_percent
            (percent_of n (sum_bid n (first ∷ rest)) (sum_volume n (first ∷ rest))))) [
              | inl d ↦ rw (h.positive, h.at_least, h.at_most, d, h.delta, h.located) refl
              | inr d ↦ rw (h.positive, h.at_least, h.at_most, d, e, h.delta, h.located) refl
            ]
  ]

module _ (n : Num) (f : Filter n.Real) (candle : ClusterCandle n.Real) where
  open n use {Real}

  abbrev pub min_body : Real
  min_body = num_min n candle.open_price candle.close

  abbrev pub max_body : Real
  max_body = num_max n candle.open_price candle.close

  abbrev pub sorted : List (ClusterCell Real)
  sorted = sorted_cells n candle.cells

  -- Whatever a filter finds in a candle describes a window of neighbouring cells, as many as the
  -- settings merge, that passes the tests of the code: the share of the bid or of the ask is at least
  -- the percentage of the settings. It has the window's volume, shares, price and size, and the color
  -- of the bid where the bid's share reaches the percentage, and of the ask otherwise, whichever side is
  -- larger.
  pub filter_matches-IsHit :
      (m : Match Real)
      → In m (filter_matches n f candle)
      → (first : ClusterCell Real) × (rest : List (ClusterCell Real)) × IsWindow
          (window_size n f sorted)
          sorted
          first
          rest
        × IsHit n f min_body max_body first rest
        × (m ≡ match_of n f first rest)
        × (m.color ≡ (
            if le n f.imbalance_percent
              (percent_of n (sum_bid n (first ∷ rest)) (sum_volume n (first ∷ rest)))
            then f.color_bid
            else f.color_ask))
  unfolding filter_matches match_of
  filter_matches-IsHit m i =
      let (first, rest, w, q) =
        scan-IsWindow n f min_body max_body m (window_size n f sorted) sorted (omega arith) i in
      let (hit, same) = pushed-IsHit n f min_body max_body first rest m q in
      (first, rest, w, hit, same, ap (λ (x : Match Real). x.color) same)

  -- Every window of that many neighbouring cells that passes the tests of the code is found, also one
  -- whose share is exactly the percentage of the settings, and also where the candle has others.
  pub In-filter_matches :
      (first : ClusterCell Real) (rest : List (ClusterCell Real))
      → IsWindow (window_size n f sorted) sorted first rest
      → IsHit n f min_body max_body first rest
      → In (match_of n f first rest) (filter_matches n f candle)
  unfolding filter_matches
  In-filter_matches first rest w h =
      In-scan n f min_body max_body (match_of n f first rest) (window_size n f sorted) sorted first
        rest w (hit_pushed n f min_body max_body first rest h)
