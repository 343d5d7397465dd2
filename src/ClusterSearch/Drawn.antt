-- ===== src/ClusterSearch/Drawn.antt =====
-- What is drawn and what is found.
use test_v.Shared.{
  ℕ, ◌-◌, Bool, true, false, not, ◌&&◌, ◌||◌, ◌≡◌, refl, sym, ap, ◌∙◌, inl, inr, Option, none, some,
  List, [], ◌∷◌, ◌++◌, map, if◌then◌else◌, leb, length, take, Bool-cases,
}
use test_v.Number.{Num, lit, le, abs}
use test_v.Candle.{ClusterCell, ClusterCandle}
use test_v.ClusterSearch.{Filter, FilterType, medium, large, SearchSettings, Match, filter_of}
use test_v.ClusterSearch.Search.{
  sum_volume, sum_bid, sum_ask, percent_of, ask_percent_of, mid_price, over_max, in_location,
  match_of, push, pushed, scan, sorted_cells, window_size, filter_matches, is_enabled,
  cluster_matches,
}
use test_v.ClusterSearch.Hits.{guarded}
use test_v.ClusterSearch.Drawing.{
  DrawStyle, item_of, drawn, push_item, draw_scan, draw_filter, items_to_draw,
}

-- Where a number times 105 is 0, that number times 100 is 0.
abbrev pub HasZeroProducts : Num → Type 0
HasZeroProducts n =
    (x : n.Real) → n.eq (n.mul x (lit n 105)) (lit n 0) ≡ true → n.mul x (lit n 100) ≡ lit n 0

abbrev map_option : {A B : Type 0} → (A → B) → Option A → Option B
map_option g none = none
map_option g (some x) = some (g x)

guarded_map :
    {A B : Type 0} (g : A → B) (a b c d e : Bool) (x : A)
    → guarded a b c d e (g x) ≡ map_option g (guarded a b c d e x)
guarded_map g true b c d e x = refl
guarded_map g false true c d e x = refl
guarded_map g false false true d e x = refl
guarded_map g false false false true e x = refl
guarded_map g false false false false true x = refl
guarded_map g false false false false false x = refl

map_append : {A B : Type 0} (g : A → B) (xs ys : List A) → map g (xs ++ ys) ≡ map g xs ++ map g ys
map_append g [] ys = refl
map_append g (x ∷ xs) ys = ap (◌∷◌ (g x)) (map_append g xs ys)

append_maps :
    {A B : Type 0} (g : A → B) (xs ys : List A) (us vs : List B)
    → us ≡ map g xs
    → vs ≡ map g ys
    → us ++ vs ≡ map g (xs ++ ys)
append_maps g xs ys us vs p q = rw (p, q) (sym (map_append g xs ys))

module _ (n : Num) (zero_products : HasZeroProducts n) (style : DrawStyle n.Real) where
  open n use {Real, sub, lt}

  ask_same :
      (kind : FilterType) (part total : Real)
      → ask_percent_of n kind part total ≡ percent_of n part total
  unfolding ask_percent_of
  ask_same medium part total =
      elim (Bool-cases (n.eq (n.mul (n.div part total) (lit n 105)) (lit n 0))) [
        | inl e ↦ rw e (sym (zero_products (n.div part total) e))
        | inr e ↦ rw e refl
      ]
  ask_same large part total = refl

  drawn_lem :
      (f : Filter Real) (lo hi : Real) (first : ClusterCell Real) (rest : List (ClusterCell Real))
      → drawn n style f lo hi first rest
        ≡ map_option (item_of n style) (pushed n f lo hi first rest)
  unfolding drawn pushed match_of item_of
  drawn_lem f lo hi first rest =
      rw (ask_same f.kind (sum_ask n (first ∷ rest)) (sum_volume n (first ∷ rest))) (
        guarded_map (item_of n style) (le n (sum_volume n (first ∷ rest)) (lit n 0))
          (lt (sum_volume n (first ∷ rest)) f.min_volume
            || over_max n f.max_volume (sum_volume n (first ∷ rest)))
          (not (
              le n f.imbalance_percent
                (percent_of n (sum_bid n (first ∷ rest)) (sum_volume n (first ∷ rest))))
            && not (
                le n f.imbalance_percent
                  (percent_of n (sum_ask n (first ∷ rest)) (sum_volume n (first ∷ rest)))))
          (lt (abs n (sub (sum_ask n (first ∷ rest)) (sum_bid n (first ∷ rest)))) f.min_delta)
          (not (in_location n f.location lo hi (mid_price n first rest)))
          (record (match_of n f first rest) {
            ask_percent = percent_of n (sum_ask n (first ∷ rest)) (sum_volume n (first ∷ rest));
            is_ask_dominant =
                le n f.imbalance_percent
                  (percent_of n (sum_ask n (first ∷ rest)) (sum_volume n (first ∷ rest)));
          }))

  map-push :
      (o : Option (Match Real)) (ms : List (Match Real))
      → map (item_of n style) (push n o ms)
        ≡ push_item n style (map_option (item_of n style) o) (map (item_of n style) ms)
  map-push none ms = refl
  map-push (some m) ms = refl

  draw_scan-scan :
      (f : Filter Real) (lo hi : Real) (k : ℕ) (cells : List (ClusterCell Real))
      → draw_scan n style f lo hi k cells ≡ map (item_of n style) (scan n f lo hi k cells)
  unfolding draw_scan scan
  draw_scan-scan f lo hi k [] = refl
  draw_scan-scan f lo hi k (c ∷ cs) = elim (Bool-cases (leb k (length (c ∷ cs)))) [
    | inr e ↦ rw e refl
    | inl e ↦ rw e (
        ap (push_item n style (drawn n style f lo hi c (take (k - 1) cs)))
          (draw_scan-scan f lo hi k cs)
        ∙ (ap (λ o. push_item n style o (map (item_of n style) (scan n f lo hi k cs)))
              (drawn_lem f lo hi c (take (k - 1) cs))
            ∙ sym (map-push (pushed n f lo hi c (take (k - 1) cs)) (scan n f lo hi k cs))))
  ]

  draw_filter-filter_matches :
      (f : Filter Real) (candle : ClusterCandle Real)
      → draw_filter n style f candle ≡ map (item_of n style) (filter_matches n f candle)
  unfolding draw_filter filter_matches
  draw_filter-filter_matches f candle =
      draw_scan-scan f _ _ (window_size n f (sorted_cells n candle.cells))
        (sorted_cells n candle.cells)

  enabled_part :
      (b : Bool) (f : Filter Real) (candle : ClusterCandle Real)
      → (if b then draw_filter n style f candle else [])
        ≡ map (item_of n style) (if b then filter_matches n f candle else [])
  enabled_part true f candle = draw_filter-filter_matches f candle
  enabled_part false f candle = refl

  -- If a number is zero times 100 whenever it is zero times 105: what is drawn for a candle is what
  -- the mouse finds in it, in the same order, each match with its price, color and size.
  items_to_draw-cluster_matches :
      (s : SearchSettings Real) (candle : ClusterCandle Real)
      → items_to_draw n style s candle ≡ map (item_of n style) (cluster_matches n s candle)
  unfolding items_to_draw cluster_matches
  items_to_draw-cluster_matches s candle =
      append_maps (item_of n style)
        (if is_enabled n (s.enabled medium)
          then filter_matches n (filter_of n medium s) candle
          else [])
        (if is_enabled n (s.enabled large)
          then filter_matches n (filter_of n large s) candle
          else [])
        (if is_enabled n (s.enabled medium)
          then draw_filter n style (filter_of n medium s) candle
          else [])
        (if is_enabled n (s.enabled large)
          then draw_filter n style (filter_of n large s) candle
          else [])
        (enabled_part (is_enabled n (s.enabled medium)) (filter_of n medium s) candle)
        (enabled_part (is_enabled n (s.enabled large)) (filter_of n large s) candle)
