-- ===== src/MarketData/Sides.antt =====
-- The rows that the order book shows, on both sides.
use test_v.Shared.{
  Bool, true, false, ◌≡◌, refl, sym, ap, ◌∙◌, inl, inr, List, [], ◌∷◌, map, take, length,
  length-take, length-map, All, In, All-weaken, arith,
}
use test_v.Shared.Sort.{sort, sort-All, sort-IsSorted}
use test_v.Shared.Unique.{
  IsStrict, In-sort, sort-IsUnique, IsStrict-of_IsSorted, take-All, take-IsStrict, In-take,
}
use test_v.Number.{Num, Laws, lit}
use test_v.MarketData.{level_below, level_above, object_keys}
use test_v.MarketData.Depth.{DepthItem, DepthData, aggregate, amount_at, side_rows, order_book}
use test_v.MarketData.Levels.{
  EqLaws, bucket_sum, amount_at-aggregate, prices, bucket_of, aggregate-IsUnique, In-aggregate,
  aggregate-All, In-object_keys, object_keys-All, object_keys-IsUnique,
}
use test_v.MarketData.Rows.{
  row_prices, IsRunning, rows_from-IsRunning, rows_from-amounts, row_prices-rows_from, IsSide,
  with_percentage-IsSide,
}

All-In-map : {A B : Type 0} (f : A → B) (xs : List A) → All (λ x. In (f x) (map f xs)) xs
All-In-map f [] = tt
All-In-map f (x ∷ xs) =
    (inl refl, All-weaken (λ y. In (f y) (map f xs)) _ (λ y i. inr i) xs (All-In-map f xs))

module _ (n : Num) where
  open n use {Real, add, lt}

  module _ (q : EqLaws n) (bucket : Real → Real) (before : Real → Real → Bool)
      (asym : (a b : Real) → before a b ≡ true → before b a ≡ false)
      (trans : (a b c : Real) → before b a ≡ false → before c b ≡ false → before c a ≡ false)
      (total : (a b : Real) → before a b ≡ false → before b a ≡ false → a ≡ b) where
    -- The levels in the order of the side, and the first 250.
    ranked : List (DepthItem Real) → List Real
    ranked items = sort before (object_keys n (prices n q (aggregate n bucket items [])))

    row_prices-side_rows :
        (items : List (DepthItem Real))
        → row_prices n (side_rows n bucket before items) ≡ take 250 (ranked items)
    unfolding side_rows ranked
    row_prices-side_rows items =
        row_prices-rows_from n (aggregate n bucket items []) (lit n 0) (take 250 (ranked items))

    ranked-IsStrict : (items : List (DepthItem Real)) → IsStrict before (ranked items)
    unfolding ranked
    ranked-IsStrict items =
        let ks = prices n q (aggregate n bucket items []) in
        IsStrict-of_IsSorted before total _ (sort-IsSorted before asym trans (object_keys n ks)) (
          sort-IsUnique before _
            (object_keys-IsUnique n q ks (aggregate-IsUnique n q bucket items [] tt)))

    In-ranked :
        (items : List (DepthItem Real))
        → All (λ i. In (bucket_of n q bucket i) (ranked items)) items
    unfolding ranked
    In-ranked items =
        All-weaken _ (λ i. In (bucket_of n q bucket i) (ranked items))
          (λ i j. In-sort before _ _ (In-object_keys n q _ _ j)) items
          (In-aggregate n q bucket items [])

    ranked-All :
        (P : Real → Type 0) (items : List (DepthItem Real))
        → All (λ i. P (bucket_of n q bucket i)) items
        → All P (ranked items)
    unfolding ranked
    ranked-All P items h =
        sort-All before P _ (object_keys-All n q P _ (aggregate-All n q bucket P items [] h tt))

    length-side_rows :
        (items : List (DepthItem Real))
        → length (side_rows n bucket before items) ≡ length (take 250 (ranked items))
    length-side_rows items =
        sym (length-map (side_rows n bucket before items) (λ r. r.price))
        ∙ ap length (row_prices-side_rows items)

    side_rows-amounts :
        (items : List (DepthItem Real))
        → All
            (λ r. r.amount ≡ bucket_sum n q bucket r.price items (lit n 0))
            (side_rows n bucket before items)
    unfolding side_rows amount_at sort ranked
    side_rows-amounts items =
        All-weaken (λ r. r.amount ≡ amount_at n r.price (aggregate n bucket items [])) _
          (λ r e. e ∙ amount_at-aggregate n q bucket r.price items []) _
          (rows_from-amounts n (aggregate n bucket items []) (lit n 0) (take 250 (ranked items)))

    side_rows-IsRunning :
        (items : List (DepthItem Real)) → IsRunning n (lit n 0) (side_rows n bucket before items)
    unfolding side_rows
    side_rows-IsRunning items = rows_from-IsRunning n (aggregate n bucket items []) (lit n 0) _

    side_rows-IsSide :
        (items : List (DepthItem Real))
        → IsSide n q bucket before items (side_rows n bucket before items)
    side_rows-IsSide items =
        let e = row_prices-side_rows items in
        record {
          few = omega (arith, length-side_rows items, length-take 250 (ranked items));
          ordered = rw e (take-IsStrict before 250 (ranked items) (ranked-IsStrict items));
          levels = rw e (
              take-All before _ 250 (ranked items) (
                ranked-All (λ p. In p (map (bucket_of n q bucket) items)) items
                  (All-In-map (bucket_of n q bucket) items)));
          amounts = side_rows-amounts items;
          running = side_rows-IsRunning items;
          complete =
              rw (e, length-side_rows items)
                (All-weaken _ _
                  (λ i j.
                    In-take before 250 (bucket_of n q bucket i) (ranked items)
                      (ranked-IsStrict items) j)
                  items (In-ranked items));
        }

  -- From the entries of the exchange, whatever they are: the bids fall and the asks rise in price,
  -- no two rows of a side are of the same level, at most 250 are shown, and a level that is not
  -- shown is worse than all 250 that are; each row is the level of an entry, its amount is what the
  -- entries of its level add up to in their order, and its total is the one before plus its amount.
  pub order_book-IsSide :
      (l : Laws n) (q : EqLaws n) (price_step : Real) (d : DepthData Real)
      → IsSide n q
          (λ p. level_below n price_step p)
          (λ a b. lt b a)
          d.bids
          (order_book n price_step d).0
        × IsSide n q
            (λ p. level_above n price_step p)
            (λ a b. lt a b)
            d.asks
            (order_book n price_step d).1
  unfolding order_book
  order_book-IsSide l q price_step d = (
    with_percentage-IsSide n q _ _ d.bids _ _ (
        side_rows-IsSide q (λ p. level_below n price_step p) (λ a b. lt b a)
          (λ a b h. l.lt_asym b a h) (λ a b c h k. l.le_trans c b a k h)
          (λ a b h k. q.lt_total a b k h) d.bids),
    with_percentage-IsSide n q _ _ d.asks _ _ (
        side_rows-IsSide q (λ p. level_above n price_step p) (λ a b. lt a b)
          (λ a b h. l.lt_asym a b h) (λ a b c h k. l.le_trans a b c h k)
          (λ a b h k. q.lt_total a b h k) d.asks),
  )
