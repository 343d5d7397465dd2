-- ===== src/MarketData/Rows.antt =====
-- The rows of one side of the order book, and what their percentages leave as it is.
use test_v.Shared.{
  ◌≤◌, Bool, true, ◌≡◌, refl, ap, ◌⊎◌, List, [], ◌∷◌, map, length, length-map, All, In,
}
use test_v.Shared.Unique.{IsStrict}
use test_v.Number.{Num, lit}
use test_v.MarketData.Depth.{OrderBookRow, DepthItem, amount_at, rows_from, with_percentage}
use test_v.MarketData.Levels.{EqLaws, bucket_sum, bucket_of}

module _ (n : Num) where
  open n use {Real, add, lt}

  abbrev pub row_prices : List (OrderBookRow Real) → List Real
  row_prices rows = map (λ r. r.price) rows

  -- Each total is the one before plus the amount.
  unfoldable pub IsRunning : Real → List (OrderBookRow Real) → Type 0
  IsRunning total [] = Unit
  IsRunning total (r ∷ rs) = (r.total ≡ add total r.amount) × IsRunning r.total rs

  pub rows_from-IsRunning :
      (m : List (Real × Real)) (total : Real) (ps : List Real)
      → IsRunning total (rows_from n m total ps)
  unfolding rows_from IsRunning
  rows_from-IsRunning m total [] = tt
  rows_from-IsRunning m total (p ∷ ps) =
      (refl, rows_from-IsRunning m (add total (amount_at n p m)) ps)

  pub rows_from-amounts :
      (m : List (Real × Real)) (total : Real) (ps : List Real)
      → All (λ r. r.amount ≡ amount_at n r.price m) (rows_from n m total ps)
  unfolding rows_from
  rows_from-amounts m total [] = tt
  rows_from-amounts m total (p ∷ ps) = (refl, rows_from-amounts m (add total (amount_at n p m)) ps)

  pub row_prices-rows_from :
      (m : List (Real × Real)) (total : Real) (ps : List Real)
      → row_prices (rows_from n m total ps) ≡ ps
  unfolding rows_from
  row_prices-rows_from m total [] = refl
  row_prices-rows_from m total (p ∷ ps) =
      ap (◌∷◌ p) (row_prices-rows_from m (add total (amount_at n p m)) ps)

  -- One side: `before` is its order of prices, `bucket` rounds a price to its level.
  pub record IsSide (q : EqLaws n) (bucket : Real → Real) (before : Real → Real → Bool)
      (items : List (DepthItem Real)) (rows : List (OrderBookRow Real)) : Type 0 where
    -- at most 250 rows, the best one first, each of another level
    pub few : length rows ≤ 250
    pub ordered : IsStrict before (row_prices rows)
    -- each row is the level of an entry and adds up what the entries of its level offer
    pub levels : All (λ p. In p (map (bucket_of n q bucket) items)) (row_prices rows)
    pub amounts : All (λ r. r.amount ≡ bucket_sum n q bucket r.price items (lit n 0)) rows
    pub running : IsRunning (lit n 0) rows
    -- a level that is not shown is worse than 250 that are
    pub complete :
        All
          (λ i.
            In (bucket_of n q bucket i) (row_prices rows)
            ⊎ ((length rows ≡ 250)
                × All (λ p. before p (bucket_of n q bucket i) ≡ true) (row_prices rows)))
          items

  -- The percentage does not touch what a side is.
  row_prices-with_percentage :
      (m : Real) (rows : List (OrderBookRow Real))
      → row_prices (with_percentage n m rows) ≡ row_prices rows
  unfolding with_percentage
  row_prices-with_percentage m [] = refl
  row_prices-with_percentage m (r ∷ rs) = ap (◌∷◌ r.price) (row_prices-with_percentage m rs)

  with_percentage-IsRunning :
      (m total : Real) (rows : List (OrderBookRow Real))
      → IsRunning total rows
      → IsRunning total (with_percentage n m rows)
  unfolding with_percentage IsRunning
  with_percentage-IsRunning m total [] h = tt
  with_percentage-IsRunning m total (r ∷ rs) h = (h.0, with_percentage-IsRunning m r.total rs h.1)

  with_percentage-amounts :
      (f : Real → Real) (m : Real) (rows : List (OrderBookRow Real))
      → All (λ r. r.amount ≡ f r.price) rows
      → All (λ r. r.amount ≡ f r.price) (with_percentage n m rows)
  unfolding with_percentage
  with_percentage-amounts f m [] h = tt
  with_percentage-amounts f m (r ∷ rs) h = (h.0, with_percentage-amounts f m rs h.1)

  length-with_percentage :
      (m : Real) (rows : List (OrderBookRow Real)) → length (with_percentage n m rows) ≡ length rows
  unfolding with_percentage
  length-with_percentage m rows = length-map rows _

  pub with_percentage-IsSide :
      (q : EqLaws n) (bucket : Real → Real) (before : Real → Real → Bool)
      (items : List (DepthItem Real)) (m : Real) (rows : List (OrderBookRow Real))
      → IsSide q bucket before items rows
      → IsSide q bucket before items (with_percentage n m rows)
  with_percentage-IsSide q bucket before items m rows h =
      let e = row_prices-with_percentage m rows in
      let k = length-with_percentage m rows in
      record {
        few = rw k h.few;
        ordered = rw e h.ordered;
        levels = rw e h.levels;
        amounts =
            with_percentage-amounts (λ p. bucket_sum n q bucket p items (lit n 0)) m rows h.amounts;
        running = with_percentage-IsRunning m (lit n 0) rows h.running;
        complete = rw (e, k) h.complete;
      }
