-- ===== src/MarketData/Tiled.antt =====
-- How the trades of the exchange are cut into candles.
use test_v.Shared.{
  ℕ, zero, suc, ◌≤◌, ◌<◌, min, true, false, ◌≡◌, refl, sym, ap, subst, ◌∙◌, ◌⊎◌, inl, inr, none,
  some, List, [], ◌∷◌, ◌++◌, map, length, length-take, length-drop, take, drop, take-all, drop-all,
  take-drop, Bool-cases, arith, ltb,
}
use mathlib.Core.Option
use mathlib.Core.List.{Perm, append-nil, append_assoc}
use test_v.Shared.Sort.{sort, sort-perm, sort-IsSorted, IsSorted}
use test_v.Storage.{returned}
use test_v.Number.{Num}
use test_v.Candle.{ClusterCandle}
use test_v.MarketData.Klines.{ProxyReply, from_proxy}
use test_v.MarketData.Ticks.{
  Trade, TradesReply, trades, page_trades, target_from_id, all_trades, chunks, tick_candle,
  tick_candles, from_exchange, fetch_ticks,
}

chunks_nil : {A : Type 0} (rounds c : ℕ) → chunks {A = A} rounds c [] ≡ some []
unfolding chunks
chunks_nil zero c = refl
chunks_nil (suc rounds) c = refl

-- A chunk that is not empty is a trade and those after it.
abbrev pub chunk_of : {R : Type 0} → Trade R × List (Trade R) → List (Trade R)
chunk_of e = e.0 ∷ e.1

abbrev pub joined : {R : Type 0} → List (Trade R × List (Trade R)) → List (Trade R)
joined [] = []
joined (e ∷ es) = chunk_of e ++ joined es

-- Chunks of `c` trades; after the last of them come fewer than five that are left over, or a last
-- chunk of at least five.
abbrev pub IsFull : {R : Type 0} → ℕ → List (Trade R × List (Trade R)) → List (Trade R) → Type 0
IsFull c [] left = length left < 5
IsFull c (e ∷ es) left =
    (length (chunk_of e) ≡ c) × IsFull c es left
    ⊎ ((5 ≤ length (chunk_of e)) × (length (chunk_of e) < c) × (es ≡ []) × (left ≡ []))

module _ (n : Num) (price_step : n.Real) (c : ℕ) where
  -- Candles of consecutive chunks.
  pub record IsTiling (all : List (Trade n.Real)) (candles : List (ClusterCandle n.Real))
      : Type 0 where
    pub kept : List (Trade n.Real × List (Trade n.Real))
    pub left : List (Trade n.Real)
    pub split : all ≡ joined kept ++ left
    pub full : IsFull c kept left
    pub made : candles ≡ map (λ e. tick_candle n price_step e.0 e.1) kept

  -- A chunk that is full, or that is the last one.
  IsTiling-cons :
      (x : Trade n.Real) (xs ys : List (Trade n.Real)) (candles : List (ClusterCandle n.Real))
      → length (x ∷ xs) ≡ c
      → IsTiling ys candles
      → IsTiling (x ∷ xs ++ ys) (tick_candle n price_step x xs ∷ candles)
  IsTiling-cons x xs ys candles h t = record {
    kept = (x, xs) ∷ t.kept;
    left = t.left;
    split =
        ap (λ zs. x ∷ xs ++ zs) t.split ∙ ap (◌∷◌ x) (sym (append_assoc xs (joined t.kept) t.left));
    full = inl (h, t.full);
    made = ap (◌∷◌ (tick_candle n price_step x xs)) t.made;
  }

  IsTiling-last :
      (x : Trade n.Real) (xs : List (Trade n.Real))
      → 5 ≤ length (x ∷ xs)
      → length (x ∷ xs) < c
      → IsTiling (x ∷ xs) (tick_candle n price_step x xs ∷ [])
  IsTiling-last x xs h k = record {
    kept = (x, xs) ∷ [];
    left = [];
    split = ap (◌∷◌ x) (sym (append-nil (xs ++ []) ∙ append-nil xs));
    full = inr (h, k, refl, refl);
    made = refl;
  }

  IsTiling-left : (xs : List (Trade n.Real)) → length xs < 5 → IsTiling xs []
  IsTiling-left xs h = record { kept = []; left = xs; split = refl; full = h; made = refl }

module _ (n : Num) (price_step : n.Real) (m : ℕ) where
  tick_candles_small :
      (x : Trade n.Real) (xs : List (Trade n.Real)) (css : List (List (Trade n.Real)))
      → length (x ∷ xs) < 5
      → tick_candles n price_step ((x ∷ xs) ∷ css) ≡ tick_candles n price_step css
  unfolding tick_candles
  tick_candles_small x xs css h = let e : ltb (length (x ∷ xs)) 5 ≡ true = ground arith in rw e refl

  tick_candles_large :
      (x : Trade n.Real) (xs : List (Trade n.Real)) (css : List (List (Trade n.Real)))
      → 5 ≤ length (x ∷ xs)
      → tick_candles n price_step ((x ∷ xs) ∷ css)
        ≡ tick_candle n price_step x xs ∷ tick_candles n price_step css
  unfolding tick_candles
  tick_candles_large x xs css h =
      let e : ltb (length (x ∷ xs)) 5 ≡ false = ground arith in rw e refl

  -- The slice that holds all that is left.
  chunks_last :
      (rounds : ℕ) (x : Trade n.Real) (xs : List (Trade n.Real))
      → length xs ≤ m
      → chunks (suc rounds) (suc m) (x ∷ xs) ≡ some ((x ∷ xs) ∷ [])
  unfolding chunks
  chunks_last rounds x xs h = rw (take-all m xs h, drop-all m xs h) refl

  chunks-IsTiling :
      (rounds : ℕ) (xs : List (Trade n.Real))
      → 4 ≤ m
      → length xs ≤ rounds
      → (css : List (List (Trade n.Real))) × (chunks rounds (suc m) xs ≡ some css)
        × IsTiling n price_step (suc m) xs (tick_candles n price_step css)
  unfolding chunks tick_candles
  chunks-IsTiling rounds [] h k =
      ([], chunks_nil rounds (suc m), IsTiling-left n price_step (suc m) [] (omega arith))
  chunks-IsTiling zero (x ∷ xs) h k = absurd (omega arith)
  chunks-IsTiling (suc rounds) (x ∷ xs) h k = elim (Bool-cases (ltb (length xs) m)) [
    | inl e ↦ elim (Bool-cases (ltb (length xs) 4)) [
      | inl g ↦ (
        (x ∷ xs) ∷ [],
        chunks_last rounds x xs (ground arith),
        rw (tick_candles_small x xs [] (ground arith))
            (IsTiling-left n price_step (suc m) (x ∷ xs) (ground arith)),
      )
      | inr g ↦ (
        (x ∷ xs) ∷ [],
        chunks_last rounds x xs (ground arith),
        rw (tick_candles_large x xs [] (ground arith))
            (IsTiling-last n price_step (suc m) x xs (ground arith) (ground arith)),
      )
    ]
    | inr e ↦
        let (css, r, t) = chunks-IsTiling rounds (drop m xs) h (omega (arith, length-drop m xs)) in
        let min_eq : min m (length xs) ≡ m = ground arith in
        let full : length (x ∷ take m xs) ≡ suc m = ap suc (length-take m xs ∙ min_eq) in
        (
          (x ∷ take m xs) ∷ css,
          rw r refl,
          rw (tick_candles_large x (take m xs) css (omega (arith, full))) (
              subst
                (λ zs.
                  IsTiling n price_step (suc m) (x ∷ zs)
                    (tick_candle n price_step x (take m xs) ∷ tick_candles n price_step css))
                (sym (take-drop m xs))
                (IsTiling-cons n price_step (suc m) x (take m xs) (drop m xs) _ full t)),
        )
  ]

-- The candles that come from trades of the exchange: the trades in rising order of their ids are
-- the chunks of the candles, one after the other, and those that are left.
pub record IsTiled (n : Num) (price_step : n.Real) (c : ℕ) (source : List (Trade n.Real))
    (candles : List (ClusterCandle n.Real)) : Type 0 where
  pub all : List (Trade n.Real)
  pub reordered : Perm all source
  pub ordered : IsSorted (λ a b. ltb a.id b.id) all
  pub tiling : IsTiling n price_step c all candles

-- The trades of the four answers, as they come.
abbrev pub pages_of : {R : Type 0} → (ℕ → TradesReply R) → Trade R → List (Trade R) → List (Trade R)
pages_of page t ts =
    (t ∷ ts)
    ++ page_trades (page (target_from_id t.id 1))
    ++ page_trades (page (target_from_id t.id 2))
    ++ page_trades (page (target_from_id t.id 3))

from_exchange-IsTiled :
    (n : Num) (price_step : n.Real) (m : ℕ) (page : ℕ → TradesReply n.Real) (t : Trade n.Real)
    (ts : List (Trade n.Real))
    → 4 ≤ m
    → (candles : List (ClusterCandle n.Real)) × (from_exchange n price_step
          (suc m)
          (trades (t ∷ ts))
          page
        ≡ some (returned candles))
      × IsTiled n price_step (suc m) (pages_of page t ts) candles
unfolding from_exchange all_trades sort
from_exchange-IsTiled n price_step m page t ts h =
    let all = all_trades page t ts in
    let (css, r, tiling) = chunks-IsTiling n price_step m (length all) all h (omega arith) in
    (
      tick_candles n price_step css,
      ap (Option.map (λ cs. returned (tick_candles n price_step cs))) r,
      record {
        all = all;
        reordered = sort-perm (λ a b. ltb a.id b.id) (pages_of page t ts);
        ordered =
            sort-IsSorted (λ a b. ltb a.id b.id) (λ a b p. ground arith) (λ a b d p q. ground arith)
              (pages_of page t ts);
        tiling = tiling;
      },
    )

-- With a compression of at least five and no candles of the server, the loop over the trades ends,
-- whatever the older pages answer, and every trade but at most four is in the candles: in the order
-- of their ids, each candle has `c` consecutive trades, or it is the last and has at least five.
pub fetch_ticks-IsTiled :
    (n : Num) (price_step : n.Real) (c : ℕ) (proxy : ProxyReply n.Real)
    (page : ℕ → TradesReply n.Real) (t : Trade n.Real) (ts : List (Trade n.Real))
    → 5 ≤ c
    → from_proxy proxy ≡ none
    → (candles : List (ClusterCandle n.Real)) × (fetch_ticks n price_step c proxy
          (trades (t ∷ ts))
          page
        ≡ some (returned candles))
      × IsTiled n price_step c (pages_of page t ts) candles
unfolding fetch_ticks
fetch_ticks-IsTiled n price_step zero proxy page t ts h e = absurd (omega arith)
fetch_ticks-IsTiled n price_step (suc m) proxy page t ts h e =
    rw (e, fetch_ticks) (from_exchange-IsTiled n price_step m page t ts (omega arith))
