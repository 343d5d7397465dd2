-- ===== src/History/Window.antt =====
-- The pure updates of the list of candles (frontend-chart/src/App.tsx).
use test_v.Shared.{
  ℕ, zero, suc, ◌-◌, none, some, List, [], ◌∷◌, ◌++◌, if◌then◌else◌, ltb, ◌==◌, length, drop,
  get_last?,
}
use test_v.Candle.{ClusterCandle}

-- `xs.slice(-k)`; `slice(-0)` is `slice(0)`, the whole list.
unfoldable pub slice_last {ℓ} : {A : Type ℓ} → ℕ → List A → List A
slice_last zero xs = xs
slice_last (suc k) xs = drop (length xs - suc k) xs

-- `next = prev.slice(); next[next.length - 1] = c`
unfoldable pub replace_last {ℓ} : {A : Type ℓ} → A → List A → List A
replace_last c [] = []
replace_last c (x ∷ []) = c ∷ []
replace_last c (x ∷ y ∷ xs) = x ∷ replace_last c (y ∷ xs)

module _ {R : Type 0} where
  -- The update of the flusher: a newer candle is added, one of the same time replaces the last, and
  -- an older one is dropped.
  unfoldable pub flushed : ℕ → ClusterCandle R → List (ClusterCandle R) → List (ClusterCandle R)
  unfolding slice_last replace_last
  flushed max_candles candle prev = elim (get_last? prev) [
    | none ↦ candle ∷ []
    | some last ↦
        if ltb last.timestamp candle.timestamp
        then slice_last max_candles (prev ++ candle ∷ [])
        else if candle.timestamp == last.timestamp
        then replace_last candle prev
        else prev
  ]

  -- The update of `handleLoadMore`.
  unfoldable pub prepended :
      ℕ → List (ClusterCandle R) → List (ClusterCandle R) → List (ClusterCandle R)
  unfolding slice_last
  prepended max_candles older prev = slice_last max_candles (older ++ prev)
