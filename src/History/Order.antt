-- ===== src/History/Order.antt =====
-- The order of the candles of a chart.
use test_v.Shared.{
  ℕ, zero, suc, ◌-◌, ◌<◌, ◌≡◌, some, List, [], ◌∷◌, ◌++◌, ltb, ◌==◌, length, drop, get_last?, All,
  All-append, arith, Bool-cases, Option-cases, inl, inr, ltb→lt, ==_iff, All-weaken,
}
use test_v.Candle.{ClusterCandle}
use test_v.History.Window.{slice_last, replace_last, flushed, prepended}

module _ {R : Type 0} where
  abbrev pub IsBefore : ℕ → ClusterCandle R → Type 0
  IsBefore t c = c.timestamp < t

  -- Each candle is later than those before it.
  abbrev pub IsAscending : List (ClusterCandle R) → Type 0
  IsAscending [] = Unit
  IsAscending (x ∷ xs) = All (λ y. x.timestamp < y.timestamp) xs × IsAscending xs

  drop-IsAscending :
      (k : ℕ) (xs : List (ClusterCandle R)) → IsAscending xs → IsAscending (drop k xs)
  drop-IsAscending zero xs h = h
  drop-IsAscending (suc k) [] h = tt
  drop-IsAscending (suc k) (x ∷ xs) h = drop-IsAscending k xs h.1

  slice_last-IsAscending :
      (k : ℕ) (xs : List (ClusterCandle R)) → IsAscending xs → IsAscending (slice_last k xs)
  unfolding slice_last
  slice_last-IsAscending zero xs h = h
  slice_last-IsAscending (suc k) xs h = drop-IsAscending (length xs - suc k) xs h

  -- What is later than the last candle is later than all.
  All-IsBefore :
      (xs : List (ClusterCandle R)) (l : ClusterCandle R) (t : ℕ)
      → IsAscending xs
      → get_last? xs ≡ some l
      → l.timestamp < t
      → All (IsBefore t) xs
  All-IsBefore [] l t h e k = tt
  All-IsBefore (x ∷ []) l t h e k = (ground (arith, e, k), tt)
  All-IsBefore (x ∷ y ∷ xs) l t h e k =
      let rest = All-IsBefore (y ∷ xs) l t h.1 e k in (omega (arith, h.0.0, rest.0), rest)

  append-IsAscending :
      (xs ys : List (ClusterCandle R))
      → IsAscending xs
      → IsAscending ys
      → All (λ x. All (λ y. x.timestamp < y.timestamp) ys) xs
      → IsAscending (xs ++ ys)
  append-IsAscending [] ys hx hy k = hy
  append-IsAscending (x ∷ xs) ys hx hy k = (
    All-append (λ y. x.timestamp < y.timestamp) xs ys hx.0 k.0,
    append-IsAscending xs ys hx.1 hy k.1,
  )

  replace_last-All :
      (P : ClusterCandle R → Type 0) (c : ClusterCandle R) (xs : List (ClusterCandle R))
      → P c
      → All P xs
      → All P (replace_last c xs)
  unfolding replace_last
  replace_last-All P c [] hc h = tt
  replace_last-All P c (x ∷ []) hc h = (hc, tt)
  replace_last-All P c (x ∷ y ∷ xs) hc h = (h.0, replace_last-All P c (y ∷ xs) hc h.1)

  later_last :
      (x l : ClusterCandle R) (xs : List (ClusterCandle R))
      → All (λ y. x.timestamp < y.timestamp) xs
      → get_last? xs ≡ some l
      → x.timestamp < l.timestamp
  later_last x l [] h e = absurd (cc)
  later_last x l (y ∷ []) h e = ground (arith, h.0, e)
  later_last x l (y ∷ z ∷ xs) h e = later_last x l (z ∷ xs) h.1 e

  replace_last-IsAscending :
      (c l : ClusterCandle R) (xs : List (ClusterCandle R))
      → get_last? xs ≡ some l
      → c.timestamp ≡ l.timestamp
      → IsAscending xs
      → IsAscending (replace_last c xs)
  unfolding replace_last
  replace_last-IsAscending c l [] e t h = tt
  replace_last-IsAscending c l (x ∷ []) e t h = (tt, tt)
  replace_last-IsAscending c l (x ∷ y ∷ xs) e t h = (
    replace_last-All (λ z. x.timestamp < z.timestamp) c (y ∷ xs)
        (omega (arith, t, later_last x l (y ∷ xs) h.0 e)) h.0,
    replace_last-IsAscending c l (y ∷ xs) e t h.1,
  )

  -- From candles in strictly rising order of time a flush leads to such candles, whatever candle comes
  -- in and whatever the limit is.
  flushed-IsAscending :
      (max_candles : ℕ) (candle : ClusterCandle R) (prev : List (ClusterCandle R))
      → IsAscending prev
      → IsAscending (flushed max_candles candle prev)
  unfolding flushed
  flushed-IsAscending max_candles candle prev h = elim (Option-cases (get_last? prev)) [
    | inl e ↦ rw (e, flushed) (tt, tt)
    | inr (l, e) ↦ elim (Bool-cases (ltb l.timestamp candle.timestamp)) [
      | inl p ↦
          rw (e, flushed, p)
            (slice_last-IsAscending max_candles (prev ++ candle ∷ []) (
              append-IsAscending prev (candle ∷ []) h (tt, tt)
                (All-weaken (IsBefore candle.timestamp)
                  (λ x. All (λ y. x.timestamp < y.timestamp) (candle ∷ [])) (λ x k. (k, tt)) prev
                  (All-IsBefore prev l candle.timestamp h e (ltb→lt _ _ p)))))
      | inr p ↦ elim (Bool-cases (candle.timestamp == l.timestamp)) [
        | inl q ↦
            rw (e, flushed, p, q) (replace_last-IsAscending candle l prev e ((==_iff _ _).0 q) h)
        | inr q ↦ rw (e, flushed, p, q) h
      ]
    ]
  ]

  -- Older candles in strictly rising order of time in front of others keep that order, if each of them
  -- is older than all that are there.
  pub prepended-IsAscending :
      (max_candles : ℕ) (older prev : List (ClusterCandle R))
      → IsAscending older
      → IsAscending prev
      → All (λ x. All (λ y. x.timestamp < y.timestamp) prev) older
      → IsAscending (prepended max_candles older prev)
  unfolding prepended
  prepended-IsAscending max_candles older prev ho hp k =
      slice_last-IsAscending max_candles (older ++ prev) (append-IsAscending older prev ho hp k)
