-- ===== src/MarketData/Count.antt =====
-- The loop that counts the levels of a candlestick, with its break.
use test_v.Shared.{
  ℕ, zero, suc, ◌+◌, ◌≤◌, true, false, ◌≡◌, refl, subst, ◌⊎◌, inl, inr, List, [], ◌∷◌, All,
  Bool-cases, arith, ltb,
}
use test_v.Number.{Num, le}
use test_v.MarketData.Klines.{count_cells}

module _ (n : Num) where
  open n use {Real, add, mul, div, lt, to_fixed}

  -- The prices of a number of steps, and the price after them.
  abbrev pub walk : ℕ → Real → Real → List Real
  walk zero step p = []
  walk (suc k) step p = p ∷ walk k step (add p step)

  abbrev pub after : ℕ → Real → Real → Real
  after zero step p = p
  after (suc k) step p = after k step (add p step)

  -- A number of steps up to a bound: all are up to it, and the next is above, unless there are as
  -- many as allowed.
  pub record IsCounted (allowed : ℕ) (bound step p : Real) (count : ℕ) : Type 0 where
    pub few : count ≤ allowed
    pub up_to : All (λ x. le n x bound ≡ true) (walk count step p)
    pub ended : (le n (after count step p) bound ≡ false) ⊎ (count ≡ allowed)

  -- From a count on, with the rounds that are left.
  count_cells_cases :
      (fuel count : ℕ) (bound step p : Real)
      → count + fuel ≡ 251
      → (k : ℕ) × (count_cells n fuel bound step p count ≡ count + k)
        × IsCounted fuel bound step p k
  unfolding count_cells
  count_cells_cases zero count bound step p h =
      (0, omega arith, record { few = omega arith; up_to = tt; ended = inr refl })
  count_cells_cases (suc fuel) count bound step p h = elim (Bool-cases (le n p bound)) [
    | inr e ↦ (0, rw e (omega arith), record { few = omega arith; up_to = tt; ended = inl e })
    | inl e ↦ elim (Bool-cases (ltb 250 (suc count))) [
      | inl g ↦ (
        1,
        rw (e, g) (omega arith),
        record { few = omega arith; up_to = (e, tt); ended = inr (ground arith) },
      )
      | inr g ↦
          let (k, f, c) =
            count_cells_cases fuel (suc count) bound step (add p step) (omega arith) in
          (
            suc k,
            rw (e, g) (omega (arith, f)),
            record {
              few = omega (arith, c.few);
              up_to = (e, c.up_to);
              ended = elim c.ended [ inl x ↦ inl x | inr x ↦ inr (omega (arith, x)) ];
            },
          )
    ]
  ]

  -- More rounds change nothing.
  count_cells_more :
      (fuel rounds count : ℕ) (bound step p : Real)
      → count + suc fuel ≡ 251
      → fuel ≤ rounds
      → count_cells n (suc rounds) bound step p count ≡ count_cells n (suc fuel) bound step p count
  unfolding count_cells
  count_cells_more zero rounds count bound step p h k =
      let g : ltb 250 (suc count) ≡ true = ground arith in rw g refl
  count_cells_more (suc fuel) zero count bound step p h k = absurd (omega arith)
  count_cells_more (suc fuel) (suc rounds) count bound step p h k =
      rw
        (count_cells_more fuel rounds (suc count) bound step (add p step) (omega arith)
          (omega arith))
        refl

  -- With 251 rounds or more, the loop counts the levels of the range, or 251 of them.
  pub count_cells-IsCounted :
      (rounds : ℕ) (bound step p : Real)
      → 251 ≤ rounds
      → IsCounted 251 bound step p (count_cells n rounds bound step p 0)
  count_cells-IsCounted zero bound step p h = absurd (omega arith)
  count_cells-IsCounted (suc rounds) bound step p h =
      let (k, e, c) = count_cells_cases 251 0 bound step p refl in
      subst (IsCounted 251 bound step p)
        (omega (arith, e, count_cells_more 250 rounds 0 bound step p (omega arith) (omega arith))) c
