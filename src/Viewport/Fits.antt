-- ===== src/Viewport/Fits.antt =====
-- The width that the loop of the fit finds.
use test_v.Shared.{ℕ, zero, suc, ◌+◌, ◌≤◌, true, false, ◌≡◌, ◌⊎◌, inl, inr, arith, Bool-cases}
use test_v.Number.{Num}
use test_v.Viewport.Fit.{has_room, fit_from, best_width}

module _ (n : Num) (space : n.Real) where
  -- Where the loop stops: every width from `low` to `w` has room, and `w` is the last one or the
  -- next has none.
  record IsLargest (low last w : ℕ) : Type 0 where
    from_low : low ≤ w
    to_last : w ≤ last
    room : (k : ℕ) → low ≤ k → k ≤ w → has_room n space k ≡ true
    next : (w ≡ last) ⊎ (has_room n space (suc w) ≡ false)

  fit_from-IsLargest :
      (rounds w : ℕ)
      → ((k : ℕ) → 2 ≤ k → k ≤ w → has_room n space k ≡ true)
      → 2 ≤ w
      → w + rounds ≡ 119
      → IsLargest 2 119 (fit_from n space rounds (suc w) w)
  unfolding fit_from
  fit_from-IsLargest zero w h j e = record {
    from_low = j;
    to_last = omega arith;
    room = h;
    next = inl (omega arith);
  }
  fit_from-IsLargest (suc rounds) w h j e = elim (Bool-cases (has_room n space (suc w))) [
    | inl q ↦ rw q (
        fit_from-IsLargest rounds (suc w) (λ k a b. grind (arith, h k)) (omega arith) (omega arith))
    | inr q ↦ rw q (record { from_low = j; to_last = omega arith; room = h; next = inr q })
  ]

  -- From the width 2.
  fit_from_start :
      (rounds : ℕ)
      → 2 + rounds ≡ 119
      → ((has_room n space 2 ≡ false) × (fit_from n space (suc rounds) 2 10 ≡ 10))
        ⊎ ((has_room n space 2 ≡ true) × IsLargest 2 119 (fit_from n space (suc rounds) 2 10))
  unfolding fit_from
  fit_from_start rounds e = elim (Bool-cases (has_room n space 2)) [
    | inl q ↦
        inr
          (q, rw q (fit_from-IsLargest rounds 2 (λ k a b. grind arith) (omega arith) (omega arith)))
    | inr q ↦ inl (q, rw q)
  ]

  -- The fitted width: if two pixels with their spacing have no room, it is 10 all the same; else it
  -- is between 2 and 119, it and every smaller width have room, and it is 119 or one pixel more has
  -- none.
  pub best_width_cases :
      ((has_room n space 2 ≡ false) × (best_width n space ≡ 10))
      ⊎ ((2 ≤ best_width n space)
          × (best_width n space ≤ 119)
          × ((k : ℕ) → 2 ≤ k → k ≤ best_width n space → has_room n space k ≡ true)
          × ((best_width n space ≡ 119) ⊎ (has_room n space (suc (best_width n space)) ≡ false)))
  unfolding best_width
  best_width_cases = elim (fit_from_start 117 (omega arith)) [
    | inl h ↦ inl h
    | inr (q, h) ↦ inr (h.from_low, h.to_last, h.room, h.next)
  ]
