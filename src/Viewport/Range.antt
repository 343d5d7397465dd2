-- ===== src/Viewport/Range.antt =====
-- The ranges of the viewport, and what the clamps of the source put into them.
use test_v.Shared.{
  ℕ, zero, suc, ◌+◌, ◌≤◌, Bool, true, false, ◌≡◌, inl, inr, Option, none, some, if◌then◌else◌,
  arith, Bool-cases,
}
use test_v.Number.{Num, Laws, lit, num_max}
use test_v.Number.Order.{Le, le_refl}
use test_v.Viewport.{Viewport, clamp, clamp_scale, clamp_panel, clamp_width}
use test_v.Viewport.Fit.{has_room, fit_from, best_width}

-- The fitted width is one of the widths of the loop.
fit_from-le :
    (n : Num) (space : n.Real) (rounds w best : ℕ)
    → 2 ≤ best
    → best ≤ 119
    → 2 ≤ w
    → w + rounds ≤ 120
    → (2 ≤ fit_from n space rounds w best) × (fit_from n space rounds w best ≤ 119)
unfolding fit_from
fit_from-le n space zero w best h k i j = (h, k)
fit_from-le n space (suc rounds) w best h k i j = elim (Bool-cases (has_room n space w)) [
  | inl e ↦ rw e (fit_from-le n space rounds (suc w) w i (omega arith) (omega arith) (omega arith))
  | inr e ↦ rw e (h, k)
]

pub best_width-le :
    (n : Num) (space : n.Real) → (2 ≤ best_width n space) × (best_width n space ≤ 119)
unfolding best_width
best_width-le n space =
    fit_from-le n space 118 2 10 (omega arith) (omega arith) (omega arith) (omega arith)

-- How the literals of the source stand to each other.
pub record Literals (n : Num) (l : Laws n) : Type 0 where
  pub lit_mono : (a b : ℕ) → a ≤ b → Le n l (lit n a) (lit n b)
  pub hundredth_le_tenth : Le n l (n.ratio 1 100) (n.ratio 1 10)
  pub tenth_le : Le n l (n.ratio 1 10) (n.ratio 7 10)
  pub le_one : Le n l (n.ratio 7 10) (lit n 1)

module _ (n : Num) (l : Laws n) where
  open n use {Real, ratio, lt}

  pub record IsBetween (low high x : Real) : Type 0 where
    pub above : Le n l low x
    pub below : Le n l x high

  -- The ranges of the source.
  pub record IsInRange (v : Viewport Real) : Type 0 where
    pub candle_width : IsBetween (lit n 2) (lit n 450) v.candle_width
    pub vertical_scale : IsBetween (ratio 1 10) (lit n 2000) v.vertical_scale
    pub delta_scale : IsBetween (ratio 1 100) (lit n 200) v.delta_scale
    pub cvd_scale : IsBetween (ratio 1 100) (lit n 200) v.cvd_scale

  le-num_max : (a x : Real) → Le n l a (num_max n a x)
  le-num_max a x = elim (Bool-cases (lt a x)) [
    | inl e ↦ rw e (l.lt_asym a x e)
    | inr e ↦ rw e (le_refl n l a)
  ]

  clamp-IsBetween : (low high x : Real) → Le n l low high → IsBetween low high (clamp n low high x)
  unfolding clamp
  clamp-IsBetween low high x h = elim (Bool-cases (lt (num_max n low x) high)) [
    | inl e ↦ rw e (record { above = le-num_max low x; below = l.lt_asym (num_max n low x) high e })
    | inr e ↦ rw e (record { above = h; below = le_refl n l high })
  ]

  weaken-IsBetween : (a b high x : Real) → Le n l a b → IsBetween b high x → IsBetween a high x
  weaken-IsBetween a b high x h k = record { above = l.le_trans a b x h k.above; below = k.below }

  pub num_max-IsBetween :
      (low high x : Real) → IsBetween low high x → IsBetween low high (num_max n low x)
  num_max-IsBetween low high x h = elim (Bool-cases (lt low x)) [
    | inl e ↦ rw e h
    | inr e ↦
        rw e (record { above = le_refl n l low; below = l.le_trans low x high h.above h.below })
  ]

  pub IsInRange-if :
      (b : Bool) (u v : Viewport Real) → IsInRange u → IsInRange v → IsInRange (if b then u else v)
  IsInRange-if true u v h k = h
  IsInRange-if false u v h k = k

  pub IsInRange-elim :
      {D : Type 0} (o : Option D) (v : Viewport Real) (f : D → Viewport Real)
      → IsInRange v
      → ((d : D) → IsInRange (f d))
      → IsInRange (elim o [ none ↦ v | some d ↦ f d ])
  IsInRange-elim none v f h k = h
  IsInRange-elim (some d) v f h k = k d

  -- What a new width, or a new vertical scale, needs.
  pub with_width :
      (v u : Viewport Real)
      → IsInRange v
      → IsBetween (lit n 2) (lit n 450) u.candle_width
      → u.vertical_scale ≡ v.vertical_scale
      → u.delta_scale ≡ v.delta_scale
      → u.cvd_scale ≡ v.cvd_scale
      → IsInRange u
  with_width v u h w p q r = record {
    candle_width = w;
    vertical_scale = rw p h.vertical_scale;
    delta_scale = rw q h.delta_scale;
    cvd_scale = rw r h.cvd_scale;
  }

  pub with_scale :
      (v u : Viewport Real)
      → IsInRange v
      → IsBetween (ratio 1 10) (lit n 2000) u.vertical_scale
      → u.candle_width ≡ v.candle_width
      → u.delta_scale ≡ v.delta_scale
      → u.cvd_scale ≡ v.cvd_scale
      → IsInRange u
  with_scale v u h w p q r = record {
    candle_width = rw p h.candle_width;
    vertical_scale = w;
    delta_scale = rw q h.delta_scale;
    cvd_scale = rw r h.cvd_scale;
  }

  module _ (c : Literals n l) where
    pub hundredth_le_one : Le n l (ratio 1 100) (lit n 1)
    hundredth_le_one = l.le_trans _ _ _ c.hundredth_le_tenth (l.le_trans _ _ _ c.tenth_le c.le_one)

    pub scale-IsBetween : (x : Real) → IsBetween (ratio 1 10) (lit n 2000) (clamp_scale n x)
    scale-IsBetween x =
        clamp-IsBetween _ _ x (
          l.le_trans _ _ _ c.tenth_le (l.le_trans _ _ _ c.le_one (c.lit_mono 1 2000 (omega arith))))

    pub panel-IsBetween : (x : Real) → IsBetween (ratio 1 100) (lit n 200) (clamp_panel n x)
    panel-IsBetween x =
        clamp-IsBetween _ _ x (l.le_trans _ _ _ hundredth_le_one (c.lit_mono 1 200 (omega arith)))

    pub width-IsBetween :
        (b : Bool) (x : Real) → IsBetween (lit n 2) (lit n 450) (clamp_width n b x)
    width-IsBetween true x = clamp-IsBetween _ _ x (c.lit_mono 2 450 (omega arith))
    width-IsBetween false x =
        weaken-IsBetween _ _ _ _ (c.lit_mono 2 8 (omega arith))
          (clamp-IsBetween _ _ x (c.lit_mono 8 450 (omega arith)))

    pub lit-IsBetween : (k : ℕ) → 2 ≤ k → k ≤ 450 → IsBetween (lit n 2) (lit n 450) (lit n k)
    lit-IsBetween k h j = record { above = c.lit_mono 2 k h; below = c.lit_mono k 450 j }
