-- ===== src/Number.antt =====
-- The numbers of the program (IEEE doubles) as an interface: the operations that the sources of
-- frontend-chart/src use. No code of the repository implements them, so they are a parameter of
-- every definition that computes with prices and volumes.
--
-- Prices, volumes and balances are finite: NaN and the infinities do not occur. For such values
-- `a <= b` is the negation of `b < a`.
pub mod Order
pub mod Fixed
use test_v.Shared.{ℕ, Bool, true, false, not, ◌≡◌, List, [], ◌∷◌, if◌then◌else◌}

pub record Num : Type 1 where
  pub Real : Type 0
  -- the literal `m / n`, e.g. 0.7 is `ratio 7 10`
  pub ratio : ℕ → ℕ → Real
  pub add : Real → Real → Real
  pub sub : Real → Real → Real
  pub mul : Real → Real → Real
  pub div : Real → Real → Real
  -- `a < b` and `a === b`
  pub lt : Real → Real → Bool
  pub eq : Real → Real → Bool
  -- `parseFloat(x.toFixed(d))`
  pub to_fixed : ℕ → Real → Real
  -- `Math.floor`, `Math.ceil`, `Math.round`
  pub floor : Real → Real
  pub ceil : Real → Real
  pub round : Real → Real

module _ (n : Num) where
  open n use {Real, ratio, sub, lt}

  -- An integer literal.
  abbrev pub lit : ℕ → Real
  lit k = ratio k 1

  -- `a <= b`
  abbrev pub le : Real → Real → Bool
  le a b = not (lt b a)

  -- `-a`, `Math.abs(a)`, `Math.min(a, b)` and `Math.max(a, b)`
  abbrev pub neg : Real → Real
  neg a = sub (lit 0) a

  abbrev pub abs : Real → Real
  abs a = if lt a (lit 0) then neg a else a

  abbrev pub num_min : Real → Real → Real
  num_min a b = if lt b a then b else a

  abbrev pub num_max : Real → Real → Real
  num_max a b = if lt a b then b else a

  -- `Math.min(a, ...xs)` and `Math.max(a, ...xs)`
  abbrev pub min_of : Real → List Real → Real
  min_of a [] = a
  min_of a (x ∷ xs) = min_of (num_min a x) xs

  abbrev pub max_of : Real → List Real → Real
  max_of a [] = a
  max_of a (x ∷ xs) = max_of (num_max a x) xs

-- What the theorems need of the order and the operations. Finite doubles have these laws: rounding
-- is monotone, so a sum with a term that is not negative is not smaller, and a difference
-- `a - b` with `b <= a` is not negative.
pub record Laws (n : Num) : Type 0 where
  pub lt_asym : (a b : n.Real) → n.lt a b ≡ true → n.lt b a ≡ false
  pub le_trans : (a b c : n.Real) → n.lt b a ≡ false → n.lt c b ≡ false → n.lt c a ≡ false
  pub le-add : (a b : n.Real) → n.lt b (n.ratio 0 1) ≡ false → n.lt (n.add a b) a ≡ false
  pub sub_nonneg : (a b : n.Real) → n.lt a b ≡ false → n.lt (n.sub a b) (n.ratio 0 1) ≡ false
  pub to_fixed_nonneg :
      (d : ℕ) (a : n.Real)
      → n.lt a (n.ratio 0 1) ≡ false
      → n.lt (n.to_fixed d a) (n.ratio 0 1) ≡ false
