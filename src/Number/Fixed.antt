-- ===== src/Number/Fixed.antt =====
-- A concrete instance of the numbers, for tests and witnesses: integers that count units of 1/10000.
use test_v.Shared.{◌&&◌, ℕ, ◌+◌, ◌*◌, ◌/◌, ◌-◌, ◌^◌, ◌≡◌, false, arith, ◌==◌}
use test_v.Shared.Int.{ℤ, pos, negsuc, pos_part, neg_part, sub_ℕ, ◌+ℤ◌, ◌-ℤ◌, ltb_ℤ}
use test_v.Number.{Num, Laws}

abbrev scale : ℕ
scale = 10000

abbrev size : ℤ → ℕ
size a = pos_part a + neg_part a

-- The sign of `a * b`, on a magnitude.
abbrev signed : ℤ → ℤ → ℕ → ℤ
signed (pos a) (pos b) m = pos m
signed (negsuc a) (negsuc b) m = pos m
signed (pos a) (negsuc b) m = sub_ℕ 0 m
signed (negsuc a) (pos b) m = sub_ℕ 0 m

-- Rounds a magnitude to a multiple of `u`, halves up.
abbrev near : ℕ → ℕ → ℕ
near u m = (m + u / 2) / u * u

abbrev down : ℤ → ℤ
down (pos m) = pos (m / scale * scale)
down (negsuc m) = sub_ℕ 0 ((m + scale) / scale * scale)

abbrev up : ℤ → ℤ
up (pos m) = pos ((m + scale - 1) / scale * scale)
up (negsuc m) = sub_ℕ 0 ((m + 1) / scale * scale)

abbrev fixed_to : ℕ → ℤ → ℤ
fixed_to d (pos m) = pos (near (10 ^ (4 - d)) m)
fixed_to d (negsuc m) = sub_ℕ 0 (near (10 ^ (4 - d)) (m + 1))

abbrev pub fixed : Num
fixed = record {
  Real = ℤ;
  ratio = λ m k. pos (m * scale / k);
  add = λ a b. a +ℤ b;
  sub = λ a b. a -ℤ b;
  mul = λ a b. signed a b (size a * size b / scale);
  div = λ a b. signed a b (size a * scale / size b);
  lt = λ a b. ltb_ℤ a b;
  eq = λ a b. pos_part a == pos_part b && neg_part a == neg_part b;
  to_fixed = fixed_to;
  floor = down;
  ceil = up;
  round = fixed_to 0;
}

le-add : (a b : ℤ) → ltb_ℤ b (pos 0) ≡ false → ltb_ℤ (a +ℤ b) a ≡ false
unfolding ◌+ℤ◌
le-add a b h = ground arith

sub_nonneg : (a b : ℤ) → ltb_ℤ a b ≡ false → ltb_ℤ (a -ℤ b) (pos 0) ≡ false
unfolding ◌-ℤ◌
sub_nonneg a b h = ground arith

to_fixed_nonneg : (d : ℕ) (a : ℤ) → ltb_ℤ a (pos 0) ≡ false → ltb_ℤ (fixed_to d a) (pos 0) ≡ false
to_fixed_nonneg d (pos m) h = ground arith
to_fixed_nonneg d (negsuc m) h = absurd (ground arith)

-- The instance has the laws.
pub fixed_laws : Laws fixed
fixed_laws = record {
  lt_asym = λ a b h. ground arith;
  le_trans = λ a b c h k. ground arith;
  le-add = le-add;
  sub_nonneg = sub_nonneg;
  to_fixed_nonneg = to_fixed_nonneg;
}
