-- ===== src/Shared/Text.antt =====
-- Texts as lists of character codes, their equality, and numbers in decimal.
use Prim.Native.String.{String}
use Prim.Native.Char.{code}
use test_v.Shared.Tests.{◌==◌, ltb, if◌then◌else◌, Bool-cases}
use Prim.Native.Nat.{ℕ, zero, suc, ◌+◌, ◌-◌, ◌*◌, ◌/◌, ◌%◌, ◌<◌, ◌≤◌}
use mathlib.Core.Path.{◌≡◌, refl, ap, sym, ◌∙◌}
use mathlib.Core.Logic.{◌≢◌, ◌↔◌, inl, inr}
use mathlib.Core.Bool.{Bool, true, false, ◌&&◌}
use mathlib.Core.List.{List, [], ◌∷◌, ◌++◌}
use native.Mathlib.Omega.{arith}

abbrev pub Text : Type 0
Text = List ℕ

abbrev pub codes : String → Text
codes String.[] = []
codes (String.◌∷◌ c s) = code c ∷ codes s

unfoldable pub text_eq : Text → Text → Bool
text_eq [] [] = true
text_eq [] (y ∷ ys) = false
text_eq (x ∷ xs) [] = false
text_eq (x ∷ xs) (y ∷ ys) = x == y && text_eq xs ys

pub text_eq→eq : (s t : Text) → text_eq s t ≡ true → s ≡ t
unfolding text_eq
text_eq→eq [] [] h = refl
text_eq→eq [] (y ∷ ys) h = cc
text_eq→eq (x ∷ xs) [] h = cc
text_eq→eq (x ∷ xs) (y ∷ ys) h = ground (arith, text_eq→eq xs ys)

pub text_eq_refl : (s : Text) → text_eq s s ≡ true
unfolding text_eq
text_eq_refl [] = refl
text_eq_refl (x ∷ xs) = ground (arith, text_eq_refl xs)

pub text_eq_iff : (s t : Text) → (text_eq s t ≡ true) ↔ (s ≡ t)
text_eq_iff s t = (text_eq→eq s t, λ e. rw e (text_eq_refl t))

-- The digits of `n`, with fuel for their number.
digits_fuel : ℕ → ℕ → Text
digits_fuel zero n = []
digits_fuel (suc f) n =
    let rest = digits_fuel f (n / 10) in
    if ltb n 10 then (n + 48) ∷ [] else rest ++ (n % 10 + 48) ∷ []

-- `String(n)`: a number has fewer digits than it counts, or one.
unfoldable pub decimal : ℕ → Text
unfolding digits_fuel
decimal n = digits_fuel (n + 1) n

-- The number that digits stand for, after those that were read.
abbrev pub number : ℕ → Text → ℕ
number acc [] = acc
number acc (c ∷ cs) = number (acc * 10 + (c - 48)) cs

number-append :
    (acc : ℕ) (xs : Text) (c : ℕ) → number acc (xs ++ c ∷ []) ≡ number acc xs * 10 + (c - 48)
number-append acc [] c = refl
number-append acc (x ∷ xs) c = number-append (acc * 10 + (x - 48)) xs c

number-digits_fuel : (f n : ℕ) → n < f → number 0 (digits_fuel f n) ≡ n
unfolding digits_fuel
number-digits_fuel zero n h = elim h [ ]
number-digits_fuel (suc f) n h = elim (Bool-cases (ltb n 10)) [
  | inl e ↦ rw e (omega arith)
  | inr e ↦ rw e (
      number-append 0 (digits_fuel f (n / 10)) (n % 10 + 48)
      ∙ omega (arith, number-digits_fuel f (n / 10) (ground arith)))
]

pub number-decimal : (n : ℕ) → number 0 (decimal n) ≡ n
unfolding decimal
number-decimal n = number-digits_fuel (n + 1) n (omega arith)

pub decimal_injective : (a b : ℕ) → decimal a ≡ decimal b → a ≡ b
decimal_injective a b h = sym (number-decimal a) ∙ (ap (number 0) h ∙ number-decimal b)

pub decimal_nonempty : (k : ℕ) → 1 ≤ k → decimal k ≢ []
decimal_nonempty k h p = absurd (omega (arith, number-decimal k, ap (number 0) p))

-- No separator is a digit.
abbrev pub Lacks : ℕ → Text → Type 0
Lacks c [] = Unit
Lacks c (x ∷ xs) = (x ≢ c) × Lacks c xs

-- Texts without the separator are read back from in front of it.
pub field-inj :
    (c : ℕ) (s t u v : Text) → Lacks c s → Lacks c t → s ++ c ∷ u ≡ t ++ c ∷ v → (s ≡ t) × (u ≡ v)
field-inj c [] [] u v hs ht e = (refl, cc)
field-inj c [] (y ∷ t) u v hs ht e = absurd (ht.0 (ground arith))
field-inj c (x ∷ s) [] u v hs ht e = absurd (hs.0 (ground arith))
field-inj c (x ∷ s) (y ∷ t) u v hs ht e = let (p, q) = field-inj c s t u v hs.1 ht.1 (cc) in (cc, q)
