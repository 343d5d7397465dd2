-- ===== src/Number/Order.antt =====
-- Facts on the order of the numbers: what follows from the laws for `<`, and the bounds of
-- `Math.min` and `Math.max` over several arguments.
use test_v.Shared.{true, false, ◌≡◌, refl, ◌∙◌, ◌⊎◌, inl, inr, List, [], ◌∷◌, All, In, Bool-cases}
use test_v.Number.{Num, Laws, num_min, num_max, min_of, max_of}

module _ (n : Num) (l : Laws n) where
  open n use {Real, lt}

  abbrev pub Le : Real → Real → Type 0
  Le a b = lt b a ≡ false

  pub le_refl : (a : Real) → Le a a
  le_refl a = elim (Bool-cases (lt a a)) [ inl e ↦ l.lt_asym a a e | inr e ↦ e ]

  pub lt_of_le-lt : (a b c : Real) → Le a b → lt b c ≡ true → lt a c ≡ true
  lt_of_le-lt a b c h k = elim (Bool-cases (lt a c)) [
    | inl e ↦ e
    | inr e ↦ cc (l.le_trans c a b e h)
  ]

  pub lt_of_lt-le : (a b c : Real) → lt a b ≡ true → Le b c → lt a c ≡ true
  lt_of_lt-le a b c h k = elim (Bool-cases (lt a c)) [
    | inl e ↦ e
    | inr e ↦ cc (l.le_trans b c a k e)
  ]

  pub lt_trans : (a b c : Real) → lt a b ≡ true → lt b c ≡ true → lt a c ≡ true
  lt_trans a b c h k = lt_of_le-lt a b c (l.lt_asym a b h) k

  pub min_of-le : (a : Real) (xs : List Real) → Le (min_of n a xs) a
  min_of-le a [] = le_refl a
  min_of-le a (x ∷ xs) =
      l.le_trans (min_of n (num_min n a x) xs) (num_min n a x) a (min_of-le (num_min n a x) xs)
        (elim (Bool-cases (lt x a)) [ inl e ↦ rw e (l.lt_asym x a e) | inr e ↦ rw e (le_refl a) ])

  num_min-le_right : (a x : Real) → Le (num_min n a x) x
  num_min-le_right a x = elim (Bool-cases (lt x a)) [ inl e ↦ rw e (le_refl x) | inr e ↦ rw e e ]

  -- `Math.min` is below each argument.
  pub min_of-le-All : (a : Real) (xs : List Real) → All (λ x. Le (min_of n a xs) x) xs
  min_of-le-All a [] = tt
  min_of-le-All a (x ∷ xs) = (
    l.le_trans _ (num_min n a x) x (min_of-le (num_min n a x) xs) (num_min-le_right a x),
    min_of-le-All (num_min n a x) xs,
  )

  num_min_cases : (a x : Real) → (num_min n a x ≡ a) ⊎ (num_min n a x ≡ x)
  num_min_cases a x = elim (Bool-cases (lt x a)) [ inl e ↦ inr (rw e) | inr e ↦ inl (rw e) ]

  -- `Math.min` is one of its arguments.
  pub min_of-In : (a : Real) (xs : List Real) → In (min_of n a xs) (a ∷ xs)
  min_of-In a [] = inl refl
  min_of-In a (x ∷ xs) = elim (min_of-In (num_min n a x) xs) [
    | inl q ↦ elim (num_min_cases a x) [ inl e ↦ inl (q ∙ e) | inr e ↦ inr (inl (q ∙ e)) ]
    | inr q ↦ inr (inr q)
  ]

  pub le-max_of : (a : Real) (xs : List Real) → Le a (max_of n a xs)
  le-max_of a [] = le_refl a
  le-max_of a (x ∷ xs) =
      l.le_trans a (num_max n a x) _
        (elim (Bool-cases (lt a x)) [ inl e ↦ rw e (l.lt_asym a x e) | inr e ↦ rw e (le_refl a) ])
        (le-max_of (num_max n a x) xs)

  le-num_max_right : (a x : Real) → Le x (num_max n a x)
  le-num_max_right a x = elim (Bool-cases (lt a x)) [ inl e ↦ rw e (le_refl x) | inr e ↦ rw e e ]

  -- `Math.max` is above each argument.
  pub All-le-max_of : (a : Real) (xs : List Real) → All (λ x. Le x (max_of n a xs)) xs
  All-le-max_of a [] = tt
  All-le-max_of a (x ∷ xs) = (
    l.le_trans x (num_max n a x) _ (le-num_max_right a x) (le-max_of (num_max n a x) xs),
    All-le-max_of (num_max n a x) xs,
  )

  num_max_cases : (a x : Real) → (num_max n a x ≡ a) ⊎ (num_max n a x ≡ x)
  num_max_cases a x = elim (Bool-cases (lt a x)) [ inl e ↦ inr (rw e) | inr e ↦ inl (rw e) ]

  -- `Math.max` is one of its arguments.
  pub max_of-In : (a : Real) (xs : List Real) → In (max_of n a xs) (a ∷ xs)
  max_of-In a [] = inl refl
  max_of-In a (x ∷ xs) = elim (max_of-In (num_max n a x) xs) [
    | inl q ↦ elim (num_max_cases a x) [ inl e ↦ inl (q ∙ e) | inr e ↦ inr (inl (q ∙ e)) ]
    | inr q ↦ inr (inr q)
  ]
