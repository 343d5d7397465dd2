-- ===== src/Shared/Unique.antt =====
-- Lists without repetition, and what sorting, filtering and taking do to their members.
use Prim.Native.Nat.{ℕ, zero, suc}
use mathlib.Core.Path.{◌≡◌, refl, sym, ◌∙◌, ap}
use mathlib.Core.Logic.{◌≢◌, ◌⊎◌, inl, inr}
use mathlib.Core.Bool.{Bool, true, false}
use mathlib.Core.List.{List, [], ◌∷◌, ◌++◌}
use test_v.Shared.Tests.{Bool-cases}
use test_v.Shared.Lists.{take, length, filter}
use test_v.Shared.Members.{All, In, All-In, All-append}
use test_v.Shared.Sort.{insert, sort, insert-All, sort-All, IsSorted}

module _ {A : Type 0} where
  abbrev pub IsUnique : List A → Type 0
  IsUnique [] = Unit
  IsUnique (x ∷ xs) = All (λ y. y ≢ x) xs × IsUnique xs

  pub In-append_left : (a : A) (xs ys : List A) → In a xs → In a (xs ++ ys)
  In-append_left a [] ys h = absurd h
  In-append_left a (x ∷ xs) ys (inl e) = inl e
  In-append_left a (x ∷ xs) ys (inr h) = inr (In-append_left a xs ys h)

  pub In-append_right : (a : A) (xs ys : List A) → In a ys → In a (xs ++ ys)
  In-append_right a [] ys h = h
  In-append_right a (x ∷ xs) ys h = inr (In-append_right a xs ys h)

  pub All-of_In : (P : A → Type 0) (xs : List A) → ((a : A) → In a xs → P a) → All P xs
  All-of_In P [] f = tt
  All-of_In P (x ∷ xs) f = (f x (inl refl), All-of_In P xs (λ a i. f a (inr i)))

  pub IsUnique-append :
      (xs ys : List A)
      → IsUnique xs
      → IsUnique ys
      → All (λ x. All (λ y. y ≢ x) ys) xs
      → IsUnique (xs ++ ys)
  IsUnique-append [] ys h k d = k
  IsUnique-append (x ∷ xs) ys h k d =
      (All-append (λ y. y ≢ x) xs ys h.0 d.0, IsUnique-append xs ys h.1 k d.1)

  module _ (p : A → Bool) where
    pub filter-All : (P : A → Type 0) (xs : List A) → All P xs → All P (filter p xs)
    filter-All P [] h = tt
    filter-All P (x ∷ xs) h = elim (Bool-cases (p x)) [
      | inl e ↦ rw e (h.0, filter-All P xs h.1)
      | inr e ↦ rw e (filter-All P xs h.1)
    ]

    pub All-filter : (xs : List A) → All (λ x. p x ≡ true) (filter p xs)
    All-filter [] = tt
    All-filter (x ∷ xs) = elim (Bool-cases (p x)) [
      | inl e ↦ rw e (e, All-filter xs)
      | inr e ↦ rw e (All-filter xs)
    ]

    pub filter-IsUnique : (xs : List A) → IsUnique xs → IsUnique (filter p xs)
    filter-IsUnique [] h = tt
    filter-IsUnique (x ∷ xs) h = elim (Bool-cases (p x)) [
      | inl e ↦ rw e (filter-All (λ y. y ≢ x) xs h.0, filter-IsUnique xs h.1)
      | inr e ↦ rw e (filter-IsUnique xs h.1)
    ]

    pub In-filter : (a : A) (xs : List A) → p a ≡ true → In a xs → In a (filter p xs)
    In-filter a [] h i = absurd i
    In-filter a (x ∷ xs) h (inl e) = let q : p x ≡ true = ap p (sym e) ∙ h in rw q (inl e)
    In-filter a (x ∷ xs) h (inr i) = elim (Bool-cases (p x)) [
      | inl e ↦ rw e (inr (In-filter a xs h i))
      | inr e ↦ rw e (In-filter a xs h i)
    ]

  module _ (before : A → A → Bool) where
    In-insert : (x : A) (ys : List A) → In x (insert before x ys)
    unfolding insert
    In-insert x [] = inl refl
    In-insert x (y ∷ ys) = elim (Bool-cases (before y x)) [
      | inl e ↦ rw e (inr (In-insert x ys))
      | inr e ↦ rw e (inl refl)
    ]

    In-insert_other : (a x : A) (ys : List A) → In a ys → In a (insert before x ys)
    unfolding insert
    In-insert_other a x [] i = absurd i
    In-insert_other a x (y ∷ ys) i = elim (Bool-cases (before y x)) [
      | inl e ↦ rw e (elim i [ inl q ↦ inl q | inr j ↦ inr (In-insert_other a x ys j) ])
      | inr e ↦ rw e (inr i)
    ]

    pub In-sort : (a : A) (xs : List A) → In a xs → In a (sort before xs)
    unfolding sort
    In-sort a [] i = absurd i
    In-sort a (x ∷ xs) (inl e) = rw e (In-insert x (sort before xs))
    In-sort a (x ∷ xs) (inr i) = In-insert_other a x (sort before xs) (In-sort a xs i)

    insert-IsUnique :
        (x : A) (ys : List A) → All (λ y. y ≢ x) ys → IsUnique ys → IsUnique (insert before x ys)
    unfolding insert
    insert-IsUnique x [] h k = (tt, tt)
    insert-IsUnique x (y ∷ ys) h k = elim (Bool-cases (before y x)) [
      | inl e ↦
          rw e (
            insert-All before (λ z. z ≢ y) x ys (λ q. h.0 (sym q)) k.0,
            insert-IsUnique x ys h.1 k.1,
          )
      | inr e ↦ rw e (h, k)
    ]

    pub sort-IsUnique : (xs : List A) → IsUnique xs → IsUnique (sort before xs)
    unfolding sort
    sort-IsUnique [] h = tt
    sort-IsUnique (x ∷ xs) h =
        insert-IsUnique x (sort before xs) (sort-All before (λ y. y ≢ x) xs h.0)
          (sort-IsUnique xs h.1)

    -- Each element stands before all later ones.
    abbrev pub IsStrict : List A → Type 0
    IsStrict [] = Unit
    IsStrict (x ∷ xs) = All (λ y. before x y ≡ true) xs × IsStrict xs

    -- Where elements that do not stand before each other are equal.
    module _ (total : (a b : A) → before a b ≡ false → before b a ≡ false → a ≡ b) where
      strict_head :
          (x : A) (xs : List A)
          → All (λ y. before y x ≡ false) xs
          → All (λ y. y ≢ x) xs
          → All (λ y. before x y ≡ true) xs
      strict_head x [] h k = tt
      strict_head x (y ∷ ys) h k = (
        elim (Bool-cases (before x y)) [ inl e ↦ e | inr e ↦ absurd (k.0 (total y x h.0 e)) ],
        strict_head x ys h.1 k.1,
      )

      pub IsStrict-of_IsSorted : (xs : List A) → IsSorted before xs → IsUnique xs → IsStrict xs
      IsStrict-of_IsSorted [] h k = tt
      IsStrict-of_IsSorted (x ∷ xs) h k =
          (strict_head x xs h.0 k.0, IsStrict-of_IsSorted xs h.1 k.1)

    pub take-All : (P : A → Type 0) (k : ℕ) (xs : List A) → All P xs → All P (take k xs)
    take-All P zero xs h = tt
    take-All P (suc k) [] h = tt
    take-All P (suc k) (x ∷ xs) h = (h.0, take-All P k xs h.1)

    pub take-IsStrict : (k : ℕ) (xs : List A) → IsStrict xs → IsStrict (take k xs)
    take-IsStrict zero xs h = tt
    take-IsStrict (suc k) [] h = tt
    take-IsStrict (suc k) (x ∷ xs) h =
        (take-All (λ y. before x y ≡ true) k xs h.0, take-IsStrict k xs h.1)

    -- A member is taken, or so many stand before it.
    pub In-take :
        (k : ℕ) (a : A) (xs : List A)
        → IsStrict xs
        → In a xs
        → In a (take k xs) ⊎ ((length (take k xs) ≡ k) × All (λ y. before y a ≡ true) (take k xs))
    In-take zero a xs h i = inr (refl, tt)
    In-take (suc k) a [] h i = absurd i
    In-take (suc k) a (x ∷ xs) h (inl e) = inl (inl e)
    In-take (suc k) a (x ∷ xs) h (inr i) = elim (In-take k a xs h.1 i) [
      | inl j ↦ inl (inr j)
      | inr (e, f) ↦ inr (ap suc e, (All-In (λ y. before x y ≡ true) a xs h.0 i, f))
    ]
