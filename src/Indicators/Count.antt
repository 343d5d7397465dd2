-- ===== src/Indicators/Count.antt =====
-- How many indicators pass a test, before and after an operation on the draft.
use test_v.Shared.{
  ℕ, zero, suc, ◌+◌, ◌≤◌, Bool, true, false, ◌≡◌, refl, sym, ap, ◌∙◌, Option, none, some, List, [],
  ◌∷◌, length, filter, arith, inl, inr, Bool-cases, Option-cases,
}
use test_v.Shared.Text.{Text, text_eq}
use test_v.Indicators.{Indicator}
use test_v.Indicators.Draft.{
  get_elem?, put_at, find_index, is_id, change, Direction, target_index, swapped, moved_to,
  moved_from, move_indicator,
}

abbrev pub one : Bool → ℕ
one true = 1
one false = 0

module _ {A : Type 0} where
  abbrev pub count : (A → Bool) → List A → ℕ
  count p [] = 0
  count p (x ∷ xs) = one (p x) + count p xs

  pub length-filter : (p : A → Bool) (xs : List A) → length (filter p xs) ≡ count p xs
  length-filter p [] = refl
  length-filter p (x ∷ xs) = elim (Bool-cases (p x)) [
    | inl e ↦ rw e (omega (arith, length-filter p xs))
    | inr e ↦ rw e (omega (arith, length-filter p xs))
  ]

  count-put_at :
      (p : A → Bool) (i : ℕ) (a x : A) (xs : List A)
      → get_elem? xs i ≡ some x
      → one (p a) + count p xs ≡ one (p x) + count p (put_at i a xs)
  unfolding put_at
  count-put_at p i a x [] h = absurd (cc)
  count-put_at p zero a x (y ∷ ys) h = let e : y ≡ x = cc in omega (arith, ap (λ z. one (p z)) e)
  count-put_at p (suc i) a x (y ∷ ys) h = omega (arith, count-put_at p i a x ys h)

  get_elem?-put_at :
      (i j : ℕ) (y : A) (xs : List A)
      → get_elem? xs j ≡ some y
      → get_elem? (put_at i y xs) j ≡ some y
  unfolding put_at
  get_elem?-put_at i j y [] h = h
  get_elem?-put_at zero zero y (x ∷ xs) h = refl
  get_elem?-put_at zero (suc j) y (x ∷ xs) h = h
  get_elem?-put_at (suc i) zero y (x ∷ xs) h = h
  get_elem?-put_at (suc i) (suc j) y (x ∷ xs) h = get_elem?-put_at i j y xs h

module _ {V : Type 0} (p : Indicator V → Bool) where
  count-swapped :
      (index target : ℕ) (list : List (Indicator V))
      → count p (swapped index target list) ≡ count p list
  unfolding swapped
  count-swapped index target list = elim (Option-cases (get_elem? list index)) [
    | inl e ↦ rw (swapped, e) refl
    | inr (x, e) ↦ elim (Option-cases (get_elem? list target)) [
      | inl f ↦ rw (swapped, e, f) refl
      | inr (y, f) ↦
          rw (swapped, e, f)
            (omega (
              arith,
              count-put_at p index y x list e,
              count-put_at p target x y (put_at index y list)
                  (get_elem?-put_at index target y list f),
            ))
    ]
  ]

  count-moved_to :
      (index : ℕ) (target : Option ℕ) (list : List (Indicator V))
      → count p (moved_to index target list) ≡ count p list
  unfolding moved_to
  count-moved_to index none list = refl
  count-moved_to index (some target) list = count-swapped index target list

  count-moved_from :
      (direction : Direction) (index : Option ℕ) (list : List (Indicator V))
      → count p (moved_from direction index list) ≡ count p list
  unfolding moved_from
  count-moved_from direction none list = refl
  count-moved_from direction (some index) list =
      count-moved_to index (target_index direction index list) list

  pub count-move_indicator :
      (id : Text) (direction : Direction) (list : List (Indicator V))
      → count p (move_indicator id direction list) ≡ count p list
  unfolding move_indicator
  count-move_indicator id direction list =
      count-moved_from direction (find_index (is_id id) 0 list) list

  -- Moving an indicator loses none and doubles none: every test holds of as many indicators after as
  -- before.
  pub filter-move_indicator :
      (id : Text) (direction : Direction) (list : List (Indicator V))
      → length (filter p (move_indicator id direction list)) ≡ length (filter p list)
  filter-move_indicator id direction list =
      length-filter p (move_indicator id direction list)
      ∙ count-move_indicator id direction list
      ∙ sym (length-filter p list)

  -- A change that the test does not see.
  pub count-change :
      (id : Text) (f : Indicator V → Indicator V) (list : List (Indicator V))
      → ((x : Indicator V) → p (f x) ≡ p x)
      → count p (change id f list) ≡ count p list
  count-change id f [] h = refl
  count-change id f (x ∷ xs) h = elim (Bool-cases (text_eq x.id id)) [
    | inl e ↦ rw e (omega (arith, count-change id f xs h, ap one (h x)))
    | inr e ↦ rw e (omega (arith, count-change id f xs h))
  ]

  -- A change that no indicator passes the test by.
  pub count-change_le :
      (id : Text) (f : Indicator V → Indicator V) (list : List (Indicator V))
      → ((x : Indicator V) → one (p (f x)) ≤ one (p x))
      → count p (change id f list) ≤ count p list
  count-change_le id f [] h = omega arith
  count-change_le id f (x ∷ xs) h = elim (Bool-cases (text_eq x.id id)) [
    | inl e ↦ rw e (omega (arith, count-change_le id f xs h, h x))
    | inr e ↦ rw e (omega (arith, count-change_le id f xs h))
  ]
