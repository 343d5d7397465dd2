-- ===== src/Pairs/Loaded.antt =====
-- The pairs that are read from the storage, whatever was stored.
use test_v.Shared.{
  Bool, true, false, ◌&&◌, ◌≡◌, refl, sym, ap, subst, ◌∙◌, ◌⊎◌, inl, inr, Option, none, some, List,
  [], ◌∷◌, map, find?, All, In, All-In, Bool-cases, Option-cases,
}
use test_v.Shared.Text.{Text, text_eq→eq}
use test_v.Shared.Unique.{All-of_In}
use test_v.Number.{Num, lit}
use test_v.Pairs.{
  Value, undefined, null_value, object_value, bool_value, number_value, text_value, SavedPair,
  SavedItem, null_item, saved_item, CryptoPair, is_symbol, is_number, above, below, is_not_nan,
  is_reasonable_price, is_reasonable_step, sanitized, sanitized_all, as_saved, or_originals,
  load_pairs,
}

and_left : (a b : Bool) → a && b ≡ true → a ≡ true
and_left true b h = refl
and_left false b h = h

and_right : (a b : Bool) → a && b ≡ true → b ≡ true
and_right true b h = h
and_right false b h = absurd (cc h)

find?-In :
    {A : Type 0} (p : A → Bool) (xs : List A) (a : A) → find? p xs ≡ some a → In a xs × (p a ≡ true)
find?-In p [] a h = absurd (cc h)
find?-In p (x ∷ xs) a h = elim (Bool-cases (p x)) [
  | inl e ↦ let q : x ≡ a = cc (h, e) in (inl (sym q), ap p (sym q) ∙ e)
  | inr e ↦ let (i, f) = find?-In p xs a (cc (h, e)) in (inr i, f)
]

is_symbol→≡ : {R : Type 0} (t : Text) (v : Value R) → is_symbol t v ≡ true → v ≡ text_value t
is_symbol→≡ t undefined h = absurd (cc h)
is_symbol→≡ t null_value h = absurd (cc h)
is_symbol→≡ t object_value h = absurd (cc h)
is_symbol→≡ t (bool_value b) h = absurd (cc h)
is_symbol→≡ t (number_value r) h = absurd (cc h)
is_symbol→≡ t (text_value u) h = ap text_value (sym (text_eq→eq t u h))

is_number→≡ : {R : Type 0} (v : Value R) → is_number v ≡ true → (r : R) × (v ≡ number_value r)
is_number→≡ undefined h = absurd (cc h)
is_number→≡ null_value h = absurd (cc h)
is_number→≡ object_value h = absurd (cc h)
is_number→≡ (bool_value b) h = absurd (cc h)
is_number→≡ (number_value r) h = (r, refl)
is_number→≡ (text_value u) h = absurd (cc h)

module _ (n : Num) (coerce : Value n.Real → Option n.Real) where
  open n use {Real, ratio, mul, lt}

  above→ :
      (v : Option Real) (x : Real)
      → above n coerce v x ≡ true
      → (r : Real) × (v ≡ some r) × (lt x r ≡ true)
  above→ none x h = absurd (cc h)
  above→ (some r) x h = (r, refl, h)

  -- A pair as it is after loading, whatever was stored.
  pub record IsLoaded (originals : List (CryptoPair Real)) (p : SavedPair Real) : Type 0 where
    -- it has the symbol of an original
    pub original : CryptoPair Real
    pub listed : In original originals
    pub same_symbol : p.symbol ≡ text_value original.symbol
    -- its step is a number above zero
    pub step : Real
    pub step_is : p.price_step ≡ number_value step
    pub positive : lt (lit n 0) step ≡ true
    -- its price is that of the original, or counts as a number between a tenth and ten times of it
    pub price_cases :
        (p.price ≡ number_value original.price)
        ⊎ ((r : Real) × (coerce p.price ≡ some r)
            × (lt (mul original.price (ratio 1 10)) r ≡ true)
            × (lt r (mul original.price (lit n 10)) ≡ true))

  module _ (coerce_number : (r : Real) → coerce (number_value r) ≡ some r)
      (originals : List (CryptoPair Real))
      (steps : All (λ o. lt (lit n 0) o.price_step ≡ true) originals) where
    price_of :
        (o : CryptoPair Real) (v : Value Real)
        → is_reasonable_price n coerce o v ≡ true
        → (r : Real) × (coerce v ≡ some r)
          × (lt (mul o.price (ratio 1 10)) r ≡ true)
          × (lt r (mul o.price (lit n 10)) ≡ true)
    unfolding is_reasonable_price
    price_of o v h =
        let a = above n coerce (coerce v) (mul o.price (ratio 1 10)) in
        let b = below n coerce (coerce v) (mul o.price (lit n 10)) in
        let ab = and_left (a && b) (is_not_nan n coerce (coerce v)) h in
        let (r, e, g) = above→ (coerce v) (mul o.price (ratio 1 10)) (and_left a b ab) in
        (r, e, g, ap (λ w. below n coerce w (mul o.price (lit n 10))) (sym e) ∙ and_right a b ab)

    step_of :
        (v : Value Real)
        → is_reasonable_step n coerce v ≡ true
        → (r : Real) × (v ≡ number_value r) × (lt (lit n 0) r ≡ true)
    unfolding is_reasonable_step
    step_of v h =
        let a = above n coerce (coerce v) (lit n 0) in
        let b = is_not_nan n coerce (coerce v) in
        let (r, e) = is_number→≡ v (and_right (a && b) (is_number v) h) in
        let (q, c, g) =
          above→ (coerce v) (lit n 0) (and_left a b (and_left (a && b) (is_number v) h)) in
        let same : q ≡ r = cc (sym c ∙ ap coerce e ∙ coerce_number r) in
        (r, e, ap (lt (lit n 0)) (sym same) ∙ g)

    price_cases_of :
        (o : CryptoPair Real) (p : SavedPair Real)
        → ((sanitized n coerce o p).price ≡ number_value o.price)
          ⊎ ((r : Real) × (coerce (sanitized n coerce o p).price ≡ some r)
              × (lt (mul o.price (ratio 1 10)) r ≡ true)
              × (lt r (mul o.price (lit n 10)) ≡ true))
    unfolding sanitized
    price_cases_of o p = elim (Bool-cases (is_reasonable_price n coerce o p.price)) [
      | inl e ↦ let (r, c, g, k) = price_of o p.price e in inr (r, ap coerce (rw e refl) ∙ c, g, k)
      | inr e ↦ inl (rw e refl)
    ]

    step_of_sanitized :
        (o : CryptoPair Real) (p : SavedPair Real)
        → In o originals
        → (r : Real) × ((sanitized n coerce o p).price_step ≡ number_value r)
          × (lt (lit n 0) r ≡ true)
    unfolding sanitized
    step_of_sanitized o p i = elim (Bool-cases (is_reasonable_step n coerce p.price_step)) [
      | inl e ↦ let (r, c, g) = step_of p.price_step e in (r, rw e c, g)
      | inr e ↦ (
        o.price_step,
        rw e refl,
        All-In (λ (u : CryptoPair Real). lt (lit n 0) u.price_step ≡ true) o originals steps i,
      )
    ]

    sanitized-IsLoaded :
        (o : CryptoPair Real) (p : SavedPair Real)
        → In o originals
        → is_symbol o.symbol p.symbol ≡ true
        → IsLoaded originals (sanitized n coerce o p)
    unfolding sanitized
    sanitized-IsLoaded o p i t =
        let (r, e, g) = step_of_sanitized o p i in
        record {
          original = o;
          listed = i;
          same_symbol = is_symbol→≡ o.symbol p.symbol t;
          step = r;
          step_is = e;
          positive = g;
          price_cases = price_cases_of o p;
        }

    as_saved-IsLoaded :
        (o : CryptoPair Real) → In o originals → IsLoaded originals (as_saved n coerce o)
    as_saved-IsLoaded o i = record {
      original = o;
      listed = i;
      same_symbol = refl;
      step = o.price_step;
      step_is = refl;
      positive =
          All-In (λ (u : CryptoPair Real). lt (lit n 0) u.price_step ≡ true) o originals steps i;
      price_cases = inl refl;
    }

    All-map_saved :
        (os : List (CryptoPair Real))
        → All (λ o. In o originals) os
        → All (IsLoaded originals) (map (as_saved n coerce) os)
    All-map_saved [] h = tt
    All-map_saved (o ∷ os) h = (as_saved-IsLoaded o h.0, All-map_saved os h.1)

    -- What comes of the stored elements, if none is null.
    AreLoaded : Option (List (SavedPair Real)) → Type 0
    AreLoaded none = Unit
    AreLoaded (some ps) = All (IsLoaded originals) ps

    sanitized_all-AreLoaded :
        (items : List (SavedItem Real)) → AreLoaded (sanitized_all n coerce originals items)
    unfolding sanitized_all AreLoaded
    sanitized_all-AreLoaded [] = tt
    sanitized_all-AreLoaded (null_item ∷ items) = tt
    sanitized_all-AreLoaded (saved_item p ∷ items) =
        elim (Option-cases (sanitized_all n coerce originals items)) [
          | inl e ↦ rw e tt
          | inr (ps, e) ↦
              let h = subst AreLoaded e (sanitized_all-AreLoaded items) in
              elim (Option-cases
                (find? (λ (o : CryptoPair Real). is_symbol o.symbol p.symbol) originals)) [
                  | inl f ↦ rw (e, f) h
                  | inr (o, f) ↦
                      let (i, t) =
                        find?-In (λ (o : CryptoPair Real). is_symbol o.symbol p.symbol) originals o
                          f in
                      rw (e, f) (sanitized-IsLoaded o p i t, h)
                ]
        ]

    or_originals-IsLoaded :
        (o : Option (List (SavedPair Real)))
        → AreLoaded o
        → All (IsLoaded originals) (or_originals n coerce originals o)
    unfolding AreLoaded
    or_originals-IsLoaded none h = All-map_saved originals (All-of_In _ originals (λ o i. i))
    or_originals-IsLoaded (some []) h = All-map_saved originals (All-of_In _ originals (λ o i. i))
    or_originals-IsLoaded (some (p ∷ ps)) h = h

    -- Whatever was stored, every pair that is loaded has the symbol of an original, a step that is
    -- a number above zero, and a price that is that of the original or counts as a number between a
    -- tenth and ten times of it, if the originals have steps above zero.
    pub load_pairs-IsLoaded :
        (stored : Option (List (SavedItem Real)))
        → All (IsLoaded originals) (load_pairs n coerce originals stored)
    unfolding load_pairs
    load_pairs-IsLoaded none = All-map_saved originals (All-of_In _ originals (λ o i. i))
    load_pairs-IsLoaded (some items) =
        or_originals-IsLoaded (sanitized_all n coerce originals items)
          (sanitized_all-AreLoaded items)
