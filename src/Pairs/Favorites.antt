-- ===== src/Pairs/Favorites.antt =====
-- The favourites after any clicks.
use test_v.Shared.{
  Bool, true, false, not, ◌≡◌, refl, ap, subst, ◌∙◌, inl, inr, List, [], ◌∷◌, ◌++◌, filter,
  Bool-cases, if◌then◌else◌, arith,
}
use test_v.Shared.Text.{Text, text_eq, text_eq_refl, text_eq→eq}
use test_v.Storage.{LocalStorage, Json}
use test_v.Pairs.{
  Market, spot, futures, FavoriteLists, favorites_of, with_favorites, has_symbol, toggled,
  toggle_favorite_symbol,
}

has_symbol-append :
    (t s : Text) (xs : List Text)
    → has_symbol t (xs ++ s ∷ []) ≡ (if text_eq s t then true else has_symbol t xs)
unfolding has_symbol
has_symbol-append t s [] = refl
has_symbol-append t s (x ∷ xs) = grind (arith, has_symbol-append t s xs)

has_symbol-filter_gone :
    (s : Text) (xs : List Text) → has_symbol s (filter (λ x. not (text_eq x s)) xs) ≡ false
unfolding has_symbol
has_symbol-filter_gone s [] = refl
has_symbol-filter_gone s (x ∷ xs) = elim (Bool-cases (text_eq x s)) [
  | inl e ↦ rw e (has_symbol-filter_gone s xs)
  | inr e ↦ rw (e, e) (has_symbol-filter_gone s xs)
]

has_symbol-filter_other :
    (t s : Text) (xs : List Text)
    → text_eq s t ≡ false
    → has_symbol t (filter (λ x. not (text_eq x s)) xs) ≡ has_symbol t xs
unfolding has_symbol
has_symbol-filter_other t s [] h = refl
has_symbol-filter_other t s (x ∷ xs) h = elim (Bool-cases (text_eq x s)) [
  | inl e ↦
      let q : text_eq x t ≡ false = ap (λ y. text_eq y t) (text_eq→eq x s e) ∙ h in
      rw (e, q) (has_symbol-filter_other t s xs h)
  | inr e ↦ rw (e, has_symbol-filter_other t s xs h) refl
]

-- One click: the symbol changes sides, any other stays.
has_symbol-toggled :
    (t s : Text) (xs : List Text)
    → has_symbol t (toggled s xs) ≡ (if text_eq s t then not (has_symbol t xs) else has_symbol t xs)
unfolding toggled
has_symbol-toggled t s xs = elim (Bool-cases (text_eq s t)) [
  | inl e ↦
      let q : s ≡ t = text_eq→eq s t e in
      subst
        (λ u.
          has_symbol u
            (if has_symbol s xs then filter (λ x. not (text_eq x s)) xs else xs ++ s ∷ [])
          ≡ (if text_eq s u then not (has_symbol u xs) else has_symbol u xs))
        q
        (elim (Bool-cases (has_symbol s xs)) [
          | inl f ↦ rw (f, text_eq_refl s) (has_symbol-filter_gone s xs)
          | inr f ↦ rw (f, text_eq_refl s) (has_symbol-append s s xs ∙ rw (text_eq_refl s) refl)
        ])
  | inr e ↦ elim (Bool-cases (has_symbol s xs)) [
    | inl f ↦ rw (f, e) (has_symbol-filter_other t s xs e)
    | inr f ↦ rw (f, e) (has_symbol-append t s xs ∙ rw e refl)
  ]
]

abbrev same_market : Market → Market → Bool
same_market spot spot = true
same_market spot futures = false
same_market futures spot = false
same_market futures futures = true

-- A value that changes sides with each click on a symbol in a market.
abbrev pub flipped : Text → Market → List (Text × Market) → Bool → Bool
flipped t m [] b = b
flipped t m (c ∷ cs) b =
    flipped t m cs (if same_market c.1 m then (if text_eq c.0 t then not b else b) else b)

has_symbol-with_favorites :
    (t s : Text) (m k : Market) (f : FavoriteLists)
    → has_symbol t (favorites_of m (with_favorites k (toggled s (favorites_of k f)) f)) ≡ (
        if same_market k m
        then (if text_eq s t
            then not (has_symbol t (favorites_of m f))
            else has_symbol t (favorites_of m f))
        else has_symbol t (favorites_of m f))
has_symbol-with_favorites t s spot spot f = has_symbol-toggled t s f.spot_symbols
has_symbol-with_favorites t s spot futures f = refl
has_symbol-with_favorites t s futures spot f = refl
has_symbol-with_favorites t s futures futures f = has_symbol-toggled t s f.futures_symbols

module _ (l : LocalStorage) (j : Json FavoriteLists) where
  abbrev pub click_all :
      List (Text × Market) → FavoriteLists × l.Content → FavoriteLists × l.Content
  click_all [] x = x
  click_all (c ∷ cs) x = click_all cs (toggle_favorite_symbol l j c.0 c.1 x)

  -- After any clicks a symbol is a favourite of a market exactly if it was one and has been clicked
  -- there an even number of times, or was none and has been clicked an odd number of times, whether
  -- or not the storage takes what is written.
  pub has_symbol-click_all :
      (t : Text) (m : Market) (clicks : List (Text × Market)) (x : FavoriteLists × l.Content)
      → has_symbol t (favorites_of m (click_all clicks x).0)
        ≡ flipped t m clicks (has_symbol t (favorites_of m x.0))
  unfolding toggle_favorite_symbol
  has_symbol-click_all t m [] x = refl
  has_symbol-click_all t m (c ∷ cs) x =
      has_symbol-click_all t m cs (toggle_favorite_symbol l j c.0 c.1 x)
      ∙ ap (flipped t m cs) (has_symbol-with_favorites t c.0 m c.1 x.0)
