-- ===== src/Pairs.antt =====
-- The pairs and the favourites that frontend-chart/src/App.tsx reads from the storage, and the button
-- that changes a favourite.
--
-- What was stored is any value of JSON. `Number(x)`, by which JavaScript compares a value with a
-- number, is a parameter; it gives none for NaN. Of a pair the fields symbol, price and priceStep
-- are modelled; the others pass unchanged.
pub mod Loaded
pub mod Favorites
mod Tests
use test_v.Shared.{
  ℕ, Bool, true, false, ◌&&◌, not, Option, none, some, List, [], ◌∷◌, ◌++◌, map, filter, find?,
  if◌then◌else◌,
}
use test_v.Shared.Text.{Text, codes, text_eq}
use test_v.Storage.{LocalStorage, Json, set_json}
use test_v.Number.{Num, lit}

-- The value of a field that may be missing.
pub data Value (R : Type 0) : Type 0 where
  undefined null_value object_value : Value R
  bool_value : Bool → Value R
  number_value : R → Value R
  text_value : Text → Value R

pub record SavedPair (R : Type 0) : Type 0 where
  pub symbol : Value R
  pub price : Value R
  pub price_step : Value R

-- An element of the stored array: null, of which no field can be read, or any other value; a value
-- that is no object has no fields, which are then undefined.
pub data SavedItem (R : Type 0) : Type 0 where
  null_item : SavedItem R
  saved_item : SavedPair R → SavedItem R

pub record CryptoPair (R : Type 0) : Type 0 where
  pub symbol : Text
  pub price : R
  pub price_step : R

-- `value === text`
abbrev pub is_symbol : {R : Type 0} → Text → Value R → Bool
is_symbol t undefined = false
is_symbol t null_value = false
is_symbol t object_value = false
is_symbol t (bool_value b) = false
is_symbol t (number_value r) = false
is_symbol t (text_value u) = text_eq t u

-- `typeof value === "number"`
abbrev pub is_number : {R : Type 0} → Value R → Bool
is_number undefined = false
is_number null_value = false
is_number object_value = false
is_number (bool_value b) = false
is_number (number_value r) = true
is_number (text_value u) = false

module _ (n : Num) (coerce : Value n.Real → Option n.Real) where
  open n use {Real, ratio, mul, lt}

  -- `value > x`, `value < x` and `!isNaN(value)`, for `Number(value)`.
  abbrev pub above : Option Real → Real → Bool
  above none x = false
  above (some r) x = lt x r

  abbrev pub below : Option Real → Real → Bool
  below none x = false
  below (some r) x = lt r x

  abbrev pub is_not_nan : Option Real → Bool
  is_not_nan none = false
  is_not_nan (some r) = true

  unfoldable pub is_reasonable_price : CryptoPair Real → Value Real → Bool
  is_reasonable_price original price =
      above (coerce price) (mul original.price (ratio 1 10))
      && below (coerce price) (mul original.price (lit n 10))
      && is_not_nan (coerce price)

  unfoldable pub is_reasonable_step : Value Real → Bool
  is_reasonable_step step =
      above (coerce step) (lit n 0) && is_not_nan (coerce step) && is_number step

  -- A pair with what is not reasonable replaced.
  unfoldable pub sanitized : CryptoPair Real → SavedPair Real → SavedPair Real
  unfolding is_reasonable_price is_reasonable_step
  sanitized original p = record p {
    price = if is_reasonable_price original p.price then p.price else number_value original.price;
    price_step =
        if is_reasonable_step p.price_step then p.price_step else number_value original.price_step;
  }

  -- The pairs that have an original, sanitised; `none` where reading a field throws.
  unfoldable pub sanitized_all :
      List (CryptoPair Real) → List (SavedItem Real) → Option (List (SavedPair Real))
  unfolding sanitized
  sanitized_all originals [] = some []
  sanitized_all originals (null_item ∷ items) = none
  sanitized_all originals (saved_item p ∷ items) = elim (sanitized_all originals items) [
    | none ↦ none
    | some ps ↦ elim (find? (λ (o : CryptoPair Real). is_symbol o.symbol p.symbol) originals) [
      | none ↦ some ps
      | some o ↦ some (sanitized o p ∷ ps)
    ]
  ]

  abbrev pub as_saved : CryptoPair Real → SavedPair Real
  as_saved o = record {
    symbol = text_value o.symbol;
    price = number_value o.price;
    price_step = number_value o.price_step;
  }

  abbrev pub or_originals :
      List (CryptoPair Real) → Option (List (SavedPair Real)) → List (SavedPair Real)
  or_originals originals none = map as_saved originals
  or_originals originals (some []) = map as_saved originals
  or_originals originals (some (p ∷ ps)) = p ∷ ps

  -- `pairs` at the start; `none` is a stored value that is no array, or nothing stored.
  unfoldable pub load_pairs :
      List (CryptoPair Real) → Option (List (SavedItem Real)) → List (SavedPair Real)
  unfolding sanitized_all
  load_pairs originals none = map as_saved originals
  load_pairs originals (some items) = or_originals originals (sanitized_all originals items)

pub data Market : Type 0 where
  spot futures : Market

pub record FavoriteLists : Type 0 where
  pub spot_symbols : List Text
  pub futures_symbols : List Text

abbrev pub favorites_of : Market → FavoriteLists → List Text
favorites_of spot f = f.spot_symbols
favorites_of futures f = f.futures_symbols

abbrev pub with_favorites : Market → List Text → FavoriteLists → FavoriteLists
with_favorites spot xs f = record f { spot_symbols = xs }
with_favorites futures xs f = record f { futures_symbols = xs }

-- `list.has_symbol(symbol)`
unfoldable pub has_symbol : Text → List Text → Bool
has_symbol s [] = false
has_symbol s (x ∷ xs) = let rest = has_symbol s xs in if text_eq x s then true else rest

unfoldable pub toggled : Text → List Text → List Text
unfolding has_symbol
toggled s xs = if has_symbol s xs then filter (λ x. not (text_eq x s)) xs else xs ++ s ∷ []

-- `toggleFavorite`, with what is stored.
module _ (l : LocalStorage) (j : Json FavoriteLists) where
  unfoldable pub toggle_favorite_symbol :
      Text → Market → FavoriteLists × l.Content → FavoriteLists × l.Content
  unfolding toggled set_json
  toggle_favorite_symbol s m (f, c) =
      let updated = with_favorites m (toggled s (favorites_of m f)) f in
      (updated, set_json l j (codes "procluster_favorites") updated c)
