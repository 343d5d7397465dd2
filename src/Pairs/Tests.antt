-- ===== src/Pairs/Tests.antt =====
-- Tests and witnesses for the stored pairs and favourites.
use test_v.Shared.{ℕ, true, ◌≡◌, refl, Option, none, some, List, [], ◌∷◌, map, All}
use test_v.Shared.Text.{Text, codes, number, text_eq}
use test_v.Shared.Int.{ℤ}
use test_v.Storage.{returned, thrown, LocalStorage, Json}
use test_v.Number.{lit}
use test_v.Number.Fixed.{fixed}
use test_v.Pairs.{
  Value, undefined, null_value, object_value, bool_value, number_value, text_value, SavedPair,
  SavedItem, saved_item, CryptoPair, load_pairs, Market, spot, futures, FavoriteLists, favorites_of,
  has_symbol, toggle_favorite_symbol,
}
use test_v.Pairs.Loaded
use test_v.Pairs.Loaded.{IsLoaded}
use test_v.Pairs.Favorites
use test_v.Pairs.Favorites.{flipped, click_all}

-- `Number(x)`, for texts of digits.
abbrev coerced : Value ℤ → Option ℤ
coerced undefined = none
coerced null_value = some (lit fixed 0)
coerced object_value = none
coerced (bool_value b) = some (lit fixed 0)
coerced (number_value r) = some r
coerced (text_value t) = some (lit fixed (number 0 t))

abbrev original : ℕ → CryptoPair ℤ
original p = record { symbol = codes "BTCUSDT"; price = lit fixed p; price_step = lit fixed 2 }

abbrev stored : Value ℤ → List (SavedItem ℤ)
stored v =
    saved_item (record {
      symbol = text_value (codes "BTCUSDT");
      price = v;
      price_step = text_value (codes "5");
    })
    ∷ saved_item (record { symbol = undefined; price = undefined; price_step = undefined })
    ∷ []

-- Without a price in the list of pairs the saved one is lost.
saved_price_lost :
    map
      (λ (p : SavedPair ℤ). p.price)
      (load_pairs fixed coerced (original 0 ∷ []) (some (stored (number_value (lit fixed 50000)))))
    ≡ number_value (lit fixed 0) ∷ []
unfolding load_pairs text_eq
saved_price_lost = refl

-- A text that counts as a reasonable number stays a text.
saved_text_kept :
    map
      (λ (p : SavedPair ℤ). p.price)
      (load_pairs fixed coerced (original 100 ∷ []) (some (stored (text_value (codes "150")))))
    ≡ text_value (codes "150") ∷ []
unfolding load_pairs text_eq
saved_text_kept = refl

load_pairs-IsLoaded_example :
    All
      (IsLoaded fixed coerced (original 100 ∷ []))
      (load_pairs fixed coerced (original 100 ∷ []) (some (stored (text_value (codes "150")))))
load_pairs-IsLoaded_example =
    Loaded.load_pairs-IsLoaded fixed coerced (λ r. refl) (original 100 ∷ []) (refl, tt)
      (some (stored (text_value (codes "150"))))

-- A storage that refuses everything.
abbrev full : LocalStorage
full = record {
  Content = Text → Option Text;
  get_item = λ k s. returned (s k);
  set_item = λ k v s. thrown;
  remove_item = λ k s. thrown;
}

abbrev unwritten : Json FavoriteLists
unwritten = record { parse = λ t. thrown; stringify = λ x. returned [] }

abbrev no_favorites : FavoriteLists × (Text → Option Text)
no_favorites = (record { spot_symbols = []; futures_symbols = [] }, λ k. none)

abbrev clicks : List (Text × Market)
clicks = (codes "BTCUSDT", spot) ∷ (codes "BTCUSDT", futures) ∷ (codes "BTCUSDT", spot) ∷ []

has_symbol-click_all_example :
    has_symbol
      (codes "BTCUSDT")
      (favorites_of futures (click_all full unwritten clicks no_favorites).0)
    ≡ flipped
        (codes "BTCUSDT")
        futures
        clicks
        (has_symbol (codes "BTCUSDT") (favorites_of futures no_favorites.0))
has_symbol-click_all_example =
    Favorites.has_symbol-click_all full unwritten (codes "BTCUSDT") futures clicks no_favorites

futures_clicked :
    has_symbol
      (codes "BTCUSDT")
      (favorites_of futures (click_all full unwritten clicks no_favorites).0)
    ≡ true
unfolding toggle_favorite_symbol text_eq
futures_clicked = refl
