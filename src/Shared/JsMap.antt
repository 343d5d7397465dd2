-- ===== src/Shared/JsMap.antt =====
-- JavaScript's `Map` with text keys, in order of insertion: `set` keeps the place of a key that is
-- there, `delete` drops it.
use test_v.Shared.Text.{Text, text_eq, text_eq_iff, text_eq_refl}
use test_v.Shared.Tests.{if◌then◌else◌, Bool-cases}
use test_v.Shared.Members.{All}
use mathlib.Core.Path.{◌≡◌, refl, ap, sym, ◌∙◌}
use mathlib.Core.Bool.{false}
use mathlib.Core.Option.{Option, none, some}
use mathlib.Core.List.{List, [], ◌∷◌, map}
use mathlib.Core.Logic.{inl, inr}
use native.Mathlib.Omega.{arith}

module _ {ℓ} {V : Type ℓ} where
  unfoldable pub get : Text → List (Text × V) → Option V
  get k [] = none
  get k ((j, v) ∷ m) = if text_eq j k then some v else get k m

  unfoldable pub put : Text → V → List (Text × V) → List (Text × V)
  put k v [] = (k, v) ∷ []
  put k v ((j, w) ∷ m) = if text_eq j k then (j, v) ∷ m else (j, w) ∷ put k v m

  unfoldable pub delete : Text → List (Text × V) → List (Text × V)
  delete k [] = []
  delete k ((j, w) ∷ m) = if text_eq j k then delete k m else (j, w) ∷ delete k m

  abbrev pub keys : List (Text × V) → List Text
  keys m = map (λ e. e.0) m

  abbrev pub values : List (Text × V) → List V
  values m = map (λ e. e.1) m

  pub get-put_self : (k : Text) (v : V) (m : List (Text × V)) → get k (put k v m) ≡ some v
  unfolding get put
  get-put_self k v [] = rw (text_eq_refl k)
  get-put_self k v ((j, w) ∷ m) = ground (arith, get-put_self k v m)

  pub get-put_ne :
      (k q : Text) (v : V) (m : List (Text × V)) → text_eq k q ≡ false → get q (put k v m) ≡ get q m
  unfolding get put
  get-put_ne k q v [] h = rw h
  get-put_ne k q v ((j, w) ∷ m) h = ground (arith, get-put_ne k q v m h, text_eq_iff j k)

  pub get-delete_self : (k : Text) (m : List (Text × V)) → get k (delete k m) ≡ none
  unfolding get delete
  get-delete_self k [] = refl
  get-delete_self k ((j, w) ∷ m) = ground (arith, get-delete_self k m)

  pub get-delete_ne :
      (k q : Text) (m : List (Text × V)) → text_eq k q ≡ false → get q (delete k m) ≡ get q m
  unfolding get delete
  get-delete_ne k q [] h = refl
  get-delete_ne k q ((j, w) ∷ m) h = ground (arith, get-delete_ne k q m h, text_eq_iff j k)

-- What `put` and `delete` do to the keys does not depend on the values.
abbrev put_key : Text → List Text → List Text
put_key k [] = k ∷ []
put_key k (j ∷ js) = if text_eq j k then j ∷ js else j ∷ put_key k js

abbrev delete_key : Text → List Text → List Text
delete_key k [] = []
delete_key k (j ∷ js) = if text_eq j k then delete_key k js else j ∷ delete_key k js

module _ {ℓ} {V : Type ℓ} where
  keys-put : (k : Text) (v : V) (m : List (Text × V)) → keys (put k v m) ≡ put_key k (keys m)
  unfolding put
  keys-put k v [] = refl
  keys-put k v ((j, w) ∷ m) = elim (Bool-cases (text_eq j k)) [
    | inl e ↦ rw e
    | inr e ↦ rw e (ap (◌∷◌ j) (keys-put k v m))
  ]

  keys-delete : (k : Text) (m : List (Text × V)) → keys (delete k m) ≡ delete_key k (keys m)
  unfolding delete
  keys-delete k [] = refl
  keys-delete k ((j, w) ∷ m) = elim (Bool-cases (text_eq j k)) [
    | inl e ↦ rw e (keys-delete k m)
    | inr e ↦ rw e (ap (◌∷◌ j) (keys-delete k m))
  ]

module _ {ℓ κ} {V : Type ℓ} {W : Type κ} where
  -- Two maps with the same keys keep them so.
  pub keys-put_same :
      (k : Text) (v : V) (w : W) (m : List (Text × V)) (m' : List (Text × W))
      → keys m ≡ keys m'
      → keys (put k v m) ≡ keys (put k w m')
  keys-put_same k v w m m' h = keys-put k v m ∙ (ap (put_key k) h ∙ sym (keys-put k w m'))

  pub keys-delete_same :
      (k : Text) (m : List (Text × V)) (m' : List (Text × W))
      → keys m ≡ keys m'
      → keys (delete k m) ≡ keys (delete k m')
  keys-delete_same k m m' h = keys-delete k m ∙ (ap (delete_key k) h ∙ sym (keys-delete k m'))

module _ {ℓ κ} {V : Type ℓ} (P : Text × V → Type κ) where
  pub put-All :
      (k : Text) (v : V) (m : List (Text × V))
      → ((j : Text) → j ≡ k → P (j, v))
      → All P m
      → All P (put k v m)
  unfolding put
  put-All k v [] new h = (new k refl, tt)
  put-All k v ((j, w) ∷ m) new h = elim (Bool-cases (text_eq j k)) [
    | inl e ↦ rw e (new j ((text_eq_iff j k).0 e), h.1)
    | inr e ↦ rw e (h.0, put-All k v m new h.1)
  ]

  pub delete-All : (k : Text) (m : List (Text × V)) → All P m → All P (delete k m)
  unfolding delete
  delete-All k [] h = tt
  delete-All k ((j, w) ∷ m) h = elim (Bool-cases (text_eq j k)) [
    | inl e ↦ rw e (delete-All k m h.1)
    | inr e ↦ rw e (h.0, delete-All k m h.1)
  ]
