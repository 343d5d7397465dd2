-- ===== src/Storage/Guarded.antt =====
-- Writing a value and reading it back, where each step may fail.
use test_v.Shared.{◌≡◌, ◌≢◌, refl, ◌⊎◌, inl, inr}
use test_v.Shared.Text.{Text}
use test_v.Storage.{
  Outcome, returned, thrown, LocalStorage, Json, StorageLaws, JsonLaws, storage_get, storage_set,
  parsed_or, get_json, written, set_json,
}

Outcome-cases : {A : Type 0} (o : Outcome A) → (o ≡ thrown) ⊎ ((a : A) × (o ≡ returned a))
Outcome-cases thrown = inl refl
Outcome-cases (returned a) = inr (a, refl)

module _ (l : LocalStorage) (laws : StorageLaws l) {T : Type 0} (j : Json T)
    (json : JsonLaws j) where
  -- Writing a value under a key never fails: either the value cannot be written as a text or the
  -- browser refuses it, and then the storage stays as it was; or every later read of this key gives
  -- the value, whatever the fallback, and every other key reads as before.
  pub set_json_cases :
      (key : Text) (value : T) (s : l.Content)
      → ((j.stringify value ≡ thrown) × (set_json l j key value s ≡ s))
        ⊎ (((t : Text) × (j.stringify value ≡ returned t)
              × (l.set_item key t s ≡ thrown)
              × (set_json l j key value s ≡ s))
            ⊎ (((fallback : T) → get_json l j key fallback (set_json l j key value s) ≡ value)
                × ((other : Text) (fallback : T)
                    → other ≢ key
                    → get_json l j other fallback (set_json l j key value s)
                      ≡ get_json l j other fallback s)))
  unfolding set_json written storage_set get_json storage_get parsed_or
  set_json_cases key value s = elim (Outcome-cases (j.stringify value)) [
    | inl e ↦ inl (e, rw e)
    | inr (t, e) ↦ elim (Outcome-cases (l.set_item key t s)) [
      | inl q ↦ inr (inl (t, e, q, rw (e, q)))
      | inr (s', q) ↦ inr (
          inr (
            (λ fallback. rw (e, q, laws.get-set key t s s' q, json.parse-stringify value t e)),
            (λ other fallback h. rw (e, q, laws.get-set_ne other key t s s' h q)),
          ))
    ]
  ]
