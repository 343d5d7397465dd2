-- ===== src/Storage.antt =====
-- The guarded storage of frontend-chart/src/lib/storage.ts.
--
-- `localStorage` and `JSON` are the browser's: they are parameters, records of operations that
-- return or throw. The warnings that the source logs are left out.
pub mod Guarded
mod Tests
use test_v.Shared.{◌≡◌, ◌≢◌, Option, none, some}
use test_v.Shared.Text.{Text}

-- What a call that may throw does.
pub data Outcome (A : Type 0) : Type 0 where
  returned : A → Outcome A
  thrown : Outcome A

-- `localStorage`, with its content as a state. Reading may throw, e.g. where access is denied;
-- writing may throw, e.g. where the quota is used up.
pub record LocalStorage : Type 1 where
  pub Content : Type 0
  pub get_item : Text → Content → Outcome (Option Text)
  pub set_item : Text → Text → Content → Outcome Content
  pub remove_item : Text → Content → Outcome Content

-- `JSON.parse` and `JSON.stringify` for values of a type.
pub record Json (T : Type 0) : Type 0 where
  pub parse : Text → Outcome T
  pub stringify : T → Outcome Text

-- A key that was written is read back, and the other keys are as before.
pub record StorageLaws (l : LocalStorage) : Type 0 where
  pub get-set :
      (k v : Text) (s s' : l.Content)
      → l.set_item k v s ≡ returned s'
      → l.get_item k s' ≡ returned (some v)
  pub get-set_ne :
      (j k v : Text) (s s' : l.Content)
      → j ≢ k
      → l.set_item k v s ≡ returned s'
      → l.get_item j s' ≡ l.get_item j s

-- A value that was written as a text is parsed again.
pub record JsonLaws {T : Type 0} (j : Json T) : Type 0 where
  pub parse-stringify : (x : T) (t : Text) → j.stringify x ≡ returned t → j.parse t ≡ returned x

-- `try { ... } catch { ... }`
abbrev pub try_or : {A : Type 0} → A → Outcome A → A
try_or a (returned b) = b
try_or a thrown = a

module _ (l : LocalStorage) where
  open l use {Content}

  unfoldable pub storage_get : Text → Content → Option Text
  storage_get key s = try_or none (l.get_item key s)

  unfoldable pub storage_set : Text → Text → Content → Content
  storage_set key value s = try_or s (l.set_item key value s)

  unfoldable pub storage_remove : Text → Content → Content
  storage_remove key s = try_or s (l.remove_item key s)

  module _ {T : Type 0} (j : Json T) where
    -- The text that was read, or none, as a value.
    unfoldable pub parsed_or : T → Option Text → T
    parsed_or fallback none = fallback
    parsed_or fallback (some raw) = try_or fallback (j.parse raw)

    unfoldable pub get_json : Text → T → Content → T
    unfolding storage_get parsed_or
    get_json key fallback s = parsed_or fallback (storage_get key s)

    -- The text of the value, or an exception, is written.
    unfoldable pub written : Text → Content → Outcome Text → Content
    unfolding storage_set
    written key s (returned text) = storage_set key text s
    written key s thrown = s

    unfoldable pub set_json : Text → T → Content → Content
    unfolding written
    set_json key value s = written key s (j.stringify value)
