-- ===== src/Storage/Tests.antt =====
-- Tests and witnesses for the guarded storage.
use test_v.Shared.{
  ◌≡◌, ◌≢◌, refl, subst, sym, ap, ◌∙◌, ◌⊎◌, inl, inr, Option, none, some, [], ◌∷◌, if◌then◌else◌,
  Bool-cases, ◌==◌,
}
use test_v.Shared.Text.{Text, codes, text_eq, text_eq_refl, text_eq→eq}
use test_v.Storage.{
  returned, thrown, LocalStorage, Json, StorageLaws, JsonLaws, try_or, storage_get, storage_set,
  parsed_or, get_json, written, set_json,
}
use test_v.Storage.Guarded

abbrev put_at : Text → Text → (Text → Option Text) → Text → Option Text
put_at k v s j = if text_eq j k then some v else s j

-- A storage that refuses one key.
abbrev local : LocalStorage
local = record {
  Content = Text → Option Text;
  get_item = λ k s. returned (s k);
  set_item = λ k v s. if text_eq k (codes "full") then thrown else returned (put_at k v s);
  remove_item = λ k s. returned (λ j. if text_eq j k then none else s j);
}

put_at_ne : (j k v : Text) (s : Text → Option Text) → j ≢ k → put_at k v s j ≡ s j
put_at_ne j k v s ne = elim (Bool-cases (text_eq j k)) [
  | inl e ↦ absurd (ne (text_eq→eq j k e))
  | inr e ↦ rw e
]

set_item_cases :
    (k v : Text) (s s' : Text → Option Text)
    → local.set_item k v s ≡ returned s'
    → put_at k v s ≡ s'
set_item_cases k v s s' h = elim (Bool-cases (text_eq k (codes "full"))) [
  | inl e ↦ absurd (cc (h, e))
  | inr e ↦
      let q : local.set_item k v s ≡ returned (put_at k v s) = rw e in ap (try_or s) (sym q ∙ h)
]

local_laws : StorageLaws local
local_laws = record {
  get-set = λ k v s s' h.
      let p : put_at k v s k ≡ some v = rw (text_eq_refl k) in
      ap returned (sym (ap (λ f. f k) (set_item_cases k v s s' h)) ∙ p);
  get-set_ne = λ j k v s s' ne h.
      ap returned (sym (ap (λ f. f j) (set_item_cases k v s s' h)) ∙ put_at_ne j k v s ne);
}

-- Texts in quotation marks.
abbrev quoted : Json Text
quoted = record {
  parse = λ t. elim t [ [] ↦ thrown | c ∷ cs ↦ if c == 34 then returned cs else thrown ];
  stringify = λ x. returned (34 ∷ x);
}

quoted_laws : JsonLaws quoted
quoted_laws = record {
  parse-stringify =
      λ x t e. subst (λ u. quoted.parse u ≡ returned x) (ap (λ o. try_or [] o) e) refl;
}

abbrev before : Text → Option Text
before k = none

set_json_cases_example :
    ((quoted.stringify (codes "dark") ≡ thrown)
      × (set_json local quoted (codes "theme") (codes "dark") before ≡ before))
    ⊎ (((t : Text) × (quoted.stringify (codes "dark") ≡ returned t)
          × (local.set_item (codes "theme") t before ≡ thrown)
          × (set_json local quoted (codes "theme") (codes "dark") before ≡ before))
        ⊎ (((fallback : Text)
              → get_json local quoted
                  (codes "theme")
                  fallback
                  (set_json local quoted (codes "theme") (codes "dark") before)
                ≡ codes "dark")
            × ((other : Text) (fallback : Text)
                → other ≢ codes "theme"
                → get_json local quoted other fallback
                    (set_json local quoted (codes "theme") (codes "dark") before)
                  ≡ get_json local quoted other fallback before)))
set_json_cases_example =
    Guarded.set_json_cases local local_laws quoted quoted_laws (codes "theme") (codes "dark") before

-- What is written is read, and a refused key keeps the fallback.
theme_runs :
    get_json local quoted
      (codes "theme")
      []
      (set_json local quoted (codes "theme") (codes "dark") before)
    ≡ codes "dark"
unfolding get_json set_json written storage_get storage_set parsed_or text_eq
theme_runs = refl

full_runs :
    get_json local quoted
      (codes "full")
      []
      (set_json local quoted (codes "full") (codes "dark") before)
    ≡ []
unfolding get_json set_json written storage_get storage_set parsed_or text_eq
full_runs = refl
