-- ===== src/Indicators/Saved.antt =====
-- What is saved and what is loaded.
use test_v.Shared.{
  ◌≡◌, refl, ap, ◌∙◌, Option, none, some, List, [], ◌∷◌, map, find?, arith, inl, inr, Bool-cases,
}
use test_v.Shared.Text.{Text, text_eq, text_eq→eq}
use test_v.Indicators.{Indicator, spread}
use test_v.Indicators.Draft.{is_id}
use test_v.Indicators.Load.{
  SavedIndicator, IndicatorModule, default_of, restored, with_saved, load_parsed, saved_id,
  saved_of, load_indicators,
}

module _ {V : Type 0} where
  find?-saved_of :
      (id : Text) (ds : List (Indicator V)) (i : Indicator V)
      → find? (is_id id) ds ≡ some i
      → find? (saved_id id) (map saved_of ds) ≡ some (saved_of i)
  unfolding saved_of
  find?-saved_of id [] i h = absurd (cc)
  find?-saved_of id (x ∷ xs) i h = elim (Bool-cases (text_eq x.id id)) [
    | inl e ↦ let same : x ≡ i = ground (arith, h, e) in rw (e, same) refl
    | inr e ↦ rw e (find?-saved_of id xs i (ground (arith, h, e)))
  ]

  restored-id : (o : Option (SavedIndicator V)) (d : Indicator V) → (restored o d).id ≡ d.id
  unfolding restored
  restored-id none d = refl
  restored-id (some s) d = refl

  find?-restored :
      (id : Text) (parsed : List (SavedIndicator V)) (ds : List (Indicator V)) (d : Indicator V)
      → find? (is_id id) ds ≡ some d
      → find? (is_id id) (map (λ x. restored (find? (saved_id x.id) parsed) x) ds)
        ≡ some (restored (find? (saved_id id) parsed) d)
  unfolding restored
  find?-restored id parsed [] d h = absurd (cc)
  find?-restored id parsed (x ∷ xs) d h = elim (Bool-cases (text_eq x.id id)) [
    | inl e ↦
        let same : x ≡ d = ground (arith, h, e) in
        let name : x.id ≡ id = text_eq→eq x.id id e in
        rw (restored-id (find? (saved_id x.id) parsed) x, e)
          (ap (λ k. some (restored (find? (saved_id k) parsed) x)) name
            ∙ ap (λ z. some (restored (find? (saved_id id) parsed) z)) same)
    | inr e ↦
        rw (restored-id (find? (saved_id x.id) parsed) x, e)
          (find?-restored id parsed xs d (ground (arith, h, e)))
  ]

  -- A module's indicator that was in the list when it was saved comes back active or not, favourite or
  -- not and with the settings it had, over the defaults; the rest of it is the module's.
  load_indicators-saved_of :
      (id : Text) (modules : List (IndicatorModule V)) (ds : List (Indicator V)) (d i : Indicator V)
      → find? (is_id id) (map default_of modules) ≡ some d
      → find? (is_id id) ds ≡ some i
      → find? (is_id id) (load_indicators modules (some (map saved_of ds)))
        ≡ some (record d {
          is_active = i.is_active;
          is_favorite = i.is_favorite;
          settings = spread d.settings i.settings;
        })
  unfolding load_indicators load_parsed restored with_saved saved_of
  load_indicators-saved_of id modules ds d i hd hi =
      find?-restored id (map saved_of ds) (map default_of modules) d hd
      ∙ ap (λ o. some (restored o d)) (find?-saved_of id ds i hi)

  map-restored :
      (parsed : List (SavedIndicator V)) (ds : List (Indicator V))
      → map (λ x. x.id) (map (λ x. restored (find? (saved_id x.id) parsed) x) ds)
        ≡ map (λ x. x.id) ds
  map-restored parsed [] = refl
  map-restored parsed (x ∷ xs) =
      ap (λ k. k ∷ map (λ y. y.id) (map (λ y. restored (find? (saved_id y.id) parsed) y) xs))
        (restored-id (find? (saved_id x.id) parsed) x)
      ∙ ap (◌∷◌ x.id) (map-restored parsed xs)

  -- Whatever is saved, the loaded list has the indicators of the modules, in the order of the modules.
  pub map-load_indicators :
      (modules : List (IndicatorModule V)) (parsed : Option (List (SavedIndicator V)))
      → map (λ x. x.id) (load_indicators modules parsed) ≡ map (λ x. x.id) (map default_of modules)
  unfolding load_indicators load_parsed
  map-load_indicators modules none = refl
  map-load_indicators modules (some parsed) = map-restored parsed (map default_of modules)
