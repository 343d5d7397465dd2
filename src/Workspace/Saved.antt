-- ===== src/Workspace/Saved.antt =====
-- What the saving effects of the settings leave in the storage.
use test_v.Shared.{
  Bool, true, not, ◌&&◌, ◌≡◌, ◌≢◌, refl, sym, ap, subst, ◌∙◌, inl, inr, Option, none, some, List,
  [], ◌∷◌, map, All, Bool-cases,
}
use test_v.Shared.Unique.{IsUnique}
use test_v.Shared.Text.{Text, text_eq, text_eq_refl, text_eq→eq}
use test_v.Storage.{returned, LocalStorage, StorageLaws, storage_set}
use test_v.Workspace.{Workspace, Json}
use test_v.Workspace.Effects.{
  entries, effects, save_all, last_entries, settle, SettingsAction, act_on_settings, first_render,
  act_all,
}
use test_v.Workspace.Settled.{effects_same, effects_settle}

-- A storage that refuses no text.
abbrev pub Accepts : LocalStorage → Type 0
Accepts l = (k v : Text) (s : l.Content) → (s' : l.Content) × (l.set_item k v s ≡ returned s')

-- No key comes twice, decided.
abbrev lacks : Text → List Text → Bool
lacks k [] = true
lacks k (x ∷ xs) = not (text_eq x k) && lacks k xs

abbrev distinct : List Text → Bool
distinct [] = true
distinct (x ∷ xs) = lacks x xs && distinct xs

lacks-All : (k : Text) (xs : List Text) → lacks k xs ≡ true → All (λ x. x ≢ k) xs
lacks-All k [] h = tt
lacks-All k (x ∷ xs) h = elim (Bool-cases (text_eq x k)) [
  | inl e ↦ absurd (cc (h, e))
  | inr e ↦
      (λ p. cc (e, ap (λ y. text_eq y k) p, text_eq_refl k), lacks-All k xs (sym (rw e refl) ∙ h))
]

distinct-IsUnique : (xs : List Text) → distinct xs ≡ true → IsUnique xs
distinct-IsUnique [] h = tt
distinct-IsUnique (x ∷ xs) h = elim (Bool-cases (lacks x xs)) [
  | inl e ↦ (lacks-All x xs e, distinct-IsUnique xs (sym (rw e refl) ∙ h))
  | inr e ↦ absurd (cc (h, e))
]

abbrev pub keys : List (Text × Text) → List Text
keys es = map (λ e. e.0) es

entries-IsUnique : (w : Workspace) → IsUnique (keys (entries w))
unfolding entries text_eq
entries-IsUnique w = distinct-IsUnique (keys (entries w)) refl

keys-entries : (v w : Workspace) → keys (entries v) ≡ keys (entries w)
unfolding entries
keys-entries v w = refl

module _ (l : LocalStorage) (laws : StorageLaws l) (accepts : Accepts l) where
  open l use {Content, get_item, set_item}

  -- The storage has each entry.
  abbrev pub Holds : Content → List (Text × Text) → Type 0
  Holds s es = All (λ e. get_item e.0 s ≡ returned (some e.1)) es

  get_item-storage_set :
      (k v : Text) (s : Content) → get_item k (storage_set l k v s) ≡ returned (some v)
  unfolding storage_set
  get_item-storage_set k v s = let (s', e) = accepts k v s in rw e (laws.get-set k v s s' e)

  get_item-storage_set_ne :
      (j k v : Text) (s : Content) → j ≢ k → get_item j (storage_set l k v s) ≡ get_item j s
  unfolding storage_set
  get_item-storage_set_ne j k v s ne =
      let (s', e) = accepts k v s in rw e (laws.get-set_ne j k v s s' ne e)

  -- Other keys keep their texts.
  save_all_other :
      (j : Text) (os es : List (Text × Text)) (s : Content)
      → All (λ k. k ≢ j) (keys es)
      → get_item j (save_all l os es s) ≡ get_item j s
  unfolding save_all
  save_all_other j [] [] s h = refl
  save_all_other j (o ∷ os) [] s h = refl
  save_all_other j [] (e ∷ es) s h =
      save_all_other j [] es (storage_set l e.0 e.1 s) h.1
      ∙ get_item-storage_set_ne j e.0 e.1 s (λ p. h.0 (sym p))
  save_all_other j (o ∷ os) (e ∷ es) s h = elim (Bool-cases (text_eq o.1 e.1)) [
    | inl q ↦ rw q (save_all_other j os es s h.1)
    | inr q ↦ rw q (
        save_all_other j os es (storage_set l e.0 e.1 s) h.1
        ∙ get_item-storage_set_ne j e.0 e.1 s (λ p. h.0 (sym p)))
  ]

  -- What was rendered last is in the storage, or nothing was.
  abbrev Ready : Content → List (Text × Text) → List (Text × Text) → Type 0
  Ready s [] es = Unit
  Ready s (o ∷ os) [] = Unit
  Ready s (o ∷ os) (e ∷ es) = (o.0 ≡ e.0) × (get_item o.0 s ≡ returned (some o.1)) × Ready s os es

  Ready-of :
      (s : Content) (os es : List (Text × Text)) → keys os ≡ keys es → Holds s os → Ready s os es
  Ready-of s [] es p h = tt
  Ready-of s (o ∷ os) [] p h = tt
  Ready-of s (o ∷ os) (e ∷ es) p h = (cc p, h.0, Ready-of s os es (cc p) h.1)

  Ready-set :
      (k v : Text) (s : Content) (os es : List (Text × Text))
      → All (λ j. j ≢ k) (keys es)
      → Ready s os es
      → Ready (storage_set l k v s) os es
  Ready-set k v s [] es h r = tt
  Ready-set k v s (o ∷ os) [] h r = tt
  Ready-set k v s (o ∷ os) (e ∷ es) h r = (
    r.0,
    get_item-storage_set_ne o.0 k v s (λ p. h.0 (sym r.0 ∙ p)) ∙ r.1,
    Ready-set k v s os es h.1 r.2,
  )

  save_all-Holds :
      (os es : List (Text × Text)) (s : Content)
      → IsUnique (keys es)
      → Ready s os es
      → Holds (save_all l os es s) es
  unfolding save_all
  save_all-Holds [] [] s u r = tt
  save_all-Holds (o ∷ os) [] s u r = tt
  save_all-Holds [] (e ∷ es) s u r = (
    save_all_other e.0 [] es (storage_set l e.0 e.1 s) u.0 ∙ get_item-storage_set e.0 e.1 s,
    save_all-Holds [] es (storage_set l e.0 e.1 s) u.1 tt,
  )
  save_all-Holds (o ∷ os) (e ∷ es) s u r = elim (Bool-cases (text_eq o.1 e.1)) [
    | inl q ↦
        subst (λ t. Holds t (e ∷ es)) (rw q refl)
          (
            save_all_other e.0 os es s u.0
                ∙ subst (λ k. get_item k s ≡ returned (some e.1)) r.0
                    (r.1 ∙ ap (λ t. returned (some t)) (text_eq→eq o.1 e.1 q)),
            save_all-Holds os es s u.1 r.2,
          )
    | inr q ↦
        subst (λ t. Holds t (e ∷ es)) (rw q refl)
          (
            save_all_other e.0 os es (storage_set l e.0 e.1 s) u.0 ∙ get_item-storage_set e.0 e.1 s,
            save_all-Holds os es (storage_set l e.0 e.1 s) u.1 (Ready-set e.0 e.1 s os es u.0 r.2),
          )
  ]

  -- A render leaves what it shows in the storage.
  render-Holds :
      (p w : Workspace) (s : Content)
      → Holds s (entries p)
      → Holds (save_all l (entries p) (entries w) s) (entries w)
  render-Holds p w s h =
      save_all-Holds (entries p) (entries w) s (entries-IsUnique w)
        (Ready-of s (entries p) (entries w) (keys-entries p w) h)

  first-Holds : (w : Workspace) (s : Content) → Holds (save_all l [] (entries w) s) (entries w)
  first-Holds w s = save_all-Holds [] (entries w) s (entries-IsUnique w) tt

  abbrev pub IsSaved : Workspace × Content → Type 0
  IsSaved (w, s) = Holds s (entries w)

  -- After three renders the storage has what is shown.
  three-IsSaved :
      (parsed : Option Json) (prev : Option Workspace) (w : Workspace) (s : Content)
      → Holds (save_all l (last_entries prev) (entries w) s) (entries w)
      → IsSaved (settle l parsed 3 prev (w, s))
  unfolding settle last_entries
  three-IsSaved parsed prev w s h =
      let w1 = effects parsed prev w in
      let w2 = effects parsed (some w) w1 in
      let s1 = save_all l (last_entries prev) (entries w) s in
      let s2 = save_all l (entries w) (entries w1) s1 in
      subst (λ v. Holds (save_all l (entries w1) (entries w2) s2) (entries v))
        (sym (effects_same parsed w1 w2 (effects_settle parsed prev w)))
        (render-Holds w1 w2 s2 (render-Holds w w1 s1 h))

  first_render-IsSaved :
      (parsed : Option Json) (w : Workspace) (s : Content) → IsSaved (first_render l parsed w s)
  unfolding first_render
  first_render-IsSaved parsed w s = three-IsSaved parsed none w s (first-Holds w s)

  -- After any actions the storage has the settings that are shown.
  act_all-IsSaved :
      (actions : List (Option Json × SettingsAction)) (x : Workspace × Content)
      → IsSaved x
      → IsSaved (act_all l actions x)
  unfolding act_all
  act_all-IsSaved [] x h = h
  act_all-IsSaved (a ∷ more) (w, s) h = act_all-IsSaved more _ (
      three-IsSaved a.0 (some w) (act_on_settings a.0 a.1 w) s
        (render-Holds w (act_on_settings a.0 a.1 w) s h))

  pub run-IsSaved :
      (parsed : Option Json) (w : Workspace) (s : Content)
      (actions : List (Option Json × SettingsAction))
      → IsSaved (act_all l actions (first_render l parsed w s))
  run-IsSaved parsed w s actions = act_all-IsSaved actions _ (first_render-IsSaved parsed w s)
