-- ===== src/Drawings/Selected.antt =====
-- The selected drawing among the chart's drawings.
use test_v.Shared.{
  ℕ, suc, Bool, true, false, not, ◌≡◌, ◌≢◌, refl, subst, ◌∙◌, ◌⊎◌, inl, inr, Option, none, some,
  List, [], ◌∷◌, ◌++◌, map, filter, find?, reverse, length, ◌==◌, arith,
}
use mathlib.Core.List.{reverse-cons}
use test_v.Drawings.{Drawing}
use test_v.Drawings.Ids.{AreDistinct, AreOthers}

module _ {R : Type 0} where
  -- One of the drawings has the id.
  unfoldable pub HasId : ℕ → List (Drawing R) → Type 0
  HasId i [] = ⊥
  HasId i (d ∷ ds) = (d.id ≡ i) ⊎ HasId i ds

  -- The selection is empty or one of the drawings.
  unfoldable pub IsSelected : Option ℕ → List (Drawing R) → Type 0
  unfolding HasId
  IsSelected none ds = Unit
  IsSelected (some i) ds = HasId i ds

  pub HasId-append : (i : ℕ) (ds es : List (Drawing R)) → HasId i ds → HasId i (ds ++ es)
  unfolding HasId
  HasId-append i [] es h = absurd h
  HasId-append i (d ∷ ds) es (inl e) = inl e
  HasId-append i (d ∷ ds) es (inr h) = inr (HasId-append i ds es h)

  HasId-append_right : (i : ℕ) (ds es : List (Drawing R)) → HasId i es → HasId i (ds ++ es)
  unfolding HasId
  HasId-append_right i [] es h = h
  HasId-append_right i (d ∷ ds) es h = inr (HasId-append_right i ds es h)

  pub HasId-map :
      (f : Drawing R → Drawing R)
      → ((d : Drawing R) → (f d).id ≡ d.id)
      → (i : ℕ) (ds : List (Drawing R)) → HasId i ds
      → HasId i (map f ds)
  unfolding HasId
  HasId-map f same i [] h = absurd h
  HasId-map f same i (d ∷ ds) (inl e) = inl (same d ∙ e)
  HasId-map f same i (d ∷ ds) (inr h) = inr (HasId-map f same i ds h)

  pub HasId-find :
      (p : Drawing R → Bool) (ds : List (Drawing R)) (d : Drawing R)
      → find? p ds ≡ some d
      → HasId d.id ds
  unfolding HasId
  HasId-find p [] d e = absurd (cc e)
  HasId-find p (c ∷ ds) d e = ground (arith, HasId-find p ds d)

  HasId-ne : (i j : ℕ) (ds : List (Drawing R)) → AreOthers j ds → HasId i ds → i ≢ j
  unfolding HasId
  HasId-ne i j [] h k = absurd k
  HasId-ne i j (d ∷ ds) h (inl e) = λ q. h.0 (e ∙ q)
  HasId-ne i j (d ∷ ds) h (inr k) = HasId-ne i j ds h.1 k

  HasId-snoc :
      (i : ℕ) (ds : List (Drawing R)) (d : Drawing R) → HasId i (ds ++ d ∷ []) → HasId i (d ∷ ds)
  unfolding HasId
  HasId-snoc i [] d h = h
  HasId-snoc i (c ∷ ds) d (inl e) = inr (inl e)
  HasId-snoc i (c ∷ ds) d (inr h) = elim (HasId-snoc i ds d h) [
    | inl e ↦ inl e
    | inr k ↦ inr (inr k)
  ]

  pub HasId-reverse : (i : ℕ) (ds : List (Drawing R)) → HasId i (reverse ds) → HasId i ds
  unfolding HasId
  HasId-reverse i [] h = absurd h
  HasId-reverse i (d ∷ ds) h =
      elim (HasId-snoc i (reverse ds) d (subst (HasId i) (reverse-cons d ds) h)) [
        | inl e ↦ inl e
        | inr k ↦ inr (HasId-reverse i ds k)
      ]

  filter_others :
      (i : ℕ) (ds : List (Drawing R))
      → AreOthers i ds
      → filter (λ (d : Drawing R). not (d.id == i)) ds ≡ ds
  filter_others i [] h = refl
  filter_others i (d ∷ ds) h =
      let ne : (d.id == i) ≡ false = grind (arith, h.0) in rw (ne, filter_others i ds h.1)

  -- Among distinct ids, one drawing goes.
  pub length-filter_one :
      (i : ℕ) (ds : List (Drawing R))
      → AreDistinct ds
      → HasId i ds
      → suc (length (filter (λ (d : Drawing R). not (d.id == i)) ds)) ≡ length ds
  unfolding AreDistinct HasId
  length-filter_one i [] h k = absurd k
  length-filter_one i (d ∷ ds) h (inl e) =
      let q : (d.id == i) ≡ true = ground arith in
      let o : AreOthers i ds = subst (λ j. AreOthers j ds) e h.0 in rw (q, filter_others i ds o)
  length-filter_one i (d ∷ ds) h (inr k) =
      let ne = HasId-ne i d.id ds h.0 k in
      let q : (d.id == i) ≡ false = ground arith in rw (q, length-filter_one i ds h.1 k)
