-- ===== src/Indicators/Limit.antt =====
-- The limit on active indicators.
use test_v.Shared.{
  ℕ, ◌+◌, ◌≤◌, Bool, true, false, not, ◌&&◌, ◌≡◌, refl, ap, Option, none, some, List, [], ◌∷◌, leb,
  length, filter, find?, arith, inl, inr, Bool-cases, Option-cases,
}
use test_v.Shared.Text.{Text, text_eq}
use test_v.Indicators.{Indicator, IndicatorSettings}
use test_v.Indicators.Draft.{
  is_id, active, change, move_indicator, toggle_active, toggle_favorite, toggle_visibility,
  deactivate_indicator, update_settings, update_selected, merge_settings, selected_indicator,
  flipped, Edit, toggling, deactivating, favoring, showing, setting, moving, edited, edits,
}
use test_v.Indicators.Count.{
  one, count, length-filter, count-move_indicator, count-change, count-change_le,
}

module _ {V : Type 0} where
  -- The identifiers are distinct, and no more indicators are active than the limit allows.
  pub record IsDraft (max_indicators : ℕ) (draft : List (Indicator V)) : Type 0 where
    pub distinct : (id : Text) → length (filter (is_id id) draft) ≤ 1
    pub limited : length (filter active draft) ≤ max_indicators

  IsDraft-count_le :
      (max_indicators : ℕ) (old new : List (Indicator V))
      → ((id : Text) → count (is_id id) new ≤ count (is_id id) old)
      → count active new ≤ count active old
      → IsDraft max_indicators old
      → IsDraft max_indicators new
  IsDraft-count_le max_indicators old new f g h = record {
    distinct = λ id.
        omega
          (arith, f id, h.distinct id, length-filter (is_id id) old, length-filter (is_id id) new);
    limited = omega (arith, g, h.limited, length-filter active old, length-filter active new);
  }

  abbrev toggled : Indicator V → Indicator V
  toggled ind = record ind { is_active = not ind.is_active }

  -- Without the identifier nothing changes.
  change_absent :
      (id : Text) (f : Indicator V → Indicator V) (xs : List (Indicator V))
      → count (is_id id) xs ≡ 0
      → change id f xs ≡ xs
  change_absent id f [] h = refl
  change_absent id f (x ∷ xs) h = elim (Bool-cases (text_eq x.id id)) [
    | inl e ↦ absurd (omega (arith, h, ap one e))
    | inr e ↦ rw e (ap (◌∷◌ x) (change_absent id f xs (omega (arith, h))))
  ]

  count-absent :
      (id : Text) (xs : List (Indicator V)) → find? (is_id id) xs ≡ none → count (is_id id) xs ≡ 0
  count-absent id [] h = refl
  count-absent id (x ∷ xs) h = elim (Bool-cases (text_eq x.id id)) [
    | inl e ↦ absurd (ground (arith, h, e))
    | inr e ↦ rw e (omega (arith, count-absent id xs (ground (arith, h, e))))
  ]

  -- A toggle of the indicator that is found moves it in or out of the active ones.
  count-toggled :
      (id : Text) (t : Indicator V) (xs : List (Indicator V))
      → count (is_id id) xs ≤ 1
      → find? (is_id id) xs ≡ some t
      → count active (change id toggled xs) + one t.is_active
        ≡ count active xs + one (not t.is_active)
  count-toggled id t [] u h = absurd (cc)
  count-toggled id t (x ∷ xs) u h = elim (Bool-cases (text_eq x.id id)) [
    | inl e ↦
        let same : x ≡ t = ground (arith, h, e) in
        rw (e, change_absent id toggled xs (omega (arith, u, ap one e)))
          (omega (arith, ap (λ z. one z.is_active) same, ap (λ z. one (not z.is_active)) same))
    | inr e ↦
        rw e
          (omega (arith, count-toggled id t xs (omega (arith, u, ap one e)) (ground (arith, h, e))))
  ]

  toggle_found :
      (max_indicators : ℕ) (id : Text) (t : Indicator V) (xs : List (Indicator V)) (b : Bool)
      → t.is_active ≡ b
      → find? (is_id id) xs ≡ some t
      → (not b && leb max_indicators (length (filter active xs))) ≡ false
      → IsDraft max_indicators xs
      → count active (change id toggled xs) ≤ max_indicators
  toggle_found max_indicators id t xs true a e r h = omega (
    arith,
    count-toggled id t xs (omega (arith, h.distinct id, length-filter (is_id id) xs)) e,
    ap one a,
    ap (λ z. one (not z)) a,
    h.limited,
    length-filter active xs,
  )
  toggle_found max_indicators id t xs false a e r h = ground (
    arith,
    r,
    count-toggled id t xs (omega (arith, h.distinct id, length-filter (is_id id) xs)) e,
    ap one a,
    ap (λ z. one (not z)) a,
    length-filter active xs,
  )

  toggle_active-IsDraft :
      (max_indicators : ℕ) (id : Text) (draft : List (Indicator V))
      → IsDraft max_indicators draft
      → IsDraft max_indicators (toggle_active max_indicators id draft)
  unfolding toggle_active
  toggle_active-IsDraft max_indicators id draft h = elim (Option-cases (find? (is_id id) draft)) [
    | inl e ↦ rw (e, change_absent id toggled draft (count-absent id draft e)) h
    | inr (t, e) ↦
        elim (Bool-cases (not t.is_active && leb max_indicators (length (filter active draft)))) [
          | inl r ↦ rw (e, r) h
          | inr r ↦
              rw (e, r)
                (record {
                  distinct = λ j. omega (
                    arith,
                    count-change (is_id j) id toggled draft (λ x. refl),
                    h.distinct j,
                    length-filter (is_id j) draft,
                    length-filter (is_id j) (change id toggled draft),
                  );
                  limited = omega (
                    arith,
                    toggle_found max_indicators id t draft t.is_active refl e r h,
                    length-filter active (change id toggled draft),
                  );
                })
        ]
  ]

  -- A change that leaves the identifier and activates nothing.
  change-IsDraft :
      (max_indicators : ℕ) (id : Text) (f : Indicator V → Indicator V) (draft : List (Indicator V))
      → ((j : Text) (x : Indicator V) → is_id j (f x) ≡ is_id j x)
      → ((x : Indicator V) → one (f x).is_active ≤ one x.is_active)
      → IsDraft max_indicators draft
      → IsDraft max_indicators (change id f draft)
  change-IsDraft max_indicators id f draft same less h =
      IsDraft-count_le max_indicators draft (change id f draft)
        (λ j. omega (arith, count-change (is_id j) id f draft (same j)))
        (count-change_le active id f draft less) h

  update_selected-IsDraft :
      (max_indicators : ℕ) (updates : IndicatorSettings V) (sel : Option (Indicator V))
      (draft : List (Indicator V))
      → IsDraft max_indicators draft
      → IsDraft max_indicators (update_selected updates sel draft)
  unfolding update_selected merge_settings
  update_selected-IsDraft max_indicators updates none draft h = h
  update_selected-IsDraft max_indicators updates (some sel) draft h =
      change-IsDraft max_indicators sel.id (merge_settings updates) draft (λ j x. refl)
        (λ x. omega arith) h

  edited-IsDraft :
      (max_indicators : ℕ) (e : Edit V) (draft : List (Indicator V))
      → IsDraft max_indicators draft
      → IsDraft max_indicators (edited max_indicators e draft)
  unfolding edited deactivate_indicator toggle_favorite toggle_visibility update_settings
  edited-IsDraft max_indicators (toggling id) draft h =
      toggle_active-IsDraft max_indicators id draft h
  edited-IsDraft max_indicators (deactivating id) draft h =
      change-IsDraft max_indicators id (λ ind. record ind { is_active = false }) draft (λ j x. refl)
        (λ x. omega arith) h
  edited-IsDraft max_indicators (favoring id) draft h =
      change-IsDraft max_indicators id (λ ind. record ind { is_favorite = not ind.is_favorite })
        draft (λ j x. refl) (λ x. omega arith) h
  edited-IsDraft max_indicators (showing id) draft h =
      change-IsDraft max_indicators id (λ ind. record ind { is_visible = flipped ind.is_visible })
        draft (λ j x. refl) (λ x. omega arith) h
  edited-IsDraft max_indicators (setting id updates) draft h =
      update_selected-IsDraft max_indicators updates (selected_indicator id draft) draft h
  edited-IsDraft max_indicators (moving id direction) draft h =
      IsDraft-count_le max_indicators draft (move_indicator id direction draft)
        (λ j. omega (arith, count-move_indicator (is_id j) id direction draft))
        (omega (arith, count-move_indicator active id direction draft)) h

  -- Whatever buttons of the modal are pressed, in any order: the identifiers stay distinct and no
  -- more indicators become active than the limit allows, if it was so at first.
  pub edits-IsDraft :
      (max_indicators : ℕ) (es : List (Edit V)) (draft : List (Indicator V))
      → IsDraft max_indicators draft
      → IsDraft max_indicators (edits max_indicators es draft)
  unfolding edits
  edits-IsDraft max_indicators [] draft h = h
  edits-IsDraft max_indicators (e ∷ es) draft h =
      edits-IsDraft max_indicators es (edited max_indicators e draft)
        (edited-IsDraft max_indicators e draft h)
