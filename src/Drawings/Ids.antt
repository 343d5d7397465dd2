-- ===== src/Drawings/Ids.antt =====
-- Lists of drawings with distinct ids, below the clock.
use test_v.Shared.{
  ℕ, ◌≤◌, ◌<◌, Bool, ◌≡◌, ◌≢◌, sym, subst, inl, inr, Option, none, some, List, [], ◌∷◌, ◌++◌, map,
  filter, All, All-append, All-weaken, arith, Bool-cases,
}
use test_v.Drawings.{Drawing, ChartDrawings}

module _ {R : Type 0} where
  -- No drawing has the id of a later one.
  unfoldable pub AreDistinct : List (Drawing R) → Type 0
  AreDistinct [] = Unit
  AreDistinct (d ∷ ds) = All (λ (e : Drawing R). e.id ≢ d.id) ds × AreDistinct ds

  abbrev pub AreBelow : ℕ → List (Drawing R) → Type 0
  AreBelow bound ds = All (λ (e : Drawing R). e.id < bound) ds

  abbrev pub AreOthers : ℕ → List (Drawing R) → Type 0
  AreOthers i ds = All (λ (e : Drawing R). e.id ≢ i) ds

  -- The drawing in progress has an id of its own.
  abbrev pub IsFree : ℕ → Option (Drawing R) → List (Drawing R) → Type 0
  IsFree bound none ds = Unit
  IsFree bound (some d) ds = (d.id < bound) × AreOthers d.id ds

  -- All ids are distinct and below the clock.
  pub record HasIds (bound : ℕ) (s : ChartDrawings R) : Type 0 where
    pub distinct : AreDistinct s.drawings
    pub below : AreBelow bound s.drawings
    pub free : IsFree bound s.drawing_in_progress s.drawings

  pub AreDistinct-append :
      (ds : List (Drawing R)) (d : Drawing R)
      → AreDistinct ds
      → AreOthers d.id ds
      → AreDistinct (ds ++ d ∷ [])
  unfolding AreDistinct
  AreDistinct-append [] d h k = (tt, tt)
  AreDistinct-append (e ∷ ds) d h k = (
    All-append (λ (x : Drawing R). x.id ≢ e.id) ds (d ∷ []) h.0 ((λ q. k.0 (sym q)), tt),
    AreDistinct-append ds d h.1 k.1,
  )

  pub AreOthers-below : (bound : ℕ) (ds : List (Drawing R)) → AreBelow bound ds → AreOthers bound ds
  AreOthers-below bound ds h =
      All-weaken (λ (e : Drawing R). e.id < bound) (λ (e : Drawing R). e.id ≢ bound)
        (λ e k q. omega arith) ds h

  pub AreBelow-weaken : (b c : ℕ) (ds : List (Drawing R)) → b ≤ c → AreBelow b ds → AreBelow c ds
  AreBelow-weaken b c ds h k =
      All-weaken (λ (e : Drawing R). e.id < b) (λ (e : Drawing R). e.id < c) (λ e q. omega arith) ds
        k

  -- A drawing with a free id is added.
  pub HasIds-add :
      (bound : ℕ) (s t : ChartDrawings R) (d : Drawing R)
      → HasIds bound s
      → d.id < bound
      → AreOthers d.id s.drawings
      → t.drawings ≡ s.drawings ++ d ∷ []
      → IsFree bound t.drawing_in_progress (s.drawings ++ d ∷ [])
      → HasIds bound t
  HasIds-add bound s t d h b k e f = record {
    distinct = rw e (AreDistinct-append s.drawings d h.distinct k);
    below = rw e (All-append (λ (e : Drawing R). e.id < bound) s.drawings (d ∷ []) h.below (b, tt));
    free = rw e f;
  }

  -- What has no effect on the drawings and the one in progress.
  pub HasIds-weaken : (b c : ℕ) (s : ChartDrawings R) → b ≤ c → HasIds b s → HasIds c s
  HasIds-weaken b c s h k = record {
    distinct = k.distinct;
    below = AreBelow-weaken b c s.drawings h k.below;
    free = go s.drawing_in_progress k.free;
  }
    where
      go : (o : Option (Drawing R)) → IsFree b o s.drawings → IsFree c o s.drawings
      go none f = tt
      go (some d) f = (omega (arith, f.0), f.1)

  -- It depends on the drawings and the one in progress alone.
  pub HasIds-same :
      (b : ℕ) (s t : ChartDrawings R)
      → t.drawings ≡ s.drawings
      → t.drawing_in_progress ≡ s.drawing_in_progress
      → HasIds b s
      → HasIds b t
  HasIds-same b s t p q h = record {
    distinct = rw p h.distinct;
    below = rw p h.below;
    free = rw (p, q) h.free;
  }

  module _ (P : ℕ → Type 0) (f : Drawing R → Drawing R)
      (same : (d : Drawing R) → (f d).id ≡ d.id) where
    pub All-map-id :
        (ds : List (Drawing R))
        → All (λ (e : Drawing R). P e.id) ds
        → All (λ (e : Drawing R). P e.id) (map f ds)
    All-map-id [] h = tt
    All-map-id (d ∷ ds) h = (subst P (sym (same d)) h.0, All-map-id ds h.1)

  module _ (f : Drawing R → Drawing R) (same : (d : Drawing R) → (f d).id ≡ d.id) where
    pub AreDistinct-map : (ds : List (Drawing R)) → AreDistinct ds → AreDistinct (map f ds)
    unfolding AreDistinct
    AreDistinct-map [] h = tt
    AreDistinct-map (d ∷ ds) h =
        (rw (same d) (All-map-id (λ i. i ≢ d.id) f same ds h.0), AreDistinct-map ds h.1)

  module _ (p : Drawing R → Bool) where
    pub All-filter :
        (P : Drawing R → Type 0) (ds : List (Drawing R)) → All P ds → All P (filter p ds)
    All-filter P [] h = tt
    All-filter P (d ∷ ds) h = elim (Bool-cases (p d)) [
      | inl e ↦ rw e (h.0, All-filter P ds h.1)
      | inr e ↦ rw e (All-filter P ds h.1)
    ]

    pub AreDistinct-filter : (ds : List (Drawing R)) → AreDistinct ds → AreDistinct (filter p ds)
    unfolding AreDistinct
    AreDistinct-filter [] h = tt
    AreDistinct-filter (d ∷ ds) h = elim (Bool-cases (p d)) [
      | inl e ↦ rw e (All-filter (λ (e : Drawing R). e.id ≢ d.id) ds h.0, AreDistinct-filter ds h.1)
      | inr e ↦ rw e (AreDistinct-filter ds h.1)
    ]
