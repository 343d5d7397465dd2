-- ===== src/MarketData/Levels.antt =====
-- The rows of one side of the order book against the entries of the exchange.
use test_v.Shared.{
  true, false, not, ◌≡◌, ◌≢◌, refl, sym, ap, ◌∙◌, inl, inr, List, [], ◌∷◌, map, filter,
  if◌then◌else◌, All, In, All-weaken, All-append, arith, Bool-cases,
}
use test_v.Shared.Sort.{sort-All}
use test_v.Shared.Unique.{
  IsUnique, IsUnique-append, In-append_left, In-append_right, filter-All, All-filter,
  filter-IsUnique, In-filter, In-sort, sort-IsUnique,
}
use test_v.Number.{Num, lit}
use test_v.MarketData.{object_keys, is_index}
use test_v.MarketData.Depth.{DepthItem, or_zero, add_amount, aggregate, amount_at}

-- Equality of the numbers is decided by `===`, and the order is total.
pub record EqLaws (n : Num) : Type 0 where
  pub eq→≡ : (a b : n.Real) → n.eq a b ≡ true → a ≡ b
  pub eq_refl : (a : n.Real) → n.eq a a ≡ true
  pub lt_total : (a b : n.Real) → n.lt a b ≡ false → n.lt b a ≡ false → a ≡ b

module _ (n : Num) (q : EqLaws n) where
  open n use {Real, add, eq}

  eq_ne : (a b : Real) → a ≢ b → eq a b ≡ false
  eq_ne a b h = elim (Bool-cases (eq a b)) [ inl e ↦ absurd (h (q.eq→≡ a b e)) | inr e ↦ e ]

  -- What the entries of a level add up to, in their order.
  abbrev pub bucket_sum : (Real → Real) → Real → List (DepthItem Real) → Real → Real
  bucket_sum bucket b [] acc = acc
  bucket_sum bucket b (i ∷ is) acc =
      bucket_sum bucket b is
        (if eq (bucket i.item_price) b then add (or_zero n acc) i.quantity else acc)

  or_zero_zero : or_zero n (lit n 0) ≡ lit n 0
  or_zero_zero = elim (Bool-cases (eq (lit n 0) (lit n 0))) [ inl e ↦ rw e | inr e ↦ rw e ]

  amount_at-add_amount :
      (b c v : Real) (m : List (Real × Real))
      → amount_at n b (add_amount n c v m)
        ≡ (if eq c b then add (or_zero n (amount_at n b m)) v else amount_at n b m)
  unfolding amount_at add_amount
  amount_at-add_amount b c v [] = elim (Bool-cases (eq c b)) [
    | inl e ↦ rw (e, or_zero_zero)
    | inr e ↦ rw e
  ]
  amount_at-add_amount b c v ((k, a) ∷ m) =
      grind (arith, q.eq→≡, q.eq_refl, amount_at-add_amount b c v m)

  pub amount_at-aggregate :
      (bucket : Real → Real) (b : Real) (is : List (DepthItem Real)) (m : List (Real × Real))
      → amount_at n b (aggregate n bucket is m) ≡ bucket_sum bucket b is (amount_at n b m)
  unfolding aggregate
  amount_at-aggregate bucket b [] m = refl
  amount_at-aggregate bucket b (i ∷ is) m =
      amount_at-aggregate bucket b is (add_amount n (bucket i.item_price) i.quantity m)
      ∙ ap (bucket_sum bucket b is) (amount_at-add_amount b (bucket i.item_price) i.quantity m)

  -- The prices that are keys.
  abbrev pub prices : List (Real × Real) → List Real
  prices m = map (λ e. e.0) m

  In-add_amount : (b v : Real) (m : List (Real × Real)) → In b (prices (add_amount n b v m))
  unfolding add_amount
  In-add_amount b v [] = inl refl
  In-add_amount b v ((k, a) ∷ m) = elim (Bool-cases (eq k b)) [
    | inl e ↦ rw e (inl (sym (q.eq→≡ k b e)))
    | inr e ↦ rw e (inr (In-add_amount b v m))
  ]

  In-add_amount_other :
      (p b v : Real) (m : List (Real × Real)) → In p (prices m) → In p (prices (add_amount n b v m))
  unfolding add_amount
  In-add_amount_other p b v [] i = absurd i
  In-add_amount_other p b v ((k, a) ∷ m) i = elim (Bool-cases (eq k b)) [
    | inl e ↦ rw e i
    | inr e ↦ rw e (elim i [ inl f ↦ inl f | inr j ↦ inr (In-add_amount_other p b v m j) ])
  ]

  add_amount-All :
      (P : Real → Type 0) (b v : Real) (m : List (Real × Real))
      → P b
      → All P (prices m)
      → All P (prices (add_amount n b v m))
  unfolding add_amount
  add_amount-All P b v [] h k = (h, tt)
  add_amount-All P b v ((k, a) ∷ m) h t = elim (Bool-cases (eq k b)) [
    | inl e ↦ rw e t
    | inr e ↦ rw e (t.0, add_amount-All P b v m h t.1)
  ]

  add_amount-IsUnique :
      (b v : Real) (m : List (Real × Real))
      → IsUnique (prices m)
      → IsUnique (prices (add_amount n b v m))
  unfolding add_amount
  add_amount-IsUnique b v [] h = (tt, tt)
  add_amount-IsUnique b v ((k, a) ∷ m) h = elim (Bool-cases (eq k b)) [
    | inl e ↦ rw e h
    | inr e ↦
        let ne : b ≢ k = λ p. cc (e, ap (λ x. eq x b) (sym p), q.eq_refl b) in
        rw e (add_amount-All (λ y. y ≢ k) b v m ne h.0, add_amount-IsUnique b v m h.1)
  ]

  module _ (bucket : Real → Real) where
    abbrev pub bucket_of : DepthItem Real → Real
    bucket_of i = bucket i.item_price

    pub aggregate-IsUnique :
        (is : List (DepthItem Real)) (m : List (Real × Real))
        → IsUnique (prices m)
        → IsUnique (prices (aggregate n bucket is m))
    unfolding aggregate
    aggregate-IsUnique [] m h = h
    aggregate-IsUnique (i ∷ is) m h =
        aggregate-IsUnique is _ (add_amount-IsUnique (bucket_of i) i.quantity m h)

    In-aggregate_other :
        (p : Real) (is : List (DepthItem Real)) (m : List (Real × Real))
        → In p (prices m)
        → In p (prices (aggregate n bucket is m))
    unfolding aggregate
    In-aggregate_other p [] m h = h
    In-aggregate_other p (i ∷ is) m h =
        In-aggregate_other p is _ (In-add_amount_other p (bucket_of i) i.quantity m h)

    -- Every entry has its level, and every level an entry.
    pub In-aggregate :
        (is : List (DepthItem Real)) (m : List (Real × Real))
        → All (λ i. In (bucket_of i) (prices (aggregate n bucket is m))) is
    unfolding aggregate
    In-aggregate [] m = tt
    In-aggregate (i ∷ is) m = (
      In-aggregate_other (bucket_of i) is _ (In-add_amount (bucket_of i) i.quantity m),
      In-aggregate is _,
    )

    pub aggregate-All :
        (P : Real → Type 0) (is : List (DepthItem Real)) (m : List (Real × Real))
        → All (λ i. P (bucket_of i)) is
        → All P (prices m)
        → All P (prices (aggregate n bucket is m))
    unfolding aggregate
    aggregate-All P [] m h k = k
    aggregate-All P (i ∷ is) m h k =
        aggregate-All P is _ h.1 (add_amount-All P (bucket_of i) i.quantity m h.0 k)

  -- `Object.keys` has the members of the list.
  pub In-object_keys : (p : Real) (ps : List Real) → In p ps → In p (object_keys n ps)
  unfolding object_keys
  In-object_keys p ps i = elim (Bool-cases (is_index n p)) [
    | inl e ↦
        In-append_left p _ _
          (In-sort _ p (filter (λ x. is_index n x) ps) (In-filter (λ x. is_index n x) p ps e i))
    | inr e ↦ In-append_right p _ _ (In-filter (λ x. not (is_index n x)) p ps (ap not e) i)
  ]

  pub object_keys-All : (P : Real → Type 0) (ps : List Real) → All P ps → All P (object_keys n ps)
  unfolding object_keys
  object_keys-All P ps h =
      All-append P _ _ (sort-All _ P _ (filter-All (λ x. is_index n x) P ps h))
        (filter-All (λ x. not (is_index n x)) P ps h)

  pub object_keys-IsUnique : (ps : List Real) → IsUnique ps → IsUnique (object_keys n ps)
  unfolding object_keys
  object_keys-IsUnique ps h =
      IsUnique-append _ _ (sort-IsUnique _ _ (filter-IsUnique (λ x. is_index n x) ps h))
        (filter-IsUnique (λ x. not (is_index n x)) ps h)
        (sort-All _ (λ x. All (λ y. y ≢ x) (filter (λ z. not (is_index n z)) ps)) _
          (All-weaken (λ x. is_index n x ≡ true)
            (λ x. All (λ y. y ≢ x) (filter (λ z. not (is_index n z)) ps))
            (λ x e.
              All-weaken (λ y. not (is_index n y) ≡ true) (λ y. y ≢ x)
                (λ y f p. cc (e, f, ap (λ z. is_index n z) p)) _
                (All-filter (λ z. not (is_index n z)) ps))
            (filter (λ x. is_index n x) ps) (All-filter (λ x. is_index n x) ps)))
