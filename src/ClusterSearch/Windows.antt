-- ===== src/ClusterSearch/Windows.antt =====
-- The windows that the loop of a filter goes over.
use test_v.Shared.{
  ℕ, zero, suc, ◌-◌, ◌≤◌, true, false, ◌≡◌, refl, sym, ap, subst, ◌⊎◌, inl, inr, Option, none, some,
  List, [], ◌∷◌, ◌++◌, leb, length, length-append, length-take, take, drop, In, arith, Bool-cases,
}
use test_v.Number.{Num}
use test_v.Candle.{ClusterCell}
use test_v.ClusterSearch.{Filter, Match}
use test_v.ClusterSearch.Search.{pushed, push, scan}

leb_of_le : (a b : ℕ) → a ≤ b → leb a b ≡ true
leb_of_le a b h = ground (arith, h)

le_of_leb : (a b : ℕ) → leb a b ≡ true → a ≤ b
le_of_leb a b h = ground (arith, h)

module _ {A : Type 0} where
  -- `k` neighbours of a list.
  pub record IsWindow (k : ℕ) (xs : List A) (first : A) (rest : List A) : Type 0 where
    pub before : List A
    pub after : List A
    pub split : xs ≡ before ++ first ∷ (rest ++ after)
    pub size : length (first ∷ rest) ≡ k

  take-drop : (k : ℕ) (xs : List A) → take k xs ++ drop k xs ≡ xs
  take-drop zero xs = refl
  take-drop (suc k) [] = refl
  take-drop (suc k) (x ∷ xs) = ap (◌∷◌ x) (take-drop k xs)

  take-append : (k : ℕ) (xs ys : List A) → length xs ≡ k → take k (xs ++ ys) ≡ xs
  take-append zero [] ys h = refl
  take-append zero (x ∷ xs) ys h = absurd (omega (arith, h))
  take-append (suc k) [] ys h = absurd (omega (arith, h))
  take-append (suc k) (x ∷ xs) ys h = ap (◌∷◌ x) (take-append k xs ys (omega (arith, h)))

  IsWindow-take :
      (k : ℕ) (x : A) (xs : List A)
      → 1 ≤ k
      → k ≤ length (x ∷ xs)
      → IsWindow k (x ∷ xs) x (take (k - 1) xs)
  IsWindow-take k x xs p h = record {
    before = [];
    after = drop (k - 1) xs;
    split = ap (◌∷◌ x) (sym (take-drop (k - 1) xs));
    size = omega (arith, p, h, length-take (k - 1) xs);
  }

  IsWindow-cons :
      (k : ℕ) (x y : A) (xs rest : List A) → IsWindow k xs y rest → IsWindow k (x ∷ xs) y rest
  IsWindow-cons k x y xs rest w = record {
    before = x ∷ w.before;
    after = w.after;
    split = ap (◌∷◌ x) w.split;
    size = w.size;
  }

  length-window :
      (k : ℕ) (xs : List A) (y : A) (rest : List A) → IsWindow k xs y rest → k ≤ length xs
  length-window k xs y rest w = omega (
    arith,
    w.size,
    ap length w.split,
    length-append w.before (y ∷ (rest ++ w.after)),
    length-append rest w.after,
  )

module _ (n : Num) (f : Filter n.Real) (lo hi : n.Real) (m : Match n.Real) where
  open n use {Real}

  In-push : (o : Option (Match Real)) (ms : List (Match Real)) → In m ms → In m (push n o ms)
  In-push none ms i = i
  In-push (some a) ms i = inr i

  push_cases :
      (o : Option (Match Real)) (ms : List (Match Real))
      → In m (push n o ms)
      → (o ≡ some m) ⊎ In m ms
  push_cases none ms i = inr i
  push_cases (some a) ms (inl e) = inl (ap some (sym e))
  push_cases (some a) ms (inr i) = inr i

  scan_within :
      (k : ℕ) (c : ClusterCell Real) (cs : List (ClusterCell Real))
      → leb k (length (c ∷ cs)) ≡ true
      → scan n f lo hi k (c ∷ cs)
        ≡ push n (pushed n f lo hi c (take (k - 1) cs)) (scan n f lo hi k cs)
  unfolding scan
  scan_within k c cs e = rw e refl

  scan_short :
      (k : ℕ) (c : ClusterCell Real) (cs : List (ClusterCell Real))
      → leb k (length (c ∷ cs)) ≡ false
      → scan n f lo hi k (c ∷ cs) ≡ []
  unfolding scan
  scan_short k c cs e = rw e refl

  -- What is found comes from a window that pushes it.
  pub scan-IsWindow :
      (k : ℕ) (cells : List (ClusterCell Real))
      → 1 ≤ k
      → In m (scan n f lo hi k cells)
      → (first : ClusterCell Real) × (rest : List (ClusterCell Real)) × IsWindow k cells first rest
        × (pushed n f lo hi first rest ≡ some m)
  unfolding scan
  scan-IsWindow k [] p i = absurd i
  scan-IsWindow k (c ∷ cs) p i = elim (Bool-cases (leb k (length (c ∷ cs)))) [
    | inr e ↦ absurd (subst (λ ms. In m ms) (scan_short k c cs e) i)
    | inl e ↦
        elim (push_cases (pushed n f lo hi c (take (k - 1) cs)) (scan n f lo hi k cs)
          (subst (λ ms. In m ms) (scan_within k c cs e) i)) [
            | inl q ↦ (c, take (k - 1) cs, IsWindow-take k c cs p (le_of_leb _ _ e), q)
            | inr j ↦
                let (first, rest, w, q) = scan-IsWindow k cs p j in
                (first, rest, IsWindow-cons k c first cs rest w, q)
          ]
  ]

  In-scan_from :
      (k : ℕ) (before after : List (ClusterCell Real)) (first : ClusterCell Real)
      (rest : List (ClusterCell Real))
      → length (first ∷ rest) ≡ k
      → pushed n f lo hi first rest ≡ some m
      → In m (scan n f lo hi k (before ++ first ∷ (rest ++ after)))
  In-scan_from k [] after first rest h q =
      rw
        (
          scan_within k first (rest ++ after)
              (leb_of_le _ _ (omega (arith, h, length-append rest after))),
          take-append (k - 1) rest after (omega (arith, h)),
          q,
        )
        (inl refl)
  In-scan_from k (b ∷ bs) after first rest h q =
      rw
        (scan_within k b (bs ++ first ∷ (rest ++ after)) (
          leb_of_le _ _ (
            omega
              (arith, h, length-append bs (first ∷ (rest ++ after)), length-append rest after))))
        (In-push (pushed n f lo hi b (take (k - 1) (bs ++ first ∷ (rest ++ after))))
          (scan n f lo hi k (bs ++ first ∷ (rest ++ after)))
          (In-scan_from k bs after first rest h q))

  -- What a window pushes is found.
  pub In-scan :
      (k : ℕ) (cells : List (ClusterCell Real)) (first : ClusterCell Real)
      (rest : List (ClusterCell Real))
      → IsWindow k cells first rest
      → pushed n f lo hi first rest ≡ some m
      → In m (scan n f lo hi k cells)
  In-scan k cells first rest w q =
      subst (λ cs. In m (scan n f lo hi k cs)) (sym w.split)
        (In-scan_from k w.before w.after first rest w.size q)
