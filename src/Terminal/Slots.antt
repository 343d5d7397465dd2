-- ===== src/Terminal/Slots.antt =====
-- A map with one entry for each of two subscriptions, and what the operations of the client do to it.
use test_v.Shared.{
  true, false, ◌≡◌, refl, sym, ◌∙◌, subst, inl, inr, Option, none, some, List, if◌then◌else◌,
  Bool-cases, arith,
}
use test_v.Shared.Text.{Text, text_eq, text_eq→eq, text_eq_refl}
use test_v.Shared.JsMap.{get, put, delete, get-put_self, get-put_ne, get-delete_self, get-delete_ne}
use test_v.Stream.{Sub, make_sub_key}

-- The entry of one subscription, if there is one, before the rest.
abbrev pub slot {ℓ} : {V : Type ℓ} → Text → Option Sub → (Sub → V) → Option V → Option V
slot k none f rest = rest
slot k (some s) f rest = if text_eq (make_sub_key s) k then some (f s) else rest

-- The keys of two subscriptions differ.
abbrev pub Apart : Option Sub → Option Sub → Type 0
Apart (some s) (some t) = text_eq (make_sub_key s) (make_sub_key t) ≡ false
Apart _ _ = Unit

pub Apart-sym : (s t : Sub) → Apart (some s) (some t) → Apart (some t) (some s)
Apart-sym s t h = elim (Bool-cases (text_eq (make_sub_key t) (make_sub_key s))) [
  | inr e ↦ e
  | inl e ↦
      let p : make_sub_key t ≡ make_sub_key s = text_eq→eq _ _ e in
      absurd (ground (arith, h, p, text_eq_refl (make_sub_key s)))
]

-- Where the key of one subscription is met, the other has no entry.
slot_past {ℓ} :
    {V : Type ℓ} (k : Text) (s : Sub) (q : Option Sub) (f : Sub → V) (rest : Option V)
    → Apart (some s) q
    → text_eq (make_sub_key s) k ≡ true
    → slot k q f rest ≡ rest
slot_past k s none f rest h e = refl
slot_past k s (some t) f rest h e =
    let p : make_sub_key s ≡ k = text_eq→eq _ _ e in
    rw (subst (λ j. text_eq (make_sub_key t) j ≡ false) p (Apart-sym s t h)) refl

get-put {ℓ} :
    {V : Type ℓ} (k j : Text) (v : V) (m : List (Text × V))
    → get j (put k v m) ≡ (if text_eq k j then some v else get j m)
get-put k j v m = elim (Bool-cases (text_eq k j)) [
  | inl e ↦ rw e (subst (λ i. get i (put k v m) ≡ some v) (text_eq→eq k j e) (get-put_self k v m))
  | inr e ↦ rw e (get-put_ne k j v m e)
]

get-delete {ℓ} :
    {V : Type ℓ} (k j : Text) (m : List (Text × V))
    → get j (delete k m) ≡ (if text_eq k j then none else get j m)
get-delete k j m = elim (Bool-cases (text_eq k j)) [
  | inl e ↦ rw e (subst (λ i. get i (delete k m) ≡ none) (text_eq→eq k j e) (get-delete_self k m))
  | inr e ↦ rw e (get-delete_ne k j m e)
]

module _ {V : Type 0} (f g : Sub → V) where
  -- The map has just the entries of the two subscriptions.
  abbrev pub Holds : List (Text × V) → Option Sub → Option Sub → Type 0
  Holds m p q = (k : Text) → get k m ≡ slot k p f (slot k q g none)

  pub delete-Holds0 :
      (s : Sub) (q : Option Sub) (m : List (Text × V))
      → Apart (some s) q
      → Holds m (some s) q
      → Holds (delete (make_sub_key s) m) none q
  delete-Holds0 s q m h holds k =
      get-delete (make_sub_key s) k m ∙ elim (Bool-cases (text_eq (make_sub_key s) k)) [
        | inl e ↦ rw e (sym (slot_past k s q g none h e))
        | inr e ↦ rw e (holds k ∙ rw e refl)
      ]

  pub delete-Holds1 :
      (p : Option Sub) (s : Sub) (m : List (Text × V))
      → Apart (some s) p
      → Holds m p (some s)
      → Holds (delete (make_sub_key s) m) p none
  delete-Holds1 p s m h holds k =
      get-delete (make_sub_key s) k m ∙ elim (Bool-cases (text_eq (make_sub_key s) k)) [
        | inl e ↦ rw e (sym (slot_past k s p f none h e))
        | inr e ↦ rw e (holds k ∙ rw e refl)
      ]

  pub put-Holds0 :
      (s : Sub) (q : Option Sub) (m : List (Text × V))
      → Holds m none q
      → Holds (put (make_sub_key s) (f s) m) (some s) q
  put-Holds0 s q m holds k = get-put (make_sub_key s) k (f s) m ∙ rw (holds k) refl

  pub put-Holds1 :
      (p : Option Sub) (s : Sub) (m : List (Text × V))
      → Apart (some s) p
      → Holds m p none
      → Holds (put (make_sub_key s) (g s) m) p (some s)
  put-Holds1 p s m h holds k =
      get-put (make_sub_key s) k (g s) m ∙ elim (Bool-cases (text_eq (make_sub_key s) k)) [
        | inl e ↦ rw e (sym (slot_past k s p f (some (g s)) h e))
        | inr e ↦ rw e (holds k)
      ]
