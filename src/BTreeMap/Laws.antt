-- ===== src/BTreeMap/Laws.antt =====
-- Lookups after an insertion, and the order of the keys.
use pact_protobuf_plugin.Base.{
  ◌≡◌, refl, sym, ap, ◌∙◌, true, false, ◌⊎◌, inl, inr, Bool-cases, some, [], ◌∷◌, if◌then◌else◌,
  All, arith,
}
use pact_protobuf_plugin.Base.Text.{Text, text_eq, text_eq→eq}
use pact_protobuf_plugin.BTreeMap.{text_cmp, BTreeMap, get, insert, IsOrdered}
use mathlib.Core.Path.{subst}
use Prim.Native.Nat.{Ordering}

text_cmp-eq : (s t : Text) → text_cmp s t ≡ Ordering.eq → s ≡ t
text_cmp-eq [] [] h = refl
text_cmp-eq [] (d ∷ t) h = cc
text_cmp-eq (c ∷ s) [] h = cc
text_cmp-eq (c ∷ s) (d ∷ t) h = ground (arith, text_cmp-eq s t)

text_cmp-gt : (s t : Text) → text_cmp s t ≡ Ordering.gt → text_cmp t s ≡ Ordering.lt
text_cmp-gt [] [] h = cc
text_cmp-gt [] (d ∷ t) h = cc
text_cmp-gt (c ∷ s) [] h = refl
text_cmp-gt (c ∷ s) (d ∷ t) h = ground (arith, text_cmp-gt s t)

text_cmp_trans :
    (s t u : Text)
    → text_cmp s t ≡ Ordering.lt
    → text_cmp t u ≡ Ordering.lt
    → text_cmp s u ≡ Ordering.lt
text_cmp_trans [] [] u h k = cc
text_cmp_trans [] (d ∷ t) [] h k = cc
text_cmp_trans [] (d ∷ t) (e ∷ u) h k = refl
text_cmp_trans (c ∷ s) [] u h k = cc
text_cmp_trans (c ∷ s) (d ∷ t) [] h k = cc
text_cmp_trans (c ∷ s) (d ∷ t) (e ∷ u) h k = ground (arith, text_cmp_trans s t u)

text_cmp_irrefl : (s : Text) → text_cmp s s ≡ Ordering.eq
text_cmp_irrefl [] = refl
text_cmp_irrefl (c ∷ s) = ground (arith, text_cmp_irrefl s)

-- To split on a comparison and keep the equation.
Ordering-cases : (o : Ordering) → (o ≡ Ordering.lt) ⊎ ((o ≡ Ordering.eq) ⊎ (o ≡ Ordering.gt))
Ordering-cases Ordering.lt = inl refl
Ordering-cases Ordering.eq = inr (inl refl)
Ordering-cases Ordering.gt = inr (inr refl)

-- Keys that are compared as greater are not both equal to a third.
gt-ne : (k j l : Text) → text_cmp k j ≡ Ordering.gt → text_eq j l ≡ true → text_eq k l ≡ false
gt-ne k j l gt same = elim (Bool-cases (text_eq k l)) [
  | inl e ↦
      let kj : k ≡ j = text_eq→eq k l e ∙ sym (text_eq→eq j l same) in
      let eq : text_cmp k j ≡ Ordering.eq = ap (text_cmp k) (sym kj) ∙ text_cmp_irrefl k in
      cc (eq, gt)
  | inr e ↦ e
]

module _ {V : Type 0} where
  -- What was inserted is found, and nothing else changes.
  pub get-insert :
      (k l : Text) (v : V) (m : BTreeMap V)
      → get l (insert k v m) ≡ (if text_eq k l then some v else get l m)
  unfolding get insert
  get-insert k l v [] = refl
  get-insert k l v ((j, w) ∷ m) = elim (Ordering-cases (text_cmp k j)) [
    | inl lt ↦ rw (lt, insert, get)
    | inr (inl eq) ↦ elim (Bool-cases (text_eq k l)) [
      | inl same ↦ rw (eq, insert, get, same)
      | inr other ↦ rw (eq, insert, get, sym (text_cmp-eq k j eq), other)
    ]
    | inr (inr gt) ↦ elim (Bool-cases (text_eq j l)) [
      | inl same ↦ rw (gt, insert, get, same, gt-ne k j l gt same)
      | inr other ↦ rw (gt, insert, get, other) (get-insert k l v m)
    ]
  ]

  pub insert_nonempty : (k : Text) (v : V) (m : BTreeMap V) → insert k v m ≡ [] → ⊥
  unfolding insert
  insert_nonempty k v [] e = cc
  insert_nonempty k v ((l, w) ∷ m) e = elim (Ordering-cases (text_cmp k l)) [
    | inl lt ↦ let e' = rw (lt, insert) at e in cc
    | inr (inl eq) ↦ let e' = rw (eq, insert) at e in cc
    | inr (inr gt) ↦ let e' = rw (gt, insert) at e in cc
  ]

  pub All-insert :
      (P : Text × V → Type 0) (k : Text) (v : V) (m : BTreeMap V)
      → P (k, v)
      → All P m
      → All P (insert k v m)
  unfolding insert
  All-insert P k v [] h all = (h, tt)
  All-insert P k v ((j, w) ∷ m) h all = elim (Ordering-cases (text_cmp k j)) [
    | inl lt ↦ rw (lt, insert) (h, all)
    | inr (inl eq) ↦ rw (eq, insert) (h, all.1)
    | inr (inr gt) ↦ rw (gt, insert) (all.0, All-insert P k v m h all.1)
  ]

  All-map :
      (P Q : Text × V → Type 0) (m : BTreeMap V) → ((e : Text × V) → P e → Q e) → All P m → All Q m
  All-map P Q [] f h = tt
  All-map P Q (e ∷ m) f h = (f e h.0, All-map P Q m f h.1)

  pub insert-IsOrdered :
      (k : Text) (v : V) (m : BTreeMap V) → IsOrdered m → IsOrdered (insert k v m)
  unfolding insert
  insert-IsOrdered k v [] h = (tt, tt)
  insert-IsOrdered k v ((j, w) ∷ m) h = elim (Ordering-cases (text_cmp k j)) [
    | inl lt ↦ rw (lt, insert) ((lt, All-map _ _ m (λ e. text_cmp_trans k j e.0 lt) h.0), h)
    | inr (inl eq) ↦ rw (eq, insert, text_cmp-eq k j eq) h
    | inr (inr gt) ↦
        rw (gt, insert)
          (
            All-insert (λ e. text_cmp j e.0 ≡ Ordering.lt) k v m (text_cmp-gt k j gt) h.0,
            insert-IsOrdered k v m h.1,
          )
  ]

  -- What all entries have is had by the one that is found.
  pub All-get :
      (P : Text × V → Type 0) (k : Text) (v : V) (m : BTreeMap V)
      → All P m
      → get k m ≡ some v
      → P (k, v)
  unfolding get
  All-get P k v [] all e = cc
  All-get P k v ((l, w) ∷ m) all e = elim (Bool-cases (text_eq l k)) [
    | inl same ↦
        let found : w ≡ v = let e' = rw (same) at e in cc in
        subst P (λ i. (text_eq→eq l k same i, found i)) all.0
    | inr other ↦ All-get P k v m all.1 (rw (other) at e)
  ]
