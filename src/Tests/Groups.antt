-- ===== src/Tests/Groups.antt =====
-- A stable sort and a grouping as itertools documents them, with the laws that the codec relies on.
use pact_protobuf_plugin.Base.{
  ℕ, ◌≤◌, ◌<◌, ◌≡◌, ◌≢◌, refl, sym, ap, ◌∙◌, inl, inr, false, List, [], ◌∷◌, ◌++◌, map, flat_map,
  All, leb, leb→le, not_leb→lt, ◌==◌, ==_ne, ==_iff, ==_self, if◌then◌else◌, Bool-cases, arith,
}
use mathlib.Core.Path.{subst}
use pact_protobuf_plugin.Libraries.{with_key, IsSorted, IsDistinct}

module _ {A : Type 0} (key : A → ℕ) where
  unfoldable pub insert : A → List A → List A
  insert x [] = x ∷ []
  insert x (y ∷ ys) = let rest = insert x ys in if leb (key x) (key y) then x ∷ y ∷ ys else y ∷ rest

  unfoldable pub sort : List A → List A
  unfolding insert
  sort [] = []
  sort (x ∷ xs) = insert x (sort xs)

  insert_behind :
      (y x : A) (ys : List A)
      → key y ≤ key x
      → IsSorted key (y ∷ ys)
      → IsSorted key (y ∷ insert x ys)
  unfolding insert
  insert_behind y x [] le h = (le, tt)
  insert_behind y x (z ∷ zs) le h = elim (Bool-cases (leb (key x) (key z))) [
    | inl below ↦ rw below (le, (leb→le _ _ below, h.1))
    | inr above ↦ rw above (h.0, insert_behind z x zs (omega (arith, not_leb→lt _ _ above)) h.1)
  ]

  insert-IsSorted : (x : A) (ys : List A) → IsSorted key ys → IsSorted key (insert x ys)
  unfolding insert
  insert-IsSorted x [] h = tt
  insert-IsSorted x (y ∷ ys) h = elim (Bool-cases (leb (key x) (key y))) [
    | inl below ↦ rw below (leb→le _ _ below, h)
    | inr above ↦ rw above (insert_behind y x ys (omega (arith, not_leb→lt _ _ above)) h)
  ]

  pub sort-IsSorted : (xs : List A) → IsSorted key (sort xs)
  unfolding sort
  sort-IsSorted [] = tt
  sort-IsSorted (x ∷ xs) = insert-IsSorted x (sort xs) (sort-IsSorted xs)

  -- An element that goes behind one with a smaller key.
  behind :
      (k : ℕ) (x y : A) (ys : List A)
      → key y < key x
      → with_key key k (insert x ys) ≡ with_key key k (x ∷ ys)
      → with_key key k (y ∷ insert x ys) ≡ with_key key k (x ∷ y ∷ ys)
  behind k x y ys lt ih = elim (Bool-cases (key y == k)) [
    | inl same ↦
        let apart : (key x == k) ≡ false =
          ==_ne (key x) k (omega (arith, (==_iff (key y) k).0 same, lt)) in
        rw (same, apart) (ap (λ (zs : List A). y ∷ zs) (rw apart at ih))
    | inr other ↦ rw other ih
  ]

  with_key-insert :
      (k : ℕ) (x : A) (ys : List A) → with_key key k (insert x ys) ≡ with_key key k (x ∷ ys)
  unfolding insert
  with_key-insert k x [] = refl
  with_key-insert k x (y ∷ ys) = elim (Bool-cases (leb (key x) (key y))) [
    | inl below ↦ rw below
    | inr above ↦ rw above (behind k x y ys (not_leb→lt _ _ above) (with_key-insert k x ys))
  ]

  with_key-cons :
      (k : ℕ) (x : A) (xs ys : List A)
      → with_key key k xs ≡ with_key key k ys
      → with_key key k (x ∷ xs) ≡ with_key key k (x ∷ ys)
  with_key-cons k x xs ys e = elim (Bool-cases (key x == k)) [
    | inl same ↦ rw (same, e)
    | inr other ↦ rw (other, e)
  ]

  pub with_key-sort : (k : ℕ) (xs : List A) → with_key key k (sort xs) ≡ with_key key k xs
  unfolding sort
  with_key-sort k [] = refl
  with_key-sort k (x ∷ xs) =
      with_key-insert k x (sort xs) ∙ with_key-cons k x (sort xs) xs (with_key-sort k xs)

module _ {A : Type 0} where
  unfoldable pub add : ℕ × A → List (ℕ × List A) → List (ℕ × List A)
  add (k, x) [] = (k, x ∷ []) ∷ []
  add (k, x) ((j, xs) ∷ groups) =
      let rest = add (k, x) groups in if j == k then (j, x ∷ xs) ∷ groups else (j, xs) ∷ rest

  unfoldable pub group : List (ℕ × A) → List (ℕ × List A)
  unfolding add
  group [] = []
  group (p ∷ ps) = add p (group ps)

  All-add :
      (j : ℕ) (p : ℕ × A) (groups : List (ℕ × List A))
      → p.0 ≢ j
      → All (λ y. y ≢ j) (map (λ g. g.0) groups)
      → All (λ y. y ≢ j) (map (λ g. g.0) (add p groups))
  unfolding add
  All-add j (k, x) [] ne h = (ne, tt)
  All-add j (k, x) ((i, xs) ∷ groups) ne h = elim (Bool-cases (i == k)) [
    | inl same ↦ rw same h
    | inr other ↦ rw other (h.0, All-add j (k, x) groups ne h.1)
  ]

  add-IsDistinct :
      (p : ℕ × A) (groups : List (ℕ × List A))
      → IsDistinct (map (λ g. g.0) groups)
      → IsDistinct (map (λ g. g.0) (add p groups))
  unfolding add
  add-IsDistinct (k, x) [] h = (tt, tt)
  add-IsDistinct (k, x) ((i, xs) ∷ groups) h = elim (Bool-cases (i == k)) [
    | inl same ↦ rw same h
    | inr other ↦
        rw other
          (All-add i (k, x) groups (λ e. apart other e) h.0, add-IsDistinct (k, x) groups h.1)
  ]
    where
      apart : (i == k) ≡ false → k ≢ i
      apart q e = cc (q, (==_iff i k).1 (sym e))

  pub group-IsDistinct : (ps : List (ℕ × A)) → IsDistinct (map (λ (g : ℕ × List A). g.0) (group ps))
  unfolding group
  group-IsDistinct [] = tt
  group-IsDistinct (p ∷ ps) = add-IsDistinct p (group ps) (group-IsDistinct ps)

  add_nonempty :
      (p : ℕ × A) (groups : List (ℕ × List A))
      → All (λ g. g.1 ≢ []) groups
      → All (λ g. g.1 ≢ []) (add p groups)
  unfolding add
  add_nonempty (k, x) [] h = ((λ e. cc), tt)
  add_nonempty (k, x) ((i, xs) ∷ groups) h = elim (Bool-cases (i == k)) [
    | inl same ↦ rw same ((λ e. cc), h.1)
    | inr other ↦ rw other (h.0, add_nonempty (k, x) groups h.1)
  ]

  pub group_nonempty : (ps : List (ℕ × A)) → All (λ (g : ℕ × List A). g.1 ≢ []) (group ps)
  unfolding group
  group_nonempty [] = tt
  group_nonempty (p ∷ ps) = add_nonempty p (group ps) (group_nonempty ps)

  abbrev values : ℕ → List (ℕ × List A) → List A
  values k groups = flat_map (λ g. g.1) (with_key (λ g. g.0) k groups)

  values-add_same :
      (k : ℕ) (x : A) (groups : List (ℕ × List A))
      → values k (add (k, x) groups) ≡ x ∷ values k groups
  unfolding add
  values-add_same k x [] = rw (==_self k)
  values-add_same k x ((i, xs) ∷ groups) = elim (Bool-cases (i == k)) [
    | inl same ↦ rw (same, same)
    | inr other ↦ rw (other, other) (values-add_same k x groups)
  ]

  values-add_other :
      (k j : ℕ) (x : A) (groups : List (ℕ × List A))
      → (j == k) ≡ false
      → values k (add (j, x) groups) ≡ values k groups
  unfolding add
  values-add_other k j x [] ne = rw ne
  values-add_other k j x ((i, xs) ∷ groups) ne = elim (Bool-cases (i == j)) [
    | inl same ↦
        let apart : (i == k) ≡ false = ap (λ n. n == k) ((==_iff i j).0 same) ∙ ne in
        rw same (rw apart)
    | inr other ↦ rw other (elim (Bool-cases (i == k)) [
      | inl here ↦ rw here (ap (λ (zs : List A). xs ++ zs) (values-add_other k j x groups ne))
      | inr past ↦ rw past (values-add_other k j x groups ne)
    ])
  ]

  pub group_values :
      (ps : List (ℕ × A)) (k : ℕ)
      → flat_map (λ (g : ℕ × List A). g.1) (with_key (λ g. g.0) k (group ps))
        ≡ map (λ (p : ℕ × A). p.1) (with_key (λ p. p.0) k ps)
  unfolding group
  group_values [] k = refl
  group_values ((j, x) ∷ ps) k = elim (Bool-cases (j == k)) [
    | inl same ↦ rw same (
        subst
          (λ n. values k (add (n, x) (group ps)) ≡ x ∷ map (λ p. p.1) (with_key (λ p. p.0) k ps))
          (sym ((==_iff j k).0 same))
          (values-add_same k x (group ps) ∙ ap (λ (zs : List A). x ∷ zs) (group_values ps k)))
    | inr other ↦ rw other (values-add_other k j x (group ps) other ∙ group_values ps k)
  ]
