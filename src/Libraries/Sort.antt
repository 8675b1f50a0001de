-- ===== src/Libraries/Sort.antt =====
-- A stable sort is determined: two sorted lists with the same elements under each key, in the same
-- order, are equal.
use pact_protobuf_plugin.Base.{
  ℕ, ◌<◌, ◌≡◌, refl, sym, ap, ◌∙◌, inl, inr, List, [], ◌∷◌, arith, ◌==◌, ==_self, ==_ne, Bool-cases,
  ==_iff,
}
use mathlib.Core.Path.{subst}
use native.Mathlib.Decide.{dec_lt}
use pact_protobuf_plugin.Libraries.{Libraries, with_key, IsSorted}
use pact_protobuf_plugin.Lookup.Search.{Member, filter_sound, filter_complete}

module _ {A : Type 0} (key : A → ℕ) where
  -- Every later key is at least the first.
  IsSorted-bound :
      (x : A) (xs : List A)
      → IsSorted key (x ∷ xs)
      → (k : ℕ) → k < key x
      → with_key key k (x ∷ xs) ≡ []
  IsSorted-bound x [] h k lt = rw (==_ne (key x) k (omega arith))
  IsSorted-bound x (y ∷ ys) h k lt =
      rw (==_ne (key x) k (omega arith)) (IsSorted-bound y ys h.1 k (omega arith))

  IsSorted-tail : (x : A) (xs : List A) → IsSorted key (x ∷ xs) → IsSorted key xs
  IsSorted-tail x [] h = tt
  IsSorted-tail x (y ∷ ys) h = h.1

  cons-injective : {x y : A} {xs ys : List A} → x ∷ xs ≡ y ∷ ys → (x ≡ y) × (xs ≡ ys)
  cons-injective e = (cc, cc)

  with_key_self :
      (x : A) (xs : List A) → with_key key (key x) (x ∷ xs) ≡ x ∷ with_key key (key x) xs
  with_key_self x xs = rw (==_self (key x))

  -- The tails agree under each key where the lists do and have one head.
  with_key_tail :
      (x : A) (xs ys : List A) (k : ℕ)
      → with_key key k (x ∷ xs) ≡ with_key key k (x ∷ ys)
      → with_key key k xs ≡ with_key key k ys
  with_key_tail x xs ys k e = elim (Bool-cases (key x == k)) [
    | inl same ↦ (cons-injective (rw same at e)).1
    | inr other ↦ rw other at e
  ]

  heads_eq :
      (x y : A) (xs ys : List A)
      → IsSorted key (x ∷ xs)
      → IsSorted key (y ∷ ys)
      → ((k : ℕ) → with_key key k (x ∷ xs) ≡ with_key key k (y ∷ ys))
      → x ≡ y
  heads_eq x y xs ys hx hy e = elim (dec_lt (key x) (key y)) [
    | yes below ↦ cc (e (key x), with_key_self x xs, IsSorted-bound y ys hy (key x) below)
    | no above ↦ elim (dec_lt (key y) (key x)) [
      | yes below ↦ cc (e (key y), with_key_self y ys, IsSorted-bound x xs hx (key y) below)
      | no above' ↦ first_of_same (omega arith)
    ]
  ]
    where
      first_of_same : key y ≡ key x → x ≡ y
      first_of_same same =
          let at_y : with_key key (key x) (y ∷ ys) ≡ y ∷ with_key key (key x) ys =
            rw ((==_iff (key y) (key x)).1 same) in
          (cons-injective (sym (with_key_self x xs) ∙ e (key x) ∙ at_y)).0

  pub sorted_unique :
      (xs ys : List A)
      → IsSorted key xs
      → IsSorted key ys
      → ((k : ℕ) → with_key key k xs ≡ with_key key k ys)
      → xs ≡ ys
  sorted_unique [] [] hx hy e = refl
  sorted_unique [] (y ∷ ys) hx hy e = cc (e (key y), with_key_self y ys)
  sorted_unique (x ∷ xs) [] hx hy e = cc (e (key x), with_key_self x xs)
  sorted_unique (x ∷ xs) (y ∷ ys) hx hy e =
      let head = heads_eq x y xs ys hx hy e in
      let tail =
        sorted_unique xs ys (IsSorted-tail x xs hx) (IsSorted-tail y ys hy) (λ k.
          with_key_tail x xs ys k (e k ∙ ap (λ (z : A). with_key key k (z ∷ ys)) (sym head))) in
      ap (λ (z : A). z ∷ xs) head ∙ ap (λ (zs : List A). y ∷ zs) tail

module _ (libs : Libraries) {A : Type 0} (key : A → ℕ) where
  -- Lists that agree under each key are sorted into one list.
  pub sorted_by-eq :
      (xs ys : List A)
      → ((k : ℕ) → with_key key k xs ≡ with_key key k ys)
      → libs.sorted_by A key xs ≡ libs.sorted_by A key ys
  sorted_by-eq xs ys e =
      sorted_unique key _ _ (libs.sorted_by-IsSorted A key xs) (libs.sorted_by-IsSorted A key ys)
        (λ k. libs.with_key-sorted_by A key xs k ∙ e k ∙ sym (libs.with_key-sorted_by A key ys k))

  -- A sorted list is left as it is.
  pub sorted_by_sorted : (xs : List A) → IsSorted key xs → libs.sorted_by A key xs ≡ xs
  sorted_by_sorted xs h =
      sorted_unique key _ _ (libs.sorted_by-IsSorted A key xs) h
        (λ k. libs.with_key-sorted_by A key xs k)

  -- The sorted list has no other elements.
  pub Member-sorted_by : (xs : List A) (x : A) → Member x (libs.sorted_by A key xs) → Member x xs
  Member-sorted_by xs x m =
      let kept = filter_complete (λ z. key z == key x) _ x m (==_self (key x)) in
      (filter_sound (λ z. key z == key x) xs x
        (subst (Member x) (libs.with_key-sorted_by A key xs (key x)) kept)).0
