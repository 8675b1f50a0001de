-- ===== src/Lookup/Search.antt =====
-- What `find`, `find_map` and `filter` return: an element of the list, and one wherever there is one.
use pact_protobuf_plugin.Base.{
  ◌≡◌, refl, sym, ◌∙◌, ◌⊎◌, inl, inr, Bool, true, false, Option, none, some, List, [], ◌∷◌, find,
  filter, find_map, Bool-cases, Option-cases, All,
}
use mathlib.Core.Path.{subst}
use mathlib.Core.Option.{some-injective}

module _ {A : Type 0} where
  -- `x` stands in the list.
  abbrev pub Member : A → List A → Type 0
  Member x [] = ⊥
  Member x (y ∷ ys) = (y ≡ x) ⊎ Member x ys

  pub find_sound :
      (p : A → Bool) (xs : List A) (x : A) → find p xs ≡ some x → Member x xs × (p x ≡ true)
  find_sound p [] x e = cc
  find_sound p (y ∷ ys) x e = elim (Bool-cases (p y)) [
    | inl here ↦
        let same : y ≡ x = some-injective _ _ (rw here at e) in
        (inl same, subst (λ z. p z ≡ true) same here)
    | inr past ↦ let h = find_sound p ys x (rw past at e) in (inr h.0, h.1)
  ]

  pub find_complete :
      (p : A → Bool) (xs : List A) (x : A)
      → Member x xs
      → p x ≡ true
      → (y : A) × (find p xs ≡ some y)
  find_complete p [] x m h = absurd m
  find_complete p (y ∷ ys) x m h = elim (Bool-cases (p y)) [
    | inl here ↦ (y, rw here)
    | inr past ↦ elim m [
      | inl same ↦ absurd (true_past (rw same at past))
      | inr rest ↦ rw past (find_complete p ys x rest h)
    ]
  ]
    where
      true_past : p x ≡ false → ⊥
      true_past q = cc

  pub filter_sound :
      (p : A → Bool) (xs : List A) (x : A) → Member x (filter p xs) → Member x xs × (p x ≡ true)
  filter_sound p [] x m = absurd m
  filter_sound p (y ∷ ys) x m = elim (Bool-cases (p y)) [
    | inl keep ↦ kept (rw keep at m) keep (filter_sound p ys x)
    | inr cut ↦ let h = filter_sound p ys x (rw cut at m) in (inr h.0, h.1)
  ]
    where
      kept :
          Member x (y ∷ filter p ys)
          → p y ≡ true
          → (Member x (filter p ys) → Member x ys × (p x ≡ true))
          → Member x (y ∷ ys) × (p x ≡ true)
      kept (inl same) k ih = (inl same, subst (λ z. p z ≡ true) same k)
      kept (inr rest) k ih = let h = ih rest in (inr h.0, h.1)

  pub filter_complete :
      (p : A → Bool) (xs : List A) (x : A) → Member x xs → p x ≡ true → Member x (filter p xs)
  filter_complete p [] x m h = absurd m
  filter_complete p (y ∷ ys) x (inl same) h = rw (subst (λ z. p z ≡ true) (sym same) h) (inl same)
  filter_complete p (y ∷ ys) x (inr rest) h = elim (Bool-cases (p y)) [
    | inl keep ↦ rw keep (inr (filter_complete p ys x rest h))
    | inr cut ↦ rw cut (filter_complete p ys x rest h)
  ]

module _ {A B : Type 0} where
  pub find_map_sound :
      (f : A → Option B) (xs : List A) (b : B)
      → find_map f xs ≡ some b
      → (a : A) × Member a xs × (f a ≡ some b)
  find_map_sound f [] b e = cc
  find_map_sound f (y ∷ ys) b e = elim (Option-cases (f y)) [
    | inl past ↦ let (a, m, h) = find_map_sound f ys b (rw (past, find_map) at e) in (a, inr m, h)
    | inr (c, here) ↦ (y, inl refl, here ∙ (rw (here, find_map) at e))
  ]

  pub find_map_complete :
      (f : A → Option B) (xs : List A) (a : A) (b : B)
      → Member a xs
      → f a ≡ some b
      → (c : B) × (find_map f xs ≡ some c)
  find_map_complete f [] a b m h = absurd m
  find_map_complete f (y ∷ ys) a b m h = elim (Option-cases (f y)) [
    | inl past ↦ elim m [
      | inl same ↦ absurd (some_past (rw same at past))
      | inr rest ↦ rw (past, find_map) (find_map_complete f ys a b rest h)
    ]
    | inr (c, here) ↦ (c, rw (here, find_map))
  ]
    where
      some_past : f a ≡ none → ⊥
      some_past q = cc

pub All-Member :
    {A : Type 0} (P : A → Type 0) (xs : List A) → All P xs → (x : A) → Member x xs → P x
All-Member P [] h x m = absurd m
All-Member P (y ∷ ys) h x (inl e) = subst P e h.0
All-Member P (y ∷ ys) h x (inr m) = All-Member P ys h.1 x m

pub All-intro :
    {A : Type 0} (P : A → Type 0) (xs : List A) → ((x : A) → Member x xs → P x) → All P xs
All-intro P [] h = tt
All-intro P (x ∷ xs) h = (h x (inl refl), All-intro P xs (λ y m. h y (inr m)))
