-- ===== src/Names/Split.antt =====
-- What splitting at a separator returns.
use pact_protobuf_plugin.Base.{
  ℕ, ◌≡◌, ◌≢◌, refl, ap, true, false, Option, none, some, List, [], ◌∷◌, ◌++◌, arith, ◌==◌, ==_self,
  ==_ne, All, is_empty, Bool-cases, Option-cases, inl, inr,
}
use mathlib.Core.Path.{subst}
use mathlib.Core.Option.{some-injective}
use native.Mathlib.Decide.{ℕ_discrete}
use pact_protobuf_plugin.Base.Text.{
  Text, Free, split_once, rsplit_once, split_cons, last_or, trim_end_matches,
}

pub split_once-append : (c : ℕ) (a b : Text) → Free c a → split_once c (a ++ (c ∷ b)) ≡ some (a, b)
split_once-append c [] b h = ground (arith, ==_self c)
split_once-append c (d ∷ a) b h = rw (==_ne d c h.0, split_once-append c a b h.1)

-- Equal results of a split have equal parts.
split_parts :
    (a b a' b' : Text)
    → ◌≡◌ {A = Option (Text × Text)} (some (a, b)) (some (a', b'))
    → (a ≡ a') × (b ≡ b')
split_parts a b a' b' e = (
  ap (λ (p : Text × Text). p.0) (some-injective _ _ e),
  ap (λ (p : Text × Text). p.1) (some-injective _ _ e),
)

split_once_here :
    (c d : ℕ) (t a b : Text)
    → d ≡ c
    → split_once c (d ∷ t) ≡ some (a, b)
    → (d ∷ t ≡ a ++ (c ∷ b)) × Free c a
split_once_here c d t a b same e =
    let same_test : (d == c) ≡ true = rw same (==_self c) in
    let (p, q) = split_parts [] t a b (rw same_test at e) in
    (rw (← p, ← q, same), subst (Free c) p tt)

split_once_more :
    (c d : ℕ) (t a b a' b' : Text)
    → d ≢ c
    → (t ≡ a' ++ (c ∷ b')) × Free c a'
    → ◌≡◌ {A = Option (Text × Text)} (some (d ∷ a', b')) (some (a, b))
    → (d ∷ t ≡ a ++ (c ∷ b)) × Free c a
split_once_more c d t a b a' b' other h e =
    let (p, q) = split_parts (d ∷ a') b' a b e in
    (rw (← p, ← q, h.0), subst (Free c) p (other, h.1))

-- The step of `split_once` past a byte that is no separator.
split_once_past :
    (c d : ℕ) (t : Text)
    → d ≢ c
    → split_once c (d ∷ t) ≡ (elim (split_once c t) [ none ↦ none | some (a, b) ↦ some (d ∷ a, b) ])
split_once_past c d t h = rw (==_ne d c h)

-- `split_once` splits at the first separator.
pub split_once→append :
    (c : ℕ) (t a b : Text) → split_once c t ≡ some (a, b) → (t ≡ a ++ (c ∷ b)) × Free c a
split_once→append c [] a b e = cc
split_once→append c (d ∷ t) a b e = elim (ℕ_discrete d c) [
  | yes same ↦ split_once_here c d t a b same e
  | no other ↦ elim (Option-cases (split_once c t)) [
    | inl stop ↦ cc (rw stop at (rw (split_once_past c d t other) at e))
    | inr ((a', b'), more) ↦
        split_once_more c d t a b a' b' other (split_once→append c t a' b' more)
          (rw more at (rw (split_once_past c d t other) at e))
  ]
]

pub rsplit_once-none : (c : ℕ) (b : Text) → Free c b → rsplit_once c b ≡ none
rsplit_once-none c [] h = refl
rsplit_once-none c (d ∷ b) h = rw (rsplit_once-none c b h.1, ==_ne d c h.0)

pub rsplit_once-append :
    (c : ℕ) (a b : Text) → Free c b → rsplit_once c (a ++ (c ∷ b)) ≡ some (a, b)
rsplit_once-append c [] b h = rw (rsplit_once-none c b h, ==_self c)
rsplit_once-append c (d ∷ a) b h = rw (rsplit_once-append c a b h)

split_cons-Free : (c : ℕ) (b : Text) → Free c b → split_cons c b ≡ (b, [])
split_cons-Free c [] h = refl
split_cons-Free c (d ∷ b) h = rw (split_cons-Free c b h.1, ==_ne d c h.0)

-- Where there is a separator, a split has two parts at least, and the last is what follows the last
-- separator.
pub split_cons-append :
    (c : ℕ) (a b : Text)
    → Free c b
    → (f g : Text) × (r : List Text) × (split_cons c (a ++ (c ∷ b)) ≡ (f, g ∷ r))
      × (last_or g r ≡ b)
split_cons-append c [] b h = ([], b, [], rw (split_cons-Free c b h, ==_self c), refl)
split_cons-append c (d ∷ a) b h =
    let (f, g, r, e, l) = split_cons-append c a b h in
    elim (Bool-cases (d == c)) [
      | inl same ↦ ([], f, g ∷ r, rw (e, same), l)
      | inr other ↦ (d ∷ f, g, r, rw (e, other), l)
    ]

is_empty-append : (a b : Text) → b ≢ [] → is_empty (a ++ b) ≡ false
is_empty-append [] [] h = absurd (h refl)
is_empty-append [] (c ∷ b) h = refl
is_empty-append (d ∷ a) b h = refl

-- A text that does not end in `c` is not trimmed, also behind another text.
pub trim_end_matches-append :
    (c : ℕ) (a b : Text) → b ≢ [] → trim_end_matches c b ≡ b → trim_end_matches c (a ++ b) ≡ a ++ b
unfolding trim_end_matches
trim_end_matches-append c [] b h e = e
trim_end_matches-append c (d ∷ a) b h e =
    rw (trim_end_matches-append c a b h e, is_empty-append a b h)

pub trim_end_matches→All : (c : ℕ) (t : Text) → trim_end_matches c t ≡ [] → All (λ d. d ≡ c) t
unfolding trim_end_matches
trim_end_matches→All c [] e = tt
trim_end_matches→All c (d ∷ t) e = ground (arith, trim_end_matches→All c t)

pub All→trim_end_matches : (c : ℕ) (t : Text) → All (λ d. d ≡ c) t → trim_end_matches c t ≡ []
unfolding trim_end_matches
All→trim_end_matches c [] h = refl
All→trim_end_matches c (d ∷ t) h = ground (arith, All→trim_end_matches c t)
