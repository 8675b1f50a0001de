-- ===== src/Base/Text.antt =====
-- Texts as lists of UTF-8 bytes, with the `str` methods of Rust's standard library that the program
-- calls. The separators '.' and '/' are single bytes below 128, which occur in UTF-8 only as
-- themselves, so splitting on bytes is splitting on characters.
use Prim.Native.Char.{code}
use pact_protobuf_plugin.Base.Tests.{◌==◌, if◌then◌else◌}
use pact_protobuf_plugin.Base.Lists.{is_empty, All}
use Prim.Native.Nat.{ℕ}
use Prim.Native.String.{String}
use mathlib.Core.Path.{◌≡◌, refl}
use mathlib.Core.Bool.{Bool, true, false, ◌&&◌}
use mathlib.Core.Logic.{◌≢◌}
use mathlib.Core.List.{List, [], ◌∷◌, ◌++◌}
use mathlib.Core.Option.{Option, none, some}
use native.Mathlib.Omega.{arith}

abbrev pub Text : Type 0
Text = List ℕ

-- The bytes of an ASCII literal.
abbrev pub codes : String → Text
codes String.[] = []
codes (String.◌∷◌ c s) = code c ∷ codes s

-- `==` on strings.
abbrev pub text_eq : Text → Text → Bool
text_eq [] [] = true
text_eq [] (d ∷ t) = false
text_eq (c ∷ s) [] = false
text_eq (c ∷ s) (d ∷ t) = (c == d) && text_eq s t

pub text_eq_self : (s : Text) → text_eq s s ≡ true
text_eq_self [] = refl
text_eq_self (c ∷ s) = ground (arith, text_eq_self s)

pub text_eq→eq : (s t : Text) → text_eq s t ≡ true → s ≡ t
text_eq→eq [] [] h = refl
text_eq→eq [] (d ∷ t) h = cc
text_eq→eq (c ∷ s) [] h = cc
text_eq→eq (c ∷ s) (d ∷ t) h = ground (arith, text_eq→eq s t)

-- `str::starts_with` and `str::strip_prefix`, for a prefix of one byte.
abbrev pub starts_with_byte : ℕ → Text → Bool
starts_with_byte c [] = false
starts_with_byte c (d ∷ t) = d == c

abbrev pub strip_prefix_byte : ℕ → Text → Option Text
strip_prefix_byte c [] = none
strip_prefix_byte c (d ∷ t) = if d == c then some t else none

-- `str::starts_with`, for any prefix.
abbrev pub starts_with : Text → Text → Bool
starts_with [] t = true
starts_with (c ∷ s) [] = false
starts_with (c ∷ s) (d ∷ t) = (c == d) && starts_with s t

-- `str::split_once`: the parts before and behind the first `c`.
abbrev pub split_once : ℕ → Text → Option (Text × Text)
split_once c [] = none
split_once c (d ∷ t) =
    let more : Option (Text × Text) = elim (split_once c t) [
      | none ↦ none
      | some (a, b) ↦ some (d ∷ a, b)
    ] in
    if d == c then some ([], t) else more

-- `str::rsplit_once`: the parts before and behind the last `c`.
abbrev pub rsplit_once : ℕ → Text → Option (Text × Text)
rsplit_once c [] = none
rsplit_once c (d ∷ t) = elim (rsplit_once c t) [
  | some (a, b) ↦ some (d ∷ a, b)
  | none ↦ if d == c then some ([], t) else none
]

-- `str::split(c)`, as the first part and the others: there is always a first part.
abbrev pub split_cons : ℕ → Text → Text × List Text
split_cons c [] = ([], [])
split_cons c (d ∷ t) =
    let (first, rest) = split_cons c t in if d == c then ([], first ∷ rest) else (d ∷ first, rest)

abbrev pub split : ℕ → Text → List Text
split c t = let (first, rest) = split_cons c t in first ∷ rest

-- `Iterator::last`, which `unwrap_or` follows.
abbrev pub last_or {ℓ} : {A : Type ℓ} → A → List A → A
last_or d [] = d
last_or d (x ∷ xs) = last_or x xs

-- `[&str]::join`.
abbrev pub join : Text → List Text → Text
join sep [] = []
join sep (p ∷ []) = p
join sep (p ∷ q ∷ ps) = p ++ (sep ++ join sep (q ∷ ps))

-- `str::trim_end_matches(c)`.
unfoldable pub trim_end_matches : ℕ → Text → Text
trim_end_matches c [] = []
trim_end_matches c (d ∷ t) =
    let trimmed = trim_end_matches c t in if is_empty trimmed && (d == c) then [] else d ∷ trimmed

-- The text holds no byte `c`.
abbrev pub Free : ℕ → Text → Type 0
Free c = All (λ d. d ≢ c)
