-- ===== src/Names/Qualified.antt =====
-- Fully qualified type names: how they are built, and how the parts are found again.
use pact_protobuf_plugin.Base.{◌≡◌, ◌≢◌, refl, false, none, some, [], ◌∷◌, ◌++◌}
use pact_protobuf_plugin.Base.Text.{Text, Free, starts_with_byte}
use pact_protobuf_plugin.Outcome.{ok}
use pact_protobuf_plugin.Names.{last_name, parse_name, to_fully_qualified_name}
use pact_protobuf_plugin.Names.Split.{rsplit_once-append, split_cons-append}

-- The last name of a text is what follows its last dot.
last_name-append : (a b : Text) → Free b'.' b → last_name (a ++ (b'.' ∷ b)) ≡ b
unfolding last_name
last_name-append a b h = let (f, g, r, e, l) = split_cons-append b'.' a b h in rw (e, l)

-- A name with no dot in it, put behind a package that does not start with a dot, is found again
-- with its package, by `parse_name` and by `last_name`. The package may be empty.
pub parse_name-to_fully_qualified_name :
    (name package_name : Text)
    → name ≢ []
    → Free b'.' name
    → starts_with_byte b'.' package_name ≡ false
    → (q : Text) × (to_fully_qualified_name name package_name ≡ ok q)
      × (parse_name q ≡ (name, some package_name))
      × (last_name q ≡ name)
unfolding to_fully_qualified_name parse_name
parse_name-to_fully_qualified_name [] package_name h free nodot = absurd (h refl)
parse_name-to_fully_qualified_name (c ∷ name) [] h free nodot = (
  b'.' ∷ c ∷ name,
  refl,
  rw (rsplit_once-append b'.' [] (c ∷ name) free),
  last_name-append [] (c ∷ name) free,
)
parse_name-to_fully_qualified_name (c ∷ name) (d ∷ package_name) h free nodot = (
  b'.' ∷ d ∷ (package_name ++ (b'.' ∷ c ∷ name)),
  refl,
  rw (rsplit_once-append b'.' (b'.' ∷ d ∷ package_name) (c ∷ name) free),
  last_name-append (b'.' ∷ d ∷ package_name) (c ∷ name) free,
)

-- A name that does not start with a dot is relative, whatever dots it holds: it is returned whole,
-- with no package.
pub parse_name_relative :
    (name : Text) → starts_with_byte b'.' name ≡ false → parse_name name ≡ (name, none)
unfolding parse_name
parse_name_relative name h = rw h
