-- ===== src/BTreeMap.antt =====
-- std::collections::BTreeMap with text keys, as src/message_builder.rs uses it: the list of its
-- entries in the order of their keys, which is the order in which it is visited.
pub mod Laws
use pact_protobuf_plugin.Base.{ℕ, ◌≡◌, Option, none, some, List, [], ◌∷◌, if◌then◌else◌, All}
use pact_protobuf_plugin.Base.Text.{Text, text_eq}
use Prim.Native.Nat.{compare, Ordering}

-- `str::cmp`: the order of the bytes.
abbrev pub text_cmp : Text → Text → Ordering
text_cmp [] [] = Ordering.eq
text_cmp [] (d ∷ t) = Ordering.lt
text_cmp (c ∷ s) [] = Ordering.gt
text_cmp (c ∷ s) (d ∷ t) = elim (compare c d) [
  | Ordering.lt ↦ Ordering.lt
  | Ordering.eq ↦ text_cmp s t
  | Ordering.gt ↦ Ordering.gt
]

abbrev pub BTreeMap : Type 0 → Type 0
BTreeMap V = List (Text × V)

module _ {V : Type 0} where
  unfoldable pub get : Text → BTreeMap V → Option V
  get k [] = none
  get k ((l, v) ∷ m) = if text_eq l k then some v else get k m

  unfoldable pub insert : Text → V → BTreeMap V → BTreeMap V
  insert k v [] = (k, v) ∷ []
  insert k v ((l, w) ∷ m) = elim (text_cmp k l) [
    | Ordering.lt ↦ (k, v) ∷ (l, w) ∷ m
    | Ordering.eq ↦ (k, v) ∷ m
    | Ordering.gt ↦ (l, w) ∷ insert k v m
  ]

  -- The keys rise, so none occurs twice.
  abbrev pub IsOrdered : BTreeMap V → Type 0
  IsOrdered [] = Unit {0}
  IsOrdered ((k, v) ∷ m) = All (λ (e : Text × V). text_cmp k e.0 ≡ Ordering.lt) m × IsOrdered m
