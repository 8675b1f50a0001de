-- ===== src/Matching/Scalars.antt =====
-- When repeated fields of values that are no messages match.
use pact_protobuf_plugin.Base.{ℕ, suc, ◌≡◌, ◌↔◌, false, List, [], ◌∷◌, All}
use pact_protobuf_plugin.ProstTypes.{FieldDescriptorProto, FileDescriptorSet}
use pact_protobuf_plugin.Outcome.{ok}
use pact_protobuf_plugin.Field.{ProtobufField}
use pact_protobuf_plugin.FieldValue.{decimal}
use pact_protobuf_plugin.Matching.{Pact, Compare}
use pact_protobuf_plugin.Matching.Lists.{compare_repeated_field}
use pact_protobuf_plugin.Matching.Fields.{compare_field}
use pact_protobuf_plugin.Matching.Values.{is_message, SameData, compare_field_iff}
use pact_protobuf_plugin.Matching.Items.{ItemsMatch, compare_repeated_field_iff}

module _ (pact : Pact) (fds : FileDescriptorSet) (fuel : ℕ) (path : pact.DocPath)
    (descriptor : FieldDescriptorProto) (context : pact.Context) where
  open pact use {DocPath}

  abbrev nested : Compare pact
  nested = compare_field pact fds (suc fuel)

  -- The lists are of one length, with the same data (SameData) at each place.
  abbrev pub SameItems : List ProtobufField → List ProtobufField → Type 0
  SameItems [] [] = Unit {0}
  SameItems (e ∷ expected) (a ∷ actual) =
      SameData pact fds e.field_data a.field_data × SameItems expected actual
  SameItems _ _ = ⊥

  items_iff :
      (free : (p : DocPath) → pact.matcher_is_defined context p ≡ false) (index : ℕ)
      (expected actual : List ProtobufField)
      → All (λ e. is_message e.field_data ≡ false) expected
      → ItemsMatch pact nested path descriptor context index expected actual
        ↔ SameItems expected actual
  items_iff free index [] [] scalars = (λ e. tt, λ e. tt)
  items_iff free index [] (a ∷ actual) scalars = (λ e. absurd e, λ e. absurd e)
  items_iff free index (e ∷ expected) [] scalars = (λ h. absurd h, λ h. absurd h)
  items_iff free index (e ∷ expected) (a ∷ actual) (scalar, others) =
      let p = pact.join path (decimal index) in
      let here = compare_field_iff pact fds fuel p e a descriptor context scalar (free p) in
      let rest = items_iff free (suc index) expected actual others in
      (λ h. (here.0 h.0, rest.0 h.1), λ h. (here.1 h.0, rest.1 h.1))

  -- Where no matcher is defined and no expected value is a message, a repeated field matches exactly
  -- where its values are as many as the expected ones, and each is of the type, other than Unknown, and
  -- of the value of the one at its place: an enum by the name of its value in the enum of the expected
  -- field, and a float as a 64-bit float, where both zeros are equal and a NaN is equal to nothing.
  -- Unknown data never matches, not even equal data.
  pub compare_repeated_field_scalars_iff :
      (expected actual : List ProtobufField)
      → ((p : DocPath) → pact.matcher_is_defined context p ≡ false)
      → All (λ e. is_message e.field_data ≡ false) expected
      → (compare_repeated_field pact nested path descriptor expected actual context ≡ ok [])
        ↔ SameItems expected actual
  compare_repeated_field_scalars_iff expected actual free scalars =
      let lists =
        compare_repeated_field_iff pact nested path descriptor context expected actual
          (free path) in
      let items = items_iff free 0 expected actual scalars in
      (λ h. items.0 (lists.0 h), λ h. lists.1 (items.1 h))
