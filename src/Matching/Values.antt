-- ===== src/Matching/Values.antt =====
-- Where no matcher is defined, two values match exactly where they are equal.
use pact_protobuf_plugin.Base.{
  ℕ, suc, ◌≡◌, refl, ap, ◌↔◌, Bool, true, false, Option, none, some, List, [], ◌∷◌,
}
use pact_protobuf_plugin.Base.Text.{Text}
use pact_protobuf_plugin.ProstTypes.{FieldDescriptorProto, FileDescriptorSet}
use pact_protobuf_plugin.Outcome.{ok, ok-injective}
use pact_protobuf_plugin.Field.{ProtobufField, ProtobufFieldData}
use pact_protobuf_plugin.Render.{enum_name}
use pact_protobuf_plugin.Matching.{
  Mismatch, MatchValue, AreEqual, Pact, Compare, compare_value, equality_mismatches,
}
use pact_protobuf_plugin.Matching.Fields.{compare_data, compare_field, data_mismatch}

abbrev pub is_message : ProtobufFieldData → Bool
is_message (ProtobufFieldData.message b d) = true
is_message _ = false

module _ (pact : Pact) (fds : FileDescriptorSet) where
  open pact use {DocPath, Context}

  -- The data is of one type and of one value; the values of an enum are compared by their names in the
  -- enum of the expected field. Messages are left out, and Unknown data is the same as no other.
  abbrev pub SameData : ProtobufFieldData → ProtobufFieldData → Type 0
  SameData (ProtobufFieldData.string s) (ProtobufFieldData.string t) = s ≡ t
  SameData (ProtobufFieldData.boolean a) (ProtobufFieldData.boolean b) = a ≡ b
  SameData (ProtobufFieldData.uinteger_32 m) (ProtobufFieldData.uinteger_32 n) = m ≡ n
  SameData (ProtobufFieldData.integer_32 i) (ProtobufFieldData.integer_32 j) = i ≡ j
  SameData (ProtobufFieldData.uinteger_64 m) (ProtobufFieldData.uinteger_64 n) = m ≡ n
  SameData (ProtobufFieldData.integer_64 i) (ProtobufFieldData.integer_64 j) = i ≡ j
  SameData (ProtobufFieldData.float m) (ProtobufFieldData.float n) =
      AreEqual (MatchValue.double (pact.casts.f32_as_f64 m))
        (MatchValue.double (pact.casts.f32_as_f64 n))
  SameData (ProtobufFieldData.double m) (ProtobufFieldData.double n) =
      AreEqual (MatchValue.double m) (MatchValue.double n)
  SameData (ProtobufFieldData.bytes a) (ProtobufFieldData.bytes b) = a ≡ b
  SameData (ProtobufFieldData.enum m e) (ProtobufFieldData.enum n e') =
      enum_name m e ≡ enum_name n e
  SameData _ _ = ⊥

  equality_mismatches_iff :
      (path : DocPath) (s t : Text) (o : Option Text)
      → (equality_mismatches pact path s t o ≡ []) ↔ (o ≡ none)
  unfolding equality_mismatches
  equality_mismatches_iff path s t none = (λ e. refl, λ e. refl)
  equality_mismatches_iff path s t (some m) = (λ e. cc, λ e. cc)

  compare_value_iff :
      (path : DocPath) (a b : MatchValue) (s t : Text) (context : Context)
      → pact.matcher_is_defined context path ≡ false
      → (ok (compare_value pact path a b s t context) ≡ ok []) ↔ AreEqual a b
  unfolding compare_value
  compare_value_iff path a b s t context free = rw (free) (
    (λ e.
        pact.AreEqual-matches_equality a b
          ((equality_mismatches_iff path s t (pact.matches_equality a b)).0 (ok-injective e))),
    (λ same. ap ok (
        (equality_mismatches_iff path s t (pact.matches_equality a b)).1
          (pact.matches_equality-AreEqual a b same))),
  )

  compare_data_iff :
      (nested : Compare pact) (path : DocPath) (field actual : ProtobufField)
      (descriptor : FieldDescriptorProto) (context : Context) (x y : ProtobufFieldData)
      → is_message x ≡ false
      → pact.matcher_is_defined context path ≡ false
      → (compare_data pact fds nested path field descriptor actual context x y ≡ ok [])
        ↔ SameData x y
  unfolding compare_data data_mismatch
  compare_data_iff nested path field actual descriptor context (ProtobufFieldData.string s)
        (ProtobufFieldData.string t) h free =
      compare_value_iff path _ _ _ _ context free
  compare_data_iff nested path field actual descriptor context (ProtobufFieldData.boolean a)
        (ProtobufFieldData.boolean b) h free =
      compare_value_iff path _ _ _ _ context free
  compare_data_iff nested path field actual descriptor context (ProtobufFieldData.uinteger_32 m)
        (ProtobufFieldData.uinteger_32 n) h free =
      compare_value_iff path _ _ _ _ context free
  compare_data_iff nested path field actual descriptor context (ProtobufFieldData.integer_32 m)
        (ProtobufFieldData.integer_32 n) h free =
      compare_value_iff path _ _ _ _ context free
  compare_data_iff nested path field actual descriptor context (ProtobufFieldData.uinteger_64 m)
        (ProtobufFieldData.uinteger_64 n) h free =
      compare_value_iff path _ _ _ _ context free
  compare_data_iff nested path field actual descriptor context (ProtobufFieldData.integer_64 m)
        (ProtobufFieldData.integer_64 n) h free =
      compare_value_iff path _ _ _ _ context free
  compare_data_iff nested path field actual descriptor context (ProtobufFieldData.float m)
        (ProtobufFieldData.float n) h free =
      compare_value_iff path _ _ _ _ context free
  compare_data_iff nested path field actual descriptor context (ProtobufFieldData.double m)
        (ProtobufFieldData.double n) h free =
      compare_value_iff path _ _ _ _ context free
  compare_data_iff nested path field actual descriptor context (ProtobufFieldData.bytes a)
        (ProtobufFieldData.bytes b) h free =
      compare_value_iff path _ _ _ _ context free
  compare_data_iff nested path field actual descriptor context (ProtobufFieldData.enum m e)
        (ProtobufFieldData.enum n e') h free =
      compare_value_iff path _ _ _ _ context free
  compare_data_iff nested path field actual descriptor context (ProtobufFieldData.message b d) y h
        free =
      cc
  compare_data_iff nested path field actual descriptor context _ _ h free =
      (λ e. nonempty e, λ same. absurd same)
    where
      nonempty : {m : Mismatch} {ms : List Mismatch} → ok (m ∷ ms) ≡ ok [] → ⊥
      nonempty e = cc

  -- Where no matcher is defined for the path, and the expected field is no message: it matches the
  -- actual field exactly where their data is of one type other than Unknown and of one value; Unknown
  -- data never matches, not even equal data. An enum is compared by the name of its value in the enum
  -- of the expected field, and a float as a 64-bit float, where both zeros are equal and a NaN is equal
  -- to nothing.
  pub compare_field_iff :
      (fuel : ℕ) (path : DocPath) (field actual : ProtobufField) (descriptor : FieldDescriptorProto)
      (context : Context)
      → is_message field.field_data ≡ false
      → pact.matcher_is_defined context path ≡ false
      → (compare_field pact fds (suc fuel) path field descriptor actual context ≡ ok [])
        ↔ SameData field.field_data actual.field_data
  unfolding compare_field
  compare_field_iff fuel path field actual descriptor context h free =
      compare_data_iff (compare_field pact fds fuel) path field actual descriptor context
        field.field_data actual.field_data h free
