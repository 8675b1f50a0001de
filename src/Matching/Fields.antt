-- ===== src/Matching/Fields.antt =====
-- compare_field of src/matching.rs, and `compare`, `match_message` and `match_service`. A field that
-- holds a message is compared field by field; the fuel is for the nesting, and a message is longer than
-- the messages in its fields.
use pact_protobuf_plugin.Base.{
  ℕ, zero, suc, Bool, Option, none, some, List, [], ◌∷◌, length, flat_map, if◌then◌else◌, unwrap_or,
}
use pact_protobuf_plugin.Base.Text.{Text, codes, text_eq}
use pact_protobuf_plugin.ProstTypes.{FieldDescriptorProto, DescriptorProto, FileDescriptorSet}
use pact_protobuf_plugin.Outcome.{Outcome, Error, ok, err, panic, out_of_fuel}
use pact_protobuf_plugin.Field.{ProtobufField, ProtobufFieldData}
use pact_protobuf_plugin.FieldValue.{decimal, int_to_string}
use pact_protobuf_plugin.Render.{display_bytes, display_data, enum_name, find_message_field_by_name}
use pact_protobuf_plugin.Decoder.Message.{decode_message}
use pact_protobuf_plugin.StructJson.{struct_field_data_to_json}
use pact_protobuf_plugin.Matching.{
  Shown, Explanation, Mismatch, BodyMatchResult, MatchValue, Pact, Compare, mismatch_of,
  compare_value,
}
use pact_protobuf_plugin.Matching.Messages.{compare_message}

abbrev pub bool_text : Bool → Text
bool_text b = if b then codes "true" else codes "false"

-- The bytes of a BytesValue: none where the field is missing or of another type.
unfoldable pub bytes_of : Option ProtobufFieldData → List ℕ
bytes_of (some (ProtobufFieldData.bytes b)) = b
bytes_of _ = []

abbrev pub data_of_field : Option ProtobufField → Option ProtobufFieldData
data_of_field (some f) = some f.field_data
data_of_field none = none

-- What is done with a call that failed: its error is a mismatch.
unfoldable pub or_mismatch :
    {A : Type 0}
    → Outcome A
    → (Error → List Mismatch)
    → (A → Outcome (List Mismatch))
    → Outcome (List Mismatch)
or_mismatch (ok a) failed next = next a
or_mismatch (err e) failed next = ok (failed e)
or_mismatch panic failed next = panic
or_mismatch out_of_fuel failed next = out_of_fuel

-- `mismatches.values().flatten()`.
unfoldable pub all_mismatches : BodyMatchResult → List Mismatch
all_mismatches BodyMatchResult.matches = []
all_mismatches (BodyMatchResult.body_mismatches results) =
    flat_map (λ (r : Text × List Mismatch). r.1) results

module _ (pact : Pact) where
  open pact use {DocPath, Context}

  -- A mismatch with both sides as they are displayed.
  unfoldable pub data_mismatch :
      DocPath → ProtobufField → ProtobufField → Explanation → List Mismatch
  data_mismatch path field actual explanation =
      mismatch_of (pact.path_to_string path)
        (some (Shown.text (display_data pact.casts field.field_data)))
        (some (Shown.text (display_data pact.casts actual.field_data))) explanation
      ∷ []

  -- The arm of google.protobuf.BytesValue.
  unfoldable pub compare_bytes_value :
      DocPath
      → DescriptorProto
      → List ProtobufField
      → List ProtobufField
      → Context
      → Outcome (List Mismatch)
  compare_bytes_value path message_descriptor expected_message actual_message context =
      let b1 = bytes_of (
        data_of_field
          (find_message_field_by_name message_descriptor expected_message (codes "value"))) in
      let b2 = bytes_of (
        data_of_field
          (find_message_field_by_name message_descriptor actual_message (codes "value"))) in
      ok (
        compare_value pact path (MatchValue.bytes b1) (MatchValue.bytes b2) (display_bytes b1)
          (display_bytes b2) context)

module _ (pact : Pact) (fds : FileDescriptorSet) where
  open pact use {DocPath, Context, libs}

  -- The arm of google.protobuf.Struct: both sides as JSON. The fuel is the number of bytes.
  unfoldable pub compare_struct :
      DocPath
      → ProtobufField
      → FieldDescriptorProto
      → ProtobufField
      → List ProtobufField
      → List ProtobufField
      → ℕ
      → ℕ
      → Context
      → Outcome (List Mismatch)
  compare_struct path field descriptor actual expected_message actual_message expected_length
        actual_length context =
      let name = unwrap_or descriptor.name (codes "unknown") in
      or_mismatch (struct_field_data_to_json libs fds expected_length expected_message)
        (λ e. data_mismatch pact path field actual (Explanation.expected_not_decoded name e))
        (λ expected_json.
          or_mismatch (struct_field_data_to_json libs fds actual_length actual_message)
            (λ e. data_mismatch pact path field actual (Explanation.actual_not_decoded name e))
            (λ actual_json. ok (pact.compare_json context path expected_json actual_json)))

  -- The match on the type name of a message field.
  unfoldable pub compare_typed_message :
      Compare pact
      → DocPath
      → ProtobufField
      → FieldDescriptorProto
      → ProtobufField
      → List ℕ
      → List ℕ
      → DescriptorProto
      → Context
      → Option Text
      → List ProtobufField
      → List ProtobufField
      → Outcome (List Mismatch)
  compare_typed_message compare_field path field descriptor actual b1 b2 message_descriptor context
        none expected_message actual_message =
      ok (
        data_mismatch pact path field actual
          (Explanation.type_name_not_set (unwrap_or descriptor.name (codes "unknown"))))
  compare_typed_message compare_field path field descriptor actual b1 b2 message_descriptor context
        (some name) expected_message actual_message =
      let normal =
        or_mismatch
          (compare_message pact fds compare_field path expected_message actual_message context
            message_descriptor)
          (λ e.
            mismatch_of (pact.path_to_string path) (some (Shown.text name)) (some (Shown.text name))
              (Explanation.comparison_failed e)
            ∷ [])
          (λ result. ok (all_mismatches result)) in
      if text_eq name (codes ".google.protobuf.BytesValue")
      then compare_bytes_value pact path message_descriptor expected_message actual_message context
      else if text_eq name (codes ".google.protobuf.Struct")
      then compare_struct path field descriptor actual expected_message actual_message (length b1)
          (length b2) context
      else normal

  -- The arm of two messages: both are decoded with the descriptor of the expected one.
  unfoldable pub compare_embedded :
      Compare pact
      → DocPath
      → ProtobufField
      → FieldDescriptorProto
      → ProtobufField
      → List ℕ
      → List ℕ
      → DescriptorProto
      → Context
      → Outcome (List Mismatch)
  compare_embedded compare_field path field descriptor actual b1 b2 message_descriptor context =
      let name = unwrap_or descriptor.name (codes "unknown") in
      or_mismatch (decode_message libs b1 message_descriptor fds)
        (λ e. data_mismatch pact path field actual (Explanation.expected_not_decoded name e))
        (λ expected_message.
          or_mismatch (decode_message libs b2 message_descriptor fds)
            (λ e. data_mismatch pact path field actual (Explanation.actual_not_decoded name e))
            (λ actual_message.
              compare_typed_message compare_field path field descriptor actual b1 b2
                message_descriptor context descriptor.type_name expected_message actual_message))

  -- The match on the data of both fields.
  unfoldable pub compare_data :
      Compare pact
      → DocPath
      → ProtobufField
      → FieldDescriptorProto
      → ProtobufField
      → Context
      → ProtobufFieldData
      → ProtobufFieldData
      → Outcome (List Mismatch)
  unfolding decimal int_to_string
  compare_data nested path field descriptor actual context (ProtobufFieldData.string s1)
        (ProtobufFieldData.string s2) =
      ok (compare_value pact path (MatchValue.text s1) (MatchValue.text s2) s1 s2 context)
  compare_data nested path field descriptor actual context (ProtobufFieldData.boolean b1)
        (ProtobufFieldData.boolean b2) =
      ok (
        compare_value pact path (MatchValue.boolean b1) (MatchValue.boolean b2) (bool_text b1)
          (bool_text b2) context)
  compare_data nested path field descriptor actual context (ProtobufFieldData.uinteger_32 n1)
        (ProtobufFieldData.uinteger_32 n2) =
      ok (
        compare_value pact path (MatchValue.unsigned n1) (MatchValue.unsigned n2) (decimal n1)
          (decimal n2) context)
  compare_data nested path field descriptor actual context (ProtobufFieldData.integer_32 n1)
        (ProtobufFieldData.integer_32 n2) =
      ok (
        compare_value pact path (MatchValue.signed_32 n1) (MatchValue.signed_32 n2)
          (int_to_string n1) (int_to_string n2) context)
  compare_data nested path field descriptor actual context (ProtobufFieldData.uinteger_64 n1)
        (ProtobufFieldData.uinteger_64 n2) =
      ok (
        compare_value pact path (MatchValue.unsigned n1) (MatchValue.unsigned n2) (decimal n1)
          (decimal n2) context)
  compare_data nested path field descriptor actual context (ProtobufFieldData.integer_64 n1)
        (ProtobufFieldData.integer_64 n2) =
      ok (
        compare_value pact path (MatchValue.signed_64 n1) (MatchValue.signed_64 n2)
          (int_to_string n1) (int_to_string n2) context)
  compare_data nested path field descriptor actual context (ProtobufFieldData.float n1)
        (ProtobufFieldData.float n2) =
      ok (
        compare_value pact path (MatchValue.double (pact.casts.f32_as_f64 n1))
          (MatchValue.double (pact.casts.f32_as_f64 n2)) (pact.casts.f32_to_string n1)
          (pact.casts.f32_to_string n2) context)
  compare_data nested path field descriptor actual context (ProtobufFieldData.double n1)
        (ProtobufFieldData.double n2) =
      ok (
        compare_value pact path (MatchValue.double n1) (MatchValue.double n2)
          (pact.casts.f64_to_string n1) (pact.casts.f64_to_string n2) context)
  compare_data nested path field descriptor actual context (ProtobufFieldData.bytes b1)
        (ProtobufFieldData.bytes b2) =
      ok (
        compare_value pact path (MatchValue.bytes b1) (MatchValue.bytes b2) (display_bytes b1)
          (display_bytes b2) context)
  compare_data nested path field descriptor actual context (ProtobufFieldData.enum n1 e)
        (ProtobufFieldData.enum n2 e2) =
      ok (
        compare_value pact path (MatchValue.text (enum_name n1 e))
          (MatchValue.text (enum_name n2 e)) (enum_name n1 e) (enum_name n2 e) context)
  compare_data nested path field descriptor actual context (ProtobufFieldData.message b1 d)
        (ProtobufFieldData.message b2 d2) =
      compare_embedded nested path field descriptor actual b1 b2 d context
  compare_data nested path field descriptor actual context _ _ =
      ok (data_mismatch pact path field actual (Explanation.different_types field actual))

  unfoldable pub compare_field : ℕ → Compare pact
  compare_field zero path field descriptor actual context = out_of_fuel
  compare_field (suc fuel) path field descriptor actual context =
      compare_data (compare_field fuel) path field descriptor actual context field.field_data
        actual.field_data
