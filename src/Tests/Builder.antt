-- ===== src/Tests/Builder.antt =====
-- Runs of the message builder.
use pact_protobuf_plugin.Base.{
  ◌≤◌, ◌<◌, ◌^◌, ℕ, ◌≡◌, refl, none, some, List, [], ◌∷◌, ◌++◌, length, map, flat_map, All,
  if◌then◌else◌, arith,
}
use pact_protobuf_plugin.Base.Text.{Text, codes, text_eq}
use pact_protobuf_plugin.Base.Int.{pos, negsuc, as_i32}
use pact_protobuf_plugin.Base.Bytes.{is_utf8}
use pact_protobuf_plugin.ProstTypes.{WireType, FieldDescriptorProto}
use pact_protobuf_plugin.Outcome.{Outcome, ok, Returns}
use pact_protobuf_plugin.Field.{ProtobufField, ProtobufFieldData}
use pact_protobuf_plugin.FieldValue.{FloatCasts, RType, MessageFieldValue, to_i64, to_u64, as_str}
use pact_protobuf_plugin.Lookup.{should_be_packed_type, is_repeated_field}
use pact_protobuf_plugin.Decoder.{find_field_descriptor}
use pact_protobuf_plugin.Decoder.Message.{known_field, decode_message}
use pact_protobuf_plugin.BTreeMap.{IsOrdered, insert, get}
use pact_protobuf_plugin.Builder.{
  MessageFieldValueType, FieldValueInner, MessageBuilder, inner, new, set_field_value,
  add_repeated_field_value,
}
use pact_protobuf_plugin.Builder.Wire.{Scalar, Value, Encoding, wire_type, payload}
use pact_protobuf_plugin.Builder.Packed.{scalar_value}
use pact_protobuf_plugin.Builder.Message.{
  BuilderOf, encode_message, encode_nested, encode_with, number_key,
}
use pact_protobuf_plugin.Builder.RoundTrip.{IsKnown, IsValue, AreValues}
use pact_protobuf_plugin.Builder.RoundTrip.Message.{
  IsEncodable, IsDecodable, decode_message-encode_message,
}
use pact_protobuf_plugin.Builder.Calls.{Operation, perform, perform_all, field_after, calls_on}
use pact_protobuf_plugin.Builder.Values.{fields_view, fields_view-perform_all-new}
use pact_protobuf_plugin.Builder.Consistent.{IsConsistent, perform_all-IsConsistent}
use pact_protobuf_plugin.Builder.Returns.Message.{encode_nested-Returns}
use pact_protobuf_plugin.DynamicMessage.{write_field}
use pact_protobuf_plugin.Builder.Encode.{encode_single_field}
use pact_protobuf_plugin.Builder.Agrees.{encode_single_field-write_field}
use pact_protobuf_plugin.Tests.Instance.{test_libraries}
use pact_protobuf_plugin.Tests.Varint.{varint_bytes}
use pact_protobuf_plugin.Tests.Data.{
  item, item_file, files, test_floats, id_field, tag_field, delta_field, counts_field,
}

-- Casts of floats that no run reads.
abbrev pub test_casts : FloatCasts
test_casts = record {
  integer_as_f32 = λ i. 0;
  integer_as_f64 = λ i. 0;
  f32_as_f64 = λ n. n;
  f64_as_f32 = λ n. n;
  f32_as_u64 = λ n. n;
  f64_as_u64 = λ n. n;
  f32_as_u32 = λ n. n;
  f64_as_u32 = λ n. n;
  f32_as_i64 = λ n. pos n;
  f64_as_i64 = λ n. pos n;
  f32_as_i32 = λ n. pos n;
  f64_as_i32 = λ n. pos n;
  f32_to_string = λ n. codes "0";
  f64_to_string = λ n. codes "0";
}

abbrev pub packed_bytes : (s : Scalar) → ℕ → List (Value s) → List ℕ
packed_bytes s tag [] = []
packed_bytes s tag (v ∷ vs) =
    let body = flat_map (payload test_libraries s) (v ∷ vs) in
    test_libraries.encode_key tag WireType.length_delimited
    ++ (test_libraries.encode_varint (length body) ++ body)

-- A Struct is given by its bytes.
abbrev pub test_encoding : Encoding Text
test_encoding = record {
  libs = test_libraries;
  floats = test_floats;
  casts = test_casts;
  encode = λ s tag v. test_libraries.encode_key tag (wire_type s) ++ payload test_libraries s v;
  encode_packed = packed_bytes;
  encode_struct = λ s. some s;
  encode_lem = λ s tag v. refl;
  encode_packed_nil = λ s tag. refl;
  encode_packed_cons = λ s tag v vs. refl;
}

abbrev SmallBuilder : Type 0
SmallBuilder = MessageBuilder (BuilderOf Text 0) Text

abbrev SmallValue : Type 0
SmallValue = MessageFieldValue (BuilderOf Text 0) Text

abbrev value : Text → RType (BuilderOf Text 0) Text → SmallValue
value name r = record { name = name; raw_value = none; rtype = r }

abbrev operations : List (Operation (BuilderOf Text 0) Text)
operations =
    Operation.add_repeated tag_field (codes "tag")
      (value (codes "tag") (RType.string (codes "new")))
    ∷ Operation.set id_field (codes "id") (value (codes "id") (RType.integer_64 (negsuc 6)))
    ∷ Operation.add_repeated tag_field (codes "tag")
        (value (codes "tag") (RType.string (codes "red")))
    ∷ Operation.set delta_field (codes "delta") (value (codes "delta") (RType.integer_64 (pos 4)))
    ∷ Operation.add_repeated counts_field (codes "counts")
        (value (codes "counts") (RType.uinteger_64 300))
    ∷ []

fields_view-perform_all-new_example :
    ((k : Text)
      → fields_view (perform_all operations (new item (codes "Item") item_file)) k
        ≡ field_after (calls_on k [] operations))
    × IsOrdered (perform_all operations (new item (codes "Item") item_file)).fields
fields_view-perform_all-new_example =
    fields_view-perform_all-new item (codes "Item") item_file operations

abbrev kinds : Text → MessageFieldValueType
kinds name =
    if text_eq name (codes "tag")
    then MessageFieldValueType.repeated
    else if text_eq name (codes "counts")
    then MessageFieldValueType.repeated
    else MessageFieldValueType.normal

perform_all-IsConsistent_example :
    All (IsConsistent kinds) (perform_all operations (new item (codes "Item") item_file)).fields
perform_all-IsConsistent_example =
    perform_all-IsConsistent kinds item (codes "Item") item_file operations
      (refl, (refl, (refl, (refl, (refl, tt)))))

encode_nested-Returns_example :
    Returns
      (encode_nested test_encoding 1 (perform_all operations (new item (codes "Item") item_file)))
encode_nested-Returns_example =
    encode_nested-Returns test_encoding 1
      (perform_all operations (new item (codes "Item") item_file))

-- The fields in the order of their names.
abbrev small : SmallBuilder
small = record {
  file_descriptor = item_file;
  descriptor = item;
  message_name = codes "Item";
  fields =
      (
        codes "counts",
        inner counts_field MessageFieldValueType.repeated
            (value (codes "counts") (RType.uinteger_64 300) ∷ []),
      )
      ∷ (
        codes "delta",
        inner delta_field MessageFieldValueType.normal
            (value (codes "delta") (RType.integer_64 (pos 4)) ∷ []),
      )
      ∷ (
        codes "id",
        inner id_field MessageFieldValueType.normal
            (value (codes "id") (RType.integer_64 (negsuc 6)) ∷ []),
      )
      ∷ (
        codes "tag",
        inner tag_field MessageFieldValueType.repeated (
            value (codes "tag") (RType.string (codes "new"))
            ∷ value (codes "tag") (RType.string (codes "red"))
            ∷ []),
      )
      ∷ [];
}

operations_make_small : perform_all operations (new item (codes "Item") item_file) ≡ small
unfolding perform_all new perform add_repeated_field_value set_field_value insert get
operations_make_small = refl

abbrev encode_none : BuilderOf Text 0 → Outcome (List ℕ)
encode_none m = absurd m

abbrev counts_values : List (ProtobufFieldData × WireType)
counts_values = (ProtobufFieldData.uinteger_64 300, WireType.varint) ∷ []

abbrev delta_values : List (ProtobufFieldData × WireType)
delta_values = (ProtobufFieldData.integer_64 (pos 4), WireType.varint) ∷ []

abbrev id_values : List (ProtobufFieldData × WireType)
id_values = (ProtobufFieldData.integer_64 (negsuc 6), WireType.varint) ∷ []

abbrev tag_values : List (ProtobufFieldData × WireType)
tag_values =
    (ProtobufFieldData.string (codes "new"), WireType.length_delimited)
    ∷ (ProtobufFieldData.string (codes "red"), WireType.length_delimited)
    ∷ []

abbrev decoded : Text × FieldValueInner (BuilderOf Text 0) Text → List ProtobufField
decoded e =
    if text_eq e.0 (codes "counts")
    then map (known_field counts_field 4) counts_values
    else if text_eq e.0 (codes "delta")
    then map (known_field delta_field 3) delta_values
    else if text_eq e.0 (codes "id")
    then map (known_field id_field 1) id_values
    else map (known_field tag_field 2) tag_values

is_known :
    (f : FieldDescriptorProto) (n : ℕ) (t : MessageFieldValueType) (vs : List SmallValue)
    → (1 ≤ n) × (n < 2 ^ 29)
    → f.number ≡ some (pos n)
    → find_field_descriptor (as_i32 n) item ≡ ok f
    → IsKnown test_encoding encode_none item files (inner f t vs) n
is_known f n t vs tag number found = record {
  tag = tag;
  number = number;
  found = found;
  same_type = refl;
}

small_fields :
    All
      (λ e.
        IsDecodable test_encoding encode_none item files
          (encode_with test_encoding 1 encode_none)
          small
          e
          (decoded e))
      small.fields
unfolding find_field_descriptor as_i32 should_be_packed_type scalar_value to_u64 to_i64 as_str
    is_repeated_field is_utf8 varint_bytes
small_fields = (
  (
    4,
    counts_values,
    is_known counts_field 4 _ _ (omega arith, omega arith) refl refl,
    IsEncodable.packed Scalar.uint64 (value (codes "counts") (RType.uinteger_64 300)) [] 300 [] refl
        refl refl tt refl refl (refl, tt) (omega arith, tt) (omega arith),
    refl,
  ),
  (
    (
      3,
      delta_values,
      is_known delta_field 3 _ _ (omega arith, omega arith) refl refl,
      IsEncodable.normal (value (codes "delta") (RType.integer_64 (pos 4))) _ refl refl
          (IsValue.scalar Scalar.sint64 (RType.integer_64 (pos 4)) (pos 4) refl refl (omega arith)),
      refl,
    ),
    (
      (
        1,
        id_values,
        is_known id_field 1 _ _ (omega arith, omega arith) refl refl,
        IsEncodable.normal (value (codes "id") (RType.integer_64 (negsuc 6))) _ refl refl (
            IsValue.scalar Scalar.int64 (RType.integer_64 (negsuc 6)) (negsuc 6) refl refl
              (omega arith)),
        refl,
      ),
      (
        (
          2,
          tag_values,
          is_known tag_field 2 _ _ (omega arith, omega arith) refl refl,
          IsEncodable.repeated _ refl refl (
              AreValues.cons _ _ _ _
                (IsValue.scalar Scalar.string (RType.string (codes "new")) (codes "new") refl refl
                  (omega arith, refl))
                (AreValues.cons _ _ _ _
                  (IsValue.scalar Scalar.string (RType.string (codes "red")) (codes "red") refl refl
                    (omega arith, refl))
                  AreValues.nil)),
          refl,
        ),
        tt,
      ),
    ),
  ),
)

decode_message-encode_message_example :
    (bytes : List ℕ) × (encode_message test_encoding encode_none small ≡ ok bytes)
    × (decode_message test_libraries bytes item files
        ≡ ok (
            test_libraries.sorted_by ProtobufField
              (λ f. f.field_num)
              (flat_map decoded (
                test_libraries.sorted_by
                  (Text × FieldValueInner (BuilderOf Text 0) Text)
                  (λ e. number_key e.1)
                  small.fields))))
decode_message-encode_message_example =
    decode_message-encode_message test_encoding encode_none item files small decoded small_fields

encode_single_field-write_field_example :
    encode_single_field test_encoding encode_none
      (inner id_field MessageFieldValueType.normal [])
      (some (value (codes "id") (RType.uinteger_32 7)))
    ≡ write_field test_libraries
        (known_field id_field 1 (ProtobufFieldData.integer_64 (pos 7), WireType.varint))
        (ProtobufFieldData.integer_64 (pos 7))
encode_single_field-write_field_example =
    encode_single_field-write_field test_encoding encode_none
      (inner id_field MessageFieldValueType.normal []) 1 Scalar.int64
      (value (codes "id") (RType.uinteger_32 7)) (pos 7) (omega arith, omega arith) refl refl tt
      (unfold scalar_value to_i64 in refl)
