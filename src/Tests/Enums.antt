-- ===== src/Tests/Enums.antt =====
-- A builder with enum values, single and packed, a BytesValue and a Struct, and what is decoded from it.
use pact_protobuf_plugin.Base.{
  ◌≡◌, ◌≤◌, ◌<◌, ◌^◌, ℕ, refl, some, none, List, [], ◌∷◌, map, flat_map, All, if◌then◌else◌, arith,
}
use pact_protobuf_plugin.Base.Text.{Text, codes, text_eq}
use pact_protobuf_plugin.Base.Int.{pos, as_i32, as_u64}
use pact_protobuf_plugin.ProstTypes.{
  WireType, FieldType, Label, FieldDescriptorProto, EnumDescriptorProto, DescriptorProto,
  descriptor_proto, nil,
}
use pact_protobuf_plugin.Outcome.{Outcome, ok}
use pact_protobuf_plugin.Field.{ProtobufField, ProtobufFieldData}
use pact_protobuf_plugin.FieldValue.{RType, to_i32, MessageFieldValue}
use pact_protobuf_plugin.Lookup
use pact_protobuf_plugin.Names
use pact_protobuf_plugin.Lookup.{
  should_be_packed_type, is_repeated_field, find_enum_by_name_in_message,
}
use pact_protobuf_plugin.Decoder.{find_field_descriptor, find_embedded, find_enum}
use pact_protobuf_plugin.Decoder.Message.{known_field, decode_message}
use pact_protobuf_plugin.Builder.{MessageFieldValueType, FieldValueInner, MessageBuilder, inner}
use pact_protobuf_plugin.Builder.Encode.{delimited}
use pact_protobuf_plugin.Builder.Packed.{packed_enum_value}
use pact_protobuf_plugin.Builder.Message.{BuilderOf, encode_message, encode_with, number_key}
use pact_protobuf_plugin.Builder.RoundTrip.{IsKnown, IsValue}
use pact_protobuf_plugin.Builder.RoundTrip.Message.{
  IsEncodable, IsDecodable, decode_message-encode_message,
}
use pact_protobuf_plugin.Tests.Instance.{test_libraries}
use pact_protobuf_plugin.Tests.Varint.{varint_bytes, key_bytes}
use pact_protobuf_plugin.Tests.Data.{item, item_file, files}
use pact_protobuf_plugin.Tests.Builder.{test_encoding}

abbrev colour : EnumDescriptorProto
colour = record {
  name = some (codes "Colour");
  value =
      record { name = some (codes "RED"); number = some (pos 0) }
      ∷ record { name = some (codes "BLUE"); number = some (pos 2) }
      ∷ [];
}

abbrev typed : Text → ℕ → Label → FieldType → Text → FieldDescriptorProto
typed name number label type type_name = record {
  name = some name;
  number = some (pos number);
  label = label;
  type = type;
  type_name = some type_name;
  default_value = none;
}

abbrev bytes_field : FieldDescriptorProto
bytes_field = typed (codes "bytes") 1 Label.optional FieldType.message (codes ".shop.Item")

abbrev colour_field : FieldDescriptorProto
colour_field = typed (codes "colour") 2 Label.optional FieldType.enum (codes "Colour")

abbrev colours_field : FieldDescriptorProto
colours_field = typed (codes "colours") 3 Label.repeated FieldType.enum (codes "Colour")

abbrev struct_field : FieldDescriptorProto
struct_field = typed (codes "struct") 4 Label.optional FieldType.message (codes ".shop.Item")

abbrev paint : DescriptorProto
paint =
    descriptor_proto (some (codes "Paint"))
      (bytes_field ∷ colour_field ∷ colours_field ∷ struct_field ∷ []) nil (colour ∷ []) none

abbrev bucket : MessageBuilder (BuilderOf Text 0) Text
bucket = record {
  file_descriptor = item_file;
  descriptor = paint;
  message_name = codes "Paint";
  fields =
      (
        codes "bytes",
        inner bytes_field MessageFieldValueType.normal
            (record { name = codes "bytes"; raw_value = none; rtype = RType.bytes (7 ∷ []) } ∷ []),
      )
      ∷ (
        codes "colour",
        inner colour_field MessageFieldValueType.normal (
            record { name = codes "colour"; raw_value = none; rtype = RType.enum (pos 2) colour }
            ∷ []),
      )
      ∷ (
        codes "colours",
        inner colours_field MessageFieldValueType.repeated (
            record { name = codes "colours"; raw_value = none; rtype = RType.enum (pos 2) colour }
            ∷ record { name = codes "colours"; raw_value = none; rtype = RType.integer_32 (pos 0) }
            ∷ []),
      )
      ∷ (
        codes "struct",
        inner struct_field MessageFieldValueType.normal (
            record { name = codes "struct"; raw_value = none; rtype = RType.struct_value [] } ∷ []),
      )
      ∷ [];
}

abbrev encode_none : BuilderOf Text 0 → Outcome (List ℕ)
encode_none m = absurd m

abbrev bytes_values : List (ProtobufFieldData × WireType)
bytes_values =
    (ProtobufFieldData.message (delimited test_encoding 1 (7 ∷ [])) item, WireType.length_delimited)
    ∷ []

abbrev colour_values : List (ProtobufFieldData × WireType)
colour_values = (ProtobufFieldData.enum (pos 2) colour, WireType.varint) ∷ []

abbrev colours_values : List (ProtobufFieldData × WireType)
colours_values =
    (ProtobufFieldData.enum (pos 2) colour, WireType.varint)
    ∷ (ProtobufFieldData.enum (pos 0) colour, WireType.varint)
    ∷ []

abbrev struct_values : List (ProtobufFieldData × WireType)
struct_values = (ProtobufFieldData.message [] item, WireType.length_delimited) ∷ []

abbrev decoded : Text × FieldValueInner (BuilderOf Text 0) Text → List ProtobufField
decoded e =
    if text_eq e.0 (codes "bytes")
    then map (known_field bytes_field 1) bytes_values
    else if text_eq e.0 (codes "colour")
    then map (known_field colour_field 2) colour_values
    else if text_eq e.0 (codes "colours")
    then map (known_field colours_field 3) colours_values
    else map (known_field struct_field 4) struct_values

colour_found : find_enum paint files (codes "Colour") ≡ some colour
unfolding find_enum find_enum_by_name_in_message Lookup.is_enum_named Names.last_name
colour_found = refl

item_found : find_embedded paint files bytes_field 1 ≡ ok item
unfolding find_embedded Lookup.find_message_descriptor_for_type Lookup.find_message_descriptor
    Lookup.find_file_descriptors Names.parse_name Lookup.find_all_file_descriptors_for_package
    Lookup.unless_empty Lookup.has_package Lookup.without_dot Lookup.message_in_file
    Lookup.with_file Lookup.find_message_type_in_file_descriptor
item_found = refl

struct_found : find_embedded paint files struct_field 4 ≡ ok item
unfolding find_embedded Lookup.find_message_descriptor_for_type Lookup.find_message_descriptor
    Lookup.find_file_descriptors Names.parse_name Lookup.find_all_file_descriptors_for_package
    Lookup.unless_empty Lookup.has_package Lookup.without_dot Lookup.message_in_file
    Lookup.with_file Lookup.find_message_type_in_file_descriptor
struct_found = refl

is_known :
    (f : FieldDescriptorProto) (n : ℕ) (t : MessageFieldValueType)
    (vs : List (MessageFieldValue (BuilderOf Text 0) Text))
    → (1 ≤ n) × (n < 2 ^ 29)
    → f.number ≡ some (pos n)
    → find_field_descriptor (as_i32 n) paint ≡ ok f
    → IsKnown test_encoding encode_none paint files (inner f t vs) n
is_known f n t vs tag number found = record {
  tag = tag;
  number = number;
  found = found;
  same_type = refl;
}

bucket_fields :
    All
      (λ e.
        IsDecodable test_encoding encode_none paint files
          (encode_with test_encoding 1 encode_none)
          bucket
          e
          (decoded e))
      bucket.fields
unfolding find_field_descriptor as_i32 should_be_packed_type is_repeated_field packed_enum_value
    delimited varint_bytes key_bytes to_i32 as_u64
bucket_fields = (
  (
    1,
    bytes_values,
    is_known bytes_field 1 _ _ (omega arith, omega arith) refl refl,
    IsEncodable.normal _ _ refl refl
        (IsValue.bytes_value (7 ∷ []) item refl (omega arith) item_found),
    refl,
  ),
  (
    (
      2,
      colour_values,
      is_known colour_field 2 _ _ (omega arith, omega arith) refl refl,
      IsEncodable.normal _ _ refl refl (
          IsValue.enum_value (pos 2) colour
            (record { name = some (codes "BLUE"); number = some (pos 2) }) (codes "Colour") colour
            refl refl refl (omega arith) colour_found),
      refl,
    ),
    (
      (
        3,
        colours_values,
        is_known colours_field 3 _ _ (omega arith, omega arith) refl refl,
        IsEncodable.packed_enum _ _ (pos 2) (pos 0 ∷ []) colour refl refl refl refl refl refl
            (omega arith, (omega arith, tt)) colour_found (omega arith),
        refl,
      ),
      (
        (
          4,
          struct_values,
          is_known struct_field 4 _ _ (omega arith, omega arith) refl refl,
          IsEncodable.normal _ _ refl refl
              (IsValue.struct_value [] [] item refl refl (omega arith) struct_found),
          refl,
        ),
        tt,
      ),
    ),
  ),
)

bucket_read_back :
    (bytes : List ℕ) × (encode_message test_encoding encode_none bucket ≡ ok bytes)
    × (decode_message test_libraries bytes paint files
        ≡ ok (
            test_libraries.sorted_by ProtobufField
              (λ f. f.field_num)
              (flat_map decoded (
                test_libraries.sorted_by
                  (Text × FieldValueInner (BuilderOf Text 0) Text)
                  (λ e. number_key e.1)
                  bucket.fields))))
bucket_read_back =
    decode_message-encode_message test_encoding encode_none paint files bucket decoded bucket_fields
