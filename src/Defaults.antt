-- ===== src/Defaults.antt =====
-- Default values: the functions of src/message_decoder/mod.rs that make them. Parsing decimal text to a float is a parameter.
pub mod Populate
pub mod Written
use pact_protobuf_plugin.Base.{
  ℕ, ◌^◌, Bool, true, false, ◌&&◌, not, Option, none, some, List, [], ◌∷◌, ◌++◌, find, unwrap_or,
  or_else, if◌then◌else◌, ◌==◌,
}
use pact_protobuf_plugin.Base.Text.{Text, codes, text_eq}
use pact_protobuf_plugin.Base.Int.{ℤ, pos, as_u32}
use pact_protobuf_plugin.Base.Bytes.{parse_unsigned, parse_signed}
use pact_protobuf_plugin.ProstTypes.{
  WireType, FieldType, FieldDescriptorProto, EnumDescriptorProto, DescriptorProto,
  FileDescriptorSet, text_or_default,
}
use pact_protobuf_plugin.Descriptor
use pact_protobuf_plugin.Field.{ProtobufFieldData, ProtobufField, is_default_field_value}
use pact_protobuf_plugin.Lookup.{find_enum_by_name_in_message, find_enum_by_name, is_repeated_field}

-- `str::parse` into a float's bit pattern.
pub record Floats : Type 0 where
  pub parse_f32 : Text → Option ℕ
  pub parse_f64 : Text → Option ℕ

abbrev parse_i32 : Text → ℤ
parse_i32 s = unwrap_or (parse_signed (2 ^ 31) s) (pos 0)

abbrev parse_i64 : Text → ℤ
parse_i64 s = unwrap_or (parse_signed (2 ^ 63) s) (pos 0)

abbrev parse_u32 : Text → ℕ
parse_u32 s = unwrap_or (parse_unsigned (2 ^ 32) s) 0

abbrev parse_u64 : Text → ℕ
parse_u64 s = unwrap_or (parse_unsigned (2 ^ 64) s) 0

-- The enum that a field's type name refers to: one of the message, or one of the files.
unfoldable pub enum_of_field :
    FieldDescriptorProto → DescriptorProto → FileDescriptorSet → Option EnumDescriptorProto
enum_of_field field_descriptor descriptor fds =
    or_else
      (find_enum_by_name_in_message (Descriptor.enum_type descriptor)
        (text_or_default field_descriptor.type_name))
      (find_enum_by_name fds (text_or_default field_descriptor.type_name))

-- An enum field's default, where its enum is found.
unfoldable pub enum_default : ℤ → Option EnumDescriptorProto → Option ProtobufFieldData
enum_default n none = none
enum_default n (some enum_proto) = some (ProtobufFieldData.enum n enum_proto)

unfoldable pub wire_type_of : FieldType → WireType
wire_type_of FieldType.double = WireType.sixty_four_bit
wire_type_of FieldType.fixed64 = WireType.sixty_four_bit
wire_type_of FieldType.sfixed64 = WireType.sixty_four_bit
wire_type_of FieldType.float = WireType.thirty_two_bit
wire_type_of FieldType.fixed32 = WireType.thirty_two_bit
wire_type_of FieldType.sfixed32 = WireType.thirty_two_bit
wire_type_of FieldType.int64 = WireType.varint
wire_type_of FieldType.uint64 = WireType.varint
wire_type_of FieldType.int32 = WireType.varint
wire_type_of FieldType.bool = WireType.varint
wire_type_of FieldType.uint32 = WireType.varint
wire_type_of FieldType.enum = WireType.varint
wire_type_of FieldType.sint32 = WireType.varint
wire_type_of FieldType.sint64 = WireType.varint
wire_type_of _ = WireType.length_delimited

unfoldable pub wire_type_for_field : FieldDescriptorProto → WireType
unfolding wire_type_of
wire_type_for_field descriptor = wire_type_of descriptor.type

-- The value of a type where the descriptor sets no default; `e` is the field's enum, where found.
unfoldable pub unset_default : FieldType → Option EnumDescriptorProto → Option ProtobufFieldData
unfolding enum_default
unset_default FieldType.double e = some (ProtobufFieldData.double 0)
unset_default FieldType.float e = some (ProtobufFieldData.float 0)
unset_default FieldType.int64 e = some (ProtobufFieldData.integer_64 (pos 0))
unset_default FieldType.uint64 e = some (ProtobufFieldData.uinteger_64 0)
unset_default FieldType.int32 e = some (ProtobufFieldData.integer_32 (pos 0))
unset_default FieldType.fixed64 e = some (ProtobufFieldData.integer_64 (pos 0))
unset_default FieldType.fixed32 e = some (ProtobufFieldData.integer_32 (pos 0))
unset_default FieldType.bool e = some (ProtobufFieldData.boolean false)
unset_default FieldType.string e = some (ProtobufFieldData.string [])
unset_default FieldType.bytes e = some (ProtobufFieldData.bytes [])
unset_default FieldType.uint32 e = some (ProtobufFieldData.uinteger_32 0)
unset_default FieldType.enum e = enum_default (pos 0) e
unset_default FieldType.sfixed32 e = some (ProtobufFieldData.integer_32 (pos 0))
unset_default FieldType.sfixed64 e = some (ProtobufFieldData.integer_64 (pos 0))
unset_default FieldType.sint32 e = some (ProtobufFieldData.integer_32 (pos 0))
unset_default FieldType.sint64 e = some (ProtobufFieldData.integer_64 (pos 0))
unset_default _ e = none

module _ (floats : Floats) where
  -- The value of a type from the text that the descriptor gives.
  unfoldable pub parsed_default :
      Text → FieldType → Option EnumDescriptorProto → Option ProtobufFieldData
  unfolding enum_default
  parsed_default s FieldType.double e =
      some (ProtobufFieldData.double (unwrap_or (floats.parse_f64 s) 0))
  parsed_default s FieldType.float e =
      some (ProtobufFieldData.float (unwrap_or (floats.parse_f32 s) 0))
  parsed_default s FieldType.int64 e = some (ProtobufFieldData.integer_64 (parse_i64 s))
  parsed_default s FieldType.uint64 e = some (ProtobufFieldData.uinteger_64 (parse_u64 s))
  parsed_default s FieldType.int32 e = some (ProtobufFieldData.integer_32 (parse_i32 s))
  parsed_default s FieldType.fixed64 e = some (ProtobufFieldData.integer_64 (parse_i64 s))
  parsed_default s FieldType.fixed32 e = some (ProtobufFieldData.integer_32 (parse_i32 s))
  parsed_default s FieldType.bool e = some (ProtobufFieldData.boolean (text_eq s (codes "true")))
  parsed_default s FieldType.string e = some (ProtobufFieldData.string s)
  parsed_default s FieldType.bytes e = some (ProtobufFieldData.bytes s)
  parsed_default s FieldType.uint32 e = some (ProtobufFieldData.uinteger_32 (parse_u32 s))
  parsed_default s FieldType.enum e = enum_default (parse_i32 s) e
  parsed_default s FieldType.sfixed32 e = some (ProtobufFieldData.integer_32 (parse_i32 s))
  parsed_default s FieldType.sfixed64 e = some (ProtobufFieldData.integer_64 (parse_i64 s))
  parsed_default s FieldType.sint32 e = some (ProtobufFieldData.integer_32 (parse_i32 s))
  parsed_default s FieldType.sint64 e = some (ProtobufFieldData.integer_64 (parse_i64 s))
  parsed_default s _ e = none

  -- The match on the descriptor's default value.
  unfoldable pub default_data_of :
      FieldType → Option EnumDescriptorProto → Option Text → Option ProtobufFieldData
  unfolding parsed_default
  default_data_of t e (some s) = parsed_default s t e
  default_data_of t e none = unset_default t e

  unfoldable pub default_field_data :
      FieldDescriptorProto → DescriptorProto → FileDescriptorSet → Option ProtobufFieldData
  unfolding default_data_of
  default_field_data field_descriptor descriptor fds =
      default_data_of field_descriptor.type (enum_of_field field_descriptor descriptor fds)
        field_descriptor.default_value

  -- The field around its default data.
  unfoldable pub field_of_data : FieldDescriptorProto → ProtobufFieldData → ProtobufField
  field_of_data field_descriptor d = record {
    field_num = as_u32 (unwrap_or field_descriptor.number (pos 0));
    field_name = text_or_default field_descriptor.name;
    wire_type = wire_type_for_field field_descriptor;
    field_data = d;
    additional_data = [];
    descriptor = field_descriptor;
  }

  unfoldable pub default_field :
      FieldDescriptorProto → DescriptorProto → FileDescriptorSet → Option ProtobufField
  default_field field_descriptor descriptor fds =
      elim (default_field_data field_descriptor descriptor fds) [
        | some d ↦ some (field_of_data field_descriptor d)
        | none ↦ none
      ]

  -- The default of a value's own type, from the text that the descriptor gives.
  unfoldable pub parsed_field_value : Text → ProtobufFieldData → ProtobufFieldData
  parsed_field_value s (ProtobufFieldData.string v) = ProtobufFieldData.string s
  parsed_field_value s (ProtobufFieldData.boolean v) =
      ProtobufFieldData.boolean (text_eq s (codes "true"))
  parsed_field_value s (ProtobufFieldData.uinteger_32 v) =
      ProtobufFieldData.uinteger_32 (parse_u32 s)
  parsed_field_value s (ProtobufFieldData.integer_32 v) = ProtobufFieldData.integer_32 (parse_i32 s)
  parsed_field_value s (ProtobufFieldData.uinteger_64 v) =
      ProtobufFieldData.uinteger_64 (parse_u64 s)
  parsed_field_value s (ProtobufFieldData.integer_64 v) = ProtobufFieldData.integer_64 (parse_i64 s)
  parsed_field_value s (ProtobufFieldData.float v) =
      ProtobufFieldData.float (unwrap_or (floats.parse_f32 s) 0)
  parsed_field_value s (ProtobufFieldData.double v) =
      ProtobufFieldData.double (unwrap_or (floats.parse_f64 s) 0)
  parsed_field_value s (ProtobufFieldData.bytes v) = ProtobufFieldData.bytes s
  parsed_field_value s (ProtobufFieldData.enum v d) = ProtobufFieldData.enum (parse_i32 s) d
  parsed_field_value s (ProtobufFieldData.message v d) = ProtobufFieldData.message [] d
  parsed_field_value s (ProtobufFieldData.unknown v) = ProtobufFieldData.unknown []

  -- The default of a value's own type, where the descriptor gives no text.
  unfoldable pub zero_field_value : ProtobufFieldData → ProtobufFieldData
  zero_field_value (ProtobufFieldData.string v) = ProtobufFieldData.string []
  zero_field_value (ProtobufFieldData.boolean v) = ProtobufFieldData.boolean false
  zero_field_value (ProtobufFieldData.uinteger_32 v) = ProtobufFieldData.uinteger_32 0
  zero_field_value (ProtobufFieldData.integer_32 v) = ProtobufFieldData.integer_32 (pos 0)
  zero_field_value (ProtobufFieldData.uinteger_64 v) = ProtobufFieldData.uinteger_64 0
  zero_field_value (ProtobufFieldData.integer_64 v) = ProtobufFieldData.integer_64 (pos 0)
  zero_field_value (ProtobufFieldData.float v) = ProtobufFieldData.float 0
  zero_field_value (ProtobufFieldData.double v) = ProtobufFieldData.double 0
  zero_field_value (ProtobufFieldData.bytes v) = ProtobufFieldData.bytes []
  zero_field_value (ProtobufFieldData.enum v d) = ProtobufFieldData.enum (pos 0) d
  zero_field_value (ProtobufFieldData.message v d) = ProtobufFieldData.message [] d
  zero_field_value (ProtobufFieldData.unknown v) = ProtobufFieldData.unknown []

  -- `ProtobufFieldData::default_field_value`.
  unfoldable pub default_field_value : FieldDescriptorProto → ProtobufFieldData → ProtobufFieldData
  default_field_value descriptor d = elim (descriptor.default_value) [
    | some s ↦ parsed_field_value s d
    | none ↦ zero_field_value d
  ]

  -- `ProtobufField::default_field_value`: a copy of the field with the value replaced.
  unfoldable pub field_default_value : ProtobufField → ProtobufField
  field_default_value f = record f {
    field_data = default_field_value f.descriptor f.field_data;
    additional_data = [];
  }
