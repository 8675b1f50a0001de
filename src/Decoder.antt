-- ===== src/Decoder.antt =====
-- decode_message of src/message_decoder/mod.rs. A buffer is the list of its remaining bytes, and a
-- function that reads returns what is left.
pub mod Within
pub mod Zigzag
pub mod Packed
pub mod Message
use pact_protobuf_plugin.Base.{
  ℕ, zero, suc, ◌+◌, ◌*◌, ◌/◌, ◌%◌, ◌^◌, ◌-◌, Bool, true, false, ◌&&◌, Option, none, some, List, [],
  ◌∷◌, ◌++◌, map, find, length, ltb, leb, if◌then◌else◌, unwrap_or, or_else, is_empty, ◌==◌,
}
use Prim.Native.Nat.{bit_and}
use pact_protobuf_plugin.Base.Text.{Text, codes, text_eq}
use pact_protobuf_plugin.Base.Int.{ℤ, pos, as_i32, as_i64, as_u32, neg, xor_i32, xor_i64, int_eq}
use pact_protobuf_plugin.Base.Bytes.{to_le_bytes, is_utf8}
use pact_protobuf_plugin.ProstTypes.{
  WireType, FieldType, Label, FieldDescriptorProto, EnumDescriptorProto, DescriptorProto,
  FileDescriptorSet, FileDescriptorProto, text_or_default,
}
use pact_protobuf_plugin.Descriptor
use pact_protobuf_plugin.Outcome.{
  Outcome, Error, ok, err, panic, out_of_fuel, ◌>>=◌, map_ok, ok_or, or_else_err, or_panic,
}
use pact_protobuf_plugin.Names.{last_name}
use pact_protobuf_plugin.Field.{ProtobufFieldData, ProtobufField, number_is}
use pact_protobuf_plugin.Lookup.{
  find_enum_by_name_in_message, find_enum_by_name, find_message_descriptor_for_type,
  is_repeated_field, should_be_packed_type,
}
use pact_protobuf_plugin.Libraries.{Libraries}

-- `((value >> 1) as i32) ^ (-((value & 1) as i32))`, and the same on 64 bits.
unfoldable pub zigzag_32 : ℕ → ℤ
zigzag_32 value = xor_i32 (as_i32 (value / 2)) (neg (as_i32 (bit_and value 1)))

unfoldable pub zigzag_64 : ℕ → ℤ
zigzag_64 value = xor_i64 (as_i64 (value / 2)) (neg (as_i64 (bit_and value 1)))

unfoldable pub find_field_descriptor : ℤ → DescriptorProto → Outcome FieldDescriptorProto
find_field_descriptor field_num descriptor =
    ok_or (find (λ field. number_is field_num field.number) (Descriptor.field descriptor))
      (Error.field_not_found field_num)

-- The enum that a field's type name refers to: one of the message, or one of the files.
unfoldable pub find_enum : DescriptorProto → FileDescriptorSet → Text → Option EnumDescriptorProto
find_enum descriptor descriptors enum_type_name =
    or_else (find_enum_by_name_in_message (Descriptor.enum_type descriptor) enum_type_name)
      (find_enum_by_name descriptors enum_type_name)

unfoldable pub decode_enum :
    DescriptorProto → FileDescriptorSet → FieldDescriptorProto → ℕ → Outcome ProtobufFieldData
decode_enum descriptor descriptors field_descriptor varint =
    let enum_type_name = text_or_default field_descriptor.type_name in
    ok_or (find_enum descriptor descriptors enum_type_name) (Error.enum_not_found enum_type_name)
    >>= λ enum_proto. ok (ProtobufFieldData.enum (as_i32 varint) enum_proto)

-- The field data of a varint. A type that has no varints keeps the bytes of the number.
unfoldable pub varint_data :
    DescriptorProto
    → FileDescriptorSet
    → FieldDescriptorProto
    → ℕ
    → FieldType
    → Outcome ProtobufFieldData
varint_data d fds f varint FieldType.int64 = ok (ProtobufFieldData.integer_64 (as_i64 varint))
varint_data d fds f varint FieldType.uint64 = ok (ProtobufFieldData.uinteger_64 varint)
varint_data d fds f varint FieldType.int32 = ok (ProtobufFieldData.integer_32 (as_i32 varint))
varint_data d fds f varint FieldType.bool = ok (ProtobufFieldData.boolean (ltb 0 varint))
varint_data d fds f varint FieldType.uint32 = ok (ProtobufFieldData.uinteger_32 (varint % 2 ^ 32))
varint_data d fds f varint FieldType.enum = decode_enum d fds f varint
varint_data d fds f varint FieldType.sint32 =
    ok (ProtobufFieldData.integer_32 (zigzag_32 (varint % 2 ^ 32)))
varint_data d fds f varint FieldType.sint64 = ok (ProtobufFieldData.integer_64 (zigzag_64 varint))
varint_data d fds f varint _ = ok (ProtobufFieldData.unknown (to_le_bytes 8 varint))

-- The field data of eight bytes, read as a little-endian number.
unfoldable pub sixty_four_bit_data : ℕ → FieldType → ProtobufFieldData
sixty_four_bit_data value FieldType.double = ProtobufFieldData.double value
sixty_four_bit_data value FieldType.fixed64 = ProtobufFieldData.uinteger_64 value
sixty_four_bit_data value FieldType.sfixed64 = ProtobufFieldData.integer_64 (as_i64 value)
sixty_four_bit_data value _ = ProtobufFieldData.unknown (to_le_bytes 8 value)

-- The field data of four bytes.
unfoldable pub thirty_two_bit_data : ℕ → FieldType → ProtobufFieldData
thirty_two_bit_data value FieldType.float = ProtobufFieldData.float value
thirty_two_bit_data value FieldType.fixed32 = ProtobufFieldData.uinteger_32 value
thirty_two_bit_data value FieldType.sfixed32 = ProtobufFieldData.integer_32 (as_i32 value)
thirty_two_bit_data value _ = ProtobufFieldData.unknown (to_le_bytes 4 value)

-- `name.as_deref() == Some(…)`.
abbrev pub named : Text → Option Text → Bool
named t none = false
named t (some n) = text_eq n t

-- The descriptor of an embedded message: by its full name, or among the nested types.
unfoldable pub find_embedded :
    DescriptorProto → FileDescriptorSet → FieldDescriptorProto → ℕ → Outcome DescriptorProto
find_embedded descriptor descriptors field_descriptor field_num =
    let full_type_name = text_or_default field_descriptor.type_name in
    or_else_err
      (map_ok (λ (p : DescriptorProto × FileDescriptorProto). p.0)
        (find_message_descriptor_for_type full_type_name descriptors))
      (ok_or
        (find
          (λ message_descriptor.
            named (last_name full_type_name) (Descriptor.name message_descriptor))
          (Descriptor.nested_type descriptor))
        (Error.message_type_not_found field_descriptor.type_name field_num))
