-- ===== src/Builder/Reads.antt =====
-- What decode_message reads from the bytes that the builder writes for one value.
use pact_protobuf_plugin.Base.{
  ℕ, ◌<◌, ◌^◌, ◌%◌, ◌≡◌, refl, true, false, List, [], ◌∷◌, ◌++◌, length, arith,
}
use pact_protobuf_plugin.Base.Bytes.{is_utf8}
use pact_protobuf_plugin.Base.Int.{
  ℤ, pos, negsuc, IsI32, IsI64, IsU32, IsU64, as_u32, as_u64, as_i64-as_u64, as_i32-as_u32,
  as_i32-as_u64, as_u64-lt, as_u32-lt,
}
use pact_protobuf_plugin.ProstTypes.{
  FieldType, FieldDescriptorProto, DescriptorProto, FileDescriptorSet,
}
use pact_protobuf_plugin.Outcome.{ok}
use pact_protobuf_plugin.Field.{ProtobufFieldData}
use pact_protobuf_plugin.Libraries.{Libraries, IsTag}
use pact_protobuf_plugin.Decoder.{varint_data, sixty_four_bit_data, thirty_two_bit_data}
use pact_protobuf_plugin.Decoder.Zigzag.{
  encode_zigzag, zigzag_32-encode_zigzag, zigzag_64-encode_zigzag,
}
use pact_protobuf_plugin.Decoder.Message.{decode_known, delimited_data}
use pact_protobuf_plugin.Decoder.Message.Known.{
  known_varint, known_eight, known_four, known_delimited,
}
use pact_protobuf_plugin.Builder.Wire.{Scalar, Value, wire_type, payload}

-- The type of a field whose values are encoded by a module of prost.
abbrev pub type_of : Scalar → FieldType
type_of Scalar.double = FieldType.double
type_of Scalar.float = FieldType.float
type_of Scalar.int64 = FieldType.int64
type_of Scalar.uint64 = FieldType.uint64
type_of Scalar.int32 = FieldType.int32
type_of Scalar.uint32 = FieldType.uint32
type_of Scalar.fixed64 = FieldType.fixed64
type_of Scalar.fixed32 = FieldType.fixed32
type_of Scalar.sfixed32 = FieldType.sfixed32
type_of Scalar.sfixed64 = FieldType.sfixed64
type_of Scalar.sint32 = FieldType.sint32
type_of Scalar.sint64 = FieldType.sint64
type_of Scalar.bool = FieldType.bool
type_of Scalar.string = FieldType.string
type_of Scalar.bytes = FieldType.bytes

-- The range of the machine type; a text is UTF-8, and no length is over 64 bits.
abbrev pub InRange : (s : Scalar) → Value s → Type 0
InRange Scalar.double n = IsU64 n
InRange Scalar.float n = IsU32 n
InRange Scalar.int64 i = IsI64 i
InRange Scalar.uint64 n = IsU64 n
InRange Scalar.int32 i = IsI32 i
InRange Scalar.uint32 n = IsU32 n
InRange Scalar.fixed64 n = IsU64 n
InRange Scalar.fixed32 n = IsU32 n
InRange Scalar.sfixed32 i = IsI32 i
InRange Scalar.sfixed64 i = IsI64 i
InRange Scalar.sint32 i = IsI32 i
InRange Scalar.sint64 i = IsI64 i
InRange Scalar.bool b = Unit {0}
InRange Scalar.string s = IsU64 (length s) × (is_utf8 s ≡ true)
InRange Scalar.bytes b = IsU64 (length b)

-- The data that the decoder makes of the value.
abbrev pub data_of : (s : Scalar) → Value s → ProtobufFieldData
data_of Scalar.double n = ProtobufFieldData.double n
data_of Scalar.float n = ProtobufFieldData.float n
data_of Scalar.int64 i = ProtobufFieldData.integer_64 i
data_of Scalar.uint64 n = ProtobufFieldData.uinteger_64 n
data_of Scalar.int32 i = ProtobufFieldData.integer_32 i
data_of Scalar.uint32 n = ProtobufFieldData.uinteger_32 n
data_of Scalar.fixed64 n = ProtobufFieldData.uinteger_64 n
data_of Scalar.fixed32 n = ProtobufFieldData.uinteger_32 n
data_of Scalar.sfixed32 i = ProtobufFieldData.integer_32 i
data_of Scalar.sfixed64 i = ProtobufFieldData.integer_64 i
data_of Scalar.sint32 i = ProtobufFieldData.integer_32 i
data_of Scalar.sint64 i = ProtobufFieldData.integer_64 i
data_of Scalar.bool b = ProtobufFieldData.boolean b
data_of Scalar.string s = ProtobufFieldData.string s
data_of Scalar.bytes b = ProtobufFieldData.bytes b

pub as_u32-tag : (n : ℕ) → IsTag n → as_u32 (pos n) ≡ n
unfolding as_u32
as_u32-tag n h = omega arith

-- The zigzag encoding of a number of 32 bits needs 32 bits.
pub encode_zigzag-lt_32 : (i : ℤ) → IsI32 i → encode_zigzag i < 2 ^ 32
unfolding encode_zigzag
encode_zigzag-lt_32 (pos n) h = omega arith
encode_zigzag-lt_32 (negsuc n) h = omega arith

pub encode_zigzag-lt_64 : (i : ℤ) → IsI64 i → encode_zigzag i < 2 ^ 64
unfolding encode_zigzag
encode_zigzag-lt_64 (pos n) h = omega arith
encode_zigzag-lt_64 (negsuc n) h = omega arith

module _ (libs : Libraries) (d : DescriptorProto) (fds : FileDescriptorSet)
    (f : FieldDescriptorProto) (num : ℕ) where
  -- The payload of a value in range is decoded to the value's data, whatever follows it.
  pub decode_known-payload :
      (s : Scalar) (v : Value s)
      → f.type ≡ type_of s
      → InRange s v
      → (rest : List ℕ)
      → decode_known libs (wire_type s) f d fds num (payload libs s v ++ rest)
        ≡ ok ((data_of s v, wire_type s) ∷ [], rest)
  unfolding varint_data sixty_four_bit_data thirty_two_bit_data delimited_data
  decode_known-payload Scalar.double n e h =
      known_eight libs d fds f num n _ FieldType.double e h refl
  decode_known-payload Scalar.float n e h = known_four libs d fds f num n _ FieldType.float e h refl
  decode_known-payload Scalar.int64 i e h =
      known_varint libs d fds f num (as_u64 i) _ FieldType.int64 e (as_u64-lt i)
        (rw (as_i64-as_u64 i h))
  decode_known-payload Scalar.uint64 n e h =
      known_varint libs d fds f num n _ FieldType.uint64 e h refl
  decode_known-payload Scalar.int32 i e h =
      known_varint libs d fds f num (as_u64 i) _ FieldType.int32 e (as_u64-lt i)
        (rw (as_i32-as_u64 i h))
  decode_known-payload Scalar.uint32 n e h =
      known_varint libs d fds f num n _ FieldType.uint32 e (omega arith)
        (let small : n % 2 ^ 32 ≡ n = omega arith in rw small)
  decode_known-payload Scalar.fixed64 n e h =
      known_eight libs d fds f num n _ FieldType.fixed64 e h refl
  decode_known-payload Scalar.fixed32 n e h =
      known_four libs d fds f num n _ FieldType.fixed32 e h refl
  decode_known-payload Scalar.sfixed32 i e h =
      known_four libs d fds f num (as_u32 i) _ FieldType.sfixed32 e (as_u32-lt i)
        (rw (as_i32-as_u32 i h))
  decode_known-payload Scalar.sfixed64 i e h =
      known_eight libs d fds f num (as_u64 i) _ FieldType.sfixed64 e (as_u64-lt i)
        (rw (as_i64-as_u64 i h))
  decode_known-payload Scalar.sint32 i e h =
      let lt = encode_zigzag-lt_32 i h in
      let small : encode_zigzag i % 2 ^ 32 ≡ encode_zigzag i = omega arith in
      known_varint libs d fds f num (encode_zigzag i) _ FieldType.sint32 e (omega arith)
        (rw (small, zigzag_32-encode_zigzag i h))
  decode_known-payload Scalar.sint64 i e h =
      known_varint libs d fds f num (encode_zigzag i) _ FieldType.sint64 e (encode_zigzag-lt_64 i h)
        (rw (zigzag_64-encode_zigzag i h))
  decode_known-payload Scalar.bool true e h =
      known_varint libs d fds f num 1 _ FieldType.bool e (omega arith) refl
  decode_known-payload Scalar.bool false e h =
      known_varint libs d fds f num 0 _ FieldType.bool e (omega arith) refl
  decode_known-payload Scalar.string s e h =
      known_delimited libs d fds f num s _ FieldType.string e h.0 (rw (h.1))
  decode_known-payload Scalar.bytes b e h =
      known_delimited libs d fds f num b _ FieldType.bytes e h refl
