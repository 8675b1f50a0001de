-- ===== src/DynamicMessage/Carries.antt =====
-- The values that a field of a given type carries on the wire, and that write_data and decode_known
-- are inverse on them.
use pact_protobuf_plugin.Base.{
  ℕ, ◌^◌, ◌%◌, ◌≡◌, refl, sym, ap, Bool, true, false, some, List, [], ◌∷◌, ◌++◌, length, arith,
}
use pact_protobuf_plugin.Base.Text.{Text}
use pact_protobuf_plugin.Base.Bytes.{is_utf8}
use pact_protobuf_plugin.Base.Int.{
  ℤ, IsI32, IsI64, IsU32, IsU64, as_u32, as_u64, as_i64-as_u64, as_i32-as_u32, as_i32-as_u64,
  as_u64-lt, as_u32-lt,
}
use pact_protobuf_plugin.ProstTypes.{
  WireType, FieldType, FieldDescriptorProto, EnumDescriptorProto, DescriptorProto,
  FileDescriptorSet, text_or_default,
}
use pact_protobuf_plugin.Outcome.{ok}
use pact_protobuf_plugin.Field.{ProtobufFieldData}
use pact_protobuf_plugin.Defaults.{wire_type_of}
use pact_protobuf_plugin.Libraries.{Libraries}
use pact_protobuf_plugin.Decoder.{
  varint_data, sixty_four_bit_data, thirty_two_bit_data, find_embedded, find_enum, decode_enum,
}
use pact_protobuf_plugin.Decoder.Message.{decode_known, delimited_data}
use pact_protobuf_plugin.Decoder.Message.Known.{
  known_varint, known_eight, known_four, known_delimited,
}
use pact_protobuf_plugin.DynamicMessage.{write_data}

-- The data is a value of the field's type, in the range of its machine type, under the type's wire
-- type. The zigzag types sint32 and sint64 are left out, and so is data that the decoder could not
-- place.
pub data Carries (d : DescriptorProto) (fds : FileDescriptorSet) (f : FieldDescriptorProto)
    (num : ℕ) : WireType → ProtobufFieldData → Type 0 where
  boolean :
      (b : Bool)
      → f.type ≡ FieldType.bool
      → Carries d fds f num WireType.varint (ProtobufFieldData.boolean b)
  uint32 :
      (n : ℕ)
      → f.type ≡ FieldType.uint32
      → IsU32 n
      → Carries d fds f num WireType.varint (ProtobufFieldData.uinteger_32 n)
  int32 :
      (i : ℤ)
      → f.type ≡ FieldType.int32
      → IsI32 i
      → Carries d fds f num WireType.varint (ProtobufFieldData.integer_32 i)
  uint64 :
      (n : ℕ)
      → f.type ≡ FieldType.uint64
      → IsU64 n
      → Carries d fds f num WireType.varint (ProtobufFieldData.uinteger_64 n)
  int64 :
      (i : ℤ)
      → f.type ≡ FieldType.int64
      → IsI64 i
      → Carries d fds f num WireType.varint (ProtobufFieldData.integer_64 i)
  enum :
      (i : ℤ) (e : EnumDescriptorProto)
      → f.type ≡ FieldType.enum
      → IsI32 i
      → find_enum d fds (text_or_default f.type_name) ≡ some e
      → Carries d fds f num WireType.varint (ProtobufFieldData.enum i e)
  fixed64 :
      (n : ℕ)
      → f.type ≡ FieldType.fixed64
      → IsU64 n
      → Carries d fds f num WireType.sixty_four_bit (ProtobufFieldData.uinteger_64 n)
  sfixed64 :
      (i : ℤ)
      → f.type ≡ FieldType.sfixed64
      → IsI64 i
      → Carries d fds f num WireType.sixty_four_bit (ProtobufFieldData.integer_64 i)
  double :
      (n : ℕ)
      → f.type ≡ FieldType.double
      → IsU64 n
      → Carries d fds f num WireType.sixty_four_bit (ProtobufFieldData.double n)
  fixed32 :
      (n : ℕ)
      → f.type ≡ FieldType.fixed32
      → IsU32 n
      → Carries d fds f num WireType.thirty_two_bit (ProtobufFieldData.uinteger_32 n)
  sfixed32 :
      (i : ℤ)
      → f.type ≡ FieldType.sfixed32
      → IsI32 i
      → Carries d fds f num WireType.thirty_two_bit (ProtobufFieldData.integer_32 i)
  float :
      (n : ℕ)
      → f.type ≡ FieldType.float
      → IsU32 n
      → Carries d fds f num WireType.thirty_two_bit (ProtobufFieldData.float n)
  string :
      (s : Text)
      → f.type ≡ FieldType.string
      → IsU64 (length s)
      → is_utf8 s ≡ true
      → Carries d fds f num WireType.length_delimited (ProtobufFieldData.string s)
  bytes :
      (b : List ℕ)
      → f.type ≡ FieldType.bytes
      → IsU64 (length b)
      → Carries d fds f num WireType.length_delimited (ProtobufFieldData.bytes b)
  message :
      (m : List ℕ) (e : DescriptorProto)
      → f.type ≡ FieldType.message
      → IsU64 (length m)
      → find_embedded d fds f num ≡ ok e
      → Carries d fds f num WireType.length_delimited (ProtobufFieldData.message m e)

-- A value has the wire type of its field's type.
pub Carries-wire :
    {d : DescriptorProto} {fds : FileDescriptorSet} {f : FieldDescriptorProto} {num : ℕ}
    (w : WireType) (value : ProtobufFieldData)
    → Carries d fds f num w value
    → w ≡ wire_type_of f.type
unfolding wire_type_of
Carries-wire w value (boolean b e) = ap wire_type_of (sym e)
Carries-wire w value (uint32 n e h) = ap wire_type_of (sym e)
Carries-wire w value (int32 i e h) = ap wire_type_of (sym e)
Carries-wire w value (uint64 n e h) = ap wire_type_of (sym e)
Carries-wire w value (int64 i e h) = ap wire_type_of (sym e)
Carries-wire w value (enum i en e h found) = ap wire_type_of (sym e)
Carries-wire w value (fixed64 n e h) = ap wire_type_of (sym e)
Carries-wire w value (sfixed64 i e h) = ap wire_type_of (sym e)
Carries-wire w value (double n e h) = ap wire_type_of (sym e)
Carries-wire w value (fixed32 n e h) = ap wire_type_of (sym e)
Carries-wire w value (sfixed32 i e h) = ap wire_type_of (sym e)
Carries-wire w value (float n e h) = ap wire_type_of (sym e)
Carries-wire w value (string s e h valid) = ap wire_type_of (sym e)
Carries-wire w value (bytes b e h) = ap wire_type_of (sym e)
Carries-wire w value (message m de e h found) = ap wire_type_of (sym e)

module _ (libs : Libraries) where
  module _ (d : DescriptorProto) (fds : FileDescriptorSet) (f : FieldDescriptorProto)
      (num : ℕ) where
    -- The data is written as bytes that are read back as the data, whatever follows them.
    abbrev pub ReadsBack : WireType → ProtobufFieldData → Type 0
    ReadsBack w value =
        (written : List ℕ) × (write_data libs w value ≡ ok written)
        × ((rest : List ℕ)
            → decode_known libs w f d fds num (written ++ rest) ≡ ok ((value, w) ∷ [], rest))

    from_eight :
        (n : ℕ) (value : ProtobufFieldData) (t : FieldType)
        → f.type ≡ t
        → IsU64 n
        → sixty_four_bit_data n t ≡ value
        → (rest : List ℕ)
        → decode_known libs WireType.sixty_four_bit f d fds num (libs.put_le 8 n ++ rest)
          ≡ ok ((value, WireType.sixty_four_bit) ∷ [], rest)
    from_eight n value t e h made rest =
        rw (libs.put_le_lem 8 n) (known_eight libs d fds f num n value t e h made rest)

    from_four :
        (n : ℕ) (value : ProtobufFieldData) (t : FieldType)
        → f.type ≡ t
        → IsU32 n
        → thirty_two_bit_data n t ≡ value
        → (rest : List ℕ)
        → decode_known libs WireType.thirty_two_bit f d fds num (libs.put_le 4 n ++ rest)
          ≡ ok ((value, WireType.thirty_two_bit) ∷ [], rest)
    from_four n value t e h made rest =
        rw (libs.put_le_lem 4 n) (known_four libs d fds f num n value t e h made rest)

    -- On the values that a field carries, what is written is read back.
    pub Carries-ReadsBack :
        (w : WireType) (value : ProtobufFieldData) → Carries d fds f num w value → ReadsBack w value
    unfolding write_data varint_data sixty_four_bit_data thirty_two_bit_data delimited_data
    Carries-ReadsBack w value (boolean true e) =
        (_, refl, known_varint libs d fds f num 1 _ FieldType.bool e (omega arith) refl)
    Carries-ReadsBack w value (boolean false e) =
        (_, refl, known_varint libs d fds f num 0 _ FieldType.bool e (omega arith) refl)
    Carries-ReadsBack w value (uint32 n e h) = (
      _,
      refl,
      known_varint libs d fds f num n _ FieldType.uint32 e (omega arith)
          (let small : n % 2 ^ 32 ≡ n = omega arith in rw small),
    )
    Carries-ReadsBack w value (int32 i e h) = (
      _,
      refl,
      known_varint libs d fds f num (as_u64 i) _ FieldType.int32 e (as_u64-lt i)
          (rw (as_i32-as_u64 i h)),
    )
    Carries-ReadsBack w value (uint64 n e h) =
        (_, refl, known_varint libs d fds f num n _ FieldType.uint64 e h refl)
    Carries-ReadsBack w value (int64 i e h) = (
      _,
      refl,
      known_varint libs d fds f num (as_u64 i) _ FieldType.int64 e (as_u64-lt i)
          (rw (as_i64-as_u64 i h)),
    )
    Carries-ReadsBack w value (enum i en e h found) = (
      _,
      refl,
      known_varint libs d fds f num (as_u64 i) _ FieldType.enum e (as_u64-lt i)
          (unfold decode_enum in rw (found) (rw (as_i32-as_u64 i h))),
    )
    Carries-ReadsBack w value (fixed64 n e h) = (_, refl, from_eight n _ FieldType.fixed64 e h refl)
    Carries-ReadsBack w value (sfixed64 i e h) = (
      _,
      refl,
      from_eight (as_u64 i) _ FieldType.sfixed64 e (as_u64-lt i) (rw (as_i64-as_u64 i h)),
    )
    Carries-ReadsBack w value (double n e h) = (_, refl, from_eight n _ FieldType.double e h refl)
    Carries-ReadsBack w value (fixed32 n e h) = (_, refl, from_four n _ FieldType.fixed32 e h refl)
    Carries-ReadsBack w value (sfixed32 i e h) = (
      _,
      refl,
      from_four (as_u32 i) _ FieldType.sfixed32 e (as_u32-lt i) (rw (as_i32-as_u32 i h)),
    )
    Carries-ReadsBack w value (float n e h) = (_, refl, from_four n _ FieldType.float e h refl)
    Carries-ReadsBack w value (string s e h valid) =
        (_, refl, known_delimited libs d fds f num s _ FieldType.string e h (rw valid))
    Carries-ReadsBack w value (bytes b e h) =
        (_, refl, known_delimited libs d fds f num b _ FieldType.bytes e h refl)
    Carries-ReadsBack w value (message m de e h found) =
        (_, refl, known_delimited libs d fds f num m _ FieldType.message e h (rw found))
