-- ===== src/Render.antt =====
-- What is made of data for display: functions of src/utils.rs and src/message_builder.rs, and the
-- accessors of ProtobufFieldData in src/message_decoder/mod.rs.
use pact_protobuf_plugin.Base.{
  ℕ, ◌+◌, ◌-◌, ◌*◌, ◌/◌, ◌%◌, ◌<◌, ◌≡◌, refl, Option, none, some, List, [], ◌∷◌, ◌++◌, length, take,
  find, All, ltb, leb, ◌==◌, if◌then◌else◌, unwrap_or, arith,
}
use pact_protobuf_plugin.Base.Text.{Text, codes, text_eq}
use pact_protobuf_plugin.Base.Int.{ℤ, negsuc, int_eq, as_u32}
use pact_protobuf_plugin.ProstTypes.{
  FieldType, EnumDescriptorProto, DescriptorProto, text_or_default,
}
use pact_protobuf_plugin.Descriptor
use pact_protobuf_plugin.Outcome.{Outcome, Error, ok, ok_or, ◌>>=◌}
use pact_protobuf_plugin.Field.{ProtobufFieldData, ProtobufField, enum_to_string}
use pact_protobuf_plugin.FieldValue.{FloatCasts, decimal, int_to_string}

abbrev pub hex_digit : ℕ → ℕ
hex_digit n = if ltb n 10 then b'0' + n else 87 + n

-- `{:02x}` for each byte.
unfoldable pub as_hex : List ℕ → Text
as_hex [] = []
as_hex (b ∷ bs) = hex_digit (b / 16) ∷ hex_digit (b % 16) ∷ as_hex bs

-- At most sixteen bytes, and the number of bytes where there are more.
unfoldable pub display_bytes : List ℕ → Text
unfolding as_hex decimal
display_bytes bs =
    if leb (length bs) 16
    then as_hex bs
    else as_hex (take 16 bs) ++ (codes "... (" ++ (decimal (length bs) ++ codes " bytes)"))

-- The field data with the number of the descriptor's field of the name; -1 stands for no number.
unfoldable pub find_message_field_by_name :
    DescriptorProto → List ProtobufField → Text → Option ProtobufField
find_message_field_by_name descriptor field_data field_name =
    elim (find (λ f. text_eq (text_or_default f.name) field_name) (Descriptor.field descriptor)) [
      | some f ↦ find (λ d. d.field_num == as_u32 (unwrap_or f.number (negsuc 0))) field_data
      | none ↦ none
    ]

unfoldable pub enum_name : ℤ → EnumDescriptorProto → Text
unfolding int_to_string
enum_name enum_value descriptor =
    elim (find (λ v. int_eq (unwrap_or v.number (negsuc 0)) enum_value) descriptor.value) [
      | some v ↦ unwrap_or v.name (codes "enum " ++ int_to_string enum_value)
      | none ↦ codes "Unknown enum " ++ int_to_string enum_value
    ]

-- The name of a field's type, from its type and its descriptor's type name.
unfoldable pub field_type_name : FieldType → Option Text → Outcome Text
field_type_name FieldType.double type_name = ok (codes "double")
field_type_name FieldType.float type_name = ok (codes "float")
field_type_name FieldType.int64 type_name = ok (codes "int64")
field_type_name FieldType.uint64 type_name = ok (codes "uint64")
field_type_name FieldType.int32 type_name = ok (codes "int32")
field_type_name FieldType.fixed64 type_name = ok (codes "fixed64")
field_type_name FieldType.fixed32 type_name = ok (codes "fixed32")
field_type_name FieldType.bool type_name = ok (codes "bool")
field_type_name FieldType.string type_name = ok (codes "string")
field_type_name FieldType.group type_name = ok (codes "group")
field_type_name FieldType.message type_name =
    ok_or type_name Error.type_name_missing >>= λ message. ok (codes "message " ++ message)
field_type_name FieldType.bytes type_name = ok (codes "bytes")
field_type_name FieldType.uint32 type_name = ok (codes "uint32")
field_type_name FieldType.enum type_name =
    ok_or type_name Error.type_name_missing >>= λ enum_type_name.
    ok (codes "enum " ++ enum_type_name)
field_type_name FieldType.sfixed32 type_name = ok (codes "sfixed32")
field_type_name FieldType.sfixed64 type_name = ok (codes "sfixed64")
field_type_name FieldType.sint32 type_name = ok (codes "sint32")
field_type_name FieldType.sint64 type_name = ok (codes "sint64")

-- Display of ProtobufFieldData.
unfoldable pub display_data : FloatCasts → ProtobufFieldData → Text
unfolding display_bytes decimal int_to_string
display_data casts (ProtobufFieldData.string s) = codes "\"" ++ (s ++ codes "\"")
display_data casts (ProtobufFieldData.boolean b) = if b then codes "true" else codes "false"
display_data casts (ProtobufFieldData.uinteger_32 n) = decimal n
display_data casts (ProtobufFieldData.integer_32 n) = int_to_string n
display_data casts (ProtobufFieldData.uinteger_64 n) = decimal n
display_data casts (ProtobufFieldData.integer_64 n) = int_to_string n
display_data casts (ProtobufFieldData.float n) = casts.f32_to_string n
display_data casts (ProtobufFieldData.double n) = casts.f64_to_string n
display_data casts (ProtobufFieldData.bytes b) = display_bytes b
display_data casts (ProtobufFieldData.enum n descriptor) = enum_to_string n descriptor
display_data casts (ProtobufFieldData.message b descriptor) =
    unwrap_or (Descriptor.name descriptor) (codes "unknown")
display_data casts (ProtobufFieldData.unknown b) = display_bytes b

-- `as_u64`, `as_u32`, `as_i64`, `as_i32`, `as_f64`, `as_f32` and `as_str` of ProtobufFieldData.
unfoldable pub u64_of : ProtobufFieldData → Option ℕ
u64_of (ProtobufFieldData.uinteger_64 n) = some n
u64_of _ = none

unfoldable pub u32_of : ProtobufFieldData → Option ℕ
u32_of (ProtobufFieldData.uinteger_32 n) = some n
u32_of _ = none

unfoldable pub i64_of : ProtobufFieldData → Option ℤ
i64_of (ProtobufFieldData.integer_64 n) = some n
i64_of _ = none

unfoldable pub i32_of : ProtobufFieldData → Option ℤ
i32_of (ProtobufFieldData.integer_32 n) = some n
i32_of _ = none

unfoldable pub f64_of : ProtobufFieldData → Option ℕ
f64_of (ProtobufFieldData.double n) = some n
f64_of _ = none

unfoldable pub f32_of : ProtobufFieldData → Option ℕ
f32_of (ProtobufFieldData.float n) = some n
f32_of _ = none

unfoldable pub str_of : ProtobufFieldData → Option Text
str_of (ProtobufFieldData.string s) = some s
str_of _ = none

-- Reading hexadecimal text, two digits to a byte.
abbrev pub hex_value : ℕ → ℕ
hex_value c = if ltb c 58 then c - b'0' else c - 87

abbrev pub unhex : Text → List ℕ
unhex [] = []
unhex (c ∷ []) = []
unhex (c ∷ d ∷ t) = (hex_value c * 16 + hex_value d) ∷ unhex t

hex_value-hex_digit : (n : ℕ) → n < 16 → hex_value (hex_digit n) ≡ n
hex_value-hex_digit n h = ground arith

-- The hexadecimal text of bytes is read back as the bytes.
pub unhex-as_hex : (bs : List ℕ) → All (λ b. b < 256) bs → unhex (as_hex bs) ≡ bs
unfolding as_hex
unhex-as_hex [] h = refl
unhex-as_hex (b ∷ bs) h =
    let high = hex_value-hex_digit (b / 16) (omega (arith, h.0)) in
    let low = hex_value-hex_digit (b % 16) (omega arith) in
    let whole : hex_value (hex_digit (b / 16)) * 16 + hex_value (hex_digit (b % 16)) ≡ b =
      omega (arith, high, low) in
    cc (whole, unhex-as_hex bs h.1)
