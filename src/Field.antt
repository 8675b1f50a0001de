-- ===== src/Field.antt =====
-- Decoded fields: ProtobufField and ProtobufFieldData of src/message_decoder/mod.rs. Signed numbers
-- are integers, unsigned ones natural numbers; an f32 or f64 is its bit pattern, which `get_f32_le`,
-- `put_f32_le` and their kin keep.
use pact_protobuf_plugin.Base.{
  ℕ, ◌^◌, Bool, false, ◌||◌, not, Option, none, some, List, [], ◌∷◌, find, is_empty, ◌==◌,
  unwrap_or, if◌then◌else◌,
}
use pact_protobuf_plugin.Base.Text.{Text, codes}
use pact_protobuf_plugin.Base.Int.{ℤ, pos, int_eq, as_u32, as_u64}
use pact_protobuf_plugin.Base.Bytes.{to_le_bytes}
use pact_protobuf_plugin.ProstTypes.{
  WireType, FieldDescriptorProto, EnumDescriptorProto, DescriptorProto,
}
use pact_protobuf_plugin.Lookup.{is_repeated_field}

pub data ProtobufFieldData : Type 0 where
  string : Text → ProtobufFieldData
  boolean : Bool → ProtobufFieldData
  uinteger_32 : ℕ → ProtobufFieldData
  integer_32 : ℤ → ProtobufFieldData
  uinteger_64 : ℕ → ProtobufFieldData
  integer_64 : ℤ → ProtobufFieldData
  float : ℕ → ProtobufFieldData
  double : ℕ → ProtobufFieldData
  bytes : List ℕ → ProtobufFieldData
  enum : ℤ → EnumDescriptorProto → ProtobufFieldData
  message : List ℕ → DescriptorProto → ProtobufFieldData
  unknown : List ℕ → ProtobufFieldData

-- `field_data` is the member `data`.
pub record ProtobufField : Type 0 where
  pub field_num : ℕ
  pub field_name : Text
  pub wire_type : WireType
  pub field_data : ProtobufFieldData
  pub additional_data : List ProtobufFieldData
  pub descriptor : FieldDescriptorProto

-- The type name of the field data.
unfoldable pub type_name : ProtobufFieldData → Text
type_name (string s) = codes "String"
type_name (boolean b) = codes "Boolean"
type_name (uinteger_32 n) = codes "UInteger32"
type_name (integer_32 n) = codes "Integer32"
type_name (uinteger_64 n) = codes "UInteger64"
type_name (integer_64 n) = codes "Integer64"
type_name (float n) = codes "Float"
type_name (double n) = codes "Double"
type_name (bytes b) = codes "Bytes"
type_name (enum n d) = codes "Enum"
type_name (message b d) = codes "Message"
type_name (unknown b) = codes "Unknown"

-- An optional number against a number.
abbrev pub number_is : ℤ → Option ℤ → Bool
number_is n none = false
number_is n (some m) = int_eq m n

-- `to_string` of an enum: the name of its value.
unfoldable pub enum_to_string : ℤ → EnumDescriptorProto → Text
enum_to_string n descriptor = elim (find (λ v. number_is n v.number) descriptor.value) [
  | some v ↦ unwrap_or v.name []
  | none ↦ codes "unknown"
]

-- The value as a byte array.
unfoldable pub as_bytes : ProtobufFieldData → List ℕ
unfolding enum_to_string
as_bytes (string s) = s
as_bytes (boolean b) = (if b then 1 else 0) ∷ []
as_bytes (uinteger_32 n) = to_le_bytes 4 n
as_bytes (integer_32 n) = to_le_bytes 4 (as_u32 n)
as_bytes (uinteger_64 n) = to_le_bytes 8 n
as_bytes (integer_64 n) = to_le_bytes 8 (as_u64 n)
as_bytes (float n) = to_le_bytes 4 n
as_bytes (double n) = to_le_bytes 8 n
as_bytes (bytes b) = b
as_bytes (enum n descriptor) = enum_to_string n descriptor
as_bytes (message b d) = b
as_bytes (unknown b) = b

-- `n == 0.0` on a bit pattern whose sign bit has the given weight: both zeros are equal.
abbrev pub is_zero_float : ℕ → ℕ → Bool
is_zero_float sign_bit n = (n == 0) || (n == sign_bit)

-- If the value is the default for the type.
unfoldable pub is_default_field_value : ProtobufFieldData → Bool
is_default_field_value (string v) = is_empty v
is_default_field_value (boolean v) = not v
is_default_field_value (uinteger_32 v) = v == 0
is_default_field_value (integer_32 v) = int_eq v (pos 0)
is_default_field_value (uinteger_64 v) = v == 0
is_default_field_value (integer_64 v) = int_eq v (pos 0)
is_default_field_value (float v) = is_zero_float (2 ^ 31) v
is_default_field_value (double v) = is_zero_float (2 ^ 63) v
is_default_field_value (bytes v) = is_empty v
is_default_field_value (enum v d) = int_eq v (pos 0)
is_default_field_value (message v d) = is_empty v
is_default_field_value (unknown v) = is_empty v

unfoldable pub is_default_value : ProtobufField → Bool
unfolding is_default_field_value
is_default_value f = is_default_field_value f.field_data

unfoldable pub repeated_field : ProtobufField → Bool
unfolding is_repeated_field
repeated_field f = is_repeated_field f.descriptor

-- A clone with other data and no additional data.
unfoldable pub clone_with_data : ProtobufField → ProtobufFieldData → ProtobufField
clone_with_data f d = record f { field_data = d; additional_data = [] }
