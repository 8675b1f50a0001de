-- ===== src/Builder/Packed.antt =====
-- encode_packed_field of src/message_builder.rs.
use pact_protobuf_plugin.Base.{Option, ℕ, none, some, List, map, unwrap_or, [], false}
use pact_protobuf_plugin.Base.Int.{ℤ, pos, as_u32}
use pact_protobuf_plugin.ProstTypes.{FieldType}
use pact_protobuf_plugin.Outcome.{Outcome, Error, ok, err, to_option}
use pact_protobuf_plugin.FieldValue.{
  RType, MessageFieldValue, as_f64, as_f32, to_u64, to_i64, to_u32, to_i32, as_str, as_bool,
}
use pact_protobuf_plugin.Builder.{FieldValueInner}
use pact_protobuf_plugin.Builder.Wire.{Scalar, Value, Encoding}

-- `Default::default()`. Zero is the bit pattern of 0.0.
abbrev pub default_value : (s : Scalar) → Value s
default_value Scalar.double = 0
default_value Scalar.float = 0
default_value Scalar.int64 = pos 0
default_value Scalar.uint64 = 0
default_value Scalar.int32 = pos 0
default_value Scalar.uint32 = 0
default_value Scalar.fixed64 = 0
default_value Scalar.fixed32 = 0
default_value Scalar.sfixed32 = pos 0
default_value Scalar.sfixed64 = pos 0
default_value Scalar.sint32 = pos 0
default_value Scalar.sint64 = pos 0
default_value Scalar.bool = false
default_value Scalar.string = []
default_value Scalar.bytes = []

module _ {Builder Struct : Type 0} (env : Encoding Struct) where
  -- The value that the arm of each type passes to prost.
  unfoldable pub scalar_value : (s : Scalar) → RType Builder Struct → Outcome (Value s)
  scalar_value Scalar.double r = as_f64 env.floats env.casts r
  scalar_value Scalar.float r = as_f32 env.floats env.casts r
  scalar_value Scalar.int64 r = to_i64 env.floats env.casts r
  scalar_value Scalar.uint64 r = to_u64 env.floats env.casts r
  scalar_value Scalar.int32 r = to_i32 env.floats env.casts r
  scalar_value Scalar.uint32 r = to_u32 env.floats env.casts r
  scalar_value Scalar.fixed64 r = to_u64 env.floats env.casts r
  scalar_value Scalar.fixed32 r = to_u32 env.floats env.casts r
  scalar_value Scalar.sfixed32 r = to_i32 env.floats env.casts r
  scalar_value Scalar.sfixed64 r = to_i64 env.floats env.casts r
  scalar_value Scalar.sint32 r = to_i32 env.floats env.casts r
  scalar_value Scalar.sint64 r = to_i64 env.floats env.casts r
  scalar_value Scalar.bool r = as_bool env.floats env.casts r
  scalar_value Scalar.string r = as_str env.floats env.casts r
  scalar_value Scalar.bytes (RType.bytes b) = ok b
  scalar_value Scalar.bytes r = err (Error.mismatched_types FieldType.bytes)

  -- `unwrap_or_default()`: a value that is not of the type becomes the default.
  unfoldable pub packed_value : (s : Scalar) → MessageFieldValue Builder Struct → Value s
  packed_value s v = unwrap_or (to_option (scalar_value s v.rtype)) (default_value s)

  -- The number of an enum value.
  unfoldable pub packed_enum_value : RType Builder Struct → ℤ
  packed_enum_value (RType.enum i e) = i
  packed_enum_value r = unwrap_or (to_option (to_i32 env.floats env.casts r)) (pos 0)

  unfoldable pub encode_packed_as :
      FieldType → ℤ → List (MessageFieldValue Builder Struct) → Outcome (List ℕ)
  encode_packed_as t tag values =
      let packed =
        λ (s : Scalar). ok (env.encode_packed s (as_u32 tag) (map (packed_value s) values)) in
      elim t [
        | FieldType.double ↦ packed Scalar.double
        | FieldType.float ↦ packed Scalar.float
        | FieldType.int64 ↦ packed Scalar.int64
        | FieldType.uint64 ↦ packed Scalar.uint64
        | FieldType.int32 ↦ packed Scalar.int32
        | FieldType.enum ↦ ok (
            env.encode_packed Scalar.int32 (as_u32 tag)
              (map (λ (v : MessageFieldValue Builder Struct). packed_enum_value v.rtype) values))
        | FieldType.fixed64 ↦ packed Scalar.fixed64
        | FieldType.fixed32 ↦ packed Scalar.fixed32
        | FieldType.uint32 ↦ packed Scalar.uint32
        | FieldType.sfixed32 ↦ packed Scalar.sfixed32
        | FieldType.sfixed64 ↦ packed Scalar.sfixed64
        | FieldType.sint32 ↦ packed Scalar.sint32
        | FieldType.sint64 ↦ packed Scalar.sint64
        | other ↦ err (Error.type_can_not_be_packed other)
      ]

  -- `if let Some(tag) = field_value.descriptor.number`.
  unfoldable pub encode_packed_tagged : FieldValueInner Builder Struct → Option ℤ → Outcome (List ℕ)
  encode_packed_tagged field_value (some tag) =
      encode_packed_as field_value.proto_type tag field_value.values
  encode_packed_tagged field_value none = err (Error.no_tag field_value.descriptor.name)

  unfoldable pub encode_packed_field : FieldValueInner Builder Struct → Outcome (List ℕ)
  encode_packed_field field_value = encode_packed_tagged field_value field_value.descriptor.number
