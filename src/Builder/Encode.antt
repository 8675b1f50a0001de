-- ===== src/Builder/Encode.antt =====
-- encode_message of src/message_builder.rs and what it calls. A buffer that is appended to is the list
-- of the bytes appended; what was appended before an error is dropped. `encode` stands for the call on
-- the builder of an embedded message.
use pact_protobuf_plugin.Base.{
  ℕ, Option, none, some, List, [], ◌∷◌, ◌++◌, find, length, if◌then◌else◌,
}
use pact_protobuf_plugin.Base.Int.{ℤ, as_u32, as_u64}
use pact_protobuf_plugin.ProstTypes.{WireType, FieldType, FieldDescriptorProto, EnumDescriptorProto}
use pact_protobuf_plugin.Outcome.{Outcome, Error, ok, err, ◌>>=◌, ok_or}
use pact_protobuf_plugin.Field.{number_is}
use pact_protobuf_plugin.FieldValue.{RType, MessageFieldValue}
use pact_protobuf_plugin.Lookup.{should_be_packed_type}
use pact_protobuf_plugin.Builder.{FieldValueInner}
use pact_protobuf_plugin.Builder.Wire.{Scalar, Encoding}
use pact_protobuf_plugin.Builder.Packed.{scalar_value, encode_packed_field}

module _ {Struct : Type 0} (env : Encoding Struct) where
  open env use {libs}

  -- Bytes behind their length and the key of a tag.
  unfoldable pub delimited : ℕ → List ℕ → List ℕ
  delimited tag bytes =
      libs.encode_key tag WireType.length_delimited ++ (libs.encode_varint (length bytes) ++ bytes)

  -- A number of a varint's width behind its key.
  unfoldable pub varint_field : ℤ → ℤ → List ℕ
  varint_field tag n = libs.encode_key (as_u32 tag) WireType.varint ++ libs.encode_varint (as_u64 n)

  -- `if let Some(enum_value_number) = enum_value.number`.
  unfoldable pub enum_number_field : ℤ → Option ℤ → List ℕ
  enum_number_field tag (some number) = varint_field tag number
  enum_number_field tag none = []

  -- A value of the enum is written as its number in the enum's descriptor.
  unfoldable pub encode_enum_value :
      FieldDescriptorProto → ℤ → ℤ → EnumDescriptorProto → Outcome (List ℕ)
  encode_enum_value descriptor tag enum_value enum_proto =
      ok_or descriptor.type_name Error.type_name_missing >>= λ enum_type_name.
      ok_or (find (λ v. number_is enum_value v.number) enum_proto.value)
        (Error.enum_value_not_found enum_value enum_type_name)
      >>= λ found. ok (enum_number_field tag found.number)

  module _ {Builder : Type 0} where
    -- The arms of the numeric types, bool, string and bytes.
    unfoldable pub encode_scalar : Scalar → ℤ → RType Builder Struct → Outcome (List ℕ)
    encode_scalar s tag r = scalar_value env s r >>= λ v. ok (env.encode s (as_u32 tag) v)

    -- The arm of the message type. Bytes make a google.protobuf.BytesValue, with the bytes as field 1.
    unfoldable pub encode_embedded :
        (Builder → Outcome (List ℕ)) → ℤ → RType Builder Struct → Outcome (List ℕ)
    encode_embedded encode tag (RType.message m) =
        encode m >>= λ message_bytes. ok (delimited (as_u32 tag) message_bytes)
    encode_embedded encode tag (RType.struct_value s) =
        ok_or (env.encode_struct s) Error.struct_not_encoded >>= λ struct_bytes.
        ok (delimited (as_u32 tag) struct_bytes)
    encode_embedded encode tag (RType.bytes b) = ok (delimited (as_u32 tag) (delimited 1 b))
    encode_embedded encode tag r = err (Error.mismatched_types FieldType.message)

    unfoldable pub encode_enum : FieldDescriptorProto → ℤ → RType Builder Struct → Outcome (List ℕ)
    encode_enum descriptor tag (RType.enum n desc) = encode_enum_value descriptor tag n desc
    encode_enum descriptor tag (RType.integer_32 i) = ok (varint_field tag i)
    encode_enum descriptor tag r = err (Error.mismatched_types FieldType.enum)

    -- The match on the type of the field.
    unfoldable pub encode_typed :
        (Builder → Outcome (List ℕ))
        → FieldType
        → FieldDescriptorProto
        → ℤ
        → RType Builder Struct
        → Outcome (List ℕ)
    encode_typed encode FieldType.double f tag r = encode_scalar Scalar.double tag r
    encode_typed encode FieldType.float f tag r = encode_scalar Scalar.float tag r
    encode_typed encode FieldType.int64 f tag r = encode_scalar Scalar.int64 tag r
    encode_typed encode FieldType.uint64 f tag r = encode_scalar Scalar.uint64 tag r
    encode_typed encode FieldType.int32 f tag r = encode_scalar Scalar.int32 tag r
    encode_typed encode FieldType.uint32 f tag r = encode_scalar Scalar.uint32 tag r
    encode_typed encode FieldType.fixed64 f tag r = encode_scalar Scalar.fixed64 tag r
    encode_typed encode FieldType.fixed32 f tag r = encode_scalar Scalar.fixed32 tag r
    encode_typed encode FieldType.bool f tag r = encode_scalar Scalar.bool tag r
    encode_typed encode FieldType.string f tag r = encode_scalar Scalar.string tag r
    encode_typed encode FieldType.message f tag r = encode_embedded encode tag r
    encode_typed encode FieldType.bytes f tag r = encode_scalar Scalar.bytes tag r
    encode_typed encode FieldType.enum f tag r = encode_enum f tag r
    encode_typed encode FieldType.sfixed32 f tag r = encode_scalar Scalar.sfixed32 tag r
    encode_typed encode FieldType.sfixed64 f tag r = encode_scalar Scalar.sfixed64 tag r
    encode_typed encode FieldType.sint32 f tag r = encode_scalar Scalar.sint32 tag r
    encode_typed encode FieldType.sint64 f tag r = encode_scalar Scalar.sint64 tag r
    encode_typed encode FieldType.group f tag r = err (Error.type_not_supported FieldType.group)

    -- `if let Some(tag) = field_data.descriptor.number`: a field without a number is not written.
    unfoldable pub encode_tagged :
        (Builder → Outcome (List ℕ))
        → FieldValueInner Builder Struct
        → RType Builder Struct
        → Option ℤ
        → Outcome (List ℕ)
    encode_tagged encode field_data r (some tag) =
        encode_typed encode field_data.proto_type field_data.descriptor tag r
    encode_tagged encode field_data r none = ok []

    unfoldable pub encode_single_field :
        (Builder → Outcome (List ℕ))
        → FieldValueInner Builder Struct
        → Option (MessageFieldValue Builder Struct)
        → Outcome (List ℕ)
    encode_single_field encode field_data none = ok []
    encode_single_field encode field_data (some value) =
        encode_tagged encode field_data value.rtype field_data.descriptor.number

    -- `for value in &field_value.values { … }`.
    unfoldable pub encode_each :
        (Builder → Outcome (List ℕ))
        → FieldValueInner Builder Struct
        → List (MessageFieldValue Builder Struct)
        → Outcome (List ℕ)
    encode_each encode field_value [] = ok []
    encode_each encode field_value (v ∷ vs) =
        encode_single_field encode field_value (some v) >>= λ bytes.
        encode_each encode field_value vs >>= λ more. ok (bytes ++ more)

    -- What encode_repeated_field does with the values of the field, if there are any.
    unfoldable pub encode_values :
        (Builder → Outcome (List ℕ))
        → FieldValueInner Builder Struct
        → List (MessageFieldValue Builder Struct)
        → Outcome (List ℕ)
    encode_values encode field_value [] = ok []
    encode_values encode field_value (v ∷ vs) =
        if should_be_packed_type field_value.proto_type
        then encode_packed_field env field_value
        else encode_each encode field_value (v ∷ vs)

    unfoldable pub encode_repeated_field :
        (Builder → Outcome (List ℕ)) → FieldValueInner Builder Struct → Outcome (List ℕ)
    encode_repeated_field encode field_value = encode_values encode field_value field_value.values
