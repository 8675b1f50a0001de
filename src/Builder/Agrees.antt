-- ===== src/Builder/Agrees.antt =====
-- The builder and DynamicMessage write the same bytes for the same value.
use pact_protobuf_plugin.Base.{ℕ, ◌≡◌, refl, ap, ◌∙◌, true, false, some, List, ◌++◌}
use pact_protobuf_plugin.Base.Int.{pos}
use pact_protobuf_plugin.Outcome.{Outcome, ok}
use pact_protobuf_plugin.FieldValue.{MessageFieldValue}
use pact_protobuf_plugin.Libraries.{Libraries, IsTag}
use pact_protobuf_plugin.Decoder.Message.{known_field}
use pact_protobuf_plugin.DynamicMessage.{
  write_field, write_data, write_varint, write_64_bit, write_length_delimited, write_32_bit,
}
use pact_protobuf_plugin.Builder.{FieldValueInner}
use pact_protobuf_plugin.Builder.Wire.{Scalar, Value, Encoding, wire_type, payload}
use pact_protobuf_plugin.Builder.Packed.{scalar_value}
use pact_protobuf_plugin.Builder.Encode.{
  encode_scalar, encode_typed, encode_tagged, encode_single_field,
}
use pact_protobuf_plugin.Builder.Reads.{type_of, data_of, as_u32-tag}
use pact_protobuf_plugin.Builder.ValueReads.{encode_typed-scalar}

-- All types but the two that the builder writes in zigzag encoding.
abbrev pub NotZigzag : Scalar → Type 0
NotZigzag Scalar.sint32 = ⊥
NotZigzag Scalar.sint64 = ⊥
NotZigzag _ = Unit {0}

write_data-payload :
    (libs : Libraries) (s : Scalar) (v : Value s)
    → NotZigzag s
    → write_data libs (wire_type s) (data_of s v) ≡ ok (payload libs s v)
unfolding write_data write_varint write_64_bit write_length_delimited write_32_bit
write_data-payload libs Scalar.double v h = ap ok (libs.put_le_lem 8 v)
write_data-payload libs Scalar.float v h = ap ok (libs.put_le_lem 4 v)
write_data-payload libs Scalar.int64 v h = refl
write_data-payload libs Scalar.uint64 v h = refl
write_data-payload libs Scalar.int32 v h = refl
write_data-payload libs Scalar.uint32 v h = refl
write_data-payload libs Scalar.fixed64 v h = ap ok (libs.put_le_lem 8 v)
write_data-payload libs Scalar.fixed32 v h = ap ok (libs.put_le_lem 4 v)
write_data-payload libs Scalar.sfixed32 v h = ap ok (libs.put_le_lem 4 _)
write_data-payload libs Scalar.sfixed64 v h = ap ok (libs.put_le_lem 8 _)
write_data-payload libs Scalar.sint32 v h = absurd h
write_data-payload libs Scalar.sint64 v h = absurd h
write_data-payload libs Scalar.bool true h = refl
write_data-payload libs Scalar.bool false h = refl
write_data-payload libs Scalar.string v h = refl
write_data-payload libs Scalar.bytes v h = refl

module _ {Builder Struct : Type 0} (env : Encoding Struct)
    (encode : Builder → Outcome (List ℕ)) where
  -- For a field whose number is a tag and whose type is any but sint32, sint64 and the message, enum
  -- and group types, and for a value that converts to the type, the builder writes the bytes that
  -- DynamicMessage writes for the field that holds the value.
  pub encode_single_field-write_field :
      (f : FieldValueInner Builder Struct) (n : ℕ) (s : Scalar)
      (value : MessageFieldValue Builder Struct) (v : Value s)
      → IsTag n
      → f.descriptor.number ≡ some (pos n)
      → f.proto_type ≡ type_of s
      → NotZigzag s
      → scalar_value env s value.rtype ≡ ok v
      → encode_single_field env encode f (some value)
        ≡ write_field env.libs (known_field f.descriptor n (data_of s v, wire_type s)) (data_of s v)
  unfolding encode_single_field encode_tagged encode_scalar write_field known_field
  encode_single_field-write_field f n s value v tag number t not_zigzag made =
      let written : encode_single_field env encode f (some value)
          ≡ ok (env.libs.encode_key n (wire_type s) ++ payload env.libs s v) =
        ap (encode_tagged env encode f value.rtype) number
        ∙ ap (λ u. encode_typed env encode u f.descriptor (pos n) value.rtype) t
        ∙ encode_typed-scalar env encode s f.descriptor (pos n) value.rtype
        ∙ (rw (made, as_u32-tag n tag) (rw (env.encode_lem s n v))) in
      written ∙ (rw (write_data-payload env.libs s v not_zigzag))
