-- ===== src/Decoder/Packed.antt =====
-- decode_packed_field of src/message_decoder/mod.rs. Its loops take fuel, one more than the bytes left.
pub mod Ends
pub mod Values
use pact_protobuf_plugin.Base.{
  ℕ, zero, suc, ◌^◌, ◌%◌, Bool, true, false, Option, none, some, List, [], ◌∷◌, map, length, leb,
  is_empty, if◌then◌else◌,
}
use pact_protobuf_plugin.Base.Int.{as_i32, as_i64}
use pact_protobuf_plugin.ProstTypes.{
  WireType, FieldType, FieldDescriptorProto, DescriptorProto, FileDescriptorSet,
}
use pact_protobuf_plugin.Outcome.{
  Outcome, Error, ok, err, panic, out_of_fuel, ◌>>=◌, ok_or, or_panic,
}
use pact_protobuf_plugin.Field.{ProtobufFieldData}
use pact_protobuf_plugin.Libraries.{Libraries}
use pact_protobuf_plugin.Decoder.{varint_data, sixty_four_bit_data, thirty_two_bit_data}

module _ (libs : Libraries) where
  -- `while data.remaining() >= size { … get … }`, with the bytes that are left at the end.
  unfoldable pub packed_fixed :
      ℕ → ℕ → (ℕ → ProtobufFieldData) → List ℕ → Outcome (List ProtobufFieldData × List ℕ)
  packed_fixed zero size make bs = out_of_fuel
  packed_fixed (suc fuel) size make bs = elim (leb size (length bs)) [
    | true ↦ or_panic (libs.get_le size bs) >>= λ (value, rest).
        packed_fixed fuel size make rest >>= λ (values, left). ok (make value ∷ values, left)
    | false ↦ ok ([], bs)
  ]

  -- `while data.remaining() > 0 { let varint = decode_varint(data)?; … }`.
  unfoldable pub packed_varints :
      ℕ → (ℕ → Outcome ProtobufFieldData) → List ℕ → Outcome (List ProtobufFieldData × List ℕ)
  packed_varints zero make bs = out_of_fuel
  packed_varints (suc fuel) make [] = ok ([], [])
  packed_varints (suc fuel) make (b ∷ bs) =
      ok_or (libs.decode_varint (b ∷ bs)) Error.invalid_varint >>= λ (varint, rest).
      make varint >>= λ value.
      packed_varints fuel make rest >>= λ (values, left). ok (value ∷ values, left)

  -- The values of the loop with their wire type. `left` must be empty.
  unfoldable pub all_read :
      WireType
      → Outcome (List ProtobufFieldData × List ℕ)
      → Outcome (List (ProtobufFieldData × WireType))
  all_read w m = m >>= λ (values, left).
      if is_empty left
      then ok (map (λ v. (v, w)) values)
      else err (Error.packed_bytes_left (length left))

  -- Each type makes its values as a single field of the type does.
  unfoldable pub decode_packed_as :
      FieldType
      → FieldDescriptorProto
      → DescriptorProto
      → FileDescriptorSet
      → List ℕ
      → Outcome (List (ProtobufFieldData × WireType))
  decode_packed_as t field descriptor descriptors bs =
      let fuel = suc (length bs) in
      let varints =
        all_read WireType.varint
          (packed_varints fuel (λ v. varint_data descriptor descriptors field v t) bs) in
      let eights =
        all_read WireType.sixty_four_bit (packed_fixed fuel 8 (λ v. sixty_four_bit_data v t) bs) in
      let fours =
        all_read WireType.thirty_two_bit (packed_fixed fuel 4 (λ v. thirty_two_bit_data v t) bs) in
      elim t [
        | FieldType.double ↦ eights
        | FieldType.float ↦ fours
        | FieldType.int64 ↦ varints
        | FieldType.uint64 ↦ varints
        | FieldType.int32 ↦ varints
        | FieldType.enum ↦ varints
        | FieldType.fixed64 ↦ eights
        | FieldType.fixed32 ↦ fours
        | FieldType.uint32 ↦ varints
        | FieldType.sfixed32 ↦ fours
        | FieldType.sfixed64 ↦ eights
        | FieldType.sint32 ↦ varints
        | FieldType.sint64 ↦ varints
        | other ↦ err (Error.type_can_not_be_packed other)
      ]

  unfoldable pub decode_packed_field :
      FieldDescriptorProto
      → DescriptorProto
      → FileDescriptorSet
      → List ℕ
      → Outcome (List (ProtobufFieldData × WireType))
  decode_packed_field field descriptor descriptors bs =
      decode_packed_as field.type field descriptor descriptors bs
