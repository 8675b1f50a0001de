-- ===== src/DynamicMessage.antt =====
-- DynamicMessage of src/dynamic_message.rs: fields grouped by their number, and their encoding. The
-- HashMap of fields is the list of its entries in the order in which it is visited. A buffer that is
-- written to is the list of the bytes appended to it; what was appended before an error is dropped.
pub mod Carries
pub mod Reads
pub mod Entries
pub mod Groups
pub mod RoundTrip
pub mod Signed
pub mod Paths
pub mod Codec
use pact_protobuf_plugin.Base.{
  ℕ, Bool, true, false, ◌&&◌, not, Option, none, some, List, [], ◌∷◌, ◌++◌, map, flat_map, length,
  is_empty, if◌then◌else◌,
}
use pact_protobuf_plugin.Base.Int.{as_u64, as_u32}
use pact_protobuf_plugin.ProstTypes.{WireType, DescriptorProto, FileDescriptorSet}
use pact_protobuf_plugin.Outcome.{Outcome, Error, ok, err, panic, out_of_fuel, ◌>>=◌}
use pact_protobuf_plugin.Field.{ProtobufFieldData, ProtobufField, repeated_field, clone_with_data}
use pact_protobuf_plugin.Libraries.{Libraries}
use mathlib.Core.List.{foldl}

pub record DynamicMessage : Type 0 where
  pub fields : List (ℕ × ProtobufField)
  pub descriptors : FileDescriptorSet

-- The closure of `reduce`: the data of a later field joins the additional data of the first.
unfoldable pub push_data : ProtobufField → ProtobufField → ProtobufField
push_data field f = record field { additional_data = field.additional_data ++ (f.field_data ∷ []) }

-- `reduce(…).unwrap()` on each group.
unfoldable pub consolidate : List (ℕ × List ProtobufField) → Outcome (List (ℕ × ProtobufField))
unfolding push_data
consolidate [] = ok []
consolidate ((field_num, []) ∷ groups) = panic
consolidate ((field_num, f ∷ fs) ∷ groups) =
    consolidate groups >>= λ fields. ok ((field_num, foldl push_data f fs) ∷ fields)

-- The number of a field with the field: the key for the grouping.
unfoldable pub keyed : ProtobufField → ℕ × ProtobufField
keyed f = (f.field_num, f)

-- The fields of a map, in the order in which it is visited.
unfoldable pub proto_fields : DynamicMessage → List ProtobufField
proto_fields m = map (λ (p : ℕ × ProtobufField). p.1) m.fields

-- A field, with a clone for each piece of its additional data if it is repeated.
unfoldable pub flatten_field : ProtobufField → List ProtobufField
flatten_field f =
    if repeated_field f && not (is_empty f.additional_data)
    then f ∷ map (clone_with_data f) f.additional_data
    else f ∷ []

unfoldable pub flatten_fields : DynamicMessage → List ProtobufField
unfolding flatten_field
flatten_fields m = flat_map (λ (p : ℕ × ProtobufField). flatten_field p.1) m.fields

abbrev pub bool_to_int : Bool → ℕ
bool_to_int true = 1
bool_to_int false = 0

module _ (libs : Libraries) where
  unfoldable pub new : List ProtobufField → FileDescriptorSet → Outcome DynamicMessage
  unfolding keyed
  new field_data descriptors =
      consolidate (libs.into_group_map ProtobufField (map keyed field_data)) >>= λ fields.
      ok (record { fields = fields; descriptors = descriptors })

  -- The match on the data of a varint field.
  unfoldable pub write_varint : ProtobufFieldData → Outcome (List ℕ)
  write_varint (ProtobufFieldData.boolean b) = ok (libs.encode_varint (bool_to_int b))
  write_varint (ProtobufFieldData.uinteger_32 n) = ok (libs.encode_varint n)
  write_varint (ProtobufFieldData.integer_32 n) = ok (libs.encode_varint (as_u64 n))
  write_varint (ProtobufFieldData.uinteger_64 n) = ok (libs.encode_varint n)
  write_varint (ProtobufFieldData.integer_64 n) = ok (libs.encode_varint (as_u64 n))
  write_varint (ProtobufFieldData.enum n e) = ok (libs.encode_varint (as_u64 n))
  write_varint (ProtobufFieldData.unknown b) = ok b
  write_varint _ = err Error.expected_varint

  unfoldable pub write_64_bit : ProtobufFieldData → Outcome (List ℕ)
  write_64_bit (ProtobufFieldData.uinteger_64 n) = ok (libs.put_le 8 n)
  write_64_bit (ProtobufFieldData.integer_64 n) = ok (libs.put_le 8 (as_u64 n))
  write_64_bit (ProtobufFieldData.double n) = ok (libs.put_le 8 n)
  write_64_bit (ProtobufFieldData.unknown b) = ok b
  write_64_bit _ = err Error.expected_64_bit

  unfoldable pub write_length_delimited : ProtobufFieldData → Outcome (List ℕ)
  write_length_delimited (ProtobufFieldData.string s) = ok (libs.encode_varint (length s) ++ s)
  write_length_delimited (ProtobufFieldData.bytes b) = ok (libs.encode_varint (length b) ++ b)
  write_length_delimited (ProtobufFieldData.message m d) = ok (libs.encode_varint (length m) ++ m)
  write_length_delimited (ProtobufFieldData.unknown b) = ok b
  write_length_delimited _ = err Error.expected_length_delimited

  unfoldable pub write_32_bit : ProtobufFieldData → Outcome (List ℕ)
  write_32_bit (ProtobufFieldData.uinteger_32 n) = ok (libs.put_le 4 n)
  write_32_bit (ProtobufFieldData.integer_32 n) = ok (libs.put_le 4 (as_u32 n))
  write_32_bit (ProtobufFieldData.float n) = ok (libs.put_le 4 n)
  write_32_bit (ProtobufFieldData.unknown b) = ok b
  write_32_bit _ = err Error.expected_32_bit

  -- The match on the wire type: the bytes behind the key.
  unfoldable pub write_data : WireType → ProtobufFieldData → Outcome (List ℕ)
  unfolding write_varint write_64_bit write_length_delimited write_32_bit
  write_data WireType.varint d = write_varint d
  write_data WireType.sixty_four_bit d = write_64_bit d
  write_data WireType.length_delimited d = write_length_delimited d
  write_data WireType.thirty_two_bit d = write_32_bit d
  write_data _ d = err Error.groups_not_supported

  -- The key and the value. The parameter `field_num` of the source is only traced.
  unfoldable pub write_field : ProtobufField → ProtobufFieldData → Outcome (List ℕ)
  write_field field d = write_data field.wire_type d >>= λ bytes.
      ok (libs.encode_key field.field_num field.wire_type ++ bytes)

  -- `for data in &field.additional_data { … }`.
  unfoldable pub write_additional : ProtobufField → List ProtobufFieldData → Outcome (List ℕ)
  write_additional field [] = ok []
  write_additional field (d ∷ ds) =
      write_field field d >>= λ bytes. write_additional field ds >>= λ more. ok (bytes ++ more)

  -- The additional data is written for repeated fields alone.
  unfoldable pub write_repeats : ProtobufField → Outcome (List ℕ)
  write_repeats field =
      if repeated_field field && not (is_empty field.additional_data)
      then write_additional field field.additional_data
      else ok []

  unfoldable pub write_fields : List (ℕ × ProtobufField) → Outcome (List ℕ)
  write_fields [] = ok []
  write_fields ((field_num, field) ∷ rest) = write_field field field.field_data >>= λ bytes.
      write_repeats field >>= λ repeats.
      write_fields rest >>= λ more. ok (bytes ++ (repeats ++ more))

  -- The fields are written in the order of their numbers.
  unfoldable pub write_to : DynamicMessage → Outcome (List ℕ)
  write_to m = write_fields (libs.sorted_by (ℕ × ProtobufField) (λ p. p.0) m.fields)
