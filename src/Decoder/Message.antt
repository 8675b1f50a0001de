-- ===== src/Decoder/Message.antt =====
-- decode_message of src/message_decoder/mod.rs: the loop over the fields of a buffer.
pub mod Ends
pub mod Known
pub mod Short
pub mod Unknown
use pact_protobuf_plugin.Base.{
  ℕ, zero, suc, Bool, true, false, ◌&&◌, Option, none, some, List, [], ◌∷◌, ◌++◌, map, length, leb,
  if◌then◌else◌,
}
use pact_protobuf_plugin.Base.Text.{Text, codes}
use pact_protobuf_plugin.Base.Int.{as_i32}
use pact_protobuf_plugin.Base.Bytes.{to_le_bytes, is_utf8}
use pact_protobuf_plugin.ProstTypes.{
  WireType, FieldType, Label, FieldDescriptorProto, DescriptorProto, FileDescriptorSet,
  text_or_default,
}
use pact_protobuf_plugin.Outcome.{
  Outcome, Error, ok, err, panic, out_of_fuel, ◌>>=◌, map_ok, ok_or, or_panic,
}
use pact_protobuf_plugin.Field.{ProtobufFieldData, ProtobufField}
use pact_protobuf_plugin.Lookup.{is_repeated_field, should_be_packed_type}
use pact_protobuf_plugin.Libraries.{Libraries}
use pact_protobuf_plugin.Decoder.{
  find_field_descriptor, varint_data, sixty_four_bit_data, thirty_two_bit_data, find_embedded,
}
use pact_protobuf_plugin.Decoder.Packed.{decode_packed_field}

-- The data of one field of the buffer, with wire types, and the bytes left.
abbrev pub Decoded : Type 0
Decoded = List (ProtobufFieldData × WireType) × List ℕ

-- `FieldDescriptorProto::default()`.
abbrev pub no_descriptor : FieldDescriptorProto
no_descriptor = record {
  name = none;
  number = none;
  label = Label.optional;
  type = FieldType.double;
  type_name = none;
  default_value = none;
}

-- The field pushed for one value of a known field.
unfoldable pub known_field : FieldDescriptorProto → ℕ → ProtobufFieldData × WireType → ProtobufField
known_field f field_num (value, w) = record {
  field_num = field_num;
  field_name = text_or_default f.name;
  wire_type = w;
  field_data = value;
  additional_data = [];
  descriptor = f;
}

unfoldable pub unknown_field : ℕ → WireType → List ℕ → ProtobufField
unknown_field field_num w kept = record {
  field_num = field_num;
  field_name = codes "unknown";
  wire_type = w;
  field_data = ProtobufFieldData.unknown kept;
  additional_data = [];
  descriptor = no_descriptor;
}

module _ (libs : Libraries) where
  -- The match on the type of a length-delimited field, whose bytes have been read.
  unfoldable pub delimited_data :
      FieldType
      → FieldDescriptorProto
      → DescriptorProto
      → FileDescriptorSet
      → ℕ
      → ℕ
      → List ℕ
      → Outcome (List (ProtobufFieldData × WireType))
  delimited_data FieldType.string f d fds field_num data_length data_buffer =
      if is_utf8 data_buffer
      then ok ((ProtobufFieldData.string data_buffer, WireType.length_delimited) ∷ [])
      else err Error.invalid_utf8
  delimited_data FieldType.message f d fds field_num data_length data_buffer =
      find_embedded d fds f field_num >>= λ message_proto.
      ok ((ProtobufFieldData.message data_buffer message_proto, WireType.length_delimited) ∷ [])
  delimited_data FieldType.bytes f d fds field_num data_length data_buffer =
      ok ((ProtobufFieldData.bytes data_buffer, WireType.length_delimited) ∷ [])
  delimited_data t f d fds field_num data_length data_buffer =
      if should_be_packed_type t && is_repeated_field f
      then decode_packed_field libs f d fds data_buffer
      else ok (
          (
            ProtobufFieldData.unknown (libs.encode_varint data_length ++ data_buffer),
            WireType.length_delimited,
          )
          ∷ [])

  -- `data_length` bytes, or an error where fewer are left.
  unfoldable pub read_delimited : ℕ → ℕ → List ℕ → Outcome (List ℕ × List ℕ)
  read_delimited field_num data_length rest =
      if leb data_length (length rest)
      then or_panic (libs.copy_to_bytes data_length rest)
      else err (Error.insufficient_data (length rest) data_length field_num)

  -- The match on the wire type, for a field that the descriptor has.
  unfoldable pub decode_known :
      WireType
      → FieldDescriptorProto
      → DescriptorProto
      → FileDescriptorSet
      → ℕ
      → List ℕ
      → Outcome Decoded
  decode_known WireType.varint f d fds field_num bs =
      ok_or (libs.decode_varint bs) Error.invalid_varint >>= λ (varint, rest).
      varint_data d fds f varint f.type >>= λ value. ok ((value, WireType.varint) ∷ [], rest)
  decode_known WireType.sixty_four_bit f d fds field_num bs =
      or_panic (libs.get_le 8 bs) >>= λ (value, rest).
      ok ((sixty_four_bit_data value f.type, WireType.sixty_four_bit) ∷ [], rest)
  decode_known WireType.length_delimited f d fds field_num bs =
      ok_or (libs.decode_varint bs) Error.invalid_varint >>= λ (data_length, rest).
      read_delimited field_num data_length rest >>= λ (data_buffer, left).
      delimited_data f.type f d fds field_num data_length data_buffer >>= λ values.
      ok (values, left)
  decode_known WireType.thirty_two_bit f d fds field_num bs =
      or_panic (libs.get_le 4 bs) >>= λ (value, rest).
      ok ((thirty_two_bit_data value f.type, WireType.thirty_two_bit) ∷ [], rest)
  decode_known w f d fds field_num bs = err (Error.unsupported_wire_type w)

  -- The match on the wire type, for a field that the descriptor does not have: the bytes to keep.
  -- A length beyond the buffer panics, in the allocation or in `copy_to_bytes`.
  unfoldable pub decode_unknown : WireType → List ℕ → Outcome (List ℕ × List ℕ)
  decode_unknown WireType.varint bs =
      ok_or (libs.decode_varint bs) Error.invalid_varint >>= λ (result, rest).
      ok (libs.encode_varint result, rest)
  decode_unknown WireType.sixty_four_bit bs =
      or_panic (libs.get_be 8 bs) >>= λ (value, rest). ok (to_le_bytes 8 value, rest)
  decode_unknown WireType.length_delimited bs =
      ok_or (libs.decode_varint bs) Error.invalid_varint >>= λ (data_length, rest).
      or_panic (libs.copy_to_bytes data_length rest) >>= λ (data_buffer, left).
      ok (libs.encode_varint data_length ++ data_buffer, left)
  decode_unknown WireType.thirty_two_bit bs =
      or_panic (libs.get_be 4 bs) >>= λ (value, rest). ok (to_le_bytes 4 value, rest)
  decode_unknown w bs = err (Error.unsupported_wire_type w)

  -- The match on the field's descriptor: the fields that are pushed, and the bytes left.
  unfoldable pub decode_found :
      Outcome FieldDescriptorProto
      → DescriptorProto
      → FileDescriptorSet
      → ℕ
      → WireType
      → List ℕ
      → Outcome (List ProtobufField × List ℕ)
  decode_found (ok f) d fds field_num w bs =
      decode_known w f d fds field_num bs >>= λ (values, rest).
      ok (map (known_field f field_num) values, rest)
  decode_found _ d fds field_num w bs =
      decode_unknown w bs >>= λ (kept, rest). ok (unknown_field field_num w kept ∷ [], rest)

  -- One round of the loop, behind the key.
  unfoldable pub decode_field :
      DescriptorProto
      → FileDescriptorSet
      → ℕ
      → WireType
      → List ℕ
      → Outcome (List ProtobufField × List ℕ)
  decode_field d fds field_num w bs =
      decode_found (find_field_descriptor (as_i32 field_num) d) d fds field_num w bs

  -- `while buffer.has_remaining()`: each round reads a key, so the bytes are fuel enough.
  unfoldable pub decode_fields :
      ℕ → DescriptorProto → FileDescriptorSet → List ℕ → Outcome (List ProtobufField)
  decode_fields zero d fds bs = out_of_fuel
  decode_fields (suc fuel) d fds [] = ok []
  decode_fields (suc fuel) d fds (b ∷ bs) =
      ok_or (libs.decode_key (b ∷ bs)) Error.invalid_key >>= λ (field_num, w, rest).
      decode_field d fds field_num w rest >>= λ (fields, left).
      decode_fields fuel d fds left >>= λ more. ok (fields ++ more)

  -- The fields of the buffer, in the order of their numbers.
  unfoldable pub decode_message :
      List ℕ → DescriptorProto → FileDescriptorSet → Outcome (List ProtobufField)
  decode_message bs d fds = decode_fields (suc (length bs)) d fds bs >>= λ fields.
      ok (libs.sorted_by ProtobufField (λ f. f.field_num) fields)
