-- ===== src/Tests/Codec.antt =====
-- Runs of the decoder and of the writer on single fields.
use pact_protobuf_plugin.Base.{
  ℕ, ◌≡◌, ◌≢◌, refl, inl, List, [], ◌∷◌, ◌++◌, map, flat_map, length, arith,
}
use mathlib.Core.List.{reverse}
use pact_protobuf_plugin.Base.Text.{codes}
use pact_protobuf_plugin.Base.Int.{ℤ, negsuc, pos, as_i32}
use pact_protobuf_plugin.Base.Bytes.{to_le_bytes}
use pact_protobuf_plugin.ProstTypes.{WireType}
use pact_protobuf_plugin.Outcome.{Error, ok, err, panic, out_of_fuel}
use pact_protobuf_plugin.Field.{ProtobufFieldData}
use pact_protobuf_plugin.Decoder.{
  find_field_descriptor, varint_data, sixty_four_bit_data, zigzag_32, zigzag_64,
}
use pact_protobuf_plugin.Decoder.Zigzag.{
  encode_zigzag, zigzag_64-encode_zigzag, zigzag_32-encode_zigzag,
}
use pact_protobuf_plugin.Decoder.Packed.{decode_packed_field}
use pact_protobuf_plugin.Decoder.Packed.Values.{
  unless_left, decode_packed_field_varints, decode_packed_field_eights,
}
use pact_protobuf_plugin.Decoder.Message.{decode_message, decode_known, decode_field, unknown_field}
use pact_protobuf_plugin.Decoder.Message.Ends.{decode_message-Ends}
use pact_protobuf_plugin.Decoder.Message.Short.{decode_message_short}
use pact_protobuf_plugin.Decoder.Message.Unknown.{decode_field_unknown}
use pact_protobuf_plugin.DynamicMessage.{write_data}
use pact_protobuf_plugin.DynamicMessage.Signed.{sint64_not_read_back}
use pact_protobuf_plugin.Tests.Instance.{test_libraries}
use pact_protobuf_plugin.Tests.Data.{item, files, delta_field, counts_field, sizes_field}

-- A tag field that announces more bytes than there are.
decode_message-Ends_example :
    decode_message test_libraries (18 ∷ 5 ∷ 97 ∷ []) item files ≢ out_of_fuel
decode_message-Ends_example = decode_message-Ends test_libraries (18 ∷ 5 ∷ 97 ∷ []) item files

counts_made :
    (n : ℕ)
    → varint_data item files counts_field n counts_field.type ≡ ok (ProtobufFieldData.uinteger_64 n)
unfolding varint_data
counts_made n = refl

decode_packed_field_varints_example :
    decode_packed_field test_libraries counts_field item files
      (flat_map test_libraries.encode_varint (7 ∷ 300 ∷ []))
    ≡ ok (
        (ProtobufFieldData.uinteger_64 7, WireType.varint)
        ∷ (ProtobufFieldData.uinteger_64 300, WireType.varint)
        ∷ [])
decode_packed_field_varints_example =
    decode_packed_field_varints test_libraries counts_field item files ProtobufFieldData.uinteger_64
      (7 ∷ 300 ∷ []) tt counts_made (omega arith, (omega arith, tt))

-- Two values and a byte.
decode_packed_field_eights_example :
    decode_packed_field test_libraries sizes_field item files
      (flat_map (to_le_bytes 8) (7 ∷ 300 ∷ []) ++ (1 ∷ []))
    ≡ unless_left
        (map
          (λ n. (sixty_four_bit_data n sizes_field.type, WireType.sixty_four_bit))
          (7 ∷ 300 ∷ []))
        (1 ∷ [])
decode_packed_field_eights_example =
    decode_packed_field_eights test_libraries sizes_field item files (7 ∷ 300 ∷ []) (1 ∷ []) tt
      (omega arith, (omega arith, tt)) (omega arith)

zigzag_64-encode_zigzag_example : zigzag_64 (encode_zigzag (negsuc 4)) ≡ negsuc 4
zigzag_64-encode_zigzag_example = zigzag_64-encode_zigzag (negsuc 4) (omega arith)

zigzag_32-encode_zigzag_example : zigzag_32 (encode_zigzag (pos 300)) ≡ pos 300
zigzag_32-encode_zigzag_example = zigzag_32-encode_zigzag (pos 300) (omega arith)

-- Field 1 as a value of 64 bits of which there are two bytes.
decode_message_short_example :
    decode_message test_libraries
      (test_libraries.encode_key 1 WireType.sixty_four_bit ++ (1 ∷ 2 ∷ []))
      item
      files
    ≡ panic
decode_message_short_example =
    decode_message_short test_libraries item files WireType.sixty_four_bit 8 1 (1 ∷ 2 ∷ [])
      (inl (refl, refl)) (omega arith, omega arith) (omega arith)

abbrev eight_bytes : List ℕ
eight_bytes = 1 ∷ 2 ∷ 3 ∷ 4 ∷ 5 ∷ 6 ∷ 7 ∷ 8 ∷ []

abbrev four_bytes : List ℕ
four_bytes = 1 ∷ 2 ∷ 3 ∷ 4 ∷ []

no_field_9 : find_field_descriptor (as_i32 9) item ≡ err (Error.field_not_found (as_i32 9))
unfolding find_field_descriptor as_i32
no_field_9 = refl

decode_field_unknown_example :
    (decode_field test_libraries item files 9 WireType.varint
        (test_libraries.encode_varint 300 ++ [])
      ≡ ok (unknown_field 9 WireType.varint (test_libraries.encode_varint 300) ∷ [], []))
    × (decode_field test_libraries item files 9 WireType.length_delimited
          ((test_libraries.encode_varint (length (codes "red")) ++ codes "red") ++ [])
        ≡ ok (
          unknown_field 9 WireType.length_delimited
                (test_libraries.encode_varint (length (codes "red")) ++ codes "red")
              ∷ [],
          [],
        ))
    × (decode_field test_libraries item files 9 WireType.sixty_four_bit (eight_bytes ++ [])
        ≡ ok (unknown_field 9 WireType.sixty_four_bit (reverse eight_bytes) ∷ [], []))
    × (decode_field test_libraries item files 9 WireType.thirty_two_bit (four_bytes ++ [])
        ≡ ok (unknown_field 9 WireType.thirty_two_bit (reverse four_bytes) ∷ [], []))
decode_field_unknown_example =
    decode_field_unknown test_libraries item files (Error.field_not_found (as_i32 9)) 9 300
      (codes "red") eight_bytes four_bytes [] no_field_9 (omega arith) (omega arith) refl
      (
        omega arith,
        (
          omega arith,
          (
            omega arith,
            (omega arith, (omega arith, (omega arith, (omega arith, (omega arith, tt))))),
          ),
        ),
      )
      refl (omega arith, (omega arith, (omega arith, (omega arith, tt))))

sint64_not_read_back_example :
    (written : List ℕ) × (j : ℤ) × (write_data test_libraries WireType.varint
        (ProtobufFieldData.integer_64 (negsuc 4))
      ≡ ok written)
    × (decode_known test_libraries WireType.varint delta_field item files 3 (written ++ [])
        ≡ ok ((ProtobufFieldData.integer_64 j, WireType.varint) ∷ [], []))
    × (j ≢ negsuc 4)
sint64_not_read_back_example =
    sint64_not_read_back test_libraries item files delta_field 3 (negsuc 4) [] refl (omega arith)
      (λ e. cc)
