-- ===== src/Decoder/Message/Known.antt =====
-- decode_known of a field of a given type, on the bytes of one value.
use pact_protobuf_plugin.Base.{
  ℕ, ◌≡◌, ap, ◌∙◌, true, List, [], ◌∷◌, ◌++◌, length, arith, append_assoc, leb, le→leb,
  length-append,
}
use pact_protobuf_plugin.Base.Int.{IsU32, IsU64}
use pact_protobuf_plugin.Base.Bytes.{to_le_bytes}
use pact_protobuf_plugin.ProstTypes.{
  WireType, FieldType, FieldDescriptorProto, DescriptorProto, FileDescriptorSet,
}
use pact_protobuf_plugin.Outcome.{ok}
use pact_protobuf_plugin.Field.{ProtobufFieldData}
use pact_protobuf_plugin.Libraries.{Libraries}
use pact_protobuf_plugin.Libraries.Reads.{get_le-to_le_bytes, copy_to_bytes-append}
use pact_protobuf_plugin.Decoder.{varint_data, sixty_four_bit_data, thirty_two_bit_data}
use pact_protobuf_plugin.Decoder.Message.{decode_known, delimited_data, read_delimited}

module _ (libs : Libraries) (d : DescriptorProto) (fds : FileDescriptorSet)
    (f : FieldDescriptorProto) (num : ℕ) where
  pub known_varint :
      (v : ℕ) (value : ProtobufFieldData) (t : FieldType)
      → f.type ≡ t
      → IsU64 v
      → varint_data d fds f v t ≡ ok value
      → (rest : List ℕ)
      → decode_known libs WireType.varint f d fds num (libs.encode_varint v ++ rest)
        ≡ ok ((value, WireType.varint) ∷ [], rest)
  unfolding decode_known
  known_varint v value t e h made rest =
      let made' : varint_data d fds f v f.type ≡ ok value =
        ap (λ (u : FieldType). varint_data d fds f v u) e ∙ made in
      rw (libs.decode_varint-encode_varint v rest h, made')

  pub known_eight :
      (n : ℕ) (value : ProtobufFieldData) (t : FieldType)
      → f.type ≡ t
      → IsU64 n
      → sixty_four_bit_data n t ≡ value
      → (rest : List ℕ)
      → decode_known libs WireType.sixty_four_bit f d fds num (to_le_bytes 8 n ++ rest)
        ≡ ok ((value, WireType.sixty_four_bit) ∷ [], rest)
  unfolding decode_known
  known_eight n value t e h made rest =
      let made' : sixty_four_bit_data n f.type ≡ value =
        ap (λ (u : FieldType). sixty_four_bit_data n u) e ∙ made in
      (rw (get_le-to_le_bytes libs 8 n rest h, made'))

  pub known_four :
      (n : ℕ) (value : ProtobufFieldData) (t : FieldType)
      → f.type ≡ t
      → IsU32 n
      → thirty_two_bit_data n t ≡ value
      → (rest : List ℕ)
      → decode_known libs WireType.thirty_two_bit f d fds num (to_le_bytes 4 n ++ rest)
        ≡ ok ((value, WireType.thirty_two_bit) ∷ [], rest)
  unfolding decode_known
  known_four n value t e h made rest =
      let made' : thirty_two_bit_data n f.type ≡ value =
        ap (λ (u : FieldType). thirty_two_bit_data n u) e ∙ made in
      (rw (get_le-to_le_bytes libs 4 n rest h, made'))

  pub known_delimited :
      (s : List ℕ) (values : List (ProtobufFieldData × WireType)) (t : FieldType)
      → f.type ≡ t
      → IsU64 (length s)
      → delimited_data libs t f d fds num (length s) s ≡ ok values
      → (rest : List ℕ)
      → decode_known libs WireType.length_delimited f d fds num
          ((libs.encode_varint (length s) ++ s) ++ rest)
        ≡ ok (values, rest)
  unfolding decode_known read_delimited
  known_delimited s values t e h made rest =
      let made' : delimited_data libs f.type f d fds num (length s) s ≡ ok values =
        ap (λ (u : FieldType). delimited_data libs u f d fds num (length s) s) e ∙ made in
      let enough : leb (length s) (length (s ++ rest)) ≡ true =
        le→leb _ _ (omega (arith, length-append s rest)) in
      rw (append_assoc (libs.encode_varint (length s)) s rest) (
        rw (libs.decode_varint-encode_varint (length s) (s ++ rest) h)
          (rw (enough) (rw (copy_to_bytes-append libs s rest, made'))))
