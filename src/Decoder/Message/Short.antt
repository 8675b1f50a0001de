-- ===== src/Decoder/Message/Short.antt =====
-- Buffers that end within a value of fixed size.
use pact_protobuf_plugin.Base.{
  ℕ, suc, ◌<◌, ◌≡◌, ◌⊎◌, inl, inr, some, List, [], ◌∷◌, ◌++◌, length, arith,
}
use pact_protobuf_plugin.Base.Int.{as_i32}
use pact_protobuf_plugin.ProstTypes.{
  WireType, FieldDescriptorProto, DescriptorProto, FileDescriptorSet,
}
use pact_protobuf_plugin.Outcome.{Outcome, ok, panic}
use pact_protobuf_plugin.Libraries.{Libraries, IsTag}
use pact_protobuf_plugin.Decoder.{find_field_descriptor}
use pact_protobuf_plugin.Decoder.Message.{
  decode_known, decode_unknown, decode_found, decode_field, decode_fields, decode_message,
}

module _ (libs : Libraries) (d : DescriptorProto) (fds : FileDescriptorSet) where
  -- The wire types of fixed size, with it.
  abbrev pub FixedSize : WireType → ℕ → Type 0
  FixedSize w k =
      ((w ≡ WireType.sixty_four_bit) × (k ≡ 8)) ⊎ ((w ≡ WireType.thirty_two_bit) × (k ≡ 4))

  decode_found_short :
      (m : Outcome FieldDescriptorProto) (w : WireType) (k n : ℕ) (bs : List ℕ)
      → FixedSize w k
      → length bs < k
      → decode_found libs m d fds n w bs ≡ panic
  unfolding decode_found decode_known decode_unknown
  decode_found_short (ok f) w k n bs (inl (e, size)) short =
      rw e (rw (libs.get_le_short 8 bs (omega (arith, short, size))))
  decode_found_short (ok f) w k n bs (inr (e, size)) short =
      rw e (rw (libs.get_le_short 4 bs (omega (arith, short, size))))
  decode_found_short _ w k n bs (inl (e, size)) short =
      rw e (rw (libs.get_be_short 8 bs (omega (arith, short, size))))
  decode_found_short _ w k n bs (inr (e, size)) short =
      rw e (rw (libs.get_be_short 4 bs (omega (arith, short, size))))

  decode_fields_panic :
      (fuel n : ℕ) (w : WireType) (bs rest : List ℕ)
      → libs.decode_key bs ≡ some (n, w, rest)
      → decode_field libs d fds n w rest ≡ panic
      → decode_fields libs (suc fuel) d fds bs ≡ panic
  unfolding decode_fields
  decode_fields_panic fuel n w [] rest key stop =
      absurd (omega (arith, libs.decode_key_shrinks [] n w rest key))
  decode_fields_panic fuel n w (b ∷ bs) rest key stop = rw key (rw stop)

  -- A buffer whose first field is of 64 or 32 bits and that ends within the value makes the decoder
  -- panic, whether the descriptor has the field or not.
  pub decode_message_short :
      (w : WireType) (k n : ℕ) (value : List ℕ)
      → FixedSize w k
      → IsTag n
      → length value < k
      → decode_message libs (libs.encode_key n w ++ value) d fds ≡ panic
  unfolding decode_message decode_field
  decode_message_short w k n value fixed tag short =
      let bs = libs.encode_key n w ++ value in
      let stop = decode_found_short (find_field_descriptor (as_i32 n) d) w k n value fixed short in
      rw (
        decode_fields_panic (length bs) n w bs value (libs.decode_key-encode_key n w value tag)
          stop)
