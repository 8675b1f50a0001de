-- ===== src/Decoder/Message/Unknown.antt =====
-- What decode_message keeps of a field that the descriptor does not have.
use pact_protobuf_plugin.Base.{
  ℕ, ◌+◌, ◌*◌, ◌/◌, ◌%◌, ◌<◌, ◌≡◌, refl, sym, ap, ◌∙◌, List, [], ◌∷◌, ◌++◌, length, All, arith,
  length-append, All-append, append_assoc,
}
use mathlib.Core.List.{reverse, reverse-cons}
use mathlib.Core.Path.{subst}
use pact_protobuf_plugin.Base.Int.{as_i32, IsU64}
use pact_protobuf_plugin.Base.Bytes.{to_le_bytes, from_le_bytes}
use pact_protobuf_plugin.ProstTypes.{WireType, DescriptorProto, FileDescriptorSet}
use pact_protobuf_plugin.Outcome.{Outcome, Error, ok, err, or_panic, ◌>>=◌}
use pact_protobuf_plugin.Field.{ProtobufField}
use pact_protobuf_plugin.Libraries.{Libraries}
use pact_protobuf_plugin.Libraries.Reads.{
  take-append_of_length, drop-append_of_length, copy_to_bytes-append,
}
use pact_protobuf_plugin.Decoder.{find_field_descriptor}
use pact_protobuf_plugin.Decoder.Message.{decode_unknown, decode_found, decode_field, unknown_field}

abbrev pub AreBytes : List ℕ → Type 0
AreBytes bs = All (λ b. b < 256) bs

to_le_bytes-from_le_bytes :
    (bs : List ℕ) → AreBytes bs → to_le_bytes (length bs) (from_le_bytes bs) ≡ bs
to_le_bytes-from_le_bytes [] h = refl
to_le_bytes-from_le_bytes (b ∷ bs) h =
    let low : (b + 256 * from_le_bytes bs) % 256 ≡ b = omega (arith, h.0) in
    let high : (b + 256 * from_le_bytes bs) / 256 ≡ from_le_bytes bs = omega (arith, h.0) in
    rw (low, high) (ap (λ (cs : List ℕ). b ∷ cs) (to_le_bytes-from_le_bytes bs h.1))

AreBytes-append : (bs cs : List ℕ) → AreBytes bs → AreBytes cs → AreBytes (bs ++ cs)
AreBytes-append bs cs h k = All-append _ bs cs h k

AreBytes-reverse : (bs : List ℕ) → AreBytes bs → AreBytes (reverse bs)
AreBytes-reverse [] h = tt
AreBytes-reverse (b ∷ bs) h =
    subst AreBytes (sym (reverse-cons b bs))
      (AreBytes-append (reverse bs) (b ∷ []) (AreBytes-reverse bs h.1) (h.0, tt))

length-reverse : (bs : List ℕ) → length (reverse bs) ≡ length bs
length-reverse [] = refl
length-reverse (b ∷ bs) =
    ap length (reverse-cons b bs)
    ∙ length-append (reverse bs) (b ∷ [])
    ∙ (omega (arith, length-reverse bs))

module _ (libs : Libraries) (d : DescriptorProto) (fds : FileDescriptorSet) where
  -- Bytes that are read as a big-endian number and kept as those of a little-endian one.
  get_be-reversed :
      (k : ℕ) (bs rest : List ℕ)
      → length bs ≡ k
      → AreBytes bs
      → ◌>>=◌ {B = List ℕ × List ℕ}
          (or_panic (libs.get_be k (bs ++ rest)))
          (λ (value, left). ok (to_le_bytes k value, left))
        ≡ ok (reverse bs, rest)
  get_be-reversed k bs rest size h =
      let back : to_le_bytes k (from_le_bytes (reverse bs)) ≡ reverse bs =
        ap (λ n. to_le_bytes n (from_le_bytes (reverse bs))) (sym size ∙ sym (length-reverse bs))
        ∙ to_le_bytes-from_le_bytes (reverse bs) (AreBytes-reverse bs h) in
      rw (libs.get_be_enough k (bs ++ rest) (omega (arith, length-append bs rest, size)))
        (rw (take-append_of_length k bs rest size, drop-append_of_length k bs rest size) (rw back))

  -- How a field that the descriptor does not have keeps the bytes of its value: those of a varint and
  -- of a length-delimited value are kept as prost writes them, those of a value of 64 or of 32 bits
  -- are kept in the reverse of their order.
  pub decode_field_unknown :
      (e : Error) (n v : ℕ) (value eight four rest : List ℕ)
      → find_field_descriptor (as_i32 n) d ≡ err e
      → IsU64 v
      → IsU64 (length value)
      → length eight ≡ 8
      → AreBytes eight
      → length four ≡ 4
      → AreBytes four
      → (decode_field libs d fds n WireType.varint (libs.encode_varint v ++ rest)
          ≡ ok (unknown_field n WireType.varint (libs.encode_varint v) ∷ [], rest))
        × (decode_field libs d fds n WireType.length_delimited
              ((libs.encode_varint (length value) ++ value) ++ rest)
            ≡ ok (
              unknown_field n WireType.length_delimited (libs.encode_varint (length value) ++ value)
                  ∷ [],
              rest,
            ))
        × (decode_field libs d fds n WireType.sixty_four_bit (eight ++ rest)
            ≡ ok (unknown_field n WireType.sixty_four_bit (reverse eight) ∷ [], rest))
        × (decode_field libs d fds n WireType.thirty_two_bit (four ++ rest)
            ≡ ok (unknown_field n WireType.thirty_two_bit (reverse four) ∷ [], rest))
  unfolding decode_field decode_found decode_unknown
  decode_field_unknown e n v value eight four rest absent hv hl eights he fours hf = (
    rw absent (rw (libs.decode_varint-encode_varint v rest hv)),
    rw absent (
        rw (append_assoc (libs.encode_varint (length value)) value rest) (
          rw (libs.decode_varint-encode_varint (length value) (value ++ rest) hl)
            (rw (copy_to_bytes-append libs value rest)))),
    rw absent (ap (keep WireType.sixty_four_bit) (get_be-reversed 8 eight rest eights he)),
    rw absent (ap (keep WireType.thirty_two_bit) (get_be-reversed 4 four rest fours hf)),
  )
    where
      keep : WireType → Outcome (List ℕ × List ℕ) → Outcome (List ProtobufField × List ℕ)
      keep w m = m >>= λ (kept, left). ok (unknown_field n w kept ∷ [], left)
