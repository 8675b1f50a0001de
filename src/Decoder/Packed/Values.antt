-- ===== src/Decoder/Packed/Values.antt =====
-- What decode_packed_field returns on the values that were packed.
use pact_protobuf_plugin.Base.{
  ℕ, zero, suc, ◌^◌, ◌<◌, ◌≤◌, ◌≡◌, refl, ap, ◌∙◌, some, List, [], ◌∷◌, ◌++◌, length, arith,
  if◌then◌else◌, is_empty, map, flat_map, All, le→leb, lt→not_leb, append_assoc,
}
use pact_protobuf_plugin.Base.Bytes.{to_le_bytes}
use pact_protobuf_plugin.Base.Int.{IsU64}
use pact_protobuf_plugin.ProstTypes.{
  WireType, FieldType, FieldDescriptorProto, DescriptorProto, FileDescriptorSet,
}
use pact_protobuf_plugin.Outcome.{Outcome, Error, ok, err}
use pact_protobuf_plugin.Field.{ProtobufFieldData}
use pact_protobuf_plugin.Libraries.{Libraries}
use pact_protobuf_plugin.Libraries.Reads.{get_le-to_le_bytes, length-to_le_bytes-append}
use pact_protobuf_plugin.Decoder.{varint_data, sixty_four_bit_data, thirty_two_bit_data}
use pact_protobuf_plugin.Decoder.Packed.{
  packed_fixed, packed_varints, all_read, decode_packed_as, decode_packed_field,
}

-- The types whose packed values are varints, eight bytes and four bytes.
abbrev pub IsPackedVarint : FieldType → Type 0
IsPackedVarint FieldType.int64 = Unit {0}
IsPackedVarint FieldType.uint64 = Unit {0}
IsPackedVarint FieldType.int32 = Unit {0}
IsPackedVarint FieldType.uint32 = Unit {0}
IsPackedVarint FieldType.enum = Unit {0}
IsPackedVarint FieldType.sint32 = Unit {0}
IsPackedVarint FieldType.sint64 = Unit {0}
IsPackedVarint _ = ⊥

abbrev pub IsEightBytes : FieldType → Type 0
IsEightBytes FieldType.double = Unit {0}
IsEightBytes FieldType.fixed64 = Unit {0}
IsEightBytes FieldType.sfixed64 = Unit {0}
IsEightBytes _ = ⊥

abbrev pub IsFourBytes : FieldType → Type 0
IsFourBytes FieldType.float = Unit {0}
IsFourBytes FieldType.fixed32 = Unit {0}
IsFourBytes FieldType.sfixed32 = Unit {0}
IsFourBytes _ = ⊥

-- What a packed field of fixed size returns when it has read `values` and `left` bytes remain.
abbrev pub unless_left :
    List (ProtobufFieldData × WireType) → List ℕ → Outcome (List (ProtobufFieldData × WireType))
unless_left values left =
    if is_empty left then ok values else err (Error.packed_bytes_left (length left))

module _ (libs : Libraries) where
  open libs use {
    encode_varint, decode_varint, decode_varint-encode_varint, decode_varint_shrinks, get_le,
    get_le_enough,
  }

  packed_varints_step :
      (fuel : ℕ) (make : ℕ → Outcome ProtobufFieldData) (bs : List ℕ) (n : ℕ) (rest : List ℕ)
      (v : ProtobufFieldData) (values : List ProtobufFieldData) (left : List ℕ)
      → decode_varint bs ≡ some (n, rest)
      → make n ≡ ok v
      → packed_varints libs fuel make rest ≡ ok (values, left)
      → packed_varints libs (suc fuel) make bs ≡ ok (v ∷ values, left)
  unfolding packed_varints
  packed_varints_step fuel make [] n rest v values left e made more =
      absurd (omega (arith, decode_varint_shrinks [] n rest e))
  packed_varints_step fuel make (b ∷ bs) n rest v values left e made more = rw (e, made, more)

  packed_varints_reads :
      (fuel : ℕ) (make : ℕ → Outcome ProtobufFieldData) (value : ℕ → ProtobufFieldData)
      (ns : List ℕ)
      → ((n : ℕ) → make n ≡ ok (value n))
      → All IsU64 ns
      → length (flat_map encode_varint ns) < fuel
      → packed_varints libs fuel make (flat_map encode_varint ns) ≡ ok (map value ns, [])
  packed_varints_reads zero make value ns made h lt = absurd (omega arith)
  packed_varints_reads (suc fuel) make value [] made h lt = unfold packed_varints in refl
  packed_varints_reads (suc fuel) make value (n ∷ ns) made h lt =
      let read = decode_varint-encode_varint n (flat_map encode_varint ns) h.0 in
      packed_varints_step fuel make _ n (flat_map encode_varint ns) (value n) (map value ns) [] read
        (made n)
        (packed_varints_reads fuel make value ns made h.1
          (omega (arith, decode_varint_shrinks _ n (flat_map encode_varint ns) read)))

  packed_fixed_step :
      (fuel size : ℕ) (make : ℕ → ProtobufFieldData) (bs : List ℕ) (n : ℕ) (rest : List ℕ)
      (values : List ProtobufFieldData) (left : List ℕ)
      → size ≤ length bs
      → get_le size bs ≡ some (n, rest)
      → packed_fixed libs fuel size make rest ≡ ok (values, left)
      → packed_fixed libs (suc fuel) size make bs ≡ ok (make n ∷ values, left)
  unfolding packed_fixed
  packed_fixed_step fuel size make bs n rest values left enough e more =
      rw (le→leb size (length bs) enough, packed_fixed) (rw (e, more))

  packed_fixed_reads :
      (fuel size : ℕ) (make : ℕ → ProtobufFieldData) (ns tail : List ℕ)
      → All (λ n. n < 256 ^ size) ns
      → length tail < size
      → length (flat_map (to_le_bytes size) ns ++ tail) < fuel
      → packed_fixed libs fuel size make (flat_map (to_le_bytes size) ns ++ tail)
        ≡ ok (map make ns, tail)
  packed_fixed_reads zero size make ns tail h short lt = absurd (omega arith)
  packed_fixed_reads (suc fuel) size make [] tail h short lt =
      unfold packed_fixed in rw (lt→not_leb size (length tail) short, packed_fixed)
  packed_fixed_reads (suc fuel) size make (n ∷ ns) tail h short lt =
      let rest : List ℕ = flat_map (to_le_bytes size) ns ++ tail in
      let whole : to_le_bytes size n ++ flat_map (to_le_bytes size) ns ++ tail
          ≡ to_le_bytes size n ++ rest =
        append_assoc (to_le_bytes size n) (flat_map (to_le_bytes size) ns) tail in
      rw whole (
        packed_fixed_step fuel size make (to_le_bytes size n ++ rest) n rest (map make ns) tail
          (omega (arith, length-to_le_bytes-append size n rest))
          (get_le-to_le_bytes libs size n rest h.0)
          (packed_fixed_reads fuel size make ns tail h.1 short
            (omega (arith, length-to_le_bytes-append size n rest, ap length whole))))

  map_values :
      (w : WireType) (value : ℕ → ProtobufFieldData) (ns : List ℕ)
      → map {B = ProtobufFieldData × WireType} (λ v. (v, w)) (map value ns)
        ≡ map (λ n. (value n, w)) ns
  map_values w value [] = refl
  map_values w value (n ∷ ns) =
      ap (λ (t : List (ProtobufFieldData × WireType)). (value n, w) ∷ t) (map_values w value ns)

  module _ (f : FieldDescriptorProto) (d : DescriptorProto) (fds : FileDescriptorSet) where
    decode_packed_as_varints :
        (t : FieldType) (bs : List ℕ)
        → IsPackedVarint t
        → decode_packed_as libs t f d fds bs
          ≡ all_read libs WireType.varint
              (packed_varints libs (suc (length bs)) (λ v. varint_data d fds f v t) bs)
    unfolding decode_packed_as
    decode_packed_as_varints FieldType.int64 bs h = refl
    decode_packed_as_varints FieldType.uint64 bs h = refl
    decode_packed_as_varints FieldType.int32 bs h = refl
    decode_packed_as_varints FieldType.uint32 bs h = refl
    decode_packed_as_varints FieldType.enum bs h = refl
    decode_packed_as_varints FieldType.sint32 bs h = refl
    decode_packed_as_varints FieldType.sint64 bs h = refl
    decode_packed_as_varints _ bs h = absurd h

    decode_packed_as_eights :
        (t : FieldType) (bs : List ℕ)
        → IsEightBytes t
        → decode_packed_as libs t f d fds bs
          ≡ all_read libs WireType.sixty_four_bit
              (packed_fixed libs (suc (length bs)) 8 (λ v. sixty_four_bit_data v t) bs)
    unfolding decode_packed_as
    decode_packed_as_eights FieldType.double bs h = refl
    decode_packed_as_eights FieldType.fixed64 bs h = refl
    decode_packed_as_eights FieldType.sfixed64 bs h = refl
    decode_packed_as_eights _ bs h = absurd h

    decode_packed_as_fours :
        (t : FieldType) (bs : List ℕ)
        → IsFourBytes t
        → decode_packed_as libs t f d fds bs
          ≡ all_read libs WireType.thirty_two_bit
              (packed_fixed libs (suc (length bs)) 4 (λ v. thirty_two_bit_data v t) bs)
    unfolding decode_packed_as
    decode_packed_as_fours FieldType.float bs h = refl
    decode_packed_as_fours FieldType.fixed32 bs h = refl
    decode_packed_as_fours FieldType.sfixed32 bs h = refl
    decode_packed_as_fours _ bs h = absurd h

    -- A packed field of a varint type returns the values whose varints were packed, where each of
    -- them makes a value (which only an enum that is not found prevents).
    pub decode_packed_field_varints :
        (value : ℕ → ProtobufFieldData) (ns : List ℕ)
        → IsPackedVarint f.type
        → ((n : ℕ) → varint_data d fds f n f.type ≡ ok (value n))
        → All IsU64 ns
        → decode_packed_field libs f d fds (flat_map encode_varint ns)
          ≡ ok (map (λ n. (value n, WireType.varint)) ns)
    unfolding decode_packed_field
    decode_packed_field_varints value ns t made h =
        decode_packed_as_varints f.type (flat_map encode_varint ns) t
        ∙ (rw
            (packed_varints_reads (suc (length (flat_map encode_varint ns)))
              (λ v. varint_data d fds f v f.type) value ns made h (omega arith))
            (unfold all_read in ap ok (map_values WireType.varint value ns)))

    -- A packed field of eight-byte values returns the values that were packed. Where fewer than eight
    -- bytes follow them, one at least, it is an error that names their number.
    pub decode_packed_field_eights :
        (ns tail : List ℕ)
        → IsEightBytes f.type
        → All (λ n. n < 2 ^ 64) ns
        → length tail < 8
        → decode_packed_field libs f d fds (flat_map (to_le_bytes 8) ns ++ tail)
          ≡ unless_left (map (λ n. (sixty_four_bit_data n f.type, WireType.sixty_four_bit)) ns) tail
    unfolding decode_packed_field
    decode_packed_field_eights ns tail t h short =
        decode_packed_as_eights f.type (flat_map (to_le_bytes 8) ns ++ tail) t
        ∙ (rw
            (packed_fixed_reads (suc (length (flat_map (to_le_bytes 8) ns ++ tail))) 8
              (λ v. sixty_four_bit_data v f.type) ns tail h short (omega arith))
            (unfold all_read in
              rw (map_values WireType.sixty_four_bit (λ v. sixty_four_bit_data v f.type) ns)))

    -- The same for values of four bytes.
    pub decode_packed_field_fours :
        (ns tail : List ℕ)
        → IsFourBytes f.type
        → All (λ n. n < 2 ^ 32) ns
        → length tail < 4
        → decode_packed_field libs f d fds (flat_map (to_le_bytes 4) ns ++ tail)
          ≡ unless_left (map (λ n. (thirty_two_bit_data n f.type, WireType.thirty_two_bit)) ns) tail
    unfolding decode_packed_field
    decode_packed_field_fours ns tail t h short =
        decode_packed_as_fours f.type (flat_map (to_le_bytes 4) ns ++ tail) t
        ∙ (rw
            (packed_fixed_reads (suc (length (flat_map (to_le_bytes 4) ns ++ tail))) 4
              (λ v. thirty_two_bit_data v f.type) ns tail h short (omega arith))
            (unfold all_read in
              rw (map_values WireType.thirty_two_bit (λ v. thirty_two_bit_data v f.type) ns)))
