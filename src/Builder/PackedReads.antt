-- ===== src/Builder/PackedReads.antt =====
-- What decode_packed_field reads from the payloads that encode_packed_field writes.
use pact_protobuf_plugin.Base.{
  ℕ, ◌^◌, ◌%◌, ◌≡◌, refl, sym, ap, ◌∙◌, true, some, List, [], ◌∷◌, map, flat_map, length, arith,
  All, append-nil,
}
use mathlib.Core.Path.{subst}
use pact_protobuf_plugin.Base.Bytes.{to_le_bytes}
use pact_protobuf_plugin.Base.Int.{
  ℤ, IsI32, IsU64, IsU32, as_u32, as_u64, as_i32, as_i64, as_i64-as_u64, as_i32-as_u32,
  as_i32-as_u64, as_u64-lt, as_u32-lt,
}
use pact_protobuf_plugin.ProstTypes.{
  WireType, FieldType, FieldDescriptorProto, EnumDescriptorProto, DescriptorProto,
  FileDescriptorSet, text_or_default,
}
use pact_protobuf_plugin.Outcome.{ok}
use pact_protobuf_plugin.Field.{ProtobufFieldData}
use pact_protobuf_plugin.Libraries.{Libraries}
use pact_protobuf_plugin.Lookup.{should_be_packed_type, is_repeated_field}
use pact_protobuf_plugin.Decoder.{
  find_enum, decode_enum, varint_data, sixty_four_bit_data, thirty_two_bit_data, zigzag_32,
  zigzag_64,
}
use pact_protobuf_plugin.Decoder.Zigzag.{
  encode_zigzag, zigzag_32-encode_zigzag, zigzag_64-encode_zigzag,
}
use pact_protobuf_plugin.Decoder.Message.{delimited_data}
use pact_protobuf_plugin.Decoder.Packed.{decode_packed_field}
use pact_protobuf_plugin.Decoder.Packed.Values.{
  IsPackedVarint, IsEightBytes, IsFourBytes, decode_packed_field_varints,
  decode_packed_field_eights, decode_packed_field_fours,
}
use pact_protobuf_plugin.Builder.Wire.{Scalar, Value, wire_type, payload}
use pact_protobuf_plugin.Builder.Reads.{
  type_of, InRange, data_of, encode_zigzag-lt_32, encode_zigzag-lt_64,
}

-- The modules of the types that are packed.
abbrev pub IsPacked : Scalar → Type 0
IsPacked Scalar.bool = ⊥
IsPacked Scalar.string = ⊥
IsPacked Scalar.bytes = ⊥
IsPacked _ = Unit {0}

module _ {V : Type 0} where
  flat_map_as :
      (p : V → List ℕ) (q : ℕ → List ℕ) (number : V → ℕ) (vs : List V)
      → ((v : V) → p v ≡ q (number v))
      → flat_map p vs ≡ flat_map q (map number vs)
  flat_map_as p q number [] e = refl
  flat_map_as p q number (v ∷ vs) e = rw (e v, flat_map_as p q number vs e)

  All-numbers :
      (P : V → Type 0) (Q : ℕ → Type 0) (number : V → ℕ) (vs : List V)
      → ((v : V) → P v → Q (number v))
      → All P vs
      → All Q (map number vs)
  All-numbers P Q number [] f h = tt
  All-numbers P Q number (v ∷ vs) f h = (f v h.0, All-numbers P Q number vs f h.1)

  -- The data of the numbers is the data of the values.
  map_data :
      (P : V → Type 0) (w : WireType) (value : ℕ → ProtobufFieldData) (number : V → ℕ)
      (data' : V → ProtobufFieldData) (vs : List V)
      → ((v : V) → P v → value (number v) ≡ data' v)
      → All P vs
      → map {B = ProtobufFieldData × WireType} (λ n. (value n, w)) (map number vs)
        ≡ map (λ v. (data' v, w)) vs
  map_data P w value number data' [] f h = refl
  map_data P w value number data' (v ∷ vs) f h =
      rw (f v h.0, map_data P w value number data' vs f h.1)

module _ (libs : Libraries) (f : FieldDescriptorProto) (d : DescriptorProto)
    (fds : FileDescriptorSet) where
  -- All values are read.
  abbrev pub PackedReads : (s : Scalar) → List (Value s) → Type 0
  PackedReads s vs =
      decode_packed_field libs f d fds (flat_map (payload libs s) vs)
      ≡ ok (map (λ v. (data_of s v, wire_type s)) vs)

  module _ {V : Type 0} (P : V → Type 0) (p : V → List ℕ) (data' : V → ProtobufFieldData)
      (number : V → ℕ) (vs : List V) (h : All P vs) where
    varints :
        (value : ℕ → ProtobufFieldData)
        → IsPackedVarint f.type
        → ((v : V) → p v ≡ libs.encode_varint (number v))
        → ((n : ℕ) → varint_data d fds f n f.type ≡ ok (value n))
        → ((v : V) → P v → IsU64 (number v))
        → ((v : V) → P v → value (number v) ≡ data' v)
        → decode_packed_field libs f d fds (flat_map p vs)
          ≡ ok (map (λ v. (data' v, WireType.varint)) vs)
    varints value t e made range same = rw (flat_map_as p libs.encode_varint number vs e) (
        decode_packed_field_varints libs f d fds value (map number vs) t made
          (All-numbers P IsU64 number vs range h)
        ∙ ap ok (map_data P WireType.varint value number data' vs same h))

    eights :
        IsEightBytes f.type
        → ((v : V) → p v ≡ to_le_bytes 8 (number v))
        → ((v : V) → P v → IsU64 (number v))
        → ((v : V) → P v → sixty_four_bit_data (number v) f.type ≡ data' v)
        → decode_packed_field libs f d fds (flat_map p vs)
          ≡ ok (map (λ v. (data' v, WireType.sixty_four_bit)) vs)
    eights t e range same =
        ap (decode_packed_field libs f d fds)
          (flat_map_as p (to_le_bytes 8) number vs e ∙ sym (append-nil _))
        ∙ decode_packed_field_eights libs f d fds (map number vs) [] t
            (All-numbers P IsU64 number vs range h) (omega arith)
        ∙ ap ok (
            map_data P WireType.sixty_four_bit (λ n. sixty_four_bit_data n f.type) number data' vs
              same h)

    fours :
        IsFourBytes f.type
        → ((v : V) → p v ≡ to_le_bytes 4 (number v))
        → ((v : V) → P v → IsU32 (number v))
        → ((v : V) → P v → thirty_two_bit_data (number v) f.type ≡ data' v)
        → decode_packed_field libs f d fds (flat_map p vs)
          ≡ ok (map (λ v. (data' v, WireType.thirty_two_bit)) vs)
    fours t e range same =
        ap (decode_packed_field libs f d fds)
          (flat_map_as p (to_le_bytes 4) number vs e ∙ sym (append-nil _))
        ∙ decode_packed_field_fours libs f d fds (map number vs) [] t
            (All-numbers P IsU32 number vs range h) (omega arith)
        ∙ ap ok (
            map_data P WireType.thirty_two_bit (λ n. thirty_two_bit_data n f.type) number data' vs
              same h)

  made_at :
      (t : FieldType) (n : ℕ) (value : ProtobufFieldData)
      → f.type ≡ t
      → varint_data d fds f n t ≡ ok value
      → varint_data d fds f n f.type ≡ ok value
  made_at t n value e made = ap (varint_data d fds f n) e ∙ made

  -- The payloads of packed values in range are read back as the values' data.
  pub decode_packed_field-payload :
      (s : Scalar) (vs : List (Value s))
      → IsPacked s
      → f.type ≡ type_of s
      → All (InRange s) vs
      → PackedReads s vs
  unfolding varint_data sixty_four_bit_data thirty_two_bit_data
  decode_packed_field-payload Scalar.double vs is e h =
      eights IsU64 (to_le_bytes 8) ProtobufFieldData.double (λ n. n) vs h
        (subst IsEightBytes (sym e) tt) (λ v. refl) (λ v r. r) (λ v r. ap (sixty_four_bit_data v) e)
  decode_packed_field-payload Scalar.fixed64 vs is e h =
      eights IsU64 (to_le_bytes 8) ProtobufFieldData.uinteger_64 (λ n. n) vs h
        (subst IsEightBytes (sym e) tt) (λ v. refl) (λ v r. r) (λ v r. ap (sixty_four_bit_data v) e)
  decode_packed_field-payload Scalar.sfixed64 vs is e h =
      eights (InRange Scalar.sfixed64) (payload libs Scalar.sfixed64) ProtobufFieldData.integer_64
        as_u64 vs h (subst IsEightBytes (sym e) tt) (λ v. refl) (λ v r. as_u64-lt v)
        (λ v r.
          ap (sixty_four_bit_data (as_u64 v)) e
          ∙ ap ProtobufFieldData.integer_64 (as_i64-as_u64 v r))
  decode_packed_field-payload Scalar.float vs is e h =
      fours IsU32 (to_le_bytes 4) ProtobufFieldData.float (λ n. n) vs h
        (subst IsFourBytes (sym e) tt) (λ v. refl) (λ v r. r) (λ v r. ap (thirty_two_bit_data v) e)
  decode_packed_field-payload Scalar.fixed32 vs is e h =
      fours IsU32 (to_le_bytes 4) ProtobufFieldData.uinteger_32 (λ n. n) vs h
        (subst IsFourBytes (sym e) tt) (λ v. refl) (λ v r. r) (λ v r. ap (thirty_two_bit_data v) e)
  decode_packed_field-payload Scalar.sfixed32 vs is e h =
      fours (InRange Scalar.sfixed32) (payload libs Scalar.sfixed32) ProtobufFieldData.integer_32
        as_u32 vs h (subst IsFourBytes (sym e) tt) (λ v. refl) (λ v r. as_u32-lt v)
        (λ v r.
          ap (thirty_two_bit_data (as_u32 v)) e
          ∙ ap ProtobufFieldData.integer_32 (as_i32-as_u32 v r))
  decode_packed_field-payload Scalar.int64 vs is e h =
      varints (InRange Scalar.int64) (payload libs Scalar.int64) ProtobufFieldData.integer_64 as_u64
        vs h (λ n. ProtobufFieldData.integer_64 (as_i64 n)) (subst IsPackedVarint (sym e) tt)
        (λ v. refl) (λ n. made_at FieldType.int64 n _ e refl) (λ v r. as_u64-lt v)
        (λ v r. ap ProtobufFieldData.integer_64 (as_i64-as_u64 v r))
  decode_packed_field-payload Scalar.uint64 vs is e h =
      varints IsU64 (payload libs Scalar.uint64) ProtobufFieldData.uinteger_64 (λ n. n) vs h
        ProtobufFieldData.uinteger_64 (subst IsPackedVarint (sym e) tt) (λ v. refl)
        (λ n. made_at FieldType.uint64 n _ e refl) (λ v r. r) (λ v r. refl)
  decode_packed_field-payload Scalar.int32 vs is e h =
      varints (InRange Scalar.int32) (payload libs Scalar.int32) ProtobufFieldData.integer_32 as_u64
        vs h (λ n. ProtobufFieldData.integer_32 (as_i32 n)) (subst IsPackedVarint (sym e) tt)
        (λ v. refl) (λ n. made_at FieldType.int32 n _ e refl) (λ v r. as_u64-lt v)
        (λ v r. ap ProtobufFieldData.integer_32 (as_i32-as_u64 v r))
  decode_packed_field-payload Scalar.uint32 vs is e h =
      varints IsU32 (payload libs Scalar.uint32) ProtobufFieldData.uinteger_32 (λ n. n) vs h
        (λ n. ProtobufFieldData.uinteger_32 (n % 2 ^ 32)) (subst IsPackedVarint (sym e) tt)
        (λ v. refl) (λ n. made_at FieldType.uint32 n _ e refl) (λ v r. omega arith)
        (λ v r. let small : v % 2 ^ 32 ≡ v = omega arith in ap ProtobufFieldData.uinteger_32 small)
  decode_packed_field-payload Scalar.sint32 vs is e h =
      varints (InRange Scalar.sint32) (payload libs Scalar.sint32) ProtobufFieldData.integer_32
        encode_zigzag vs h (λ n. ProtobufFieldData.integer_32 (zigzag_32 (n % 2 ^ 32)))
        (subst IsPackedVarint (sym e) tt) (λ v. refl) (λ n. made_at FieldType.sint32 n _ e refl)
        (λ v r. let lt = encode_zigzag-lt_32 v r in omega arith)
        (λ v r.
          let lt = encode_zigzag-lt_32 v r in
          let small : encode_zigzag v % 2 ^ 32 ≡ encode_zigzag v = omega arith in
          ap ProtobufFieldData.integer_32 (ap zigzag_32 small ∙ zigzag_32-encode_zigzag v r))
  decode_packed_field-payload Scalar.sint64 vs is e h =
      varints (InRange Scalar.sint64) (payload libs Scalar.sint64) ProtobufFieldData.integer_64
        encode_zigzag vs h (λ n. ProtobufFieldData.integer_64 (zigzag_64 n))
        (subst IsPackedVarint (sym e) tt) (λ v. refl) (λ n. made_at FieldType.sint64 n _ e refl)
        (λ v r. encode_zigzag-lt_64 v r)
        (λ v r. ap ProtobufFieldData.integer_64 (zigzag_64-encode_zigzag v r))
  decode_packed_field-payload Scalar.bool vs is e h = absurd is
  decode_packed_field-payload Scalar.string vs is e h = absurd is
  decode_packed_field-payload Scalar.bytes vs is e h = absurd is

  -- The payloads of the numbers of an enum that is found are read back as its values.
  pub decode_packed_field_enum :
      (e : EnumDescriptorProto) (ns : List ℤ)
      → f.type ≡ FieldType.enum
      → find_enum d fds (text_or_default f.type_name) ≡ some e
      → All IsI32 ns
      → decode_packed_field libs f d fds (flat_map (payload libs Scalar.int32) ns)
        ≡ ok (map (λ n. (ProtobufFieldData.enum n e, WireType.varint)) ns)
  unfolding varint_data decode_enum
  decode_packed_field_enum e ns t found h =
      varints IsI32 (payload libs Scalar.int32) (λ n. ProtobufFieldData.enum n e) as_u64 ns h
        (λ n. ProtobufFieldData.enum (as_i32 n) e) (subst IsPackedVarint (sym t) tt) (λ v. refl)
        (λ n. made_at FieldType.enum n _ t (rw found)) (λ v r. as_u64-lt v)
        (λ v r. ap (λ i. ProtobufFieldData.enum i e) (as_i32-as_u64 v r))

  -- A length-delimited field of a packed type is read as a packed field, where it is repeated.
  pub delimited_data-packed :
      (s : Scalar) (num : ℕ) (bytes : List ℕ)
      → IsPacked s
      → is_repeated_field f ≡ true
      → delimited_data libs (type_of s) f d fds num (length bytes) bytes
        ≡ decode_packed_field libs f d fds bytes
  unfolding delimited_data should_be_packed_type
  delimited_data-packed Scalar.double num bytes is e = rw (e)
  delimited_data-packed Scalar.float num bytes is e = rw (e)
  delimited_data-packed Scalar.int64 num bytes is e = rw (e)
  delimited_data-packed Scalar.uint64 num bytes is e = rw (e)
  delimited_data-packed Scalar.int32 num bytes is e = rw (e)
  delimited_data-packed Scalar.uint32 num bytes is e = rw (e)
  delimited_data-packed Scalar.fixed64 num bytes is e = rw (e)
  delimited_data-packed Scalar.fixed32 num bytes is e = rw (e)
  delimited_data-packed Scalar.sfixed32 num bytes is e = rw (e)
  delimited_data-packed Scalar.sfixed64 num bytes is e = rw (e)
  delimited_data-packed Scalar.sint32 num bytes is e = rw (e)
  delimited_data-packed Scalar.sint64 num bytes is e = rw (e)
  delimited_data-packed Scalar.bool num bytes is e = absurd is
  delimited_data-packed Scalar.string num bytes is e = absurd is
  delimited_data-packed Scalar.bytes num bytes is e = absurd is

  pub delimited_data_enum :
      (num : ℕ) (bytes : List ℕ)
      → is_repeated_field f ≡ true
      → delimited_data libs FieldType.enum f d fds num (length bytes) bytes
        ≡ decode_packed_field libs f d fds bytes
  unfolding delimited_data should_be_packed_type
  delimited_data_enum num bytes e = rw (e)
