-- ===== src/DynamicMessage/Signed.antt =====
-- Values of sint32 and sint64 fields, which are decoded with zigzag and written without it.
use pact_protobuf_plugin.Base.{
  ℕ, ◌/◌, ◌%◌, ◌^◌, ◌-◌, ◌<◌, ◌≡◌, ◌≢◌, refl, sym, ap, ◌∙◌, ◌⊎◌, inl, inr, List, [], ◌∷◌, ◌++◌,
  arith,
}
use pact_protobuf_plugin.Base.Int.{ℤ, pos, negsuc, IsI64, as_u64, as_u64-lt}
use pact_protobuf_plugin.Base.Bits.{bit_and-one}
use pact_protobuf_plugin.ProstTypes.{
  WireType, FieldType, FieldDescriptorProto, DescriptorProto, FileDescriptorSet,
}
use pact_protobuf_plugin.Outcome.{ok}
use pact_protobuf_plugin.Field.{ProtobufFieldData}
use pact_protobuf_plugin.Libraries.{Libraries}
use pact_protobuf_plugin.Decoder.{zigzag_64, varint_data}
use pact_protobuf_plugin.Decoder.Zigzag.{even_64, odd_64}
use pact_protobuf_plugin.Decoder.Message.{decode_known}
use pact_protobuf_plugin.DynamicMessage.{write_data, write_varint}

parity : (n : ℕ) → (n % 2 ≡ 0) ⊎ (n % 2 ≡ 1)
parity n = ground arith

pos-injective : {m n : ℕ} → pos m ≡ pos n → m ≡ n
pos-injective e = cc

negsuc-injective : {m n : ℕ} → negsuc m ≡ negsuc n → m ≡ n
negsuc-injective e = cc

pos-negsuc : {m n : ℕ} → pos m ≡ negsuc n → ⊥
pos-negsuc e = cc

zigzag_64_even : (v : ℕ) → v % 2 ≡ 0 → v < 2 ^ 64 → zigzag_64 v ≡ pos (v / 2)
zigzag_64_even v even h = even_64 v (v / 2) refl (bit_and-one v ∙ even) (omega arith)

zigzag_64_odd : (v : ℕ) → v % 2 ≡ 1 → v < 2 ^ 64 → zigzag_64 v ≡ negsuc (v / 2)
zigzag_64_odd v odd h = odd_64 v (v / 2) refl (bit_and-one v ∙ odd) (omega arith)

-- Zigzag decoding keeps no 64-bit pattern but that of zero.
zigzag_64-as_u64 : (i : ℤ) → IsI64 i → i ≢ pos 0 → zigzag_64 (as_u64 i) ≢ i
unfolding as_u64
zigzag_64-as_u64 (pos n) h nonzero e = elim (parity n) [
  | inl even ↦ nonzero (
      ap pos (
        omega (
          arith,
          h,
          pos-injective
              (sym (zigzag_64_even (n % 2 ^ 64) (omega (arith, h, even)) (omega arith)) ∙ e),
        )))
  | inr odd ↦ pos-negsuc (sym e ∙ zigzag_64_odd (n % 2 ^ 64) (omega (arith, h, odd)) (omega arith))
]
zigzag_64-as_u64 (negsuc n) h nonzero e = elim (parity n) [
  | inl even ↦ absurd (
      omega (
        arith,
        h,
        even,
        negsuc-injective (
            sym (zigzag_64_odd (2 ^ 64 - 1 - n % 2 ^ 64) (omega (arith, h, even)) (omega arith))
            ∙ e),
      ))
  | inr odd ↦
      pos-negsuc
        (sym (zigzag_64_even (2 ^ 64 - 1 - n % 2 ^ 64) (omega (arith, h, odd)) (omega arith)) ∙ e)
]

module _ (libs : Libraries) (d : DescriptorProto) (fds : FileDescriptorSet)
    (f : FieldDescriptorProto) (num : ℕ) where
  -- A value of a sint64 field other than zero is written without an error, and what is written is
  -- decoded as another value.
  pub sint64_not_read_back :
      (i : ℤ) (rest : List ℕ)
      → f.type ≡ FieldType.sint64
      → IsI64 i
      → i ≢ pos 0
      → (written : List ℕ) × (j : ℤ) × (write_data libs WireType.varint
            (ProtobufFieldData.integer_64 i)
          ≡ ok written)
        × (decode_known libs WireType.varint f d fds num (written ++ rest)
            ≡ ok ((ProtobufFieldData.integer_64 j, WireType.varint) ∷ [], rest))
        × (j ≢ i)
  unfolding write_data write_varint decode_known varint_data
  sint64_not_read_back i rest e h nonzero = (
    libs.encode_varint (as_u64 i),
    zigzag_64 (as_u64 i),
    refl,
    rw (libs.decode_varint-encode_varint (as_u64 i) rest (as_u64-lt i)) (rw e),
    zigzag_64-as_u64 i h nonzero,
  )
