-- ===== src/Decoder/Packed/Ends.antt =====
-- decode_packed_field comes to an end on every buffer.
use pact_protobuf_plugin.Base.{
  ℕ, zero, suc, ◌-◌, ◌<◌, inl, inr, List, [], ◌∷◌, length, leb, leb→le, Bool-cases, arith,
}
use pact_protobuf_plugin.Base.Int.{as_i32}
use pact_protobuf_plugin.ProstTypes.{
  EnumDescriptorProto, WireType, FieldType, FieldDescriptorProto, DescriptorProto,
  FileDescriptorSet,
}
use pact_protobuf_plugin.Outcome.{Outcome, ok, or_panic, Ends, >>=-Ends, ok_or-Ends}
use pact_protobuf_plugin.Field.{ProtobufFieldData}
use pact_protobuf_plugin.Libraries.{Libraries}
use pact_protobuf_plugin.Decoder.{varint_data, decode_enum}
use pact_protobuf_plugin.Decoder.Within.{decode_varint-Within, get_le-Within, >>=-Ends-Within}
use pact_protobuf_plugin.Decoder.Packed.{
  packed_fixed, packed_varints, all_read, decode_packed_as, decode_packed_field,
}

pub varint_data-Ends :
    (d : DescriptorProto) (fds : FileDescriptorSet) (f : FieldDescriptorProto) (v : ℕ)
    (t : FieldType)
    → Ends (varint_data d fds f v t)
unfolding varint_data decode_enum
varint_data-Ends d fds f v FieldType.int64 = λ q. cc
varint_data-Ends d fds f v FieldType.enum =
    >>=-Ends _ _ (ok_or-Ends _ _) (λ (a : EnumDescriptorProto) e. made a)
  where
    made : (a : EnumDescriptorProto) → Ends (ok (ProtobufFieldData.enum (as_i32 v) a))
    made a q = cc
varint_data-Ends d fds f v _ = λ q. cc

module _ (libs : Libraries) where
  packed_fixed-Ends :
      (fuel size : ℕ) (make : ℕ → ProtobufFieldData) (bs : List ℕ)
      → 0 < size
      → length bs < fuel
      → Ends (packed_fixed libs fuel size make bs)
  unfolding packed_fixed
  packed_fixed-Ends zero size make bs h lt = absurd (omega arith)
  packed_fixed-Ends (suc fuel) size make bs h lt = elim (Bool-cases (leb size (length bs))) [
    | inl enough ↦
        rw (enough, packed_fixed)
          (>>=-Ends-Within (length bs - size) (or_panic (libs.get_le size bs)) _
            (get_le-Within libs size bs)
            (λ value rest le.
              >>=-Ends (packed_fixed libs fuel size make rest) _
                (packed_fixed-Ends fuel size make rest h
                  (omega (arith, leb→le size (length bs) enough)))
                (λ a e q. cc)))
    | inr short ↦ rw (short, packed_fixed) (λ q. cc)
  ]

  packed_varints-Ends :
      (fuel : ℕ) (make : ℕ → Outcome ProtobufFieldData) (bs : List ℕ)
      → ((n : ℕ) → Ends (make n))
      → length bs < fuel
      → Ends (packed_varints libs fuel make bs)
  unfolding packed_varints
  packed_varints-Ends zero make bs h lt = absurd (omega arith)
  packed_varints-Ends (suc fuel) make [] h lt = λ q. cc
  packed_varints-Ends (suc fuel) make (b ∷ bs) h lt =
      >>=-Ends-Within (length (b ∷ bs) - 1) _ _ (decode_varint-Within libs (b ∷ bs) _)
        (λ varint rest le. >>=-Ends (make varint) _ (h varint) (λ value made.
          >>=-Ends (packed_varints libs fuel make rest) _
            (packed_varints-Ends fuel make rest h (omega arith)) (λ a e q. cc)))

  all_read-Ends :
      (w : WireType) (m : Outcome (List ProtobufFieldData × List ℕ))
      → Ends m
      → Ends (all_read libs w m)
  unfolding all_read
  all_read-Ends w m h = >>=-Ends m _ h (λ (values, left) e. ends values left)
    where
      ends :
          (values : List ProtobufFieldData) (left : List ℕ)
          → Ends (all_read libs w (ok (values, left)))
      ends values [] q = cc
      ends values (b ∷ left) q = cc

  module _ (f : FieldDescriptorProto) (d : DescriptorProto) (fds : FileDescriptorSet)
      (bs : List ℕ) where
    varints-Ends :
        (t : FieldType)
        → Ends (
            all_read libs WireType.varint
              (packed_varints libs (suc (length bs)) (λ v. varint_data d fds f v t) bs))
    varints-Ends t =
        all_read-Ends _ _
          (packed_varints-Ends _ _ bs (λ n. varint_data-Ends d fds f n t) (omega arith))

    fixed-Ends :
        (w : WireType) (size : ℕ) (make : ℕ → ProtobufFieldData)
        → 0 < size
        → Ends (all_read libs w (packed_fixed libs (suc (length bs)) size make bs))
    fixed-Ends w size make h = all_read-Ends w _ (packed_fixed-Ends _ size make bs h (omega arith))

    decode_packed_as-Ends : (t : FieldType) → Ends (decode_packed_as libs t f d fds bs)
    unfolding decode_packed_as
    decode_packed_as-Ends FieldType.double = fixed-Ends _ 8 _ (omega arith)
    decode_packed_as-Ends FieldType.fixed64 = fixed-Ends _ 8 _ (omega arith)
    decode_packed_as-Ends FieldType.sfixed64 = fixed-Ends _ 8 _ (omega arith)
    decode_packed_as-Ends FieldType.float = fixed-Ends _ 4 _ (omega arith)
    decode_packed_as-Ends FieldType.fixed32 = fixed-Ends _ 4 _ (omega arith)
    decode_packed_as-Ends FieldType.sfixed32 = fixed-Ends _ 4 _ (omega arith)
    decode_packed_as-Ends FieldType.int64 = varints-Ends FieldType.int64
    decode_packed_as-Ends FieldType.uint64 = varints-Ends FieldType.uint64
    decode_packed_as-Ends FieldType.int32 = varints-Ends FieldType.int32
    decode_packed_as-Ends FieldType.uint32 = varints-Ends FieldType.uint32
    decode_packed_as-Ends FieldType.enum = varints-Ends FieldType.enum
    decode_packed_as-Ends FieldType.sint32 = varints-Ends FieldType.sint32
    decode_packed_as-Ends FieldType.sint64 = varints-Ends FieldType.sint64
    decode_packed_as-Ends _ = λ q. cc

    -- The loops of `decode_packed_field` come to an end on every buffer.
    pub decode_packed_field-Ends : Ends (decode_packed_field libs f d fds bs)
    unfolding decode_packed_field
    decode_packed_field-Ends = decode_packed_as-Ends f.type
