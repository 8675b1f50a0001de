-- ===== src/Builder/RoundTrip/Fields.antt =====
-- What the builder writes for a field, in one of its four forms: a single value, repeated values, packed
-- values, and the entries of a map.
use pact_protobuf_plugin.Base.{
  ℕ, ◌≡◌, refl, ap, ◌∙◌, true, false, some, List, [], ◌∷◌, ◌++◌, map, flat_map, length, All,
}
use pact_protobuf_plugin.Base.Int.{ℤ, pos, IsI32, IsU64, as_u32}
use pact_protobuf_plugin.ProstTypes.{
  WireType, FieldType, EnumDescriptorProto, DescriptorProto, FileDescriptorSet, text_or_default,
}
use pact_protobuf_plugin.Outcome.{Outcome, ok}
use pact_protobuf_plugin.Field.{ProtobufFieldData}
use pact_protobuf_plugin.FieldValue.{MessageFieldValue}
use pact_protobuf_plugin.Lookup.{should_be_packed_type, is_repeated_field}
use pact_protobuf_plugin.Decoder.{find_enum}
use pact_protobuf_plugin.Decoder.Message.{known_field}
use pact_protobuf_plugin.Decoder.Message.Known.{known_delimited}
use pact_protobuf_plugin.DynamicMessage.Reads.{Reads, values-Reads}
use pact_protobuf_plugin.Builder.{FieldValueInner}
use pact_protobuf_plugin.Builder.Wire.{Scalar, Value, Encoding, wire_type, payload}
use pact_protobuf_plugin.Builder.Packed.{
  scalar_value, packed_value, packed_enum_value, encode_packed_as, encode_packed_field,
  encode_packed_tagged,
}
use pact_protobuf_plugin.Builder.Encode.{encode_values, encode_each, encode_repeated_field}
use pact_protobuf_plugin.Builder.Reads.{type_of, InRange, data_of, as_u32-tag}
use pact_protobuf_plugin.Builder.PackedReads.{
  IsPacked, decode_packed_field-payload, delimited_data-packed, decode_packed_field_enum,
  delimited_data_enum,
}
use pact_protobuf_plugin.Builder.RoundTrip.{AreValues, IsKnown, each-Reads}

module _ {Builder Struct : Type 0} (env : Encoding Struct) where
  -- The values convert to the given ones of the type.
  abbrev pub AreScalars :
      (s : Scalar) → List (MessageFieldValue Builder Struct) → List (Value s) → Type 0
  AreScalars s [] [] = Unit {0}
  AreScalars s (v ∷ vs) (x ∷ xs) = (scalar_value env s v.rtype ≡ ok x) × AreScalars s vs xs
  AreScalars s _ _ = ⊥

  map-packed_value :
      (s : Scalar) (vs : List (MessageFieldValue Builder Struct)) (xs : List (Value s))
      → AreScalars s vs xs
      → map (packed_value env s) vs ≡ xs
  unfolding packed_value
  map-packed_value s [] [] h = refl
  map-packed_value s (v ∷ vs) (x ∷ xs) h = rw (h.0, map-packed_value s vs xs h.1)
  map-packed_value s [] (x ∷ xs) h = absurd h
  map-packed_value s (v ∷ vs) [] h = absurd h

  encode_packed_as-type_of :
      (s : Scalar) (tag : ℤ) (vs : List (MessageFieldValue Builder Struct))
      → IsPacked s
      → encode_packed_as env (type_of s) tag vs
        ≡ ok (env.encode_packed s (as_u32 tag) (map (packed_value env s) vs))
  unfolding encode_packed_as
  encode_packed_as-type_of Scalar.double tag vs h = refl
  encode_packed_as-type_of Scalar.float tag vs h = refl
  encode_packed_as-type_of Scalar.int64 tag vs h = refl
  encode_packed_as-type_of Scalar.uint64 tag vs h = refl
  encode_packed_as-type_of Scalar.int32 tag vs h = refl
  encode_packed_as-type_of Scalar.uint32 tag vs h = refl
  encode_packed_as-type_of Scalar.fixed64 tag vs h = refl
  encode_packed_as-type_of Scalar.fixed32 tag vs h = refl
  encode_packed_as-type_of Scalar.sfixed32 tag vs h = refl
  encode_packed_as-type_of Scalar.sfixed64 tag vs h = refl
  encode_packed_as-type_of Scalar.sint32 tag vs h = refl
  encode_packed_as-type_of Scalar.sint64 tag vs h = refl
  encode_packed_as-type_of Scalar.bool tag vs h = absurd h
  encode_packed_as-type_of Scalar.string tag vs h = absurd h
  encode_packed_as-type_of Scalar.bytes tag vs h = absurd h

module _ {Builder Struct : Type 0} (env : Encoding Struct) (encode : Builder → Outcome (List ℕ))
    (d : DescriptorProto) (fds : FileDescriptorSet) where
  open env use {libs}

  -- A packed field of one value at least is read back as its values.
  pub encode_packed_field-Reads :
      (f : FieldValueInner Builder Struct) (n : ℕ) (s : Scalar) (x : Value s) (xs : List (Value s))
      → IsKnown env encode d fds f n
      → f.descriptor.type ≡ type_of s
      → IsPacked s
      → is_repeated_field f.descriptor ≡ true
      → AreScalars env s f.values (x ∷ xs)
      → All (InRange s) (x ∷ xs)
      → IsU64 (length (flat_map (payload libs s) (x ∷ xs)))
      → (bytes : List ℕ) × (encode_packed_field env f ≡ ok bytes)
        × Reads libs d fds bytes
            (map (known_field f.descriptor n) (map (λ v. (data_of s v, wire_type s)) (x ∷ xs)))
  unfolding encode_packed_field encode_packed_tagged
  encode_packed_field-Reads f n s x xs known t is repeats scalars range size =
      let body : List ℕ = flat_map (payload libs s) (x ∷ xs) in
      let written : encode_packed_field env f
          ≡ ok (
              libs.encode_key n WireType.length_delimited
              ++ (libs.encode_varint (length body) ++ body)) =
        ap (encode_packed_tagged env f) known.number
        ∙ ap (λ u. encode_packed_as env u (pos n) f.values) (known.same_type ∙ t)
        ∙ encode_packed_as-type_of env s (pos n) f.values is
        ∙ (rw (as_u32-tag n known.tag, map-packed_value env s f.values (x ∷ xs) scalars)
            (ap ok (env.encode_packed_cons s n x xs))) in
      (
        _,
        written,
        values-Reads libs d fds f.descriptor n WireType.length_delimited
            (libs.encode_varint (length body) ++ body)
            (map (λ v. (data_of s v, wire_type s)) (x ∷ xs)) known.tag known.found
            (known_delimited libs d fds f.descriptor n body
              (map (λ v. (data_of s v, wire_type s)) (x ∷ xs)) (type_of s) t size
              (delimited_data-packed libs f.descriptor d fds s n body is repeats
                ∙ decode_packed_field-payload libs f.descriptor d fds s (x ∷ xs) is t range)),
      )

  -- A packed field of the numbers of an enum is read back as the values of the enum.
  pub encode_packed_field_enum-Reads :
      (f : FieldValueInner Builder Struct) (n : ℕ) (x : ℤ) (xs : List ℤ)
      (enum : EnumDescriptorProto)
      → IsKnown env encode d fds f n
      → f.descriptor.type ≡ FieldType.enum
      → is_repeated_field f.descriptor ≡ true
      → map (λ (v : MessageFieldValue Builder Struct). packed_enum_value env v.rtype) f.values
        ≡ x ∷ xs
      → All IsI32 (x ∷ xs)
      → find_enum d fds (text_or_default f.descriptor.type_name) ≡ some enum
      → IsU64 (length (flat_map (payload libs Scalar.int32) (x ∷ xs)))
      → (bytes : List ℕ) × (encode_packed_field env f ≡ ok bytes)
        × Reads libs d fds bytes (
            map
              (known_field f.descriptor n)
              (map (λ i. (ProtobufFieldData.enum i enum, WireType.varint)) (x ∷ xs)))
  unfolding encode_packed_field encode_packed_tagged encode_packed_as
  encode_packed_field_enum-Reads f n x xs enum known t repeats numbers range found size =
      let body : List ℕ = flat_map (payload libs Scalar.int32) (x ∷ xs) in
      let written : encode_packed_field env f
          ≡ ok (
              libs.encode_key n WireType.length_delimited
              ++ (libs.encode_varint (length body) ++ body)) =
        ap (encode_packed_tagged env f) known.number
        ∙ ap (λ u. encode_packed_as env u (pos n) f.values) (known.same_type ∙ t)
        ∙ (rw (as_u32-tag n known.tag, numbers)
            (ap ok (env.encode_packed_cons Scalar.int32 n x xs))) in
      (
        _,
        written,
        values-Reads libs d fds f.descriptor n WireType.length_delimited
            (libs.encode_varint (length body) ++ body)
            (map (λ i. (ProtobufFieldData.enum i enum, WireType.varint)) (x ∷ xs)) known.tag
            known.found
            (known_delimited libs d fds f.descriptor n body
              (map (λ i. (ProtobufFieldData.enum i enum, WireType.varint)) (x ∷ xs)) FieldType.enum
              t size
              (delimited_data_enum libs f.descriptor d fds n body repeats
                ∙ decode_packed_field_enum libs f.descriptor d fds enum (x ∷ xs) t found range)),
      )

  values-Reads-unpacked :
      (f : FieldValueInner Builder Struct) (n : ℕ) (vs : List (MessageFieldValue Builder Struct))
      (values : List (ProtobufFieldData × WireType))
      → IsKnown env encode d fds f n
      → should_be_packed_type f.proto_type ≡ false
      → AreValues env encode d fds f.descriptor n vs values
      → (bytes : List ℕ) × (encode_values env encode f vs ≡ ok bytes)
        × Reads libs d fds bytes (map (known_field f.descriptor n) values)
  unfolding encode_values
  values-Reads-unpacked f n [] values known unpacked are =
      let (bytes, e, reads) = each-Reads env encode d fds f n [] values known are in
      (bytes, unfold encode_each in e, reads)
  values-Reads-unpacked f n (v ∷ vs) values known unpacked are =
      let (bytes, e, reads) = each-Reads env encode d fds f n (v ∷ vs) values known are in
      (bytes, rw (unpacked) e, reads)

  -- A repeated field whose type is not packed: one value after the other.
  pub encode_repeated_field-Reads :
      (f : FieldValueInner Builder Struct) (n : ℕ) (values : List (ProtobufFieldData × WireType))
      → IsKnown env encode d fds f n
      → should_be_packed_type f.proto_type ≡ false
      → AreValues env encode d fds f.descriptor n f.values values
      → (bytes : List ℕ) × (encode_repeated_field env encode f ≡ ok bytes)
        × Reads libs d fds bytes (map (known_field f.descriptor n) values)
  unfolding encode_repeated_field
  encode_repeated_field-Reads f n values known unpacked are =
      values-Reads-unpacked f n f.values values known unpacked are
