-- ===== src/Builder/RoundTrip/Message.antt =====
-- encode_message of the builder and decode_message: the values of all fields come back.
use pact_protobuf_plugin.Base.{
  ℕ, suc, ◌%◌, ◌≡◌, refl, sym, ap, ◌∙◌, true, false, some, List, [], ◌∷◌, ◌++◌, map, flat_map,
  length, All, ◌==◌,
}
use mathlib.Core.Path.{subst}
use pact_protobuf_plugin.Base.Text.{Text}
use pact_protobuf_plugin.Base.Int.{ℤ, IsI32, IsU64}
use pact_protobuf_plugin.ProstTypes.{
  WireType, FieldType, EnumDescriptorProto, DescriptorProto, FileDescriptorSet, text_or_default,
}
use pact_protobuf_plugin.Outcome.{Outcome, ok}
use pact_protobuf_plugin.Field.{ProtobufFieldData, ProtobufField}
use pact_protobuf_plugin.FieldValue.{MessageFieldValue}
use pact_protobuf_plugin.Lookup.{should_be_packed_type, is_repeated_field}
use pact_protobuf_plugin.Lookup.Search.{All-Member, All-intro}
use pact_protobuf_plugin.Libraries.Sort.{Member-sorted_by}
use pact_protobuf_plugin.Decoder.{find_enum}
use pact_protobuf_plugin.Decoder.Message.{decode_message, known_field}
use pact_protobuf_plugin.DynamicMessage.Reads.{Reads, Reads-nil, Reads-append, decode_message-Reads}
use pact_protobuf_plugin.BTreeMap.{BTreeMap}
use pact_protobuf_plugin.Builder.{MessageFieldValueType, FieldValueInner, MessageBuilder}
use pact_protobuf_plugin.Builder.Wire.{Scalar, Value, Encoding, wire_type, payload}
use pact_protobuf_plugin.Builder.Packed.{packed_enum_value}
use pact_protobuf_plugin.Builder.Encode.{encode_single_field, encode_values, encode_repeated_field}
use pact_protobuf_plugin.Builder.Message.{
  first, encode_one, encode_with, encode_message, encode_fields, encode_map_field,
  encode_map_values, map_entries, entries_field, number_key,
}
use pact_protobuf_plugin.Builder.Reads.{type_of, InRange, data_of}
use pact_protobuf_plugin.Builder.PackedReads.{IsPacked}
use pact_protobuf_plugin.Builder.RoundTrip.{IsValue, AreValues, IsKnown, single-Reads}
use pact_protobuf_plugin.Builder.RoundTrip.Fields.{
  AreScalars, encode_packed_field-Reads, encode_packed_field_enum-Reads,
  encode_repeated_field-Reads,
}

module _ {Builder Struct : Type 0} (env : Encoding Struct) (encode : Builder → Outcome (List ℕ))
    (d : DescriptorProto) (fds : FileDescriptorSet) where
  open env use {libs}

  -- The values that the decoder finds for a field of the builder, in each of its forms: one value;
  -- repeated values; packed values, those of an enum by their numbers; and the entries of a map, which are messages that
  -- `encode_entry` encodes.
  pub data IsEncodable (encode_entry : MessageBuilder Builder Struct → Outcome (List ℕ))
      (b : MessageBuilder Builder Struct) (f : FieldValueInner Builder Struct) (n : ℕ)
      : List (ProtobufFieldData × WireType) → Type 0 where
    normal :
        (v : MessageFieldValue Builder Struct) (value : ProtobufFieldData × WireType)
        → f.field_type ≡ MessageFieldValueType.normal
        → f.values ≡ v ∷ []
        → IsValue env encode d fds f.descriptor n v.rtype value
        → IsEncodable encode_entry b f n (value ∷ [])
    repeated :
        (values : List (ProtobufFieldData × WireType))
        → f.field_type ≡ MessageFieldValueType.repeated
        → should_be_packed_type f.proto_type ≡ false
        → AreValues env encode d fds f.descriptor n f.values values
        → IsEncodable encode_entry b f n values
    packed :
        (s : Scalar) (v : MessageFieldValue Builder Struct)
        (vs : List (MessageFieldValue Builder Struct)) (x : Value s) (xs : List (Value s))
        → f.field_type ≡ MessageFieldValueType.repeated
        → f.values ≡ v ∷ vs
        → f.descriptor.type ≡ type_of s
        → IsPacked s
        → is_repeated_field f.descriptor ≡ true
        → should_be_packed_type f.proto_type ≡ true
        → AreScalars env s f.values (x ∷ xs)
        → All (InRange s) (x ∷ xs)
        → IsU64 (length (flat_map (payload libs s) (x ∷ xs)))
        → IsEncodable encode_entry b f n (map (λ y. (data_of s y, wire_type s)) (x ∷ xs))
    packed_enum :
        (v : MessageFieldValue Builder Struct) (vs : List (MessageFieldValue Builder Struct))
        (x : ℤ) (xs : List ℤ) (enum : EnumDescriptorProto)
        → f.field_type ≡ MessageFieldValueType.repeated
        → f.values ≡ v ∷ vs
        → f.descriptor.type ≡ FieldType.enum
        → is_repeated_field f.descriptor ≡ true
        → should_be_packed_type f.proto_type ≡ true
        → map (λ (w : MessageFieldValue Builder Struct). packed_enum_value env w.rtype) f.values
          ≡ x ∷ xs
        → All IsI32 (x ∷ xs)
        → find_enum d fds (text_or_default f.descriptor.type_name) ≡ some enum
        → IsU64 (length (flat_map (payload libs Scalar.int32) (x ∷ xs)))
        → IsEncodable encode_entry b f n
            (map (λ i. (ProtobufFieldData.enum i enum, WireType.varint)) (x ∷ xs))
    entries :
        (v : MessageFieldValue Builder Struct) (vs : List (MessageFieldValue Builder Struct))
        (entry_values : List (MessageFieldValue (MessageBuilder Builder Struct) Struct))
        (values : List (ProtobufFieldData × WireType))
        → f.field_type ≡ MessageFieldValueType.map
        → f.values ≡ v ∷ vs
        → (length (v ∷ vs) % 2 == 1) ≡ false
        → map_entries b f ≡ ok entry_values
        → should_be_packed_type f.proto_type ≡ false
        → AreValues env encode_entry d fds f.descriptor n entry_values values
        → IsEncodable encode_entry b f n values

  entries-IsKnown :
      (encode_entry : MessageBuilder Builder Struct → Outcome (List ℕ))
      (f : FieldValueInner Builder Struct) (n : ℕ)
      (vs : List (MessageFieldValue (MessageBuilder Builder Struct) Struct))
      → IsKnown env encode d fds f n
      → IsKnown env encode_entry d fds (entries_field f vs) n
  entries-IsKnown encode_entry f n vs known = record {
    tag = known.tag;
    number = known.number;
    found = known.found;
    same_type = known.same_type;
  }

  module _ (encode_entry : MessageBuilder Builder Struct → Outcome (List ℕ))
      (b : MessageBuilder Builder Struct) where
    encode_one-Reads :
        (f : FieldValueInner Builder Struct) (n : ℕ) (values : List (ProtobufFieldData × WireType))
        → IsKnown env encode d fds f n
        → IsEncodable encode_entry b f n values
        → (bytes : List ℕ) × (encode_one env encode encode_entry b f.field_type f ≡ ok bytes)
          × Reads libs d fds bytes (map (known_field f.descriptor n) values)
    unfolding encode_one encode_repeated_field encode_map_field encode_values encode_map_values
    encode_one-Reads f n values known (normal v value t e is) =
        let (bytes, written, reads) = single-Reads env encode d fds f n v value known is in
        (
          bytes,
          ap (λ u. encode_one env encode encode_entry b u f) t
              ∙ ap (λ vs. encode_single_field env encode f (first vs)) e
              ∙ written,
          reads,
        )
    encode_one-Reads f n values known (repeated found t unpacked are) =
        let (bytes, written, reads) =
          encode_repeated_field-Reads env encode d fds f n found known unpacked are in
        (bytes, ap (λ u. encode_one env encode encode_entry b u f) t ∙ written, reads)
    encode_one-Reads f n values known
          (packed s v vs x xs t e same is repeats p scalars range size) =
        let (bytes, written, reads) =
          encode_packed_field-Reads env encode d fds f n s x xs known same is repeats scalars range
            size in
        (
          bytes,
          ap (λ u. encode_one env encode encode_entry b u f) t
              ∙ ap (encode_values env encode f) e
              ∙ (rw (p) written),
          reads,
        )
    encode_one-Reads f n values known
          (packed_enum v vs x xs enum t e same repeats p numbers range found size) =
        let (bytes, written, reads) =
          encode_packed_field_enum-Reads env encode d fds f n x xs enum known same repeats numbers
            range found size in
        (
          bytes,
          ap (λ u. encode_one env encode encode_entry b u f) t
              ∙ ap (encode_values env encode f) e
              ∙ (rw (p) written),
          reads,
        )
    encode_one-Reads f n values known (entries v vs g found t e even made unpacked are) =
        let (bytes, written, reads) =
          encode_repeated_field-Reads env encode_entry d fds (entries_field f g) n found
            (entries-IsKnown encode_entry f n g known) unpacked are in
        (
          bytes,
          ap (λ u. encode_one env encode encode_entry b u f) t
              ∙ ap (encode_map_values env encode_entry b f) e
              ∙ (rw (even, made) written),
          reads,
        )

    -- What the decoder makes of an entry of the builder, from its number and its values.
    abbrev pub IsDecodable : Text × FieldValueInner Builder Struct → List ProtobufField → Type 0
    IsDecodable e fields =
        (n : ℕ) × (values : List (ProtobufFieldData × WireType)) × IsKnown env encode d fds e.1 n
        × IsEncodable encode_entry b e.1 n values
        × (fields ≡ map (known_field e.1.descriptor n) values)

    encode_fields-Reads :
        (decoded : Text × FieldValueInner Builder Struct → List ProtobufField)
        (es : BTreeMap (FieldValueInner Builder Struct))
        → All (λ e. IsDecodable e (decoded e)) es
        → (bytes : List ℕ) × (encode_fields env
              (λ f. encode_one env encode encode_entry b f.field_type f)
              es
            ≡ ok bytes)
          × Reads libs d fds bytes (flat_map decoded es)
    unfolding encode_fields
    encode_fields-Reads decoded [] h = ([], refl, Reads-nil libs d fds)
    encode_fields-Reads decoded (e ∷ es) h =
        let (n, values, known, is, same) = h.0 in
        let (bytes, written, reads) = encode_one-Reads e.1 n values known is in
        let (more, written', reads') = encode_fields-Reads decoded es h.1 in
        (
          bytes ++ more,
          rw (written, written'),
          Reads-append libs d fds bytes more (decoded e) (flat_map decoded es)
              (subst (Reads libs d fds bytes) (sym same) reads) reads',
        )

  decode_message-encode_with :
      (fuel : ℕ) (b : MessageBuilder Builder Struct)
      (decoded : Text × FieldValueInner Builder Struct → List ProtobufField)
      → All (λ e. IsDecodable (encode_with env fuel encode) b e (decoded e)) b.fields
      → (bytes : List ℕ) × (encode_with env (suc fuel) encode b ≡ ok bytes)
        × (decode_message libs bytes d fds
            ≡ ok (
                libs.sorted_by ProtobufField
                  (λ f. f.field_num)
                  (flat_map decoded (
                    libs.sorted_by
                      (Text × FieldValueInner Builder Struct)
                      (λ e. number_key e.1)
                      b.fields))))
  unfolding encode_with
  decode_message-encode_with fuel b decoded h =
      let entry_encoder = encode_with env fuel encode in
      let sorted =
        libs.sorted_by (Text × FieldValueInner Builder Struct) (λ e. number_key e.1) b.fields in
      let all : All (λ e. IsDecodable entry_encoder b e (decoded e)) sorted =
        All-intro _ sorted (λ e m.
          All-Member (λ e. IsDecodable entry_encoder b e (decoded e)) b.fields h e
            (Member-sorted_by libs (λ (e : Text × FieldValueInner Builder Struct). number_key e.1)
              b.fields e m)) in
      let (bytes, written, reads) = encode_fields-Reads entry_encoder b decoded sorted all in
      (bytes, written, decode_message-Reads libs d fds bytes (flat_map decoded sorted) reads)

  -- Where each field of the builder has a number that the descriptor knows, and values that are
  -- encodable (IsEncodable: a single value, repeated values, packed values of a number type or of an
  -- enum, or the entries of a map; a value is a number, bool, text or byte array in range, a message, a
  -- Struct, the bytes of a BytesValue, or an enum value in its enum or by its number, with the types
  -- of messages and enums found), encode_message succeeds, and decode_message on the bytes returns what
  -- the decoder makes of the fields, in the order of their numbers.
  pub decode_message-encode_message :
      (b : MessageBuilder Builder Struct)
      (decoded : Text × FieldValueInner Builder Struct → List ProtobufField)
      → All (λ e. IsDecodable (encode_with env 1 encode) b e (decoded e)) b.fields
      → (bytes : List ℕ) × (encode_message env encode b ≡ ok bytes)
        × (decode_message libs bytes d fds
            ≡ ok (
                libs.sorted_by ProtobufField
                  (λ f. f.field_num)
                  (flat_map decoded (
                    libs.sorted_by
                      (Text × FieldValueInner Builder Struct)
                      (λ e. number_key e.1)
                      b.fields))))
  unfolding encode_message
  decode_message-encode_message b decoded h = decode_message-encode_with 1 b decoded h
