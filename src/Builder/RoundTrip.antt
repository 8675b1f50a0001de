-- ===== src/Builder/RoundTrip.antt =====
-- What the builder writes for the values of one field, and what decode_message reads from it.
pub mod Fields
pub mod Message
use pact_protobuf_plugin.Base.{
  ℕ, suc, find, Bool-cases, ◌+◌, ◌<◌, ◌^◌, ◌%◌, ◌≡◌, refl, sym, ap, ◌∙◌, Bool, true, false, Option,
  none, some, List, [], ◌∷◌, ◌++◌, map, flat_map, length, arith, append-nil, All, is_empty,
}
use mathlib.Core.Path.{subst}
use pact_protobuf_plugin.Base.Text.{Text}
use pact_protobuf_plugin.Base.Int.{
  ℤ, pos, IsI32, IsU64, as_u32, as_i32, as_u64, as_u64-lt, as_i32-as_u64, int_eq→eq,
}
use pact_protobuf_plugin.ProstTypes.{
  WireType, FieldType, FieldDescriptorProto, EnumDescriptorProto, EnumValueDescriptorProto,
  text_or_default, DescriptorProto, FileDescriptorSet,
}
use pact_protobuf_plugin.Outcome.{Outcome, ok}
use pact_protobuf_plugin.Field.{ProtobufFieldData, ProtobufField, number_is}
use pact_protobuf_plugin.FieldValue.{RType, MessageFieldValue}
use pact_protobuf_plugin.Lookup.{should_be_packed_type}
use pact_protobuf_plugin.Libraries.{Libraries, IsTag}
use pact_protobuf_plugin.Libraries.Sort.{Member-sorted_by}
use pact_protobuf_plugin.Lookup.Search.{All-Member, All-intro, find_sound}
use pact_protobuf_plugin.Decoder.{
  find_field_descriptor, find_embedded, find_enum, decode_enum, varint_data,
}
use pact_protobuf_plugin.Decoder.Message.{
  decode_known, decode_message, decode_fields, known_field, delimited_data,
}
use pact_protobuf_plugin.Decoder.Message.Known.{known_delimited, known_varint}
use pact_protobuf_plugin.DynamicMessage.Reads.{Reads, Reads-nil, Reads-append, values-Reads}
use pact_protobuf_plugin.BTreeMap.{BTreeMap}
use pact_protobuf_plugin.Builder.{MessageFieldValueType, FieldValueInner, MessageBuilder}
use pact_protobuf_plugin.Builder.Wire.{Scalar, Value, Encoding, wire_type, payload}
use pact_protobuf_plugin.Builder.Packed.{scalar_value}
use pact_protobuf_plugin.Builder.Encode.{
  delimited, varint_field, enum_number_field, encode_enum, encode_enum_value, encode_scalar,
  encode_embedded, encode_typed, encode_tagged, encode_single_field, encode_each,
  encode_repeated_field,
}
use pact_protobuf_plugin.Builder.Message.{
  encode_one, encode_fields, encode_with, encode_message, number_key,
}
use pact_protobuf_plugin.Builder.Reads.{type_of, InRange, data_of, as_u32-tag, decode_known-payload}
use pact_protobuf_plugin.Builder.ValueReads.{
  encode_typed-scalar, embedded-Reads, enum-Reads, number_is→eq,
}

module _ {Builder Struct : Type 0} (env : Encoding Struct) (encode : Builder → Outcome (List ℕ))
    (d : DescriptorProto) (fds : FileDescriptorSet) where
  open env use {libs}

  -- The value is one of the field's type, and the decoder makes the data of it: a number, bool, text or
  -- byte array in range; an embedded message that is encoded, a google.protobuf.Struct that is, or bytes
  -- as a google.protobuf.BytesValue, where the descriptor of the message is found; or a value of an
  -- enum, by its number in the given enum or by a number alone, where the field's enum is found.
  pub data IsValue (f : FieldDescriptorProto) (num : ℕ)
      : RType Builder Struct → ProtobufFieldData × WireType → Type 0 where
    scalar :
        (s : Scalar) (r : RType Builder Struct) (v : Value s)
        → f.type ≡ type_of s
        → scalar_value env s r ≡ ok v
        → InRange s v
        → IsValue f num r (data_of s v, wire_type s)
    message :
        (m : Builder) (bytes : List ℕ) (descriptor : DescriptorProto)
        → f.type ≡ FieldType.message
        → encode m ≡ ok bytes
        → IsU64 (length bytes)
        → find_embedded d fds f num ≡ ok descriptor
        → IsValue f num
            (RType.message m)
            (ProtobufFieldData.message bytes descriptor, WireType.length_delimited)
    struct_value :
        (s : Struct) (bytes : List ℕ) (descriptor : DescriptorProto)
        → f.type ≡ FieldType.message
        → env.encode_struct s ≡ some bytes
        → IsU64 (length bytes)
        → find_embedded d fds f num ≡ ok descriptor
        → IsValue f num
            (RType.struct_value s)
            (ProtobufFieldData.message bytes descriptor, WireType.length_delimited)
    bytes_value :
        (b : List ℕ) (descriptor : DescriptorProto)
        → f.type ≡ FieldType.message
        → IsU64 (length (delimited env 1 b))
        → find_embedded d fds f num ≡ ok descriptor
        → IsValue f num
            (RType.bytes b)
            (ProtobufFieldData.message (delimited env 1 b) descriptor, WireType.length_delimited)
    enum_value :
        (n : ℤ) (e : EnumDescriptorProto) (value : EnumValueDescriptorProto) (type_name : Text)
        (found : EnumDescriptorProto)
        → f.type ≡ FieldType.enum
        → f.type_name ≡ some type_name
        → find (λ (v : EnumValueDescriptorProto). number_is n v.number) e.value ≡ some value
        → IsI32 n
        → find_enum d fds (text_or_default f.type_name) ≡ some found
        → IsValue f num (RType.enum n e) (ProtobufFieldData.enum n found, WireType.varint)
    enum_number :
        (n : ℤ) (found : EnumDescriptorProto)
        → f.type ≡ FieldType.enum
        → IsI32 n
        → find_enum d fds (text_or_default f.type_name) ≡ some found
        → IsValue f num (RType.integer_32 n) (ProtobufFieldData.enum n found, WireType.varint)

  -- Each value in turn is one of the field's type.
  pub data AreValues (f : FieldDescriptorProto) (num : ℕ)
      : List (MessageFieldValue Builder Struct) → List (ProtobufFieldData × WireType) → Type 0 where
    nil : AreValues f num [] []
    cons :
        (v : MessageFieldValue Builder Struct) (vs : List (MessageFieldValue Builder Struct))
        (value : ProtobufFieldData × WireType) (values : List (ProtobufFieldData × WireType))
        → IsValue f num v.rtype value
        → AreValues f num vs values
        → AreValues f num (v ∷ vs) (value ∷ values)

  -- The bytes of one value are its key and bytes that are decoded to its data.
  value-Reads :
      (f : FieldDescriptorProto) (n : ℕ) (r : RType Builder Struct)
      (value : ProtobufFieldData × WireType)
      → IsTag n
      → find_field_descriptor (as_i32 n) d ≡ ok f
      → IsValue f n r value
      → (bytes : List ℕ) × (encode_typed env encode f.type f (pos n) r ≡ ok bytes)
        × Reads libs d fds bytes (known_field f n value ∷ [])
  unfolding encode_scalar encode_embedded encode_enum encode_enum_value enum_number_field
  value-Reads f n r value tag found (scalar s q v e made range) =
      let typed : encode_typed env encode f.type f (pos n) q
          ≡ ok (libs.encode_key n (wire_type s) ++ payload libs s v) =
        ap (λ t. encode_typed env encode t f (pos n) q) e
        ∙ encode_typed-scalar env encode s f (pos n) q
        ∙ (rw (made, as_u32-tag n tag) (rw (env.encode_lem s n v))) in
      (
        libs.encode_key n (wire_type s) ++ payload libs s v,
        typed,
        values-Reads libs d fds f n (wire_type s) (payload libs s v)
            ((data_of s v, wire_type s) ∷ []) tag found
            (decode_known-payload libs d fds f n s v e range),
      )
  value-Reads f n r value tag found (message m bytes md e encoded range embedded) =
      embedded-Reads env encode d fds f n (RType.message m) bytes md tag found e range embedded
        (rw encoded)
  value-Reads f n r value tag found (struct_value s bytes md e encoded range embedded) =
      embedded-Reads env encode d fds f n (RType.struct_value s) bytes md tag found e range embedded
        (rw encoded)
  value-Reads f n r value tag found (bytes_value b md e range embedded) =
      embedded-Reads env encode d fds f n (RType.bytes b) (delimited env 1 b) md tag found e range
        embedded refl
  value-Reads f n r value tag found (enum_value i e v t enum is named has range defined) =
      let numbered = number_is→eq i v.number (find_sound _ e.value v has).1 in
      enum-Reads env encode d fds f n (RType.enum i e) i enum tag found is range defined
        (rw (named, has) (ap (λ o. ok (enum_number_field env (pos n) o)) numbered))
  value-Reads f n r value tag found (enum_number i enum is range defined) =
      enum-Reads env encode d fds f n (RType.integer_32 i) i enum tag found is range defined refl

  -- The field's number is a tag that the message's descriptor has, and the field's type is that of its
  -- descriptor.
  pub record IsKnown (f : FieldValueInner Builder Struct) (n : ℕ) : Type 0 where
    pub tag : IsTag n
    pub number : f.descriptor.number ≡ some (pos n)
    pub found : find_field_descriptor (as_i32 n) d ≡ ok f.descriptor
    pub same_type : f.proto_type ≡ f.descriptor.type

  pub single-Reads :
      (f : FieldValueInner Builder Struct) (n : ℕ) (v : MessageFieldValue Builder Struct)
      (value : ProtobufFieldData × WireType)
      → IsKnown f n
      → IsValue f.descriptor n v.rtype value
      → (bytes : List ℕ) × (encode_single_field env encode f (some v) ≡ ok bytes)
        × Reads libs d fds bytes (known_field f.descriptor n value ∷ [])
  unfolding encode_single_field encode_tagged
  single-Reads f n v value known is =
      let (bytes, e, reads) = value-Reads f.descriptor n v.rtype value known.tag known.found is in
      (
        bytes,
        ap (encode_tagged env encode f v.rtype) known.number
            ∙ ap (λ t. encode_typed env encode t f.descriptor (pos n) v.rtype) known.same_type
            ∙ e,
        reads,
      )

  pub each-Reads :
      (f : FieldValueInner Builder Struct) (n : ℕ) (vs : List (MessageFieldValue Builder Struct))
      (values : List (ProtobufFieldData × WireType))
      → IsKnown f n
      → AreValues f.descriptor n vs values
      → (bytes : List ℕ) × (encode_each env encode f vs ≡ ok bytes)
        × Reads libs d fds bytes (map (known_field f.descriptor n) values)
  unfolding encode_each
  each-Reads f n vs values known nil = ([], refl, Reads-nil libs d fds)
  each-Reads f n vs values known (cons v ws value others is are) =
      let (bytes, e, reads) = single-Reads f n v value known is in
      let (more, e', reads') = each-Reads f n ws others known are in
      (
        bytes ++ more,
        rw (e, e'),
        Reads-append libs d fds bytes more (known_field f.descriptor n value ∷ [])
            (map (known_field f.descriptor n) others) reads reads',
      )
