-- ===== src/Builder/ValueReads.antt =====
-- What decode_message reads from the bytes of one value of a message or of an enum.
use pact_protobuf_plugin.Base.{
  ℕ, ◌≡◌, refl, ap, ◌∙◌, true, Option, none, some, List, [], ◌∷◌, ◌++◌, length,
}
use pact_protobuf_plugin.Base.Int.{
  ℤ, pos, IsI32, IsU64, as_u32, as_i32, as_u64, as_u64-lt, as_i32-as_u64, int_eq→eq,
}
use pact_protobuf_plugin.ProstTypes.{
  WireType, FieldType, FieldDescriptorProto, EnumDescriptorProto, text_or_default, DescriptorProto,
  FileDescriptorSet,
}
use pact_protobuf_plugin.Outcome.{Outcome, ok}
use pact_protobuf_plugin.Field.{ProtobufFieldData, number_is}
use pact_protobuf_plugin.FieldValue.{RType}
use pact_protobuf_plugin.Libraries.{IsTag}
use pact_protobuf_plugin.Decoder.{
  find_field_descriptor, find_embedded, find_enum, decode_enum, varint_data,
}
use pact_protobuf_plugin.Decoder.Message.{known_field, delimited_data}
use pact_protobuf_plugin.Decoder.Message.Known.{known_delimited, known_varint}
use pact_protobuf_plugin.DynamicMessage.Reads.{Reads, values-Reads}
use pact_protobuf_plugin.Builder.Wire.{Scalar, Encoding}
use pact_protobuf_plugin.Builder.Encode.{
  delimited, varint_field, encode_enum, encode_scalar, encode_embedded, encode_typed,
}
use pact_protobuf_plugin.Builder.Reads.{type_of, as_u32-tag}

pub number_is→eq : (n : ℤ) (o : Option ℤ) → number_is n o ≡ true → o ≡ some n
number_is→eq n none h = cc
number_is→eq n (some m) h = ap some (int_eq→eq m n h)

module _ {Builder Struct : Type 0} (env : Encoding Struct)
    (encode : Builder → Outcome (List ℕ)) where
  pub encode_typed-scalar :
      (s : Scalar) (f : FieldDescriptorProto) (tag : ℤ) (r : RType Builder Struct)
      → encode_typed env encode (type_of s) f tag r ≡ encode_scalar env s tag r
  unfolding encode_typed
  encode_typed-scalar Scalar.double f tag r = refl
  encode_typed-scalar Scalar.float f tag r = refl
  encode_typed-scalar Scalar.int64 f tag r = refl
  encode_typed-scalar Scalar.uint64 f tag r = refl
  encode_typed-scalar Scalar.int32 f tag r = refl
  encode_typed-scalar Scalar.uint32 f tag r = refl
  encode_typed-scalar Scalar.fixed64 f tag r = refl
  encode_typed-scalar Scalar.fixed32 f tag r = refl
  encode_typed-scalar Scalar.sfixed32 f tag r = refl
  encode_typed-scalar Scalar.sfixed64 f tag r = refl
  encode_typed-scalar Scalar.sint32 f tag r = refl
  encode_typed-scalar Scalar.sint64 f tag r = refl
  encode_typed-scalar Scalar.bool f tag r = refl
  encode_typed-scalar Scalar.string f tag r = refl
  encode_typed-scalar Scalar.bytes f tag r = refl

module _ {Builder Struct : Type 0} (env : Encoding Struct) (encode : Builder → Outcome (List ℕ))
    (d : DescriptorProto) (fds : FileDescriptorSet) where
  open env use {libs}

  -- A value of a message field whose bytes are written behind their length.
  pub embedded-Reads :
      (f : FieldDescriptorProto) (n : ℕ) (r : RType Builder Struct) (bytes : List ℕ)
      (md : DescriptorProto)
      → IsTag n
      → find_field_descriptor (as_i32 n) d ≡ ok f
      → f.type ≡ FieldType.message
      → IsU64 (length bytes)
      → find_embedded d fds f n ≡ ok md
      → encode_embedded env encode (pos n) r ≡ ok (delimited env (as_u32 (pos n)) bytes)
      → (written : List ℕ) × (encode_typed env encode f.type f (pos n) r ≡ ok written)
        × Reads libs d fds written
            (known_field f n (ProtobufFieldData.message bytes md, WireType.length_delimited) ∷ [])
  unfolding encode_typed delimited
  embedded-Reads f n r bytes md tag found e range embedded made = (
    libs.encode_key n WireType.length_delimited ++ (libs.encode_varint (length bytes) ++ bytes),
    ap (λ t. encode_typed env encode t f (pos n) r) e ∙ made ∙ (rw (as_u32-tag n tag)),
    values-Reads libs d fds f n WireType.length_delimited
        (libs.encode_varint (length bytes) ++ bytes)
        ((ProtobufFieldData.message bytes md, WireType.length_delimited) ∷ []) tag found
        (known_delimited libs d fds f n bytes
          ((ProtobufFieldData.message bytes md, WireType.length_delimited) ∷ []) FieldType.message e
          range (unfold delimited_data in rw embedded)),
  )

  -- A value of an enum field whose number is written.
  pub enum-Reads :
      (f : FieldDescriptorProto) (n : ℕ) (r : RType Builder Struct) (i : ℤ)
      (enum : EnumDescriptorProto)
      → IsTag n
      → find_field_descriptor (as_i32 n) d ≡ ok f
      → f.type ≡ FieldType.enum
      → IsI32 i
      → find_enum d fds (text_or_default f.type_name) ≡ some enum
      → encode_enum env f (pos n) r ≡ ok (varint_field env (pos n) i)
      → (written : List ℕ) × (encode_typed env encode f.type f (pos n) r ≡ ok written)
        × Reads libs d fds written
            (known_field f n (ProtobufFieldData.enum i enum, WireType.varint) ∷ [])
  unfolding encode_typed varint_field varint_data decode_enum
  enum-Reads f n r i enum tag found e range defined made = (
    libs.encode_key n WireType.varint ++ libs.encode_varint (as_u64 i),
    ap (λ t. encode_typed env encode t f (pos n) r) e ∙ made ∙ (rw (as_u32-tag n tag)),
    values-Reads libs d fds f n WireType.varint (libs.encode_varint (as_u64 i))
        ((ProtobufFieldData.enum i enum, WireType.varint) ∷ []) tag found
        (known_varint libs d fds f n (as_u64 i) _ FieldType.enum e (as_u64-lt i)
          (rw (defined, as_i32-as_u64 i range))),
  )
