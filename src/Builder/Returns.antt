-- ===== src/Builder/Returns.antt =====
-- The encoding of values and fields returns bytes or an error where that of the embedded messages does.
pub mod Message
use pact_protobuf_plugin.Base.Int.{ℤ}
use pact_protobuf_plugin.Lookup.{should_be_packed_type}
use pact_protobuf_plugin.Field.{number_is}
use pact_protobuf_plugin.Lookup.Search.{All-Member, All-intro}
use pact_protobuf_plugin.Libraries.Sort.{Member-sorted_by}
use pact_protobuf_plugin.Base.{
  Bool-cases, inl, inr, find, ℕ, zero, suc, ◌≡◌, refl, ap, ◌∙◌, ◌≢◌, true, false, ◌&&◌, Option,
  none, some, List, [], ◌∷◌, ◌++◌, map, All,
}
use pact_protobuf_plugin.Base.Text.{Text, codes}
use pact_protobuf_plugin.ProstTypes.{
  FieldType, EnumDescriptorProto, FieldDescriptorProto, DescriptorProto,
}
use pact_protobuf_plugin.Outcome.{
  Outcome, Error, ok, err, ok_or, Returns, >>=-Returns, ok_or-Returns, ◌>>=◌,
}
use pact_protobuf_plugin.FieldValue.{RType, MessageFieldValue}
use pact_protobuf_plugin.BTreeMap.{BTreeMap, insert}
use pact_protobuf_plugin.Builder.{MessageFieldValueType, FieldValueInner, MessageBuilder}
use pact_protobuf_plugin.Builder.Wire.{Scalar, Value, Encoding}
use pact_protobuf_plugin.Builder.Packed.{
  scalar_value, encode_packed_as, encode_packed_field, encode_packed_tagged,
}
use pact_protobuf_plugin.Builder.Encode.{
  encode_scalar, encode_embedded, encode_enum, encode_enum_value, encode_typed, encode_tagged,
  encode_single_field, encode_each, encode_values, encode_repeated_field,
}
use pact_protobuf_plugin.Builder.Message.{
  BuilderOf, encode_nested, encode_message, encode_with, encode_fields, encode_one,
  encode_map_field, encode_map_values, map_entries, entries_field, entry_value, number_key, first,
  find_entry_proto, find_entry_field,
}
use pact_protobuf_plugin.FieldValue.Returns.{
  as_f64-Returns, as_f32-Returns, to_u64-Returns, to_i64-Returns, to_u32-Returns, to_i32-Returns,
  as_str-Returns, as_bool-Returns,
}

find_entry_proto-Returns : (d : DescriptorProto) (t : Text) → Returns (find_entry_proto d t)
unfolding find_entry_proto
find_entry_proto-Returns d t = ok_or-Returns _ _

find_entry_field-Returns :
    (name : Text) (e : Error) (d : DescriptorProto) → Returns (find_entry_field name e d)
unfolding find_entry_field
find_entry_field-Returns name e d = ok_or-Returns _ _

module _ {Struct : Type 0} (env : Encoding Struct) where
  encode_enum_value-Returns :
      (f : FieldDescriptorProto) (tag n : ℤ) (e : EnumDescriptorProto)
      → Returns (encode_enum_value env f tag n e)
  unfolding encode_enum_value
  encode_enum_value-Returns f tag n e = >>=-Returns _ _ (ok_or-Returns f.type_name _) (λ t et.
      >>=-Returns _ _ (ok_or-Returns (find (λ v. number_is n v.number) e.value) _) (λ v ev. tt))

module _ {Builder Struct : Type 0} (env : Encoding Struct) where
  scalar_value-Returns : (s : Scalar) (r : RType Builder Struct) → Returns (scalar_value env s r)
  unfolding scalar_value
  scalar_value-Returns Scalar.double r = as_f64-Returns env.floats env.casts r
  scalar_value-Returns Scalar.float r = as_f32-Returns env.floats env.casts r
  scalar_value-Returns Scalar.int64 r = to_i64-Returns env.floats env.casts r
  scalar_value-Returns Scalar.uint64 r = to_u64-Returns env.floats env.casts r
  scalar_value-Returns Scalar.int32 r = to_i32-Returns env.floats env.casts r
  scalar_value-Returns Scalar.uint32 r = to_u32-Returns env.floats env.casts r
  scalar_value-Returns Scalar.fixed64 r = to_u64-Returns env.floats env.casts r
  scalar_value-Returns Scalar.fixed32 r = to_u32-Returns env.floats env.casts r
  scalar_value-Returns Scalar.sfixed32 r = to_i32-Returns env.floats env.casts r
  scalar_value-Returns Scalar.sfixed64 r = to_i64-Returns env.floats env.casts r
  scalar_value-Returns Scalar.sint32 r = to_i32-Returns env.floats env.casts r
  scalar_value-Returns Scalar.sint64 r = to_i64-Returns env.floats env.casts r
  scalar_value-Returns Scalar.bool r = as_bool-Returns env.floats env.casts r
  scalar_value-Returns Scalar.string r = as_str-Returns env.floats env.casts r
  scalar_value-Returns Scalar.bytes (RType.bytes b) = tt
  scalar_value-Returns Scalar.bytes _ = tt

  encode_enum-Returns :
      (f : FieldDescriptorProto) (tag : ℤ) (r : RType Builder Struct)
      → Returns (encode_enum env f tag r)
  unfolding encode_enum
  encode_enum-Returns f tag (RType.enum n e) = encode_enum_value-Returns env f tag n e
  encode_enum-Returns f tag (RType.integer_32 i) = tt
  encode_enum-Returns f tag _ = tt

  encode_packed_as-Returns :
      (t : FieldType) (tag : ℤ) (vs : List (MessageFieldValue Builder Struct))
      → Returns (encode_packed_as env t tag vs)
  unfolding encode_packed_as
  encode_packed_as-Returns FieldType.bool tag vs = tt
  encode_packed_as-Returns FieldType.string tag vs = tt
  encode_packed_as-Returns FieldType.group tag vs = tt
  encode_packed_as-Returns FieldType.message tag vs = tt
  encode_packed_as-Returns FieldType.bytes tag vs = tt
  encode_packed_as-Returns _ tag vs = tt

  encode_packed_tagged-Returns :
      (f : FieldValueInner Builder Struct) (o : Option ℤ) → Returns (encode_packed_tagged env f o)
  unfolding encode_packed_tagged
  encode_packed_tagged-Returns f (some tag) = encode_packed_as-Returns f.proto_type tag f.values
  encode_packed_tagged-Returns f none = tt

  pub map_entries-Returns :
      (b : MessageBuilder Builder Struct) (f : FieldValueInner Builder Struct)
      → Returns (map_entries b f)
  unfolding map_entries
  map_entries-Returns b f =
      >>=-Returns (ok_or f.descriptor.type_name Error.type_name_missing) _ (ok_or-Returns _ _)
        (λ t et.
          >>=-Returns (find_entry_proto b.descriptor t) _ (find_entry_proto-Returns _ _) (λ p ep.
            >>=-Returns (find_entry_field (codes "key") (Error.map_key_not_found t) p) _
              (find_entry_field-Returns _ _ _)
              (λ k ek.
                >>=-Returns (find_entry_field (codes "value") (Error.map_value_not_found t) p) _
                  (find_entry_field-Returns _ _ _) (λ v ev. tt))))

module _ {Builder Struct : Type 0} (env : Encoding Struct)
    (encode : Builder → Outcome (List ℕ)) where
  -- The encoding of an embedded message returns bytes or an error.
  abbrev pub ReturnsOn : RType Builder Struct → Type 0
  ReturnsOn (RType.message m) = Returns (encode m)
  ReturnsOn _ = Unit {0}

  abbrev pub ReturnsOnAll : List (MessageFieldValue Builder Struct) → Type 0
  ReturnsOnAll = All (λ v. ReturnsOn v.rtype)

  encode_embedded-Returns :
      (tag : ℤ) (r : RType Builder Struct)
      → ReturnsOn r
      → Returns (encode_embedded env encode tag r)
  unfolding encode_embedded
  encode_embedded-Returns tag (RType.message m) h = >>=-Returns (encode m) _ h (λ bytes e. tt)
  encode_embedded-Returns tag (RType.struct_value s) h =
      >>=-Returns _ _ (ok_or-Returns (env.encode_struct s) _) (λ bytes e. tt)
  encode_embedded-Returns tag (RType.bytes b) h = tt
  encode_embedded-Returns tag _ h = tt

  encode_typed-Returns :
      (t : FieldType) (f : FieldDescriptorProto) (tag : ℤ) (r : RType Builder Struct)
      → ReturnsOn r
      → Returns (encode_typed env encode t f tag r)
  unfolding encode_typed encode_scalar
  encode_typed-Returns FieldType.message f tag r h = encode_embedded-Returns tag r h
  encode_typed-Returns FieldType.enum f tag r h = encode_enum-Returns env f tag r
  encode_typed-Returns FieldType.group f tag r h = tt
  encode_typed-Returns FieldType.double f tag r h =
      >>=-Returns _ _ (scalar_value-Returns env Scalar.double r) (λ v e. tt)
  encode_typed-Returns FieldType.float f tag r h =
      >>=-Returns _ _ (scalar_value-Returns env Scalar.float r) (λ v e. tt)
  encode_typed-Returns FieldType.int64 f tag r h =
      >>=-Returns _ _ (scalar_value-Returns env Scalar.int64 r) (λ v e. tt)
  encode_typed-Returns FieldType.uint64 f tag r h =
      >>=-Returns _ _ (scalar_value-Returns env Scalar.uint64 r) (λ v e. tt)
  encode_typed-Returns FieldType.int32 f tag r h =
      >>=-Returns _ _ (scalar_value-Returns env Scalar.int32 r) (λ v e. tt)
  encode_typed-Returns FieldType.uint32 f tag r h =
      >>=-Returns _ _ (scalar_value-Returns env Scalar.uint32 r) (λ v e. tt)
  encode_typed-Returns FieldType.fixed64 f tag r h =
      >>=-Returns _ _ (scalar_value-Returns env Scalar.fixed64 r) (λ v e. tt)
  encode_typed-Returns FieldType.fixed32 f tag r h =
      >>=-Returns _ _ (scalar_value-Returns env Scalar.fixed32 r) (λ v e. tt)
  encode_typed-Returns FieldType.sfixed32 f tag r h =
      >>=-Returns _ _ (scalar_value-Returns env Scalar.sfixed32 r) (λ v e. tt)
  encode_typed-Returns FieldType.sfixed64 f tag r h =
      >>=-Returns _ _ (scalar_value-Returns env Scalar.sfixed64 r) (λ v e. tt)
  encode_typed-Returns FieldType.sint32 f tag r h =
      >>=-Returns _ _ (scalar_value-Returns env Scalar.sint32 r) (λ v e. tt)
  encode_typed-Returns FieldType.sint64 f tag r h =
      >>=-Returns _ _ (scalar_value-Returns env Scalar.sint64 r) (λ v e. tt)
  encode_typed-Returns FieldType.bool f tag r h =
      >>=-Returns _ _ (scalar_value-Returns env Scalar.bool r) (λ v e. tt)
  encode_typed-Returns FieldType.string f tag r h =
      >>=-Returns _ _ (scalar_value-Returns env Scalar.string r) (λ v e. tt)
  encode_typed-Returns FieldType.bytes f tag r h =
      >>=-Returns _ _ (scalar_value-Returns env Scalar.bytes r) (λ v e. tt)

  encode_tagged-Returns :
      (f : FieldValueInner Builder Struct) (r : RType Builder Struct) (o : Option ℤ)
      → ReturnsOn r
      → Returns (encode_tagged env encode f r o)
  unfolding encode_tagged
  encode_tagged-Returns f r (some tag) h = encode_typed-Returns f.proto_type f.descriptor tag r h
  encode_tagged-Returns f r none h = tt

  pub encode_single_field-Returns :
      (f : FieldValueInner Builder Struct) (vs : List (MessageFieldValue Builder Struct))
      → ReturnsOnAll vs
      → Returns (encode_single_field env encode f (first vs))
  unfolding encode_single_field
  encode_single_field-Returns f [] h = tt
  encode_single_field-Returns f (v ∷ vs) h = encode_tagged-Returns f v.rtype f.descriptor.number h.0

  encode_each-Returns :
      (f : FieldValueInner Builder Struct) (vs : List (MessageFieldValue Builder Struct))
      → ReturnsOnAll vs
      → Returns (encode_each env encode f vs)
  unfolding encode_each
  encode_each-Returns f [] h = tt
  encode_each-Returns f (v ∷ vs) h =
      >>=-Returns (encode_single_field env encode f (some v)) _
        (encode_single_field-Returns f (v ∷ []) (h.0, tt))
        (λ bytes e.
          >>=-Returns (encode_each env encode f vs) _ (encode_each-Returns f vs h.1)
            (λ more e'. tt))

  pub encode_values-Returns :
      (f : FieldValueInner Builder Struct) (vs : List (MessageFieldValue Builder Struct))
      → ReturnsOnAll vs
      → Returns (encode_values env encode f vs)
  unfolding encode_values encode_packed_field
  encode_values-Returns f [] h = tt
  encode_values-Returns f (v ∷ vs) h = elim (Bool-cases (should_be_packed_type f.proto_type)) [
    | inl packed ↦ rw (packed) (encode_packed_tagged-Returns env f f.descriptor.number)
    | inr unpacked ↦ rw (unpacked) (encode_each-Returns f (v ∷ vs) h)
  ]

  -- The loop over the fields returns where the writing of each does.
  encode_fields-Returns :
      (write : FieldValueInner Builder Struct → Outcome (List ℕ))
      (es : BTreeMap (FieldValueInner Builder Struct))
      → All (λ (e : Text × FieldValueInner Builder Struct). Returns (write e.1)) es
      → Returns (encode_fields env write es)
  unfolding encode_fields
  encode_fields-Returns write [] h = tt
  encode_fields-Returns write ((name, f) ∷ es) h = >>=-Returns (write f) _ h.0 (λ bytes e.
      >>=-Returns (encode_fields env write es) _ (encode_fields-Returns write es h.1)
        (λ more e'. tt))

  pub encode_with-Returns :
      (fuel : ℕ) (b : MessageBuilder Builder Struct)
      → All
          (λ (e : Text × FieldValueInner Builder Struct).
            Returns (encode_one env encode (encode_with env fuel encode) b e.1.field_type e.1))
          b.fields
      → Returns (encode_with env (suc fuel) encode b)
  unfolding encode_with
  encode_with-Returns fuel b h =
      let key = λ (e : Text × FieldValueInner Builder Struct). number_key e.1 in
      encode_fields-Returns _
        (env.libs.sorted_by (Text × FieldValueInner Builder Struct) key b.fields)
        (All-intro _ _
          (λ e m. All-Member _ b.fields h e (Member-sorted_by env.libs key b.fields e m)))
