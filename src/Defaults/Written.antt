-- ===== src/Defaults/Written.antt =====
-- Default fields can be encoded, and are default values.
use pact_protobuf_plugin.Base.{
  ℕ, ◌≡◌, refl, sym, ap, ◌∙◌, inl, inr, true, Option, none, some, List, ◌++◌, Option-cases,
}
use mathlib.Core.Path.{subst}
use mathlib.Core.Option.{some-injective}
use pact_protobuf_plugin.Base.Text.{Text}
use pact_protobuf_plugin.ProstTypes.{
  WireType, FieldType, FieldDescriptorProto, EnumDescriptorProto, DescriptorProto,
  FileDescriptorSet,
}
use pact_protobuf_plugin.Outcome.{ok}
use pact_protobuf_plugin.Field.{
  ProtobufFieldData, ProtobufField, is_default_field_value, is_default_value,
}
use pact_protobuf_plugin.Libraries.{Libraries}
use pact_protobuf_plugin.Defaults.{
  Floats, wire_type_of, wire_type_for_field, enum_default, unset_default, parsed_default,
  default_data_of, default_field_data, field_of_data, default_field, enum_of_field,
}
use pact_protobuf_plugin.DynamicMessage.{
  write_data, write_varint, write_64_bit, write_32_bit, write_length_delimited, write_field,
}

-- The data, where there is any, can be written under the wire type.
abbrev Written : Libraries → WireType → Option ProtobufFieldData → Type 0
Written libs w none = Unit {0}
Written libs w (some v) = (bytes : List ℕ) × (write_data libs w v ≡ ok bytes)

-- It is also a default value.
abbrev WrittenDefault : Libraries → WireType → Option ProtobufFieldData → Type 0
WrittenDefault libs w none = Unit {0}
WrittenDefault libs w (some v) =
    ((bytes : List ℕ) × (write_data libs w v ≡ ok bytes)) × (is_default_field_value v ≡ true)

some-none : {A : Type 0} {x : A} → none ≡ some x → ⊥
some-none e = cc

module _ (libs : Libraries) (floats : Floats) where
  parsed_default-Written :
      (s : Text) (t : FieldType) (e : Option EnumDescriptorProto)
      → Written libs (wire_type_of t) (parsed_default floats s t e)
  unfolding wire_type_of parsed_default enum_default write_data write_varint write_64_bit
      write_32_bit write_length_delimited
  parsed_default-Written s FieldType.double e = (_, refl)
  parsed_default-Written s FieldType.float e = (_, refl)
  parsed_default-Written s FieldType.int64 e = (_, refl)
  parsed_default-Written s FieldType.uint64 e = (_, refl)
  parsed_default-Written s FieldType.int32 e = (_, refl)
  parsed_default-Written s FieldType.fixed64 e = (_, refl)
  parsed_default-Written s FieldType.fixed32 e = (_, refl)
  parsed_default-Written s FieldType.bool e = (_, refl)
  parsed_default-Written s FieldType.string e = (_, refl)
  parsed_default-Written s FieldType.group e = tt
  parsed_default-Written s FieldType.message e = tt
  parsed_default-Written s FieldType.bytes e = (_, refl)
  parsed_default-Written s FieldType.uint32 e = (_, refl)
  parsed_default-Written s FieldType.enum none = tt
  parsed_default-Written s FieldType.enum (some d) = (_, refl)
  parsed_default-Written s FieldType.sfixed32 e = (_, refl)
  parsed_default-Written s FieldType.sfixed64 e = (_, refl)
  parsed_default-Written s FieldType.sint32 e = (_, refl)
  parsed_default-Written s FieldType.sint64 e = (_, refl)

  unset_default-Written :
      (t : FieldType) (e : Option EnumDescriptorProto)
      → WrittenDefault libs (wire_type_of t) (unset_default t e)
  unfolding wire_type_of unset_default enum_default is_default_field_value write_data write_varint
      write_64_bit write_32_bit write_length_delimited
  unset_default-Written FieldType.double e = ((_, refl), refl)
  unset_default-Written FieldType.float e = ((_, refl), refl)
  unset_default-Written FieldType.int64 e = ((_, refl), refl)
  unset_default-Written FieldType.uint64 e = ((_, refl), refl)
  unset_default-Written FieldType.int32 e = ((_, refl), refl)
  unset_default-Written FieldType.fixed64 e = ((_, refl), refl)
  unset_default-Written FieldType.fixed32 e = ((_, refl), refl)
  unset_default-Written FieldType.bool e = ((_, refl), refl)
  unset_default-Written FieldType.string e = ((_, refl), refl)
  unset_default-Written FieldType.group e = tt
  unset_default-Written FieldType.message e = tt
  unset_default-Written FieldType.bytes e = ((_, refl), refl)
  unset_default-Written FieldType.uint32 e = ((_, refl), refl)
  unset_default-Written FieldType.enum none = tt
  unset_default-Written FieldType.enum (some d) = ((_, refl), refl)
  unset_default-Written FieldType.sfixed32 e = ((_, refl), refl)
  unset_default-Written FieldType.sfixed64 e = ((_, refl), refl)
  unset_default-Written FieldType.sint32 e = ((_, refl), refl)
  unset_default-Written FieldType.sint64 e = ((_, refl), refl)

  forget :
      (w : WireType) (o : Option ProtobufFieldData) → WrittenDefault libs w o → Written libs w o
  forget w none h = tt
  forget w (some v) h = h.0

  default_data_of-Written :
      (t : FieldType) (e : Option EnumDescriptorProto) (o : Option Text)
      → Written libs (wire_type_of t) (default_data_of floats t e o)
  unfolding default_data_of
  default_data_of-Written t e none = forget _ _ (unset_default-Written t e)
  default_data_of-Written t e (some s) = parsed_default-Written s t e

  module _ (f : FieldDescriptorProto) (d : DescriptorProto) (fds : FileDescriptorSet) where
    default_data-cases :
        (g : ProtobufField)
        → default_field floats f d fds ≡ some g
        → (v : ProtobufFieldData) × (default_field_data floats f d fds ≡ some v)
          × (field_of_data floats f v ≡ g)
    unfolding default_field
    default_data-cases g e = elim (Option-cases (default_field_data floats f d fds)) [
      | inl missing ↦ absurd (some-none (rw (missing, default_field) at e))
      | inr (v, made) ↦ (v, made, some-injective _ _ (rw (made, default_field) at e))
    ]

    default_field_data-Written :
        Written libs (wire_type_of f.type) (default_field_data floats f d fds)
    unfolding default_field_data
    default_field_data-Written = default_data_of-Written f.type _ f.default_value

    -- The default field that is made for a descriptor can be encoded: its data is of a kind that its
    -- wire type takes.
    pub default_field_written :
        (g : ProtobufField)
        → default_field floats f d fds ≡ some g
        → (bytes : List ℕ) × (write_field libs g g.field_data ≡ ok bytes)
    unfolding field_of_data write_field wire_type_for_field
    default_field_written g e =
        let (v, made, same) = default_data-cases g e in
        let (bytes, written) =
          subst (Written libs (wire_type_of f.type)) made default_field_data-Written in
        subst (λ h. (bytes : List ℕ) × (write_field libs h h.field_data ≡ ok bytes)) same
          (
            libs.encode_key (field_of_data floats f v).field_num (wire_type_of f.type) ++ bytes,
            rw written,
          )

    -- Where the descriptor sets no default value, the default field is recognised as a default value.
    pub default_field_unset :
        (g : ProtobufField)
        → f.default_value ≡ none
        → default_field floats f d fds ≡ some g
        → is_default_value g ≡ true
    unfolding field_of_data is_default_value default_field_data default_data_of
    default_field_unset g unset e =
        let (v, made, same) = default_data-cases g e in
        let all =
          subst (WrittenDefault libs (wire_type_of f.type)) (sym from_unset ∙ made)
            (unset_default-Written f.type _) in
        subst (λ h. is_default_value h ≡ true) same all.1
      where
        from_unset :
            default_field_data floats f d fds ≡ unset_default f.type (enum_of_field f d fds)
        from_unset = ap (default_data_of floats f.type (enum_of_field f d fds)) unset
