-- ===== src/Defaults/Populate.antt =====
-- populate_default_values of src/matching.rs, which adds the fields that a message leaves out.
pub mod Added
use pact_protobuf_plugin.Base.{
  ℕ, Bool, true, false, ◌&&◌, not, Option, none, some, List, [], ◌∷◌, ◌++◌, find, if◌then◌else◌,
  ◌==◌,
}
use pact_protobuf_plugin.Base.Int.{ℤ, as_u32}
use pact_protobuf_plugin.ProstTypes.{
  FieldType, FieldDescriptorProto, DescriptorProto, FileDescriptorSet,
}
use pact_protobuf_plugin.Descriptor
use pact_protobuf_plugin.Field.{ProtobufField}
use pact_protobuf_plugin.Lookup.{is_repeated_field}
use pact_protobuf_plugin.Defaults.{Floats, default_field}

-- The types that have a default in proto3.
unfoldable pub has_default : FieldType → Bool
has_default FieldType.group = false
has_default FieldType.message = false
has_default _ = true

unfoldable pub should_use_default : FieldDescriptorProto → Bool
unfolding has_default is_repeated_field
should_use_default descriptor = has_default descriptor.type && not (is_repeated_field descriptor)

-- `if let Some(def) = … { field_vec.push(def) }`.
unfoldable pub push_default : Option ProtobufField → List ProtobufField → List ProtobufField
push_default none field_vec = field_vec
push_default (some def) field_vec = field_vec ++ (def ∷ [])

module _ (floats : Floats) where
  -- `if let Some(field_num) = field.number { … }`.
  unfoldable pub populate_number :
      DescriptorProto
      → FileDescriptorSet
      → List ProtobufField
      → FieldDescriptorProto
      → Option ℤ
      → List ProtobufField
  populate_number message_descriptor fds field_vec field none = field_vec
  populate_number message_descriptor fds field_vec field (some field_num) =
      elim (find (λ i. i.field_num == as_u32 field_num) field_vec) [
        | some entry ↦ field_vec
        | none ↦
            if should_use_default field
            then push_default (default_field floats field message_descriptor fds) field_vec
            else field_vec
      ]

  -- One round of the loop of `populate_default_values`.
  unfoldable pub populate_field :
      DescriptorProto
      → FileDescriptorSet
      → List ProtobufField
      → FieldDescriptorProto
      → List ProtobufField
  unfolding populate_number
  populate_field message_descriptor fds field_vec field =
      populate_number message_descriptor fds field_vec field field.number

  -- The loop, over the descriptor's fields.
  unfoldable pub populate_fields :
      DescriptorProto
      → FileDescriptorSet
      → List FieldDescriptorProto
      → List ProtobufField
      → List ProtobufField
  populate_fields message_descriptor fds [] field_vec = field_vec
  populate_fields message_descriptor fds (field ∷ rest) field_vec =
      populate_fields message_descriptor fds rest
        (populate_field message_descriptor fds field_vec field)

  unfoldable pub populate_default_values :
      List ProtobufField → DescriptorProto → FileDescriptorSet → List ProtobufField
  populate_default_values fields message_descriptor fds =
      populate_fields message_descriptor fds (Descriptor.field message_descriptor) fields
