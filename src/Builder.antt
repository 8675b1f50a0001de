-- ===== src/Builder.antt =====
-- MessageBuilder of src/message_builder.rs: the values of a message's fields by name, and the
-- operations that add them. The builders of embedded messages are a type parameter: `BuilderOf` of the
-- child Encode takes it to be the builders that are nested less deeply.
pub mod Wire
pub mod Packed
pub mod Encode
pub mod Message
pub mod Markup
pub mod Calls
pub mod Values
pub mod Reads
pub mod PackedReads
pub mod ValueReads
pub mod RoundTrip
pub mod Returns
pub mod Consistent
pub mod Agrees
use pact_protobuf_plugin.Base.{Option, none, some, List, [], ◌∷◌, ◌++◌, find}
use pact_protobuf_plugin.Base.Text.{Text, text_eq}
use pact_protobuf_plugin.ProstTypes.{
  FieldType, FieldDescriptorProto, DescriptorProto, FileDescriptorProto, text_or_default,
}
use pact_protobuf_plugin.Descriptor
use pact_protobuf_plugin.FieldValue.{MessageFieldValue}
use pact_protobuf_plugin.BTreeMap.{BTreeMap, get, insert}

pub data MessageFieldValueType : Type 0 where
  normal map repeated : MessageFieldValueType

pub record FieldValueInner (Builder Struct : Type 0) : Type 0 where
  pub values : List (MessageFieldValue Builder Struct)
  pub descriptor : FieldDescriptorProto
  pub field_type : MessageFieldValueType
  pub proto_type : FieldType

pub record MessageBuilder (Builder Struct : Type 0) : Type 0 where
  pub file_descriptor : FileDescriptorProto
  pub descriptor : DescriptorProto
  pub message_name : Text
  pub fields : BTreeMap (FieldValueInner Builder Struct)

module _ {Builder Struct : Type 0} where
  unfoldable pub new : DescriptorProto → Text → FileDescriptorProto → MessageBuilder Builder Struct
  new descriptor message_name file_descriptor = record {
    file_descriptor = file_descriptor;
    descriptor = descriptor;
    message_name = message_name;
    fields = [];
  }

  unfoldable pub field_by_name : MessageBuilder Builder Struct → Text → Option FieldDescriptorProto
  field_by_name b name =
      find (λ f. text_eq (text_or_default f.name) name) (Descriptor.field b.descriptor)

  -- A field with the given values, of the type of its descriptor.
  abbrev pub inner :
      FieldDescriptorProto
      → MessageFieldValueType
      → List (MessageFieldValue Builder Struct)
      → FieldValueInner Builder Struct
  inner field_descriptor field_type values = record {
    values = values;
    descriptor = field_descriptor;
    field_type = field_type;
    proto_type = field_descriptor.type;
  }

  unfoldable pub set_field_value :
      FieldDescriptorProto
      → Text
      → MessageFieldValue Builder Struct
      → MessageBuilder Builder Struct
      → MessageBuilder Builder Struct
  set_field_value field_descriptor field_name field_value b = record b {
    fields =
        insert field_name (inner field_descriptor MessageFieldValueType.normal (field_value ∷ []))
          b.fields;
  }

  -- The match on the entry of the field, whose value is written back.
  unfoldable pub repeated_entry :
      FieldDescriptorProto
      → MessageFieldValue Builder Struct
      → Option (FieldValueInner Builder Struct)
      → FieldValueInner Builder Struct
  repeated_entry field_descriptor field_value (some e) = record e {
    field_type = MessageFieldValueType.repeated;
    values = e.values ++ (field_value ∷ []);
  }
  repeated_entry field_descriptor field_value none =
      inner field_descriptor MessageFieldValueType.repeated (field_value ∷ [])

  unfoldable pub add_repeated_field_value :
      FieldDescriptorProto
      → Text
      → MessageFieldValue Builder Struct
      → MessageBuilder Builder Struct
      → MessageBuilder Builder Struct
  unfolding repeated_entry
  add_repeated_field_value field_descriptor field_name field_value b = record b {
    fields =
        insert field_name (repeated_entry field_descriptor field_value (get field_name b.fields))
          b.fields;
  }

  -- An occupied entry keeps its type.
  unfoldable pub map_entry :
      FieldDescriptorProto
      → MessageFieldValue Builder Struct
      → MessageFieldValue Builder Struct
      → Option (FieldValueInner Builder Struct)
      → FieldValueInner Builder Struct
  map_entry field_descriptor key value (some e) = record e {
    values = e.values ++ (key ∷ value ∷ []);
  }
  map_entry field_descriptor key value none =
      inner field_descriptor MessageFieldValueType.map (key ∷ value ∷ [])

  unfoldable pub add_map_field_value :
      FieldDescriptorProto
      → Text
      → MessageFieldValue Builder Struct
      → MessageFieldValue Builder Struct
      → MessageBuilder Builder Struct
      → MessageBuilder Builder Struct
  unfolding map_entry
  add_map_field_value field_descriptor field_name key value b = record b {
    fields =
        insert field_name (map_entry field_descriptor key value (get field_name b.fields)) b.fields;
  }
