-- ===== src/ProstTypes.antt =====
-- The descriptors that `protoc` produces, as the plugin reads them: the fields of the structs of
-- prost_types that the code uses, and prost's wire types. `type` and `label` hold what the accessors
-- `r#type()` and `label()` return, and the functions below are the accessors with a default value.
use pact_protobuf_plugin.Base.{Bool, Option, List, [], unwrap_or}
use pact_protobuf_plugin.Base.Text.{Text}
use pact_protobuf_plugin.Base.Int.{ℤ}

-- prost::encoding::WireType.
pub data WireType : Type 0 where
  varint sixty_four_bit length_delimited start_group end_group thirty_two_bit : WireType

-- prost_types::field_descriptor_proto::Type.
pub data FieldType : Type 0 where
  double float int64 uint64 int32 fixed64 fixed32 bool string group message bytes uint32 enum :
      FieldType
  sfixed32 sfixed64 sint32 sint64 : FieldType

-- prost_types::field_descriptor_proto::Label.
pub data Label : Type 0 where
  optional required repeated : Label

pub record FieldDescriptorProto : Type 0 where
  pub name : Option Text
  pub number : Option ℤ
  pub label : Label
  pub type : FieldType
  pub type_name : Option Text
  pub default_value : Option Text

pub record EnumValueDescriptorProto : Type 0 where
  pub name : Option Text
  pub number : Option ℤ

pub record EnumDescriptorProto : Type 0 where
  pub name : Option Text
  pub value : List EnumValueDescriptorProto

pub record MessageOptions : Type 0 where
  pub map_entry : Option Bool

-- A message descriptor holds those of its nested types.
mutual
  pub data DescriptorProto : Type 0 where
    descriptor_proto :
        Option Text
        → List FieldDescriptorProto
        → NestedTypes
        → List EnumDescriptorProto
        → Option MessageOptions
        → DescriptorProto

  pub data NestedTypes : Type 0 where
    nil : NestedTypes
    cons : DescriptorProto → NestedTypes → NestedTypes

pub record MethodDescriptorProto : Type 0 where
  pub name : Option Text
  pub input_type : Option Text
  pub output_type : Option Text

pub record ServiceDescriptorProto : Type 0 where
  pub name : Option Text
  pub method : List MethodDescriptorProto

pub record FileDescriptorProto : Type 0 where
  pub name : Option Text
  pub package_name : Option Text
  pub message_type : List DescriptorProto
  pub enum_type : List EnumDescriptorProto
  pub service : List ServiceDescriptorProto

pub record FileDescriptorSet : Type 0 where
  pub file : List FileDescriptorProto

-- An accessor such as `name()`: the empty string where the field is not set.
abbrev pub text_or_default : Option Text → Text
text_or_default o = unwrap_or o []
