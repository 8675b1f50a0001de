-- ===== src/Descriptor.antt =====
-- The fields of prost_types::DescriptorProto, which is a data type since it holds a list of itself.
use pact_protobuf_plugin.Base.{Option, List, [], ◌∷◌}
use pact_protobuf_plugin.Base.Text.{Text}
use pact_protobuf_plugin.ProstTypes.{
  DescriptorProto, NestedTypes, descriptor_proto, nil, cons, FieldDescriptorProto,
  EnumDescriptorProto, MessageOptions,
}

abbrev pub name : DescriptorProto → Option Text
name (descriptor_proto n fs ns es o) = n

abbrev pub field : DescriptorProto → List FieldDescriptorProto
field (descriptor_proto n fs ns es o) = fs

abbrev pub enum_type : DescriptorProto → List EnumDescriptorProto
enum_type (descriptor_proto n fs ns es o) = es

abbrev pub options : DescriptorProto → Option MessageOptions
options (descriptor_proto n fs ns es o) = o

abbrev pub to_list : NestedTypes → List DescriptorProto
to_list nil = []
to_list (cons d ds) = d ∷ to_list ds

abbrev pub nested_type : DescriptorProto → List DescriptorProto
nested_type (descriptor_proto n fs ns es o) = to_list ns
