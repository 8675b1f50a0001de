-- ===== src/Tests/Data.antt =====
-- The message, files and fields that the runs use.
use pact_protobuf_plugin.Base.{ℕ, Option, none, some, List, [], ◌∷◌, if◌then◌else◌}
use pact_protobuf_plugin.Base.Text.{Text, codes, text_eq}
use pact_protobuf_plugin.Base.Int.{ℤ, pos, negsuc}
use pact_protobuf_plugin.ProstTypes.{
  WireType, FieldType, Label, FieldDescriptorProto, DescriptorProto, descriptor_proto, nil,
  FileDescriptorProto, FileDescriptorSet, ServiceDescriptorProto,
}
use pact_protobuf_plugin.Field.{ProtobufFieldData, ProtobufField}
use pact_protobuf_plugin.Defaults.{Floats}

abbrev pub descriptor_of : Text → ℕ → Label → FieldType → FieldDescriptorProto
descriptor_of name number label type = record {
  name = some name;
  number = some (pos number);
  label = label;
  type = type;
  type_name = none;
  default_value = none;
}

abbrev pub id_field : FieldDescriptorProto
id_field = descriptor_of (codes "id") 1 Label.optional FieldType.int64

abbrev pub tag_field : FieldDescriptorProto
tag_field = descriptor_of (codes "tag") 2 Label.repeated FieldType.string

abbrev pub delta_field : FieldDescriptorProto
delta_field = descriptor_of (codes "delta") 3 Label.optional FieldType.sint64

abbrev pub counts_field : FieldDescriptorProto
counts_field = descriptor_of (codes "counts") 4 Label.repeated FieldType.uint64

abbrev pub sizes_field : FieldDescriptorProto
sizes_field = descriptor_of (codes "sizes") 5 Label.repeated FieldType.fixed64

abbrev pub item : DescriptorProto
item =
    descriptor_proto (some (codes "Item"))
      (id_field ∷ tag_field ∷ delta_field ∷ counts_field ∷ sizes_field ∷ []) nil [] none

abbrev pub shop : ServiceDescriptorProto
shop = record { name = some (codes "Shop"); method = [] }

abbrev pub item_file : FileDescriptorProto
item_file = record {
  name = some (codes "item.proto");
  package_name = some (codes "shop");
  message_type = item ∷ [];
  enum_type = [];
  service = shop ∷ [];
}

abbrev pub other_file : FileDescriptorProto
other_file = record {
  name = none;
  package_name = none;
  message_type = [];
  enum_type = [];
  service = [];
}

abbrev pub files : FileDescriptorSet
files = record { file = other_file ∷ item_file ∷ [] }

abbrev pub id_of : ℤ → ProtobufField
id_of i = record {
  field_num = 1;
  field_name = codes "id";
  wire_type = WireType.varint;
  field_data = ProtobufFieldData.integer_64 i;
  additional_data = [];
  descriptor = id_field;
}

abbrev pub tag_of : Text → ProtobufField
tag_of s = record {
  field_num = 2;
  field_name = codes "tag";
  wire_type = WireType.length_delimited;
  field_data = ProtobufFieldData.string s;
  additional_data = [];
  descriptor = tag_field;
}

-- A repeated field on both sides of another one.
abbrev pub item_fields : List ProtobufField
item_fields = tag_of (codes "new") ∷ id_of (negsuc 6) ∷ tag_of (codes "red") ∷ []

-- A parser that knows the text "1" alone.
abbrev pub parse_one : ℕ → Text → Option ℕ
parse_one one s = if text_eq s (codes "1") then some one else none

abbrev pub test_floats : Floats
test_floats = record { parse_f32 = parse_one 0x3f800000; parse_f64 = parse_one 0x3ff0000000000000 }
