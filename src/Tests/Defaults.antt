-- ===== src/Tests/Defaults.antt =====
-- Default values of the test message.
use pact_protobuf_plugin.Base.{ℕ, ◌≡◌, refl, inl, true, some, List, [], ◌++◌, All}
use pact_protobuf_plugin.Base.Int.{pos, as_u32}
use pact_protobuf_plugin.Outcome.{ok}
use pact_protobuf_plugin.Field.{ProtobufField, is_default_value}
use pact_protobuf_plugin.Defaults.{
  default_field, field_of_data, default_field_data, unset_default, wire_type_for_field,
}
use pact_protobuf_plugin.Defaults.Populate.{populate_default_values, should_use_default}
use pact_protobuf_plugin.Defaults.Populate.Added.{
  IsAdded, populate_default_values_sound, populate_default_values_complete,
  populate_default_values_idempotent,
}
use pact_protobuf_plugin.Defaults.Written.{default_field_written, default_field_unset}
use pact_protobuf_plugin.DynamicMessage.{write_field}
use pact_protobuf_plugin.Lookup.Search.{Member}
use pact_protobuf_plugin.Tests.Instance.{test_libraries}
use pact_protobuf_plugin.Tests.Data.{item, files, item_fields, id_field, id_of, test_floats}

populate_default_values_sound_example :
    (added : List ProtobufField) × (populate_default_values test_floats item_fields item files
      ≡ item_fields ++ added)
    × All (IsAdded test_floats item files item_fields) added
populate_default_values_sound_example =
    populate_default_values_sound test_floats item files item_fields

id_used : should_use_default id_field ≡ true
unfolding should_use_default
id_used = refl

id_default : default_field test_floats id_field item files ≡ some (id_of (pos 0))
unfolding default_field field_of_data default_field_data unset_default as_u32 wire_type_for_field
id_default = refl

populate_default_values_complete_example :
    (x : ProtobufField) × Member x (populate_default_values test_floats [] item files)
    × (x.field_num ≡ as_u32 (pos 1))
populate_default_values_complete_example =
    populate_default_values_complete test_floats item files [] id_field (pos 1) (id_of (pos 0))
      (inl refl) refl id_used id_default

populate_default_values_idempotent_example :
    populate_default_values test_floats
      (populate_default_values test_floats item_fields item files)
      item
      files
    ≡ populate_default_values test_floats item_fields item files
populate_default_values_idempotent_example =
    populate_default_values_idempotent test_floats item files item_fields

default_field_written_example :
    (bytes : List ℕ) × (write_field test_libraries (id_of (pos 0)) (id_of (pos 0)).field_data
      ≡ ok bytes)
default_field_written_example =
    default_field_written test_libraries test_floats id_field item files (id_of (pos 0)) id_default

default_field_unset_example : is_default_value (id_of (pos 0)) ≡ true
default_field_unset_example =
    default_field_unset test_libraries test_floats id_field item files (id_of (pos 0)) refl
      id_default
