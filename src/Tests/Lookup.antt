-- ===== src/Tests/Lookup.antt =====
-- Searches in the test files.
use pact_protobuf_plugin.Base.{◌≡◌, refl, inl, inr, none, some}
use pact_protobuf_plugin.Base.Text.{codes}
use pact_protobuf_plugin.ProstTypes.{DescriptorProto, FileDescriptorProto, ServiceDescriptorProto}
use pact_protobuf_plugin.Outcome.{ok}
use pact_protobuf_plugin.Lookup.{
  find_message_descriptor, find_service_descriptor, find_file_descriptors,
  find_all_file_descriptors_for_package, unless_empty, has_package, without_dot, message_in_file,
  with_file, find_message_type_in_file_descriptor, service_in_file, behind_file,
}
use pact_protobuf_plugin.Lookup.Search.{Member}
use pact_protobuf_plugin.Lookup.Message.{
  InScope, HoldsMessage, find_message_descriptor_sound, find_message_descriptor_complete,
}
use pact_protobuf_plugin.Lookup.Service.{
  HoldsService, find_service_descriptor_sound, find_service_descriptor_complete,
}
use pact_protobuf_plugin.Tests.Data.{item, shop, item_file, files}

item_found :
    find_message_descriptor (codes "Item") (some (codes ".shop")) files.file ≡ ok (item, item_file)
unfolding find_message_descriptor find_file_descriptors find_all_file_descriptors_for_package
    unless_empty has_package without_dot message_in_file with_file
    find_message_type_in_file_descriptor
item_found = refl

find_message_descriptor_sound_example :
    Member item_file files.file
    × InScope (some (codes ".shop")) item_file
    × HoldsMessage (codes "Item") item item_file
find_message_descriptor_sound_example =
    find_message_descriptor_sound (codes "Item") (some (codes ".shop")) files.file item item_file
      item_found

find_message_descriptor_complete_example :
    (p : DescriptorProto × FileDescriptorProto) × (find_message_descriptor
        (codes "Item")
        (some (codes ".shop"))
        files.file
      ≡ ok p)
unfolding without_dot
find_message_descriptor_complete_example =
    find_message_descriptor_complete (codes "Item") (some (codes ".shop")) files.file item item_file
      (inr (inl refl)) refl (inl refl, refl)

shop_found : find_service_descriptor (codes "Shop") none files ≡ ok (item_file, shop)
unfolding find_service_descriptor find_file_descriptors service_in_file behind_file
shop_found = refl

find_service_descriptor_sound_example :
    Member item_file files.file
    × InScope none item_file
    × HoldsService (codes "Shop") shop item_file
find_service_descriptor_sound_example =
    find_service_descriptor_sound (codes "Shop") none files item_file shop shop_found

find_service_descriptor_complete_example :
    (p : FileDescriptorProto × ServiceDescriptorProto) × (find_service_descriptor
        (codes "Shop")
        none
        files
      ≡ ok p)
find_service_descriptor_complete_example =
    find_service_descriptor_complete (codes "Shop") none files item_file shop (inr (inl refl)) tt
      (inl refl, refl)
