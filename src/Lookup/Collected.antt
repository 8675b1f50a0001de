-- ===== src/Lookup/Collected.antt =====
-- The search for a message in a map of files, of src/utils.rs. The map is the list of its entries in the
-- order in which it is visited.
use pact_protobuf_plugin.Base.{List, map}
use pact_protobuf_plugin.Base.Text.{Text}
use pact_protobuf_plugin.ProstTypes.{DescriptorProto, FileDescriptorProto}
use pact_protobuf_plugin.Outcome.{Outcome}
use pact_protobuf_plugin.Lookup.{find_message_descriptor_for_type_in_vec}

unfoldable pub fds_map_to_vec : List (Text × FileDescriptorProto) → List FileDescriptorProto
fds_map_to_vec descriptors = map (λ (p : Text × FileDescriptorProto). p.1) descriptors

unfoldable pub find_message_descriptor_for_type_in_map :
    Text → List (Text × FileDescriptorProto) → Outcome (DescriptorProto × FileDescriptorProto)
unfolding fds_map_to_vec
find_message_descriptor_for_type_in_map type_name descriptors =
    find_message_descriptor_for_type_in_vec type_name (fds_map_to_vec descriptors)
