-- ===== src/Lookup/Ends.antt =====
-- The searches come to an end: they have no loop but those over the lists.
use pact_protobuf_plugin.Base.{List, [], ◌∷◌, Option, none, some}
use pact_protobuf_plugin.Base.Text.{Text}
use pact_protobuf_plugin.ProstTypes.{FileDescriptorProto, FileDescriptorSet}
use pact_protobuf_plugin.Outcome.{Error, Ends, >>=-Ends, ok_or-Ends}
use pact_protobuf_plugin.Names.{parse_name}
use pact_protobuf_plugin.Lookup.{
  unless_empty, find_all_file_descriptors_for_package, find_all_file_descriptors_with_no_package,
  find_file_descriptors, find_message_descriptor, find_message_descriptor_for_type,
}

unless_empty-Ends : (ds : List FileDescriptorProto) (e : Error) → Ends (unless_empty ds e)
unfolding unless_empty
unless_empty-Ends [] e q = cc
unless_empty-Ends (d ∷ ds) e q = cc

find_file_descriptors-Ends :
    (package_name : Option Text) (all : List FileDescriptorProto)
    → Ends (find_file_descriptors package_name all)
unfolding find_file_descriptors find_all_file_descriptors_for_package
    find_all_file_descriptors_with_no_package
find_file_descriptors-Ends none all = λ q. cc
find_file_descriptors-Ends (some []) all = unless_empty-Ends _ _
find_file_descriptors-Ends (some (c ∷ pkg)) all = unless_empty-Ends _ _

pub find_message_descriptor_for_type-Ends :
    (type_name : Text) (fds : FileDescriptorSet)
    → Ends (find_message_descriptor_for_type type_name fds)
unfolding find_message_descriptor_for_type find_message_descriptor
find_message_descriptor_for_type-Ends type_name fds =
    >>=-Ends (find_file_descriptors (parse_name type_name).1 fds.file) _
      (find_file_descriptors-Ends _ fds.file) (λ found e. ok_or-Ends _ _)
