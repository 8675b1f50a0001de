-- ===== src/Lookup/Service.antt =====
-- The search for a service finds one exactly where the files of the package hold one.
use pact_protobuf_plugin.Base.{◌≡◌, refl, ap, Option, none, some}
use mathlib.Core.Path.{subst}
use mathlib.Core.Option.{some-injective}
use pact_protobuf_plugin.Base.Text.{Text, text_eq, text_eq_self, text_eq→eq}
use pact_protobuf_plugin.ProstTypes.{
  FileDescriptorProto, FileDescriptorSet, ServiceDescriptorProto, text_or_default,
}
use pact_protobuf_plugin.Outcome.{ok, >>=-eq-ok, ok_or-eq-ok}
use pact_protobuf_plugin.Lookup.{
  find_file_descriptors, behind_file, service_in_file, find_service_descriptor,
}
use pact_protobuf_plugin.Lookup.Message.{
  InScope, find_file_descriptors_sound, find_file_descriptors_complete,
}
use pact_protobuf_plugin.Lookup.Search.{
  Member, find_sound, find_complete, find_map_sound, find_map_complete,
}

-- The file holds the service, under the name.
abbrev pub HoldsService : Text → ServiceDescriptorProto → FileDescriptorProto → Type 0
HoldsService service_name s fd = Member s fd.service × (text_or_default s.name ≡ service_name)

behind_file-eq-some :
    (file fd : FileDescriptorProto) (o : Option ServiceDescriptorProto) (s : ServiceDescriptorProto)
    → behind_file file o ≡ some (fd, s)
    → (o ≡ some s) × (file ≡ fd)
unfolding behind_file
behind_file-eq-some file fd none s e = cc
behind_file-eq-some file fd (some s') s e = (
  ap some (ap (λ (p : FileDescriptorProto × ServiceDescriptorProto). p.1) (some-injective _ _ e)),
  ap (λ (p : FileDescriptorProto × ServiceDescriptorProto). p.0) (some-injective _ _ e),
)

service_in_file_sound :
    (name : Text) (file fd : FileDescriptorProto) (s : ServiceDescriptorProto)
    → service_in_file name file ≡ some (fd, s)
    → (file ≡ fd) × HoldsService name s file
unfolding service_in_file
service_in_file_sound name file fd s e =
    let (found, same) = behind_file-eq-some file fd _ s e in
    let (m, named) = find_sound _ file.service s found in (same, (m, text_eq→eq _ _ named))

service_in_file_complete :
    (name : Text) (file : FileDescriptorProto) (s : ServiceDescriptorProto)
    → HoldsService name s file
    → (s' : ServiceDescriptorProto) × (service_in_file name file ≡ some (file, s'))
unfolding service_in_file
service_in_file_complete name file s h =
    let (s', found) =
      find_complete (λ p. text_eq (text_or_default p.name) name) file.service s h.0
        (rw h.1 (text_eq_self name)) in
    (s', rw found (unfold behind_file in refl))

-- A service that is found stands in a file in scope, under the name.
pub find_service_descriptor_sound :
    (name : Text) (package_name : Option Text) (descriptors : FileDescriptorSet)
    (fd : FileDescriptorProto) (s : ServiceDescriptorProto)
    → find_service_descriptor name package_name descriptors ≡ ok (fd, s)
    → Member fd descriptors.file × InScope package_name fd × HoldsService name s fd
unfolding find_service_descriptor
find_service_descriptor_sound name package_name descriptors fd s e =
    let (files, found, e') = >>=-eq-ok (find_file_descriptors package_name descriptors.file) _ e in
    let (file, m, hit) = find_map_sound (service_in_file name) files (fd, s) (ok_or-eq-ok _ _ e') in
    let (same, holds) = service_in_file_sound name file fd s hit in
    let m' = subst (λ z. Member z files) same m in
    let (n, scope) = find_file_descriptors_sound package_name descriptors.file files fd found m' in
    (n, scope, subst (HoldsService name s) same holds)

-- Where a file in scope holds a service of the name, the search finds one.
pub find_service_descriptor_complete :
    (name : Text) (package_name : Option Text) (descriptors : FileDescriptorSet)
    (fd : FileDescriptorProto) (s : ServiceDescriptorProto)
    → Member fd descriptors.file
    → InScope package_name fd
    → HoldsService name s fd
    → (p : FileDescriptorProto × ServiceDescriptorProto) × (find_service_descriptor name
          package_name descriptors
        ≡ ok p)
unfolding find_service_descriptor
find_service_descriptor_complete name package_name descriptors fd s m scope holds =
    let (files, found, m') =
      find_file_descriptors_complete package_name descriptors.file fd m scope in
    let (s', hit) = service_in_file_complete name fd s holds in
    let (p, e) = find_map_complete (service_in_file name) files fd (fd, s') m' hit in
    (p, rw found (rw e))
