-- ===== src/Lookup/Message.antt =====
-- The search for a message finds one exactly where the files of the package hold one.
use pact_protobuf_plugin.Base.{
  ◌≡◌, refl, ap, sym, ◌∙◌, inl, inr, true, Option, none, some, List, [], ◌∷◌, filter, Option-cases,
}
use mathlib.Core.Path.{subst}
use mathlib.Core.Option.{some-injective}
use pact_protobuf_plugin.Base.Text.{Text, text_eq, text_eq_self, text_eq→eq}
use pact_protobuf_plugin.ProstTypes.{DescriptorProto, FileDescriptorProto, text_or_default}
use pact_protobuf_plugin.Descriptor
use pact_protobuf_plugin.Outcome.{Error, ok, >>=-eq-ok, ok_or-eq-ok, to_option-ok_or, ok-injective}
use pact_protobuf_plugin.Lookup.{
  find_message_type_in_file_descriptor, has_package, has_no_package, unless_empty, without_dot,
  find_all_file_descriptors_for_package, find_all_file_descriptors_with_no_package,
  find_file_descriptors, message_in_file, with_file, find_message_descriptor,
}
use pact_protobuf_plugin.Lookup.Search.{
  Member, find_sound, find_complete, filter_sound, filter_complete, find_map_sound,
  find_map_complete,
}

-- The files that a search for a package covers: all, those without a package, or those whose package
-- is the given one, its leading dot aside.
abbrev pub InScope : Option Text → FileDescriptorProto → Type 0
InScope none fd = Unit {0}
InScope (some []) fd = fd.package_name ≡ none
InScope (some (c ∷ pkg)) fd = fd.package_name ≡ some (without_dot (c ∷ pkg))

-- The file holds the message, under the name.
abbrev pub HoldsMessage : Text → DescriptorProto → FileDescriptorProto → Type 0
HoldsMessage message_name d fd =
    Member d fd.message_type × (text_or_default (Descriptor.name d) ≡ message_name)

unless_empty-eq-ok :
    (ds : List FileDescriptorProto) (e : Error) {found : List FileDescriptorProto}
    → unless_empty ds e ≡ ok found
    → ds ≡ found
unfolding unless_empty
unless_empty-eq-ok [] e h = cc
unless_empty-eq-ok (d ∷ ds) e h = cc

unless_empty-Member :
    (ds : List FileDescriptorProto) (e : Error) (fd : FileDescriptorProto)
    → Member fd ds
    → unless_empty ds e ≡ ok ds
unfolding unless_empty
unless_empty-Member [] e fd m = absurd m
unless_empty-Member (d ∷ ds) e fd m = refl

has_package→eq :
    (pkg : Text) (fd : FileDescriptorProto) → has_package pkg fd ≡ true → fd.package_name ≡ some pkg
unfolding has_package
has_package→eq pkg fd h = elim (Option-cases fd.package_name) [
  | inl e ↦ cc (rw (e, has_package) at h)
  | inr (p, e) ↦ rw (e, text_eq→eq p pkg (rw (e, has_package) at h))
]

eq→has_package :
    (pkg : Text) (fd : FileDescriptorProto) → fd.package_name ≡ some pkg → has_package pkg fd ≡ true
unfolding has_package
eq→has_package pkg fd h = rw (h, has_package) (text_eq_self pkg)

has_no_package→eq : (fd : FileDescriptorProto) → has_no_package fd ≡ true → fd.package_name ≡ none
unfolding has_no_package
has_no_package→eq fd h = elim (Option-cases fd.package_name) [
  | inl e ↦ e
  | inr (p, e) ↦ cc (rw (e, has_no_package) at h)
]

eq→has_no_package : (fd : FileDescriptorProto) → fd.package_name ≡ none → has_no_package fd ≡ true
unfolding has_no_package
eq→has_no_package fd h = rw (h, has_no_package)

-- The files found are the given ones that are in scope.
pub find_file_descriptors_sound :
    (package_name : Option Text) (all found : List FileDescriptorProto) (fd : FileDescriptorProto)
    → find_file_descriptors package_name all ≡ ok found
    → Member fd found
    → Member fd all × InScope package_name fd
unfolding find_file_descriptors find_all_file_descriptors_for_package
    find_all_file_descriptors_with_no_package
find_file_descriptors_sound none all found fd e m = (subst (Member fd) (sym (ok-injective e)) m, tt)
find_file_descriptors_sound (some []) all found fd e m =
    let (n, h) =
      filter_sound has_no_package all fd (subst (Member fd) (sym (unless_empty-eq-ok _ _ e)) m) in
    (n, has_no_package→eq fd h)
find_file_descriptors_sound (some (c ∷ pkg)) all found fd e m =
    let (n, h) =
      filter_sound (has_package (without_dot (c ∷ pkg))) all fd
        (subst (Member fd) (sym (unless_empty-eq-ok _ _ e)) m) in
    (n, has_package→eq _ fd h)

pub find_file_descriptors_complete :
    (package_name : Option Text) (all : List FileDescriptorProto) (fd : FileDescriptorProto)
    → Member fd all
    → InScope package_name fd
    → (found : List FileDescriptorProto) × (find_file_descriptors package_name all ≡ ok found)
      × Member fd found
unfolding find_file_descriptors find_all_file_descriptors_for_package
    find_all_file_descriptors_with_no_package
find_file_descriptors_complete none all fd m h = (all, refl, m)
find_file_descriptors_complete (some []) all fd m h =
    let kept = filter_complete has_no_package all fd m (eq→has_no_package fd h) in
    (filter has_no_package all, unless_empty-Member _ _ fd kept, kept)
find_file_descriptors_complete (some (c ∷ pkg)) all fd m h =
    let kept =
      filter_complete (has_package (without_dot (c ∷ pkg))) all fd m (eq→has_package _ fd h) in
    (filter (has_package (without_dot (c ∷ pkg))) all, unless_empty-Member _ _ fd kept, kept)

with_file-eq-some :
    (file fd : FileDescriptorProto) (o : Option DescriptorProto) (d : DescriptorProto)
    → with_file file o ≡ some (d, fd)
    → (o ≡ some d) × (file ≡ fd)
unfolding with_file
with_file-eq-some file fd none d e = cc
with_file-eq-some file fd (some d') d e = (
  ap some (ap (λ (p : DescriptorProto × FileDescriptorProto). p.0) (some-injective _ _ e)),
  ap (λ (p : DescriptorProto × FileDescriptorProto). p.1) (some-injective _ _ e),
)

message_in_file_sound :
    (name : Text) (file fd : FileDescriptorProto) (d : DescriptorProto)
    → message_in_file name file ≡ some (d, fd)
    → (file ≡ fd) × HoldsMessage name d file
unfolding message_in_file find_message_type_in_file_descriptor
message_in_file_sound name file fd d e =
    let (found, same) = with_file-eq-some file fd _ d e in
    let (m, named) = find_sound _ file.message_type d (sym (to_option-ok_or _ _) ∙ found) in
    (same, (m, text_eq→eq _ _ named))

message_in_file_complete :
    (name : Text) (file : FileDescriptorProto) (d : DescriptorProto)
    → HoldsMessage name d file
    → (d' : DescriptorProto) × (message_in_file name file ≡ some (d', file))
unfolding message_in_file find_message_type_in_file_descriptor
message_in_file_complete name file d h =
    let (d', found) =
      find_complete (λ message. text_eq (text_or_default (Descriptor.name message)) name)
        file.message_type d h.0 (rw h.1 (text_eq_self name)) in
    (d', rw (to_option-ok_or, found) (unfold with_file in refl))

-- A message that is found stands in a file in scope, under the name.
pub find_message_descriptor_sound :
    (name : Text) (package_name : Option Text) (all : List FileDescriptorProto)
    (d : DescriptorProto) (fd : FileDescriptorProto)
    → find_message_descriptor name package_name all ≡ ok (d, fd)
    → Member fd all × InScope package_name fd × HoldsMessage name d fd
unfolding find_message_descriptor
find_message_descriptor_sound name package_name all d fd e =
    let (files, found, e') = >>=-eq-ok (find_file_descriptors package_name all) _ e in
    let (file, m, hit) = find_map_sound (message_in_file name) files (d, fd) (ok_or-eq-ok _ _ e') in
    let (same, holds) = message_in_file_sound name file fd d hit in
    let m' = subst (λ z. Member z files) same m in
    let (n, scope) = find_file_descriptors_sound package_name all files fd found m' in
    (n, scope, subst (HoldsMessage name d) same holds)

-- Where a file in scope holds a message of the name, the search finds one.
pub find_message_descriptor_complete :
    (name : Text) (package_name : Option Text) (all : List FileDescriptorProto)
    (d : DescriptorProto) (fd : FileDescriptorProto)
    → Member fd all
    → InScope package_name fd
    → HoldsMessage name d fd
    → (p : DescriptorProto × FileDescriptorProto) × (find_message_descriptor name package_name all
        ≡ ok p)
unfolding find_message_descriptor
find_message_descriptor_complete name package_name all d fd m scope holds =
    let (files, found, m') = find_file_descriptors_complete package_name all fd m scope in
    let (d', hit) = message_in_file_complete name fd d holds in
    let (p, e) = find_map_complete (message_in_file name) files fd (d', fd) m' hit in
    (p, rw found (rw e))
