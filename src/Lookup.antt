-- ===== src/Lookup.antt =====
-- The searches in descriptors: src/utils.rs, find_message_type_in_file_descriptor to
-- find_enum_by_name, and should_be_packed_type. A vector of file descriptors is a list, and so is
-- the HashMap of them, in the order in which its values are visited.
pub mod Collected
pub mod Search
pub mod Message
pub mod Service
pub mod Ends
use pact_protobuf_plugin.Base.{
  ℕ, zero, suc, Bool, true, false, ◌&&◌, Option, none, some, List, [], ◌∷◌, map, if◌then◌else◌,
  drop, is_empty, find, filter, find_map, length, unwrap_or,
}
use pact_protobuf_plugin.Base.Text.{
  Text, codes, text_eq, starts_with_byte, starts_with, split, join,
}
use pact_protobuf_plugin.Base.Int.{ℤ, int_eq, negsuc}
use pact_protobuf_plugin.ProstTypes.{
  FieldType, Label, FieldDescriptorProto, EnumDescriptorProto, EnumValueDescriptorProto,
  DescriptorProto, MethodDescriptorProto, ServiceDescriptorProto, FileDescriptorProto,
  FileDescriptorSet, MessageOptions, text_or_default,
}
use pact_protobuf_plugin.Descriptor
use pact_protobuf_plugin.Outcome.{Outcome, Error, ok, err, ◌>>=◌, ok_or, to_option}
use pact_protobuf_plugin.Names.{last_name, parse_name}

unfoldable pub find_message_type_in_file_descriptor :
    Text → FileDescriptorProto → Outcome DescriptorProto
find_message_type_in_file_descriptor message_name descriptor =
    ok_or
      (find (λ message. text_eq (text_or_default (Descriptor.name message)) message_name)
        descriptor.message_type)
      (Error.message_not_in_file message_name (unwrap_or descriptor.name (codes "unknown")))

unfoldable pub find_method_descriptor_for_service :
    Text → ServiceDescriptorProto → Outcome MethodDescriptorProto
find_method_descriptor_for_service method_name service_descriptor =
    ok_or
      (find (λ method_desc. text_eq (text_or_default method_desc.name) method_name)
        service_descriptor.method)
      (Error.method_not_found method_name (text_or_default service_descriptor.name))

-- `Option<String>` against a `&str`: the closure of the package filter.
unfoldable pub has_package : Text → FileDescriptorProto → Bool
has_package package_name descriptor = elim (descriptor.package_name) [
  | some p ↦ text_eq p package_name
  | none ↦ false
]

unfoldable pub has_no_package : FileDescriptorProto → Bool
has_no_package descriptor = elim (descriptor.package_name) [ some p ↦ false | none ↦ true ]

-- `if found.is_empty() { Err(…) } else { Ok(found) }`.
unfoldable pub unless_empty : List FileDescriptorProto → Error → Outcome (List FileDescriptorProto)
unless_empty [] e = err e
unless_empty (d ∷ ds) e = ok (d ∷ ds)

-- The package is compared without its leading dot.
unfoldable pub without_dot : Text → Text
without_dot package_name =
    if starts_with_byte b'.' package_name then drop 1 package_name else package_name

unfoldable pub find_all_file_descriptors_for_package :
    Text → List FileDescriptorProto → Outcome (List FileDescriptorProto)
find_all_file_descriptors_for_package package_name all_descriptors =
    let package_name' = without_dot package_name in
    unless_empty (filter (has_package package_name') all_descriptors)
      (Error.no_files_for_package package_name')

unfoldable pub find_all_file_descriptors_with_no_package :
    List FileDescriptorProto → Outcome (List FileDescriptorProto)
find_all_file_descriptors_with_no_package all_descriptors =
    unless_empty (filter has_no_package all_descriptors) Error.no_files_without_package

-- No package at all searches everywhere; an empty package searches the files without one.
unfoldable pub find_file_descriptors :
    Option Text → List FileDescriptorProto → Outcome (List FileDescriptorProto)
find_file_descriptors (some []) all_descriptors =
    find_all_file_descriptors_with_no_package all_descriptors
find_file_descriptors (some (c ∷ pkg)) all_descriptors =
    find_all_file_descriptors_for_package (c ∷ pkg) all_descriptors
find_file_descriptors none all_descriptors = ok all_descriptors

-- `.map(|msg| (msg, fd.clone()))`.
unfoldable pub with_file :
    FileDescriptorProto → Option DescriptorProto → Option (DescriptorProto × FileDescriptorProto)
with_file fd (some msg) = some (msg, fd)
with_file fd none = none

-- The closure of `find_map`: the message, with its file.
unfoldable pub message_in_file :
    Text → FileDescriptorProto → Option (DescriptorProto × FileDescriptorProto)
message_in_file message_name fd =
    with_file fd (to_option (find_message_type_in_file_descriptor message_name fd))

unfoldable pub find_message_descriptor :
    Text → Option Text → List FileDescriptorProto → Outcome (DescriptorProto × FileDescriptorProto)
find_message_descriptor message_name package_name all_descriptors =
    find_file_descriptors package_name all_descriptors >>= λ descriptors.
    ok_or (find_map (message_in_file message_name) descriptors)
      (Error.message_not_in_files message_name (map (λ d. text_or_default d.name) descriptors))

unfoldable pub find_message_descriptor_for_type_in_vec :
    Text → List FileDescriptorProto → Outcome (DescriptorProto × FileDescriptorProto)
find_message_descriptor_for_type_in_vec type_name all_descriptors =
    let (message_name, package_name) = parse_name type_name in
    find_message_descriptor message_name package_name all_descriptors

unfoldable pub find_message_descriptor_for_type :
    Text → FileDescriptorSet → Outcome (DescriptorProto × FileDescriptorProto)
unfolding find_message_descriptor_for_type_in_vec
find_message_descriptor_for_type type_name descriptors =
    find_message_descriptor_for_type_in_vec type_name descriptors.file

-- `.map(|p| (descriptor.clone(), p.clone()))`.
unfoldable pub behind_file :
    FileDescriptorProto
    → Option ServiceDescriptorProto
    → Option (FileDescriptorProto × ServiceDescriptorProto)
behind_file descriptor (some p) = some (descriptor, p)
behind_file descriptor none = none

-- The closure of `filter_map`.
unfoldable pub service_in_file :
    Text → FileDescriptorProto → Option (FileDescriptorProto × ServiceDescriptorProto)
service_in_file service_name descriptor =
    behind_file descriptor
      (find (λ p. text_eq (text_or_default p.name) service_name) descriptor.service)

unfoldable pub find_service_descriptor :
    Text → Option Text → FileDescriptorSet → Outcome (FileDescriptorProto × ServiceDescriptorProto)
find_service_descriptor service_name package_name descriptors =
    find_file_descriptors package_name descriptors.file >>= λ file_descriptors.
    ok_or (find_map (service_in_file service_name) file_descriptors)
      (Error.service_not_found service_name)

unfoldable pub find_service_descriptor_for_type :
    Text → FileDescriptorSet → Outcome (FileDescriptorProto × ServiceDescriptorProto)
find_service_descriptor_for_type type_name all_descriptors =
    let (message_name, package_name) = parse_name type_name in
    find_service_descriptor message_name package_name all_descriptors

-- `t == Type::Message` and `label == Label::Repeated`.
abbrev pub is_message_type : FieldType → Bool
is_message_type FieldType.message = true
is_message_type _ = false

abbrev pub is_repeated_label : Label → Bool
is_repeated_label Label.repeated = true
is_repeated_label _ = false

unfoldable pub is_repeated_field : FieldDescriptorProto → Bool
is_repeated_field descriptor = is_repeated_label descriptor.label

unfoldable pub find_nested_type : DescriptorProto → FieldDescriptorProto → Option DescriptorProto
find_nested_type message_descriptor field =
    if is_message_type field.type
    then find
        (λ nested.
          text_eq (text_or_default (Descriptor.name nested))
            (last_name (text_or_default field.type_name)))
        (Descriptor.nested_type message_descriptor)
    else none

unfoldable pub has_map_flag : DescriptorProto → Bool
has_map_flag nested = elim (Descriptor.options nested) [
  | none ↦ false
  | some options ↦ unwrap_or options.map_entry false
]

unfoldable pub is_map_field : DescriptorProto → FieldDescriptorProto → Bool
unfolding has_map_flag
is_map_field message_descriptor field =
    if is_repeated_label field.label && is_message_type field.type
    then (elim (find_nested_type message_descriptor field) [
      | some nested ↦ has_map_flag nested
      | none ↦ false
    ])
    else false

-- The types that use the varint, 32-bit or 64-bit wire types, but not bool.
unfoldable pub should_be_packed_type : FieldType → Bool
should_be_packed_type FieldType.double = true
should_be_packed_type FieldType.float = true
should_be_packed_type FieldType.int64 = true
should_be_packed_type FieldType.uint64 = true
should_be_packed_type FieldType.int32 = true
should_be_packed_type FieldType.fixed64 = true
should_be_packed_type FieldType.fixed32 = true
should_be_packed_type FieldType.uint32 = true
should_be_packed_type FieldType.sfixed32 = true
should_be_packed_type FieldType.sfixed64 = true
should_be_packed_type FieldType.sint32 = true
should_be_packed_type FieldType.sint64 = true
should_be_packed_type FieldType.enum = true
should_be_packed_type _ = false

-- The number of an enum value with the given name, where it has one.
unfoldable pub enum_value_number : Text → EnumValueDescriptorProto → Option ℤ
enum_value_number enum_value val = elim (val.name) [
  | some name ↦ if text_eq name enum_value then val.number else none
  | none ↦ none
]

-- The closure's test: the enum has a name, and it is the last part of the given one.
unfoldable pub is_enum_named : Text → EnumDescriptorProto → Bool
is_enum_named enum_name enum_descriptor = elim (enum_descriptor.name) [
  | some name ↦ text_eq name (last_name enum_name)
  | none ↦ false
]

unfoldable pub find_enum_value_by_name_in_message :
    List EnumDescriptorProto → Text → Text → Option (ℤ × EnumDescriptorProto)
find_enum_value_by_name_in_message enum_types enum_name enum_value =
    find_map
      (λ enum_descriptor.
        if is_enum_named enum_name enum_descriptor
        then (elim (find_map (enum_value_number enum_value) enum_descriptor.value) [
          | some n ↦ some (n, enum_descriptor)
          | none ↦ none
        ])
        else none)
      enum_types

unfoldable pub find_enum_by_name_in_message :
    List EnumDescriptorProto → Text → Option EnumDescriptorProto
find_enum_by_name_in_message enum_types enum_name =
    find_map
      (λ enum_descriptor.
        if is_enum_named enum_name enum_descriptor then some enum_descriptor else none)
      enum_types

-- `str::replace(pattern, "")`: the matches of a pattern that is not empty, from left to right.
unfoldable pub remove_fuel : ℕ → Text → Text → Text
remove_fuel zero pattern_text t = t
remove_fuel (suc fuel) pattern_text [] = []
remove_fuel (suc fuel) pattern_text (c ∷ t) = elim (starts_with pattern_text (c ∷ t)) [
  | true ↦ remove_fuel fuel pattern_text (drop (length pattern_text) (c ∷ t))
  | false ↦ c ∷ remove_fuel fuel pattern_text t
]

unfoldable pub remove : Text → Text → Text
unfolding remove_fuel
remove [] t = t
remove (p ∷ ps) t = remove_fuel (length t) (p ∷ ps) t

-- `split('.').filter(|v| !v.is_empty())`.
unfoldable pub name_parts : Text → List Text
name_parts t = filter (λ part. if is_empty part then false else true) (split b'.' t)

-- `split_last`, without the last part.
abbrev pub all_but_last {ℓ} : {A : Type ℓ} → A → List A → List A
all_but_last x [] = []
all_but_last x (y ∷ ys) = x ∷ all_but_last y ys

-- The enum types that an enum with these parts, in the file, is looked up in: those of the file, or
-- those of the message that the other parts name.
unfoldable pub enum_scope : FileDescriptorProto → List Text → Option (List EnumDescriptorProto)
unfolding find_message_type_in_file_descriptor
enum_scope fd [] = some fd.enum_type
enum_scope fd (m ∷ ms) =
    elim (to_option (find_message_type_in_file_descriptor (join (codes ".") (m ∷ ms)) fd)) [
      | some message_descriptor ↦ some (Descriptor.enum_type message_descriptor)
      | none ↦ none
    ]

-- The closure of `find_map` over the files, with the search in the scope as a parameter: the two
-- functions below differ in that alone.
unfoldable pub find_enum_in_file {ℓ} :
    {A : Type ℓ} → (List EnumDescriptorProto → Option A) → Text → FileDescriptorProto → Option A
unfolding name_parts enum_scope remove
find_enum_in_file {A} search enum_name_full fd =
    let package_name = text_or_default fd.package_name in
    let scoped : Option A = elim (name_parts (remove package_name enum_name_full)) [
      | [] ↦ none
      | p ∷ ps ↦ elim (enum_scope fd (all_but_last p ps)) [
        | some types ↦ search types
        | none ↦ none
      ]
    ] in
    if starts_with package_name enum_name_full then scoped else none

unfoldable pub find_enum_value_by_name :
    List FileDescriptorProto → Text → Text → Option (ℤ × EnumDescriptorProto)
unfolding name_parts
find_enum_value_by_name descriptors enum_name enum_value =
    find_map
      (find_enum_in_file (λ types. find_enum_value_by_name_in_message types enum_name enum_value)
        (join (codes ".") (name_parts enum_name)))
      descriptors

unfoldable pub find_enum_by_name : FileDescriptorSet → Text → Option EnumDescriptorProto
unfolding name_parts
find_enum_by_name descriptors enum_name =
    find_map
      (find_enum_in_file (λ types. find_enum_by_name_in_message types enum_name)
        (join (codes ".") (name_parts enum_name)))
      descriptors.file
