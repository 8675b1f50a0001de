-- ===== src/Matching/Service.antt =====
-- `compare`, `match_message` and `match_service` of src/matching.rs.
use pact_protobuf_plugin.Base.{
  ℕ, suc, ◌+◌, Bool, Option, none, some, List, [], ◌∷◌, length, if◌then◌else◌,
}
use pact_protobuf_plugin.Base.Text.{Text, codes, text_eq, split_once}
use pact_protobuf_plugin.ProstTypes.{
  DescriptorProto, MethodDescriptorProto, FileDescriptorSet, text_or_default,
}
use pact_protobuf_plugin.Descriptor
use pact_protobuf_plugin.Outcome.{Outcome, ok, ◌>>=◌}
use pact_protobuf_plugin.Names.{last_name, split_service_and_method}
use pact_protobuf_plugin.Lookup.{
  find_message_descriptor_for_type, find_service_descriptor_for_type,
  find_method_descriptor_for_service,
}
use pact_protobuf_plugin.Field.{ProtobufField, ProtobufFieldData}
use pact_protobuf_plugin.Defaults.Populate.{populate_default_values}
use pact_protobuf_plugin.Decoder.Message.{decode_message}
use pact_protobuf_plugin.Matching.{
  DiffConfig, Shown, Explanation, BodyMatchResult, Pact, mismatch_of,
}
use pact_protobuf_plugin.Matching.Messages.{compare_message}
use pact_protobuf_plugin.Matching.Fields.{compare_field}

-- One more than the bytes of an embedded message.
abbrev pub nested_size : ProtobufFieldData → ℕ
nested_size (ProtobufFieldData.message b d) = suc (length b)
nested_size _ = 0

-- The fuel for the fields of a message.
abbrev pub nested_fuel : List ProtobufField → ℕ
nested_fuel [] = 1
nested_fuel (f ∷ fs) = nested_size f.field_data + nested_fuel fs

-- The method without the part behind a colon, and that part.
unfoldable pub method_and_part : Text → Text × Text
method_and_part method_name = elim (split_once b':' method_name) [
  | some (method, part) ↦ (method, part)
  | none ↦ (method_name, [])
]

-- The type of the message that is compared: the one that the content type names, else the one that the
-- part names, and that of the response where neither does.
unfoldable pub message_type_of : Option Text → Text → MethodDescriptorProto → Text
message_type_of (some message_type) service_part method =
    if text_eq (last_name (text_or_default method.input_type)) (last_name message_type)
    then text_or_default method.input_type
    else text_or_default method.output_type
message_type_of none service_part method =
    if text_eq service_part (codes "request")
    then text_or_default method.input_type
    else text_or_default method.output_type

module _ (pact : Pact) (fds : FileDescriptorSet) where
  open pact use {Context, libs}

  -- What is compared when there are expected and actual fields: `expected_bytes` is shown for a message
  -- that is missing.
  unfoldable pub compare_populated :
      DescriptorProto
      → List ProtobufField
      → List ProtobufField
      → Context
      → List ℕ
      → Outcome BodyMatchResult
  compare_populated d [] actual_fields context expected_bytes = ok BodyMatchResult.matches
  compare_populated d (e ∷ expected) [] context expected_bytes = ok (
      BodyMatchResult.body_mismatches (
        (
          codes "$",
          mismatch_of (codes "$") (some (Shown.text expected_bytes)) none
                (Explanation.message_missing (text_or_default (Descriptor.name d)))
              ∷ [],
        )
        ∷ []))
  compare_populated d (e ∷ expected) (a ∷ actual_fields) context expected_bytes =
      compare_message pact fds (compare_field pact fds (nested_fuel (e ∷ expected))) pact.root
        (e ∷ expected) (a ∷ actual_fields) context d

  unfoldable pub compare :
      DescriptorProto
      → List ProtobufField
      → List ProtobufField
      → Context
      → List ℕ
      → Outcome BodyMatchResult
  compare d expected actual context expected_bytes =
      compare_populated d expected (populate_default_values pact.floats actual d fds) context
        expected_bytes

  abbrev diff_config : Bool → DiffConfig
  diff_config allow_unexpected_keys =
      if allow_unexpected_keys
      then DiffConfig.allow_unexpected_keys
      else DiffConfig.no_unexpected_keys

  -- The buffers have been read to their end when they are passed on to `compare`.
  unfoldable pub match_message :
      Text → List ℕ → List ℕ → pact.Category → Bool → Outcome BodyMatchResult
  match_message message_name expected_bytes actual_bytes matching_rules allow_unexpected_keys =
      find_message_descriptor_for_type message_name fds >>= λ (message_descriptor, file).
      decode_message libs expected_bytes message_descriptor fds >>= λ expected_message.
      decode_message libs actual_bytes message_descriptor fds >>= λ actual_message.
      compare message_descriptor expected_message actual_message
        (pact.core_context (diff_config allow_unexpected_keys) matching_rules) []

  -- `expected_message_type` is the content type's attribute `message`.
  unfoldable pub match_service :
      Text → List ℕ → List ℕ → pact.Category → Bool → Option Text → Outcome BodyMatchResult
  match_service service expected_request actual_request rules allow_unexpected_keys
        expected_message_type =
      split_service_and_method service >>= λ (service_name, full_method_name).
      find_service_descriptor_for_type service_name fds >>= λ (file, service_descriptor).
      (let (method_name, service_part) = method_and_part full_method_name in
        find_method_descriptor_for_service method_name service_descriptor >>= λ method_descriptor.
        match_message (message_type_of expected_message_type service_part method_descriptor)
          expected_request actual_request rules allow_unexpected_keys)
