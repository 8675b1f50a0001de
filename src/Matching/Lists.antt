-- ===== src/Matching/Lists.antt =====
-- compare_repeated_field and compare_list_content of src/matching.rs, and compare_map_field with
-- decode_message_map_entry. `compare_field` stands for the function of that name: it gets the path, the
-- expected field, its descriptor, the actual field and the context.
use pact_protobuf_plugin.Base.{
  ℕ, suc, Bool, true, false, ◌&&◌, not, Option, none, some, List, [], ◌∷◌, ◌++◌, length, find,
  is_empty, ◌==◌, if◌then◌else◌, unwrap_or,
}
use pact_protobuf_plugin.Base.Text.{Text}
use pact_protobuf_plugin.Base.Int.{pos, int_eq, as_i32}
use pact_protobuf_plugin.ProstTypes.{
  FieldDescriptorProto, DescriptorProto, FileDescriptorSet, text_or_default,
}
use pact_protobuf_plugin.Descriptor
use pact_protobuf_plugin.Outcome.{Outcome, Error, ok, err, panic, out_of_fuel, ◌>>=◌, ok_or}
use pact_protobuf_plugin.Field.{ProtobufField, ProtobufFieldData}
use pact_protobuf_plugin.FieldValue.{decimal, int_to_string}
use pact_protobuf_plugin.Render.{display_data}
use pact_protobuf_plugin.Decoder.Message.{decode_message}
use pact_protobuf_plugin.BTreeMap.{BTreeMap, insert}
use pact_protobuf_plugin.Matching.{
  DiffConfig, Shown, Explanation, Mismatch, MapEntry, Pact, Compare, mismatch_of,
}

-- `descriptor.name.clone().unwrap_or_else(|| descriptor.number.unwrap_or_default().to_string())`.
unfoldable pub name_or_number : FieldDescriptorProto → Text
unfolding int_to_string
name_or_number descriptor =
    unwrap_or descriptor.name (int_to_string (unwrap_or descriptor.number (pos 0)))

abbrev pub no_unexpected : DiffConfig → Bool
no_unexpected DiffConfig.no_unexpected_keys = true
no_unexpected DiffConfig.allow_unexpected_keys = false

-- `Result::ok` of a call that can panic.
abbrev pub ok_option {ℓ} : {A : Type ℓ} → Outcome A → Outcome (Option A)
ok_option (ok a) = ok (some a)
ok_option (err e) = ok none
ok_option panic = panic
ok_option out_of_fuel = out_of_fuel

unfoldable pub find_field_descriptor : ProtobufField → DescriptorProto → Option FieldDescriptorProto
find_field_descriptor field descriptor =
    find (λ field_desc. int_eq (unwrap_or field_desc.number (pos 0)) (as_i32 field.field_num))
      (Descriptor.field descriptor)

module _ (pact : Pact) (fds : FileDescriptorSet) where
  open pact use {DocPath, Context}

  -- The text of a map's key.
  unfoldable pub key_text : ProtobufFieldData → Text
  key_text (ProtobufFieldData.string s) = s
  key_text d = display_data pact.casts d

  unfoldable pub decode_message_map_entry : DescriptorProto → List ℕ → Outcome (Text × MapEntry)
  decode_message_map_entry descriptor bytes =
      decode_message pact.libs bytes descriptor fds >>= λ message.
      ok_or (find (λ f. f.field_num == 1) message)
        (Error.entry_key_missing (Descriptor.name descriptor))
      >>= λ key.
          ok_or (find (λ f. f.field_num == 2) message)
            (Error.entry_value_missing (Descriptor.name descriptor))
          >>= λ value.
              ok_or (find_field_descriptor value descriptor)
                (Error.entry_descriptor_missing (Descriptor.name descriptor))
              >>= λ value_descriptor. ok (
                key_text key.field_data,
                record { field_descriptor = value_descriptor; value = value },
              )

  -- The closure of `filter_map`.
  unfoldable pub entry_of : ProtobufFieldData → Outcome (Option (Text × MapEntry))
  entry_of (ProtobufFieldData.message d descriptor) =
      ok_option (decode_message_map_entry descriptor d)
  entry_of d = ok none

  unfoldable pub insert_entry : Option (Text × MapEntry) → BTreeMap MapEntry → BTreeMap MapEntry
  insert_entry (some (key, e)) m = insert key e m
  insert_entry none m = m

  -- `filter_map(…).collect::<BTreeMap<String, MapEntry>>()`, from the map so far.
  unfoldable pub collect_entries :
      BTreeMap MapEntry → List ProtobufField → Outcome (BTreeMap MapEntry)
  collect_entries m [] = ok m
  collect_entries m (f ∷ fs) = entry_of f.field_data >>= λ e. collect_entries (insert_entry e m) fs

module _ (pact : Pact) where
  open pact use {DocPath, Context}

  -- The items one by one; one that is missing is a mismatch, unless a matcher is defined for it.
  unfoldable pub compare_list_content :
      Compare pact
      → DocPath
      → FieldDescriptorProto
      → ℕ
      → List ProtobufField
      → List ProtobufField
      → Context
      → Outcome (List Mismatch)
  unfolding decimal
  compare_list_content compare_field path descriptor index [] actual context = ok []
  compare_list_content compare_field path descriptor index (value ∷ expected) (a ∷ actual) context =
      compare_field (pact.join path (decimal index)) value descriptor a context >>= λ mismatches.
      compare_list_content compare_field path descriptor (suc index) expected actual context
      >>= λ more. ok (mismatches ++ more)
  compare_list_content compare_field path descriptor index (value ∷ expected) [] context =
      compare_list_content compare_field path descriptor (suc index) expected [] context >>= λ more.
      ok (
        if pact.matcher_is_defined context (pact.join path (decimal index))
        then more
        else mismatch_of (pact.path_to_string path)
            (some (Shown.text (display_data pact.casts value.field_data))) none
            (Explanation.field_missing (text_or_default descriptor.name) value.field_num
              value.field_data)
          ∷ more)

  -- The mismatch of the lengths, if they differ.
  unfoldable pub length_mismatches : DocPath → FieldDescriptorProto → ℕ → ℕ → List Mismatch
  length_mismatches path descriptor expected actual =
      if expected == actual
      then []
      else mismatch_of (pact.path_to_string path) none none
          (Explanation.different_lengths (name_or_number descriptor) expected actual)
        ∷ []

  -- The loop over the matchers that are defined for the path.
  unfoldable pub compare_lists_with_rules :
      Compare pact
      → DocPath
      → FieldDescriptorProto
      → List ProtobufField
      → List ProtobufField
      → Context
      → Bool
      → List pact.MatchingRule
      → Outcome (List Mismatch)
  compare_lists_with_rules compare_field path descriptor expected actual context is_cascaded [] =
      ok []
  compare_lists_with_rules compare_field path descriptor expected actual context is_cascaded
        (matcher ∷ matchers) =
      pact.compare_lists_with_matchingrule matcher path expected actual context is_cascaded
        (λ field_path e a c. compare_field field_path e descriptor a c)
      >>= λ mismatches.
          compare_lists_with_rules compare_field path descriptor expected actual context is_cascaded
            matchers
          >>= λ more. ok (mismatches ++ more)

  unfoldable pub compare_repeated_field :
      Compare pact
      → DocPath
      → FieldDescriptorProto
      → List ProtobufField
      → List ProtobufField
      → Context
      → Outcome (List Mismatch)
  compare_repeated_field compare_field path descriptor expected actual context =
      if pact.matcher_is_defined context path
      then (let best = pact.select_best_matcher context path in
          compare_lists_with_rules compare_field path descriptor expected actual context
            (pact.cascaded best) (pact.rules best))
      else if is_empty expected && not (is_empty actual)
      then ok (
          mismatch_of (pact.path_to_string path) none none
            (Explanation.not_empty (name_or_number descriptor) (length actual))
          ∷ [])
      else (compare_list_content compare_field path descriptor 0 expected actual context
          >>= λ mismatches.
              ok
                (mismatches ++ length_mismatches path descriptor (length expected) (length actual)))
