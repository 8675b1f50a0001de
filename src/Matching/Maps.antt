-- ===== src/Matching/Maps.antt =====
-- compare_map_field of src/matching.rs.
use pact_protobuf_plugin.Base.{
  Bool, ◌&&◌, not, Option, none, some, List, [], ◌∷◌, ◌++◌, map, length, is_empty, if◌then◌else◌,
}
use pact_protobuf_plugin.Base.Text.{Text}
use pact_protobuf_plugin.ProstTypes.{FieldDescriptorProto, FileDescriptorSet}
use pact_protobuf_plugin.Outcome.{Outcome, ok, ◌>>=◌}
use pact_protobuf_plugin.Field.{ProtobufField}
use pact_protobuf_plugin.BTreeMap.{BTreeMap, get}
use pact_protobuf_plugin.Matching.{Explanation, Mismatch, MapEntry, Pact, Compare, mismatch_of}
use pact_protobuf_plugin.Matching.Lists.{collect_entries, name_or_number, no_unexpected}

abbrev pub keys : {V : Type 0} → BTreeMap V → List Text
keys m = map (λ e. e.0) m

module _ (pact : Pact) where
  open pact use {DocPath, Context}

  -- The loop over the matchers that are defined for the path.
  unfoldable pub compare_maps_with_rules :
      Compare pact
      → DocPath
      → BTreeMap MapEntry
      → BTreeMap MapEntry
      → Context
      → Bool
      → List pact.MatchingRule
      → Outcome (List Mismatch)
  compare_maps_with_rules compare_field path expected actual context is_cascaded [] = ok []
  compare_maps_with_rules compare_field path expected actual context is_cascaded
        (matcher ∷ matchers) =
      pact.compare_maps_with_matchingrule matcher is_cascaded path expected actual context
        (λ field_path e a c. compare_field field_path e.value e.field_descriptor a.value c)
      >>= λ mismatches.
          compare_maps_with_rules compare_field path expected actual context is_cascaded matchers
          >>= λ more. ok (mismatches ++ more)

  -- The comparison of an entry with the one under its key, or the mismatch of an entry that is missing.
  unfoldable pub compare_entry :
      Compare pact
      → DocPath
      → FieldDescriptorProto
      → Context
      → Text
      → MapEntry
      → Option MapEntry
      → Outcome (List Mismatch)
  compare_entry compare_field path descriptor context key value (some a) =
      compare_field (pact.join path key) value.value value.field_descriptor a.value context
  compare_entry compare_field path descriptor context key value none = ok (
      mismatch_of (pact.path_to_string path) none none
        (Explanation.entry_missing (name_or_number descriptor) key)
      ∷ [])

  -- `for (key, value) in &expected_map`.
  unfoldable pub compare_entries :
      Compare pact
      → DocPath
      → FieldDescriptorProto
      → BTreeMap MapEntry
      → Context
      → BTreeMap MapEntry
      → Outcome (List Mismatch)
  compare_entries compare_field path descriptor actual context [] = ok []
  compare_entries compare_field path descriptor actual context ((key, value) ∷ expected) =
      compare_entry compare_field path descriptor context key value (get key actual)
      >>= λ mismatches.
          compare_entries compare_field path descriptor actual context expected >>= λ more.
          ok (mismatches ++ more)

  -- What compare_map_field does with the entries, where `expected` and `actual` count the fields.
  unfoldable pub compare_entry_maps :
      Compare pact
      → DocPath
      → FieldDescriptorProto
      → List ProtobufField
      → List ProtobufField
      → BTreeMap MapEntry
      → BTreeMap MapEntry
      → Context
      → Outcome (List Mismatch)
  compare_entry_maps compare_field path descriptor expected actual expected_map actual_map context =
      if pact.matcher_is_defined context path
      then (let best = pact.select_best_matcher context path in
          compare_maps_with_rules compare_field path expected_map actual_map context
            (pact.cascaded best) (pact.rules best))
      else if is_empty expected && (not (is_empty actual) && no_unexpected (pact.config context))
      then ok (
          mismatch_of (pact.path_to_string path) none none
            (Explanation.not_empty (name_or_number descriptor) (length actual))
          ∷ [])
      else (compare_entries compare_field path descriptor actual_map context expected_map
          >>= λ more.
              ok (pact.match_keys context path (keys expected_map) (keys actual_map) ++ more))

module _ (pact : Pact) (fds : FileDescriptorSet) where
  open pact use {DocPath, Context}

  unfoldable pub compare_map_field :
      Compare pact
      → DocPath
      → FieldDescriptorProto
      → List ProtobufField
      → List ProtobufField
      → Context
      → Outcome (List Mismatch)
  compare_map_field compare_field path descriptor expected actual context =
      collect_entries pact fds [] expected >>= λ expected_map.
      collect_entries pact fds [] actual >>= λ actual_map.
      compare_entry_maps pact compare_field path descriptor expected actual expected_map actual_map
        context
