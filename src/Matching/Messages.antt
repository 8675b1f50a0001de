-- ===== src/Matching/Messages.antt =====
-- compare_message of src/matching.rs: the fields of the descriptor one by one.
use pact_protobuf_plugin.Base.{
  ℕ, ◌⊎◌, inl, inr, Bool, Option, none, some, List, [], ◌∷◌, filter, is_empty, ◌==◌, if◌then◌else◌,
  unwrap_or,
}
use pact_protobuf_plugin.Base.Text.{Text, codes}
use pact_protobuf_plugin.Base.Int.{ℤ, as_u32}
use pact_protobuf_plugin.ProstTypes.{FieldDescriptorProto, DescriptorProto, FileDescriptorSet}
use pact_protobuf_plugin.Descriptor
use pact_protobuf_plugin.Outcome.{Outcome, ok, ◌>>=◌}
use pact_protobuf_plugin.Field.{ProtobufField, is_default_value, as_bytes}
use pact_protobuf_plugin.FieldValue.{decimal}
use pact_protobuf_plugin.Lookup.{is_map_field, is_repeated_field}
use pact_protobuf_plugin.Defaults.{field_default_value}
use pact_protobuf_plugin.BTreeMap.{BTreeMap, insert}
use pact_protobuf_plugin.Matching.{
  Shown, Explanation, Mismatch, BodyMatchResult, Pact, Compare, mismatch_of,
}
use pact_protobuf_plugin.Matching.Lists.{no_unexpected, compare_repeated_field}
use pact_protobuf_plugin.Matching.Maps.{compare_map_field}

-- The mismatches under each path.
abbrev pub Results : Type 0
Results = BTreeMap (List Mismatch)

-- The fields with the number.
unfoldable pub numbered : ℕ → List ProtobufField → List ProtobufField
numbered field_no fields = filter (λ value. value.field_num == field_no) fields

-- The results with those of a field, if it has mismatches.
unfoldable pub with_mismatches : Text → List Mismatch → Results → Results
unfolding insert
with_mismatches field_path [] results = results
with_mismatches field_path (m ∷ ms) results = insert field_path (m ∷ ms) results

-- The name of the field, or its number.
unfoldable pub field_name : FieldDescriptorProto → ℕ → Text
unfolding decimal
field_name descriptor field_no = unwrap_or descriptor.name (decimal field_no)

unfoldable pub result_of : Results → BodyMatchResult
result_of [] = BodyMatchResult.matches
result_of (r ∷ rs) = BodyMatchResult.body_mismatches (r ∷ rs)

-- `Either::Left`, and `Either::Right`.
abbrev pub lefts : {A B : Type 0} → List (A ⊎ B) → List A
lefts [] = []
lefts (inl a ∷ xs) = a ∷ lefts xs
lefts (inr b ∷ xs) = lefts xs

abbrev pub rights : {A B : Type 0} → List (A ⊎ B) → List B
rights [] = []
rights (inl a ∷ xs) = rights xs
rights (inr b ∷ xs) = b ∷ rights xs

module _ (pact : Pact) where
  open pact use {DocPath, Context, MatchingRule}

  -- The first EachValue among the rules; cascaded rules have none.
  unfoldable pub associated_rules : Bool → List MatchingRule → Option (List (MatchingRule ⊎ Text))
  associated_rules is_cascaded [] = none
  associated_rules is_cascaded (rule ∷ rest) = elim (pact.each_value rule) [
    | some associated ↦ if is_cascaded then associated_rules is_cascaded rest else some associated
    | none ↦ associated_rules is_cascaded rest
  ]

  -- Each reference is a mismatch of the field; the next one takes the place of the one before.
  unfoldable pub with_references :
      DocPath → Text → List ProtobufField → List ProtobufField → List Text → Results → Results
  unfolding insert
  with_references path field_path expected actual [] results = results
  with_references path field_path expected actual (name ∷ names) results =
      with_references path field_path expected actual names (
        insert field_path
          (mismatch_of (pact.path_to_string path) (some (Shown.debug expected))
              (some (Shown.debug actual)) (Explanation.unresolved_reference name)
            ∷ [])
          results)

  -- The context for the values of the message.
  unfoldable pub values_context : Context → DocPath → Option (List (MatchingRule ⊎ Text)) → Context
  values_context context path none = pact.clone_with_matchers context
  values_context context path (some associated) =
      if is_empty (lefts associated)
      then pact.clone_with_matchers context
      else pact.clone_with_rules context (pact.join path (codes "*")) (lefts associated)

  -- The results and the context with which a single value is compared.
  unfoldable pub value_context :
      DocPath
      → Text
      → List ProtobufField
      → List ProtobufField
      → Context
      → Results
      → Results × Context
  value_context path field_path expected actual context results =
      if pact.values_matcher_defined context path
      then (let best = pact.select_best_matcher context path in
          let associated = associated_rules (pact.cascaded best) (pact.rules best) in
          (
            with_references path field_path expected actual (rights (unwrap_or associated []))
                results,
            values_context context path associated,
          ))
      else (results, context)

  -- The value that the expected one is compared with.
  unfoldable pub actual_or_default : ProtobufField → List ProtobufField → ProtobufField
  actual_or_default expected [] = field_default_value pact.floats expected
  actual_or_default expected (a ∷ actual) = a

  -- A value that was not expected, unless it is the default.
  unfoldable pub unexpected_field : Context → Text → Text → List ProtobufField → Results → Results
  unexpected_field context field_path name [] results = results
  unexpected_field context field_path name (a ∷ actual) results =
      if no_unexpected (pact.config context)
      then (if is_default_value a
          then results
          else insert field_path
              (mismatch_of field_path none (some (Shown.text (as_bytes a.field_data)))
                  (Explanation.field_not_missing name)
                ∷ [])
              results)
      else results

  -- A field that is neither a map nor repeated, from its expected values.
  unfoldable pub compare_single :
      Compare pact
      → DocPath
      → DocPath
      → FieldDescriptorProto
      → Text
      → List ProtobufField
      → List ProtobufField
      → Context
      → Results
      → Outcome Results
  compare_single compare_field path field_path descriptor name [] actual context results =
      ok (unexpected_field context (pact.path_to_string field_path) name actual results)
  compare_single compare_field path field_path descriptor name (e ∷ expected) actual context
        results =
      let (results', context') =
        value_context path (pact.path_to_string field_path) (e ∷ expected) actual context results in
      compare_field field_path e descriptor (actual_or_default e actual) context' >>= λ mismatches.
      ok (with_mismatches (pact.path_to_string field_path) mismatches results')

module _ (pact : Pact) (fds : FileDescriptorSet) where
  open pact use {DocPath, Context}

  -- One round of the loop over the fields of the descriptor.
  unfoldable pub compare_numbered :
      Compare pact
      → DocPath
      → DescriptorProto
      → FieldDescriptorProto
      → ℕ
      → List ProtobufField
      → List ProtobufField
      → Context
      → Results
      → Outcome Results
  compare_numbered compare_field path message_descriptor field field_no expected actual context
        results =
      let name = field_name field field_no in
      let field_path = pact.join path name in
      if is_map_field message_descriptor field
      then (compare_map_field pact fds compare_field field_path field expected actual context
          >>= λ mismatches.
              ok (with_mismatches (pact.path_to_string field_path) mismatches results))
      else if is_repeated_field field
      then (compare_repeated_field pact compare_field field_path field expected actual context
          >>= λ mismatches.
              ok (with_mismatches (pact.path_to_string field_path) mismatches results))
      else compare_single pact compare_field path field_path field name expected actual context
          results

  -- A field without a number is left out.
  unfoldable pub compare_optional :
      Compare pact
      → DocPath
      → DescriptorProto
      → List ProtobufField
      → List ProtobufField
      → Context
      → FieldDescriptorProto
      → Option ℤ
      → Results
      → Outcome Results
  compare_optional compare_field path d expected actual context field none results = ok results
  compare_optional compare_field path d expected actual context field (some number) results =
      compare_numbered compare_field path d field (as_u32 number)
        (numbered (as_u32 number) expected) (numbered (as_u32 number) actual) context results

  unfoldable pub compare_fields :
      Compare pact
      → DocPath
      → DescriptorProto
      → List ProtobufField
      → List ProtobufField
      → Context
      → List FieldDescriptorProto
      → Results
      → Outcome Results
  compare_fields compare_field path d expected actual context [] results = ok results
  compare_fields compare_field path d expected actual context (field ∷ fields) results =
      compare_optional compare_field path d expected actual context field field.number results
      >>= λ results'. compare_fields compare_field path d expected actual context fields results'

  unfoldable pub compare_message :
      Compare pact
      → DocPath
      → List ProtobufField
      → List ProtobufField
      → Context
      → DescriptorProto
      → Outcome BodyMatchResult
  compare_message compare_field path expected actual context d =
      compare_fields compare_field path d expected actual context (Descriptor.field d) []
      >>= λ results. ok (result_of results)
