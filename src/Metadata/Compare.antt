-- ===== src/Metadata/Compare.antt =====
-- match_metadata_value and compare_metadata of src/metadata.rs.
use pact_protobuf_plugin.Base.{
  ◌⊎◌, inl, inr, Bool, true, false, Option, none, some, List, [], ◌∷◌, ◌++◌, map, is_empty,
  if◌then◌else◌, unwrap_or,
}
use pact_protobuf_plugin.Base.Text.{Text, codes, text_eq}
use pact_protobuf_plugin.Matching.{Pact, MatchValue}
use pact_protobuf_plugin.Metadata.{
  Code, Status, Tonic, code_desc, Reason, MetadataMismatch, MetadataMatchResult, mismatch_at,
  matched, with_mismatches, is_special_metadata_key, string_to_code,
}

-- Whether two codes are the same, by their names.
unfoldable pub same_code : Code → Code → Bool
unfolding code_desc
same_code a b = text_eq (code_desc a) (code_desc b)

-- What is printed for a key: that it failed, or how it was compared and whether it matched.
pub data Line (pact : Pact) : Type 0 where
  failed : Text → Line pact
  matching : Text → pact.RuleList → Bool → Line pact
  valued : Text → Text → Bool → Line pact

module _ (pact : Pact) (tonic : Tonic) where
  open pact use {DocPath, Context}

  -- The mismatches and the line of a key.
  abbrev pub Compared : Type 0
  Compared = List MetadataMismatch × Line pact

  -- The arm of a defined matcher.
  unfoldable pub match_by_rules : Text → Text → Text → Context → DocPath → Compared
  match_by_rules key expected actual context path =
      let matchers = pact.select_best_matcher context path in
      let errors =
        pact.match_values path matchers (MatchValue.text expected) (MatchValue.text actual) in
      (
        map (λ e. mismatch_at key expected actual (Reason.comparison_failed key e)) errors,
        Line.matching key matchers (is_empty errors),
      )

  -- The arm of grpc-status, with the status that is expected.
  unfoldable pub match_status : Text → Text → Text → Status → Option Status → Compared
  match_status key expected actual actual_status none = ([], Line.valued key (codes "OK") true)
  match_status key expected actual actual_status (some expected_status) = (
    if same_code expected_status.code actual_status.code
        then []
        else mismatch_at key expected actual
            (Reason.codes_differ key expected_status.code actual_status.code)
          ∷ [],
    Line.valued key (code_desc expected_status.code)
        (same_code expected_status.code actual_status.code),
  )

  -- The arm of any other key, with what the equality matcher returns.
  unfoldable pub match_by_equality : Text → Text → Text → Option Text → Compared
  match_by_equality key expected actual none = ([], Line.valued key actual true)
  match_by_equality key expected actual (some e) = (
    mismatch_at key expected actual (Reason.comparison_failed key e) ∷ [],
    Line.valued key actual false,
  )

  unfoldable pub match_text : Text → Text → Context → Text → Compared
  match_text key expected context actual =
      let path = pact.join pact.root key in
      if pact.matcher_is_defined context path
      then match_by_rules key expected actual context path
      else if text_eq key (codes "grpc-status")
      then match_status key expected actual
          (unwrap_or (string_to_code tonic actual [])
            (record { code = Code.unknown; message = [] }))
          (string_to_code tonic expected [])
      else match_by_equality key expected actual
          (pact.matches_equality (MatchValue.text expected) (MatchValue.text actual))

  unfoldable pub match_metadata_value : Text → Text → Context → Text ⊎ Text → Compared
  match_metadata_value key expected context (inl actual) = match_text key expected context actual
  match_metadata_value key expected context (inr e) =
      (mismatch_at key expected [] (Reason.not_text key e) ∷ [], Line.failed key)

  -- A key that the actual metadata does not have.
  unfoldable pub missing : Text → tonic.Json → Reason → List MetadataMismatch × List (Line pact)
  missing key expected_value reason =
      if is_special_metadata_key key
      then ([], [])
      else (mismatch_at key (tonic.to_string expected_value) [] reason ∷ [], Line.failed key ∷ [])

  -- The comparison of one key.
  unfoldable pub compare_key :
      Text
      → tonic.Json
      → Context
      → Option tonic.MetadataValue
      → List MetadataMismatch × List (Line pact)
  compare_key key expected_value context (some actual_value) =
      let (mismatches, line) =
        match_metadata_value key (tonic.json_to_string expected_value) context
          (tonic.to_str actual_value) in
      (mismatches, line ∷ [])
  compare_key key expected_value context none =
      missing key expected_value (Reason.value_missing key)

  -- The loop over the expected keys.
  unfoldable pub compare_keys :
      List (Text × tonic.Json)
      → tonic.MetadataMap
      → Context
      → List MetadataMismatch × List (Line pact)
  compare_keys [] actual_metadata context = ([], [])
  compare_keys ((key, expected_value) ∷ rest) actual_metadata context =
      let (mismatches, output) =
        compare_key key expected_value context (tonic.get actual_metadata key) in
      let (more, lines) = compare_keys rest actual_metadata context in
      (mismatches ++ more, output ++ lines)

  -- The keys, where there is no actual metadata.
  unfoldable pub missing_keys : List (Text × tonic.Json) → List MetadataMismatch × List (Line pact)
  missing_keys [] = ([], [])
  missing_keys ((key, expected_value) ∷ rest) =
      let (mismatches, output) = missing key expected_value (Reason.key_missing key) in
      let (more, lines) = missing_keys rest in (mismatches ++ more, output ++ lines)

  unfoldable pub result_of : List MetadataMismatch → MetadataMatchResult
  result_of [] = matched
  result_of (m ∷ ms) = with_mismatches (m ∷ ms)

  -- The expected metadata, in the order in which it is visited.
  unfoldable pub compare_metadata :
      List (Text × tonic.Json)
      → tonic.MetadataMap
      → Context
      → MetadataMatchResult × List (Line pact)
  compare_metadata [] actual_metadata context = (matched, [])
  compare_metadata (e ∷ expected) actual_metadata context =
      if tonic.has_no_entries actual_metadata
      then (let (mismatches, output) = missing_keys (e ∷ expected) in
          (with_mismatches mismatches, output))
      else (let (mismatches, output) = compare_keys (e ∷ expected) actual_metadata context in
          (result_of mismatches, output))
