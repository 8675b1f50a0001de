-- ===== src/Metadata/Sound.antt =====
-- When gRPC metadata match.
use pact_protobuf_plugin.Base.{
  ◌≡◌, refl, sym, ap, ◌∙◌, ◌↔◌, ◌⊎◌, inl, inr, Bool, true, false, Bool-cases, Option, none, some,
  List, [], ◌∷◌, All, map, find, unwrap_or,
}
use pact_protobuf_plugin.Base.Text.{Text, codes, text_eq, text_eq→eq, text_eq_self}
use pact_protobuf_plugin.Matching.{Pact, MatchValue}
use pact_protobuf_plugin.Matching.Items.{append-nil_iff}
use pact_protobuf_plugin.Metadata.{
  Code, Status, Tonic, MetadataMismatch, code_desc, named_codes, with_mismatches,
  is_special_metadata_key, string_to_code, all_matched,
}
use pact_protobuf_plugin.Metadata.Compare.{
  same_code, match_by_rules, match_status, match_by_equality, match_text, match_metadata_value,
  missing, compare_key, compare_keys, result_of, compare_metadata,
}

-- The code with the name.
abbrev code_named : Text → Code
code_named s = elim (find (λ n. text_eq n.0 s) ((codes "OK", Code.ok) ∷ named_codes)) [
  | some known ↦ known.1
  | none ↦ Code.unknown
]

code_named-code_desc : (c : Code) → code_named (code_desc c) ≡ c
unfolding code_desc
code_named-code_desc Code.ok = refl
code_named-code_desc Code.cancelled = refl
code_named-code_desc Code.unknown = refl
code_named-code_desc Code.invalid_argument = refl
code_named-code_desc Code.deadline_exceeded = refl
code_named-code_desc Code.not_found = refl
code_named-code_desc Code.already_exists = refl
code_named-code_desc Code.permission_denied = refl
code_named-code_desc Code.resource_exhausted = refl
code_named-code_desc Code.failed_precondition = refl
code_named-code_desc Code.aborted = refl
code_named-code_desc Code.out_of_range = refl
code_named-code_desc Code.unimplemented = refl
code_named-code_desc Code.internal = refl
code_named-code_desc Code.unavailable = refl
code_named-code_desc Code.data_loss = refl
code_named-code_desc Code.unauthenticated = refl

same_code_iff : (a b : Code) → (same_code a b ≡ true) ↔ (a ≡ b)
unfolding same_code
same_code_iff a b = (
  λ e.
      sym (code_named-code_desc a)
      ∙ ap code_named (text_eq→eq (code_desc a) (code_desc b) e)
      ∙ code_named-code_desc b,
  λ e. rw (e) (text_eq_self (code_desc b)),
)

map-nil_iff : {A B : Type 0} (f : A → B) (xs : List A) → (map f xs ≡ []) ↔ (xs ≡ [])
map-nil_iff f [] = (λ e. refl, λ e. refl)
map-nil_iff f (x ∷ xs) = (λ e. cc, λ e. cc)

module _ (pact : Pact) (tonic : Tonic) (context : pact.Context) where
  -- The actual status has the code of the expected one; each does where none is expected.
  abbrev pub StatusMatches : Option Status → Status → Type 0
  StatusMatches none actual = Unit {0}
  StatusMatches (some expected) actual = expected.code ≡ actual.code

  -- The text of a key matches, by a matcher, as a status or by equality.
  abbrev pub TextMatches : Bool → Bool → Text → Text → Text → Type 0
  TextMatches true is_status key expected actual =
      pact.match_values (pact.join pact.root key)
        (pact.select_best_matcher context (pact.join pact.root key)) (MatchValue.text expected)
        (MatchValue.text actual)
      ≡ []
  TextMatches false true key expected actual =
      StatusMatches (string_to_code tonic expected [])
        (unwrap_or (string_to_code tonic actual []) (record { code = Code.unknown; message = [] }))
  TextMatches false false key expected actual = expected ≡ actual

  abbrev pub ValueMatches : Text → Text → Text ⊎ Text → Type 0
  ValueMatches key expected (inl actual) =
      TextMatches (pact.matcher_is_defined context (pact.join pact.root key))
        (text_eq key (codes "grpc-status")) key expected actual
  ValueMatches key expected (inr e) = ⊥

  -- A key is special, or the actual metadata have it and its value matches.
  abbrev pub KeyMatches : Text → tonic.Json → Option tonic.MetadataValue → Type 0
  KeyMatches key expected none = is_special_metadata_key key ≡ true
  KeyMatches key expected (some actual) =
      ValueMatches key (tonic.json_to_string expected) (tonic.to_str actual)

  match_status_iff :
      (key expected actual : Text) (actual_status : Status) (expected_status : Option Status)
      → ((match_status pact tonic key expected actual actual_status expected_status).0 ≡ [])
        ↔ StatusMatches expected_status actual_status
  unfolding match_status
  match_status_iff key expected actual actual_status none = (λ e. tt, λ e. refl)
  match_status_iff key expected actual actual_status (some s) =
      let same = same_code_iff s.code actual_status.code in
      elim (Bool-cases (same_code s.code actual_status.code)) [
        | inl yes_same ↦ rw (yes_same) (λ e. same.0 yes_same, λ e. refl)
        | inr differ ↦ rw (differ) (λ e. cc, λ e. let h = same.1 e in cc)
      ]

  match_by_equality_iff :
      (key expected actual : Text) (o : Option Text)
      → ((match_by_equality pact tonic key expected actual o).0 ≡ []) ↔ (o ≡ none)
  unfolding match_by_equality
  match_by_equality_iff key expected actual none = (λ e. refl, λ e. refl)
  match_by_equality_iff key expected actual (some m) = (λ e. cc, λ e. cc)

  match_text_iff :
      (key expected actual : Text)
      → ((match_text pact tonic key expected context actual).0 ≡ [])
        ↔ TextMatches
            (pact.matcher_is_defined context (pact.join pact.root key))
            (text_eq key (codes "grpc-status"))
            key
            expected
            actual
  unfolding match_text match_by_rules
  match_text_iff key expected actual =
      elim (Bool-cases (pact.matcher_is_defined context (pact.join pact.root key))) [
        | inl defined ↦ rw (defined) (map-nil_iff _ _)
        | inr free ↦ elim (Bool-cases (text_eq key (codes "grpc-status"))) [
          | inl status ↦ rw (free, status) (match_status_iff key expected actual _ _)
          | inr other ↦
              let both =
                match_by_equality_iff key expected actual
                  (pact.matches_equality (MatchValue.text expected) (MatchValue.text actual)) in
              rw (free, other)
                (
                  λ e.
                      pact.AreEqual-matches_equality (MatchValue.text expected)
                        (MatchValue.text actual) (both.0 e),
                  λ same. both.1 (
                      pact.matches_equality-AreEqual (MatchValue.text expected)
                        (MatchValue.text actual) same),
                )
        ]
      ]

  match_metadata_value_iff :
      (key expected : Text) (actual : Text ⊎ Text)
      → ((match_metadata_value pact tonic key expected context actual).0 ≡ [])
        ↔ ValueMatches key expected actual
  unfolding match_metadata_value
  match_metadata_value_iff key expected (inl actual) = match_text_iff key expected actual
  match_metadata_value_iff key expected (inr e) = (λ h. cc, λ h. absurd h)

  compare_key_iff :
      (key : Text) (expected : tonic.Json) (actual : Option tonic.MetadataValue)
      → ((compare_key pact tonic key expected context actual).0 ≡ [])
        ↔ KeyMatches key expected actual
  unfolding compare_key missing
  compare_key_iff key expected none = elim (Bool-cases (is_special_metadata_key key)) [
    | inl special ↦ rw (special) (λ e. refl, λ e. refl)
    | inr usual ↦ rw (usual) (λ e. cc, λ e. cc)
  ]
  compare_key_iff key expected (some a) =
      match_metadata_value_iff key (tonic.json_to_string expected) (tonic.to_str a)

  abbrev pub KeysMatch : tonic.MetadataMap → List (Text × tonic.Json) → Type 0
  KeysMatch actual expected = All (λ e. KeyMatches e.0 e.1 (tonic.get actual e.0)) expected

  compare_keys_iff :
      (actual : tonic.MetadataMap) (expected : List (Text × tonic.Json))
      → ((compare_keys pact tonic expected actual context).0 ≡ []) ↔ KeysMatch actual expected
  unfolding compare_keys
  compare_keys_iff actual [] = (λ e. tt, λ e. refl)
  compare_keys_iff actual ((key, value) ∷ rest) =
      let both =
        append-nil_iff (compare_key pact tonic key value context (tonic.get actual key)).0
          (compare_keys pact tonic rest actual context).0 in
      let one = compare_key_iff key value (tonic.get actual key) in
      let others = compare_keys_iff actual rest in
      (
        λ e. let (here, more) = both.0 e in (one.0 here, others.0 more),
        λ (here, more). both.1 (one.1 here, others.1 more),
      )

  result_of_iff :
      (ms : List MetadataMismatch) → (all_matched (result_of pact tonic ms) ≡ true) ↔ (ms ≡ [])
  unfolding result_of all_matched with_mismatches
  result_of_iff [] = (λ e. refl, λ e. refl)
  result_of_iff (m ∷ ms) = (λ e. cc, λ e. cc)

  -- compare_metadata matches exactly where nothing is expected, or where there are actual metadata and
  -- each expected key matches: one that the actual metadata do not have is special; one that they have
  -- is a text that the matcher for the key accepts, or, where none is defined, that for grpc-status has
  -- the code that is expected, and for other keys is equal to the expected text. An actual status that
  -- reads as OK counts as unknown, and where the expected one reads as OK, any status matches.
  pub compare_metadata_iff :
      (expected : List (Text × tonic.Json)) (actual : tonic.MetadataMap)
      → (all_matched (compare_metadata pact tonic expected actual context).0 ≡ true)
        ↔ ((expected ≡ []) ⊎ ((tonic.has_no_entries actual ≡ false) × KeysMatch actual expected))
  unfolding compare_metadata all_matched with_mismatches
  compare_metadata_iff [] actual = (λ e. inl refl, λ e. refl)
  compare_metadata_iff (e ∷ expected) actual = elim (Bool-cases (tonic.has_no_entries actual)) [
    | inl empty ↦ rw (empty) (λ h. cc, λ h. absurd (neither h))
    | inr some_there ↦
        let results = result_of_iff (compare_keys pact tonic (e ∷ expected) actual context).0 in
        let keys = compare_keys_iff actual (e ∷ expected) in
        rw (some_there) (λ h. inr (refl, keys.0 (results.0 h)), λ h. results.1 (keys.1 (second h)))
  ]
    where
      neither : {A : Type 0} → ((e ∷ expected) ≡ []) ⊎ ((true ≡ false) × A) → ⊥
      neither (inl h) = cc
      neither (inr h) = cc (h.0)

      second : {A B : Type 0} → ((e ∷ expected) ≡ []) ⊎ (A × B) → B
      second (inl h) = cc
      second (inr h) = h.1
