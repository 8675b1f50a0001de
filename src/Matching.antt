-- ===== src/Matching.antt =====
-- The data of src/matching.rs: mismatches and results, what is called of pact_matching and
-- pact_models, and compare_value.
pub mod Lists
pub mod Maps
pub mod Messages
pub mod Fields
pub mod Service
pub mod Values
pub mod Sound
pub mod Items
pub mod Entries
pub mod Scalars
use pact_protobuf_plugin.Base.{
  ℕ, ◌≡◌, ◌≢◌, ◌<◌, ◌⊎◌, Bool, true, false, Option, none, some, List, [], ◌∷◌, map, if◌then◌else◌,
}
use pact_protobuf_plugin.Base.Text.{Text}
use pact_protobuf_plugin.Base.Int.{ℤ}
use pact_protobuf_plugin.ProstTypes.{FieldDescriptorProto}
use pact_protobuf_plugin.Outcome.{Outcome, Error, Ends}
use pact_protobuf_plugin.Field.{ProtobufField, ProtobufFieldData}
use pact_protobuf_plugin.Libraries.{Libraries}
use pact_protobuf_plugin.Defaults.{Floats}
use pact_protobuf_plugin.FieldValue.{FloatCasts}
use pact_protobuf_plugin.BTreeMap.{BTreeMap}
use pact_protobuf_plugin.StructJson.{Json}
use pact_protobuf_plugin.Lookup.Search.{Member}

-- pact_matching::DiffConfig.
pub data DiffConfig : Type 0 where
  allow_unexpected_keys no_unexpected_keys : DiffConfig

-- The bytes that a mismatch shows: those of a text, or the Debug output of fields.
pub data Shown : Type 0 where
  text : List ℕ → Shown
  debug : List ProtobufField → Shown

-- The text of a mismatch: one constructor for each message that the code builds, and one for those
-- that pact_matching returns.
pub data Explanation : Type 0 where
  library : Text → Explanation
  message_missing : Text → Explanation
  unresolved_reference : Text → Explanation
  field_not_missing : Text → Explanation
  expected_not_decoded actual_not_decoded : Text → Error → Explanation
  type_name_not_set : Text → Explanation
  different_types : ProtobufField → ProtobufField → Explanation
  not_empty : Text → ℕ → Explanation
  different_lengths : Text → ℕ → ℕ → Explanation
  field_missing : Text → ℕ → ProtobufFieldData → Explanation
  entry_missing : Text → Text → Explanation
  comparison_failed : Error → Explanation

-- Mismatch::BodyMismatch.
pub record Mismatch : Type 0 where
  pub path : Text
  pub expected : Option Shown
  pub actual : Option Shown
  pub mismatch : Explanation

-- BodyMatchResult: the mismatches under each path. The map of the source has no order; here it is that of
-- the paths.
pub data BodyMatchResult : Type 0 where
  matches : BodyMatchResult
  body_mismatches : BTreeMap (List Mismatch) → BodyMatchResult

pub record MapEntry : Type 0 where
  pub field_descriptor : FieldDescriptorProto
  pub value : ProtobufField

-- The values that are compared: the instances of `Matches` that the code uses. A double is its bit
-- pattern.
pub data MatchValue : Type 0 where
  text : Text → MatchValue
  boolean : Bool → MatchValue
  unsigned : ℕ → MatchValue
  signed_32 : ℤ → MatchValue
  signed_64 : ℤ → MatchValue
  double : ℕ → MatchValue
  bytes : List ℕ → MatchValue

-- The bit pattern of a number: no NaN, whatever the sign.
abbrev pub IsNumber : ℕ → Type 0
IsNumber n = (n < 0x7ff0000000000001) ⊎ ((0x7fffffffffffffff < n) × (n < 0xfff0000000000001))

-- `==` of two values of one type: both zeros are equal, and no NaN is equal to anything.
abbrev pub AreEqual : MatchValue → MatchValue → Type 0
AreEqual (MatchValue.text s) (MatchValue.text t) = s ≡ t
AreEqual (MatchValue.boolean a) (MatchValue.boolean b) = a ≡ b
AreEqual (MatchValue.unsigned m) (MatchValue.unsigned n) = m ≡ n
AreEqual (MatchValue.signed_32 i) (MatchValue.signed_32 j) = i ≡ j
AreEqual (MatchValue.signed_64 i) (MatchValue.signed_64 j) = i ≡ j
AreEqual (MatchValue.double m) (MatchValue.double n) =
    (IsNumber m × (m ≡ n))
    ⊎ (((m ≡ 0) ⊎ (m ≡ 0x8000000000000000)) × ((n ≡ 0) ⊎ (n ≡ 0x8000000000000000)))
AreEqual (MatchValue.bytes a) (MatchValue.bytes b) = a ≡ b
AreEqual _ _ = ⊥

-- What the comparison calls of pact_matching and pact_models. A `Result` with an error list is the
-- list, which is empty on success. `each_value` gives the rules of an EachValue matcher: rules, and
-- names of references. A callback gets the path, the two items and the context.
pub record Pact : Type 1 where
  pub libs : Libraries
  pub floats : Floats
  pub casts : FloatCasts
  pub DocPath : Type 0
  pub Context : Type 0
  pub MatchingRule : Type 0
  pub RuleList : Type 0
  pub Category : Type 0
  pub root : DocPath
  pub join : DocPath → Text → DocPath
  pub path_to_string : DocPath → Text
  pub core_context : DiffConfig → Category → Context
  pub config : Context → DiffConfig
  pub matcher_is_defined : Context → DocPath → Bool
  pub values_matcher_defined : Context → DocPath → Bool
  pub select_best_matcher : Context → DocPath → RuleList
  pub rules : RuleList → List MatchingRule
  pub cascaded : RuleList → Bool
  pub each_value : MatchingRule → Option (List (MatchingRule ⊎ Text))
  pub clone_with_matchers : Context → Context
  pub clone_with_rules : Context → DocPath → List MatchingRule → Context
  pub match_values : DocPath → RuleList → MatchValue → MatchValue → List Text
  pub matches_equality : MatchValue → MatchValue → Option Text
  pub match_keys : Context → DocPath → List Text → List Text → List Mismatch
  pub compare_json : Context → DocPath → Json → Json → List Mismatch
  pub compare_lists_with_matchingrule :
      MatchingRule
      → DocPath
      → List ProtobufField
      → List ProtobufField
      → Context
      → Bool
      → (DocPath → ProtobufField → ProtobufField → Context → Outcome (List Mismatch))
      → Outcome (List Mismatch)
  pub compare_maps_with_matchingrule :
      MatchingRule
      → Bool
      → DocPath
      → BTreeMap MapEntry
      → BTreeMap MapEntry
      → Context
      → (DocPath → MapEntry → MapEntry → Context → Outcome (List Mismatch))
      → Outcome (List Mismatch)
  -- The equality matcher accepts equal values, and only those.
  pub matches_equality-AreEqual : (a b : MatchValue) → AreEqual a b → matches_equality a b ≡ none
  pub AreEqual-matches_equality : (a b : MatchValue) → matches_equality a b ≡ none → AreEqual a b
  -- The same keys match where no matcher is defined for the map.
  pub match_keys_same :
      (context : Context) (path : DocPath) (keys : List Text)
      → matcher_is_defined context path ≡ false
      → match_keys context path keys keys ≡ []
  -- The comparisons call their callback on items of the two collections, and come to an end where it
  -- does.
  pub compare_lists-Ends :
      (rule : MatchingRule) (path : DocPath) (expected actual : List ProtobufField)
      (context : Context) (is_cascaded : Bool)
      (callback : DocPath → ProtobufField → ProtobufField → Context → Outcome (List Mismatch))
      → ((p : DocPath) (e a : ProtobufField) (c : Context)
          → Member e expected
          → Member a actual
          → Ends (callback p e a c))
      → Ends
          (compare_lists_with_matchingrule rule path expected actual context is_cascaded callback)
  pub compare_maps-Ends :
      (rule : MatchingRule) (is_cascaded : Bool) (path : DocPath)
      (expected actual : BTreeMap MapEntry) (context : Context)
      (callback : DocPath → MapEntry → MapEntry → Context → Outcome (List Mismatch))
      → ((p : DocPath) (e a : Text × MapEntry) (c : Context)
          → Member e expected
          → Member a actual
          → Ends (callback p e.1 a.1 c))
      → Ends (compare_maps_with_matchingrule rule is_cascaded path expected actual context callback)

-- A mismatch with the texts of both sides.
abbrev pub mismatch_of : Text → Option Shown → Option Shown → Explanation → Mismatch
mismatch_of path expected actual explanation = record {
  path = path;
  expected = expected;
  actual = actual;
  mismatch = explanation;
}

module _ (pact : Pact) where
  open pact use {DocPath, Context}

  -- A comparison of the type of compare_field: the path, the expected field, its descriptor, the actual
  -- field and the context.
  abbrev pub Compare : Type 0
  Compare =
      DocPath
      → ProtobufField
      → FieldDescriptorProto
      → ProtobufField
      → Context
      → Outcome (List Mismatch)

  -- What the equality matcher returns, as mismatches.
  unfoldable pub equality_mismatches : DocPath → Text → Text → Option Text → List Mismatch
  equality_mismatches path expected_str actual_str none = []
  equality_mismatches path expected_str actual_str (some e) =
      mismatch_of (pact.path_to_string path) (some (Shown.text expected_str))
        (some (Shown.text actual_str)) (Explanation.library e)
      ∷ []

  -- A matcher that is defined for the path decides, and equality where there is none.
  unfoldable pub compare_value :
      DocPath → MatchValue → MatchValue → Text → Text → Context → List Mismatch
  compare_value path expected actual expected_str actual_str context =
      if pact.matcher_is_defined context path
      then map
          (λ m.
            mismatch_of (pact.path_to_string path) (some (Shown.text expected_str))
              (some (Shown.text actual_str)) (Explanation.library m))
          (pact.match_values path (pact.select_best_matcher context path) expected actual)
      else equality_mismatches path expected_str actual_str (pact.matches_equality expected actual)
