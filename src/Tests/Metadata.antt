-- ===== src/Tests/Metadata.antt =====
-- Runs of the comparison of metadata, with no matcher defined.
use pact_protobuf_plugin.Base.{
  ◌≡◌, ◌≢◌, ◌↔◌, ◌⊎◌, refl, inl, true, false, none, some, List, [], ◌∷◌, find, is_empty,
}
use pact_protobuf_plugin.Base.Text.{Text, codes, text_eq}
use pact_protobuf_plugin.Matching.{DiffConfig}
use pact_protobuf_plugin.Metadata.{
  Code, Tonic, code_desc, string_to_code, all_matched, with_mismatches, is_special_metadata_key,
  to_lowercase,
}
use pact_protobuf_plugin.Metadata.Codes.{string_to_code-code_desc}
use pact_protobuf_plugin.Metadata.Compare.{compare_metadata}
use pact_protobuf_plugin.Metadata.Sound.{KeysMatch, compare_metadata_iff}
use pact_protobuf_plugin.Metadata.Special.{compare_metadata_special}
use pact_protobuf_plugin.Tests.Matching.{test_pact}

-- The values are texts.
abbrev test_tonic : Tonic
test_tonic = record {
  Json = Text;
  MetadataMap = List (Text × Text);
  MetadataValue = Text;
  json_to_string = λ s. s;
  to_string = λ s. s;
  has_no_entries = λ m. is_empty m;
  get = λ m key. elim (find (λ (e : Text × Text). text_eq e.0 key) m) [
    | some e ↦ some e.1
    | none ↦ none
  ];
  to_str = λ s. inl s;
  from_bytes = λ s. Code.unknown;
}

string_to_code-code_desc_example :
    string_to_code test_tonic (code_desc Code.not_found) (codes "gone")
    ≡ some (record { code = Code.not_found; message = codes "gone" })
string_to_code-code_desc_example =
    string_to_code-code_desc test_tonic Code.not_found (codes "gone") different
  where
    different : Code.not_found ≢ Code.ok
    different e = cc

abbrev expected_metadata : List (Text × Text)
expected_metadata =
    (codes "grpc-status", codes "NOT_FOUND")
    ∷ (codes "Content-Type", codes "application/grpc")
    ∷ (codes "trace", codes "abc")
    ∷ []

abbrev actual_metadata : List (Text × Text)
actual_metadata = (codes "trace", codes "abc") ∷ (codes "grpc-status", codes "NOT_FOUND") ∷ []

compare_metadata_iff_example :
    (all_matched
        (compare_metadata test_pact test_tonic expected_metadata actual_metadata
          DiffConfig.no_unexpected_keys).0
      ≡ true)
    ↔ ((expected_metadata ≡ [])
        ⊎ ((false ≡ false)
            × KeysMatch test_pact test_tonic DiffConfig.no_unexpected_keys actual_metadata
                expected_metadata))
compare_metadata_iff_example =
    compare_metadata_iff test_pact test_tonic DiffConfig.no_unexpected_keys expected_metadata
      actual_metadata

abbrev special_metadata : List (Text × Text)
special_metadata = (codes "Content-Type", codes "application/grpc") ∷ []

compare_metadata_special_example :
    compare_metadata test_pact test_tonic special_metadata [] DiffConfig.no_unexpected_keys
    ≡ (with_mismatches [], [])
unfolding is_special_metadata_key to_lowercase
compare_metadata_special_example =
    compare_metadata_special test_pact test_tonic special_metadata [] DiffConfig.no_unexpected_keys
      nonempty (refl, tt) refl
  where
    nonempty : special_metadata ≢ []
    nonempty e = cc
