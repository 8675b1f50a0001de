-- ===== src/Metadata/Special.antt =====
-- Expected metadata of special keys alone.
use pact_protobuf_plugin.Base.{◌≡◌, ◌≢◌, refl, true, List, [], ◌∷◌, All}
use pact_protobuf_plugin.Base.Text.{Text}
use pact_protobuf_plugin.Matching.{Pact}
use pact_protobuf_plugin.Metadata.{Tonic, with_mismatches, is_special_metadata_key}
use pact_protobuf_plugin.Metadata.Compare.{missing, missing_keys, compare_metadata}

module _ (pact : Pact) (tonic : Tonic) where
  missing_keys_special :
      (expected : List (Text × tonic.Json))
      → All (λ e. is_special_metadata_key e.0 ≡ true) expected
      → missing_keys pact tonic expected ≡ ([], [])
  unfolding missing_keys missing
  missing_keys_special [] special = refl
  missing_keys_special ((key, value) ∷ rest) (first, others) =
      rw (first, missing_keys_special rest others)

  -- Where there are no actual metadata, and the expected ones are some special keys alone, which may be
  -- missing, compare_metadata fails without a mismatch and without a line of output.
  pub compare_metadata_special :
      (expected : List (Text × tonic.Json)) (actual : tonic.MetadataMap) (context : pact.Context)
      → expected ≢ []
      → All (λ e. is_special_metadata_key e.0 ≡ true) expected
      → tonic.has_no_entries actual ≡ true
      → compare_metadata pact tonic expected actual context ≡ (with_mismatches [], [])
  unfolding compare_metadata
  compare_metadata_special [] actual context some_keys special empty = absurd (some_keys refl)
  compare_metadata_special (e ∷ expected) actual context some_keys special empty =
      rw (empty, missing_keys_special (e ∷ expected) special)
