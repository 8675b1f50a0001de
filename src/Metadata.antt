-- ===== src/Metadata.antt =====
-- src/metadata.rs: the comparison of gRPC metadata, and status codes. Colours are left out of the output,
-- which is given by its parts.
pub mod Codes
pub mod Compare
pub mod Sound
pub mod Special
use pact_protobuf_plugin.Base.{
  ℕ, ◌⊎◌, inl, inr, ◌+◌, Bool, true, false, ◌&&◌, ◌||◌, not, Option, none, some, List, [], ◌∷◌,
  ◌++◌, map, filter, is_empty, find, leb, if◌then◌else◌, unwrap_or,
}
use pact_protobuf_plugin.Base.Text.{Text, codes, text_eq}
use pact_protobuf_plugin.Matching.{Pact, MatchValue}

-- tonic::Code.
pub data Code : Type 0 where
  ok cancelled unknown invalid_argument deadline_exceeded not_found already_exists : Code
  permission_denied resource_exhausted failed_precondition aborted out_of_range : Code
  unimplemented internal unavailable data_loss unauthenticated : Code

-- tonic::Status.
pub record Status : Type 0 where
  pub code : Code
  pub message : Text

-- What the comparison calls of tonic and serde_json: the map of the actual metadata, whose values are
-- texts or are not, the text of a JSON value, and Code::from_bytes.
pub record Tonic : Type 1 where
  pub Json : Type 0
  pub MetadataMap : Type 0
  pub MetadataValue : Type 0
  pub json_to_string : Json → Text
  pub to_string : Json → Text
  pub has_no_entries : MetadataMap → Bool
  pub get : MetadataMap → Text → Option MetadataValue
  pub to_str : MetadataValue → Text ⊎ Text
  pub from_bytes : Text → Code

unfoldable pub code_desc : Code → Text
code_desc Code.ok = codes "OK"
code_desc Code.cancelled = codes "CANCELLED"
code_desc Code.unknown = codes "UNKNOWN"
code_desc Code.invalid_argument = codes "INVALID_ARGUMENT"
code_desc Code.deadline_exceeded = codes "DEADLINE_EXCEEDED"
code_desc Code.not_found = codes "NOT_FOUND"
code_desc Code.already_exists = codes "ALREADY_EXISTS"
code_desc Code.permission_denied = codes "PERMISSION_DENIED"
code_desc Code.resource_exhausted = codes "RESOURCE_EXHAUSTED"
code_desc Code.failed_precondition = codes "FAILED_PRECONDITION"
code_desc Code.aborted = codes "ABORTED"
code_desc Code.out_of_range = codes "OUT_OF_RANGE"
code_desc Code.unimplemented = codes "UNIMPLEMENTED"
code_desc Code.internal = codes "INTERNAL"
code_desc Code.unavailable = codes "UNAVAILABLE"
code_desc Code.data_loss = codes "DATA_LOSS"
code_desc Code.unauthenticated = codes "UNAUTHENTICATED"

-- The names that string_to_code knows, but OK, with the codes of the statuses that it makes.
abbrev pub named_codes : List (Text × Code)
named_codes =
    (codes "CANCELLED", Code.cancelled)
    ∷ (codes "UNKNOWN", Code.unknown)
    ∷ (codes "INVALID_ARGUMENT", Code.invalid_argument)
    ∷ (codes "DEADLINE_EXCEEDED", Code.deadline_exceeded)
    ∷ (codes "NOT_FOUND", Code.not_found)
    ∷ (codes "ALREADY_EXISTS", Code.already_exists)
    ∷ (codes "PERMISSION_DENIED", Code.permission_denied)
    ∷ (codes "RESOURCE_EXHAUSTED", Code.resource_exhausted)
    ∷ (codes "FAILED_PRECONDITION", Code.failed_precondition)
    ∷ (codes "ABORTED", Code.aborted)
    ∷ (codes "OUT_OF_RANGE", Code.out_of_range)
    ∷ (codes "UNIMPLEMENTED", Code.unimplemented)
    ∷ (codes "INTERNAL", Code.internal)
    ∷ (codes "UNAVAILABLE", Code.unavailable)
    ∷ (codes "DATA_LOSS", Code.data_loss)
    ∷ (codes "UNAUTHENTICATED", Code.unauthenticated)
    ∷ []

-- A code that was read from the bytes of a status: none where it is OK.
unfoldable pub status_of : Code → Text → Option Status
status_of Code.ok message = none
status_of code message = some (record { code = code; message = message })

-- to_lowercase, for a comparison with names whose letters are lower-case letters of ASCII other than k:
-- no letter outside of ASCII becomes one of them.
unfoldable pub to_lowercase : Text → Text
to_lowercase s = map (λ c. if leb 65 c && leb c 90 then c + 32 else c) s

unfoldable pub is_special_metadata_key : Text → Bool
is_special_metadata_key key =
    text_eq (to_lowercase key) (codes "content-type")
    || text_eq (to_lowercase key) (codes "contenttype")

-- The text of a mismatch.
pub data Reason : Type 0 where
  key_missing : Text → Reason
  value_missing : Text → Reason
  comparison_failed : Text → Text → Reason
  codes_differ : Text → Code → Code → Reason
  not_text : Text → Text → Reason

-- Mismatch::MetadataMismatch.
pub record MetadataMismatch : Type 0 where
  pub key : Text
  pub expected : Text
  pub actual : Text
  pub mismatch : Reason

pub record MetadataMatchResult : Type 0 where
  pub result : Bool
  pub mismatches : List MetadataMismatch

-- MetadataMatchResult::mismatches.
unfoldable pub with_mismatches : List MetadataMismatch → MetadataMatchResult
with_mismatches mismatches = record { result = false; mismatches = mismatches }

-- MetadataMatchResult::ok.
abbrev pub matched : MetadataMatchResult
matched = record { result = true; mismatches = [] }

unfoldable pub all_matched : MetadataMatchResult → Bool
all_matched r = r.result

-- A mismatch of the key.
abbrev pub mismatch_at : Text → Text → Text → Reason → MetadataMismatch
mismatch_at key expected actual reason = record {
  key = key;
  expected = expected;
  actual = actual;
  mismatch = reason;
}

module _ (tonic : Tonic) where
  unfoldable pub string_to_code : Text → Text → Option Status
  string_to_code status message =
      if text_eq status (codes "OK")
      then none
      else elim (find (λ n. text_eq n.0 status) named_codes) [
        | some known ↦ some (record { code = known.1; message = message })
        | none ↦ status_of (tonic.from_bytes status) message
      ]

  -- The metadata of the contents, by `get`.
  unfoldable pub grpc_status : (Text → Option tonic.Json) → Option Status
  grpc_status metadata = elim (metadata (codes "grpc-status")) [
    | some value ↦
        string_to_code (tonic.json_to_string value) (elim (metadata (codes "grpc-message")) [
          | some message ↦ tonic.json_to_string message
          | none ↦ codes "No message set"
        ])
    | none ↦ none
  ]
