-- ===== src/Metadata/Codes.antt =====
-- Status codes and their names.
use pact_protobuf_plugin.Base.{◌≡◌, ◌≢◌, refl, some}
use pact_protobuf_plugin.Base.Text.{Text}
use pact_protobuf_plugin.Metadata.{Code, Tonic, code_desc, string_to_code}

module _ (tonic : Tonic) where
  -- The status that is read from the name of a code other than OK has this code and the message.
  pub string_to_code-code_desc :
      (code : Code) (message : Text)
      → code ≢ Code.ok
      → string_to_code tonic (code_desc code) message
        ≡ some (record { code = code; message = message })
  unfolding string_to_code code_desc
  string_to_code-code_desc Code.ok message other = absurd (other refl)
  string_to_code-code_desc Code.cancelled message other = refl
  string_to_code-code_desc Code.unknown message other = refl
  string_to_code-code_desc Code.invalid_argument message other = refl
  string_to_code-code_desc Code.deadline_exceeded message other = refl
  string_to_code-code_desc Code.not_found message other = refl
  string_to_code-code_desc Code.already_exists message other = refl
  string_to_code-code_desc Code.permission_denied message other = refl
  string_to_code-code_desc Code.resource_exhausted message other = refl
  string_to_code-code_desc Code.failed_precondition message other = refl
  string_to_code-code_desc Code.aborted message other = refl
  string_to_code-code_desc Code.out_of_range message other = refl
  string_to_code-code_desc Code.unimplemented message other = refl
  string_to_code-code_desc Code.internal message other = refl
  string_to_code-code_desc Code.unavailable message other = refl
  string_to_code-code_desc Code.data_loss message other = refl
  string_to_code-code_desc Code.unauthenticated message other = refl
