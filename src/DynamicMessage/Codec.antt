-- ===== src/DynamicMessage/Codec.antt =====
-- The encoder and the decoder of src/dynamic_message.rs that tonic calls with a message's bytes.
use pact_protobuf_plugin.Base.{ℕ, ◌≤◌, ◌≡◌, ◌⊎◌, sym, true, Option, some, List, All, length}
use mathlib.Core.Path.{subst}
use pact_protobuf_plugin.ProstTypes.{DescriptorProto, FileDescriptorSet}
use pact_protobuf_plugin.Outcome.{Outcome, ok, ◌>>=◌}
use pact_protobuf_plugin.Field.{ProtobufField, repeated_field}
use pact_protobuf_plugin.Libraries.{Libraries}
use pact_protobuf_plugin.Libraries.Sort.{Member-sorted_by}
use pact_protobuf_plugin.Lookup.Search.{All-Member, All-intro}
use pact_protobuf_plugin.Decoder.Message.{decode_message}
use pact_protobuf_plugin.DynamicMessage.{DynamicMessage, new, write_to}
use pact_protobuf_plugin.DynamicMessage.Reads.{IsField}
use pact_protobuf_plugin.DynamicMessage.RoundTrip.{
  IsMessage, decode_message-write_to-new, new-IsEntry,
}

pub record DynamicMessageDecoder : Type 0 where
  pub descriptor : DescriptorProto
  pub file_descriptor_set : FileDescriptorSet

module _ (libs : Libraries) where
  -- `Encoder::encode`. An error becomes a status with its text.
  unfoldable pub encode : DynamicMessage → Outcome (List ℕ)
  encode item = write_to libs item

  -- `Decoder::decode`.
  unfoldable pub decode : DynamicMessageDecoder → List ℕ → Outcome (Option DynamicMessage)
  decode decoder src =
      decode_message libs src decoder.descriptor decoder.file_descriptor_set >>= λ fields.
      new libs fields decoder.file_descriptor_set >>= λ message. ok (some message)

  -- The fields of a message, sorted, are those of a message.
  sorted-IsMessage :
      (d : DescriptorProto) (fds : FileDescriptorSet) (fs : List ProtobufField)
      → IsMessage d fds fs
      → IsMessage d fds (libs.sorted_by ProtobufField (λ f. f.field_num) fs)
  sorted-IsMessage d fds fs is = record {
    are_fields = All-intro (IsField d fds) _ (λ f m.
        All-Member (IsField d fds) fs is.are_fields f
          (Member-sorted_by libs (λ (g : ProtobufField). g.field_num) fs f m));
    repeats = λ k.
        subst (λ xs. (length xs ≤ 1) ⊎ All (λ f. repeated_field f ≡ true) xs)
          (sym (libs.with_key-sorted_by ProtobufField (λ f. f.field_num) fs k)) (is.repeats k);
  }

  -- For fields that the descriptor has, each with one value in the range of its type, sint32 and sint64
  -- left out, and with a number twice only where its fields are repeated: the message that is made of
  -- them is encoded, and the bytes are decoded to the message that is made of the same fields sorted
  -- by their numbers.
  pub decode-encode :
      (decoder : DynamicMessageDecoder) (fs : List ProtobufField)
      → IsMessage decoder.descriptor decoder.file_descriptor_set fs
      → (m : DynamicMessage) × (bytes : List ℕ) × (m' : DynamicMessage) × (new libs fs
            decoder.file_descriptor_set
          ≡ ok m)
        × (encode m ≡ ok bytes)
        × (decode decoder bytes ≡ ok (some m'))
        × (new libs (libs.sorted_by ProtobufField (λ f. f.field_num) fs) decoder.file_descriptor_set
            ≡ ok m')
  unfolding encode decode
  decode-encode decoder fs is =
      let d = decoder.descriptor in
      let fds = decoder.file_descriptor_set in
      let (m, bytes, made, written, back) = decode_message-write_to-new libs d fds fs is in
      let (m', made', all, same) = new-IsEntry libs d fds _ (sorted-IsMessage d fds fs is) in
      (m, bytes, m', made, written, rw back (rw made'), made')
