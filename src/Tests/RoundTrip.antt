-- ===== src/Tests/RoundTrip.antt =====
-- Runs of the codec on the test message.
use pact_protobuf_plugin.Base.{
  ℕ, ◌≤◌, ◌≡◌, refl, ◌⊎◌, inl, inr, true, List, [], ◌∷◌, All, length, some, Bool-cases, ==_iff,
  ◌==◌, arith,
}
use mathlib.Core.Path.{subst}
use pact_protobuf_plugin.Base.Text.{codes}
use pact_protobuf_plugin.Base.Int.{pos, negsuc, as_i32}
use pact_protobuf_plugin.Base.Bytes.{is_utf8}
use pact_protobuf_plugin.Outcome.{ok}
use pact_protobuf_plugin.Field.{ProtobufField, ProtobufFieldData, repeated_field, clone_with_data}
use pact_protobuf_plugin.Libraries.{with_key}
use pact_protobuf_plugin.Decoder.{find_field_descriptor}
use pact_protobuf_plugin.Decoder.Message.{decode_message}
use pact_protobuf_plugin.DynamicMessage.{DynamicMessage, new, write_to}
use pact_protobuf_plugin.DynamicMessage.Carries.{int64, string}
use pact_protobuf_plugin.DynamicMessage.Reads.{IsField}
use pact_protobuf_plugin.DynamicMessage.RoundTrip.{IsMessage, decode_message-write_to-new}
use pact_protobuf_plugin.DynamicMessage.Entries.{
  IsEntry, fields_of, all_fields, write_to-decode_message,
}
use pact_protobuf_plugin.DynamicMessage.Paths.{
  PathToken, find_field_value, set_field_value, fetch_field_value,
}
use pact_protobuf_plugin.DynamicMessage.Paths.Direct.{fetch_field_value-set_field_value}
use pact_protobuf_plugin.DynamicMessage.Codec.{DynamicMessageDecoder, encode, decode, decode-encode}
use pact_protobuf_plugin.Tests.Instance.{test_libraries}
use pact_protobuf_plugin.Tests.Data.{item, files, item_fields, id_of, tag_of}

id-IsField : IsField item files (id_of (negsuc 6))
unfolding find_field_descriptor as_i32
id-IsField = record {
  tag = (omega arith, omega arith);
  found = refl;
  named = refl;
  single = refl;
  carries = int64 (negsuc 6) refl (omega arith);
}

new_tag-IsField : IsField item files (tag_of (codes "new"))
unfolding find_field_descriptor as_i32 is_utf8
new_tag-IsField = record {
  tag = (omega arith, omega arith);
  found = refl;
  named = refl;
  single = refl;
  carries = string (codes "new") refl (omega arith) refl;
}

red_tag-IsField : IsField item files (tag_of (codes "red"))
unfolding find_field_descriptor as_i32 is_utf8
red_tag-IsField = record {
  tag = (omega arith, omega arith);
  found = refl;
  named = refl;
  single = refl;
  carries = string (codes "red") refl (omega arith) refl;
}

item_repeats :
    (k : ℕ)
    → (length (with_key (λ (f : ProtobufField). f.field_num) k item_fields) ≤ 1)
      ⊎ All (λ f. repeated_field f ≡ true) (with_key (λ f. f.field_num) k item_fields)
unfolding repeated_field
item_repeats k = elim (Bool-cases (2 == k)) [
  | inl two ↦
      subst
        (λ j.
          (length (with_key (λ (f : ProtobufField). f.field_num) j item_fields) ≤ 1)
          ⊎ All (λ f. repeated_field f ≡ true) (with_key (λ f. f.field_num) j item_fields))
        ((==_iff 2 k).0 two) (inr (refl, (refl, tt)))
  | inr other ↦ rw other (elim (Bool-cases (1 == k)) [
    | inl one ↦ inl (rw one (omega arith))
    | inr none_left ↦ inl (rw none_left (omega arith))
  ])
]

item-IsMessage : IsMessage item files item_fields
item-IsMessage = record {
  are_fields = (new_tag-IsField, (id-IsField, (red_tag-IsField, tt)));
  repeats = item_repeats;
}

decode_message-write_to-new_example :
    (m : DynamicMessage) × (bytes : List ℕ) × (new test_libraries item_fields files ≡ ok m)
    × (write_to test_libraries m ≡ ok bytes)
    × (decode_message test_libraries bytes item files
        ≡ ok (test_libraries.sorted_by ProtobufField (λ f. f.field_num) item_fields))
decode_message-write_to-new_example =
    decode_message-write_to-new test_libraries item files item_fields item-IsMessage

abbrev item_message : DynamicMessage
item_message = record {
  fields =
      (
        2,
        record (tag_of (codes "new")) {
          additional_data = ProtobufFieldData.string (codes "red") ∷ [];
        },
      )
      ∷ (1, id_of (negsuc 6))
      ∷ [];
  descriptors = files;
}

item_message-IsEntry : All (IsEntry item files) item_message.fields
unfolding fields_of clone_with_data repeated_field
item_message-IsEntry = (
  record {
    numbers = (refl, (refl, tt));
    are_fields = (new_tag-IsField, (red_tag-IsField, tt));
    repeats = inr refl;
  },
  (record { numbers = (refl, tt); are_fields = (id-IsField, tt); repeats = inl refl }, tt),
)

write_to-decode_message_example :
    (bytes : List ℕ) × (write_to test_libraries item_message ≡ ok bytes)
    × (decode_message test_libraries bytes item files
        ≡ ok (
            test_libraries.sorted_by ProtobufField
              (λ f. f.field_num)
              (all_fields
                (test_libraries.sorted_by (ℕ × ProtobufField) (λ p. p.0) item_message.fields))))
write_to-decode_message_example =
    write_to-decode_message test_libraries item files item_message item_message-IsEntry

item_has_id : find_field_value item_message.fields (codes "id") ≡ some (id_of (negsuc 6))
unfolding find_field_value
item_has_id = refl

fetch_field_value-set_field_value_example :
    (m' : DynamicMessage) × (set_field_value test_libraries item_message
        (PathToken.root ∷ PathToken.field (codes "id") ∷ [])
        (ProtobufFieldData.integer_64 (pos 9))
      ≡ ok m')
    × (fetch_field_value test_libraries m' (PathToken.root ∷ PathToken.field (codes "id") ∷ [])
        ≡ some (id_of (pos 9)))
fetch_field_value-set_field_value_example =
    fetch_field_value-set_field_value test_libraries item_message (codes "id") (id_of (negsuc 6))
      (ProtobufFieldData.integer_64 (pos 9)) item_has_id

abbrev item_decoder : DynamicMessageDecoder
item_decoder = record { descriptor = item; file_descriptor_set = files }

decode-encode_example :
    (m : DynamicMessage) × (bytes : List ℕ) × (m' : DynamicMessage) × (new test_libraries
        item_fields files
      ≡ ok m)
    × (encode test_libraries m ≡ ok bytes)
    × (decode test_libraries item_decoder bytes ≡ ok (some m'))
    × (new test_libraries
          (test_libraries.sorted_by ProtobufField (λ f. f.field_num) item_fields)
          files
        ≡ ok m')
decode-encode_example = decode-encode test_libraries item_decoder item_fields item-IsMessage
