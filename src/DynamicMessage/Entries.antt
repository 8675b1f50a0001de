-- ===== src/DynamicMessage/Entries.antt =====
-- The entries of a DynamicMessage: each is written as bytes that are read back as its fields.
use pact_protobuf_plugin.Base.{
  ℕ, ◌≡◌, refl, ◌∙◌, ◌⊎◌, inl, inr, true, List, [], ◌∷◌, ◌++◌, map, flat_map, All, Bool-cases,
  append_assoc,
}
use mathlib.Core.Path.{subst}
use pact_protobuf_plugin.ProstTypes.{DescriptorProto, FileDescriptorSet}
use pact_protobuf_plugin.Outcome.{ok}
use pact_protobuf_plugin.Field.{ProtobufFieldData, ProtobufField, repeated_field, clone_with_data}
use pact_protobuf_plugin.Libraries.{Libraries}
use pact_protobuf_plugin.Lookup.Search.{All-Member, All-intro}
use pact_protobuf_plugin.Libraries.Sort.{Member-sorted_by}
use pact_protobuf_plugin.Decoder.Message.{decode_message}
use pact_protobuf_plugin.DynamicMessage.{
  DynamicMessage, write_field, write_additional, write_repeats, write_fields, write_to,
}
use pact_protobuf_plugin.DynamicMessage.Reads.{
  IsField, Reads, Reads-nil, Reads-append, write_field-Reads, decode_message-Reads,
}

-- A field for each piece of data of the entry.
unfoldable pub fields_of : ProtobufField → List ProtobufField
unfolding clone_with_data
fields_of f = clone_with_data f f.field_data ∷ map (clone_with_data f) f.additional_data

-- All fields of the entry have its number and are known ones that carry a value (IsField), and it has
-- more than one only where the field is repeated.
pub record IsEntry (d : DescriptorProto) (fds : FileDescriptorSet) (entry : ℕ × ProtobufField)
    : Type 0 where
  pub numbers : All (λ f. f.field_num ≡ entry.0) (fields_of entry.1)
  pub are_fields : All (IsField d fds) (fields_of entry.1)
  pub repeats : (entry.1.additional_data ≡ []) ⊎ (repeated_field entry.1 ≡ true)

-- The fields of all entries.
abbrev pub all_fields : List (ℕ × ProtobufField) → List ProtobufField
all_fields entries = flat_map (λ (p : ℕ × ProtobufField). fields_of p.1) entries

List-cases : {A : Type 0} (xs : List A) → (xs ≡ []) ⊎ ((x : A) × (ys : List A) × (xs ≡ x ∷ ys))
List-cases [] = inl refl
List-cases (x ∷ xs) = inr (x, xs, refl)

module _ (libs : Libraries) (d : DescriptorProto) (fds : FileDescriptorSet) where
  -- The data of a clone is written under the entry itself.
  write_clone-Reads :
      (f : ProtobufField) (x : ProtobufFieldData)
      → IsField d fds (clone_with_data f x)
      → (bytes : List ℕ) × (write_field libs f x ≡ ok bytes)
        × Reads libs d fds bytes (clone_with_data f x ∷ [])
  unfolding write_field clone_with_data
  write_clone-Reads f x is = write_field-Reads libs d fds (clone_with_data f x) is

  write_additional-Reads :
      (f : ProtobufField) (ds : List ProtobufFieldData)
      → All (IsField d fds) (map (clone_with_data f) ds)
      → (bytes : List ℕ) × (write_additional libs f ds ≡ ok bytes)
        × Reads libs d fds bytes (map (clone_with_data f) ds)
  unfolding write_additional
  write_additional-Reads f [] h = ([], refl, Reads-nil libs d fds)
  write_additional-Reads f (x ∷ ds) h =
      let (bs, e, r) = write_clone-Reads f x h.0 in
      let (cs, e', r') = write_additional-Reads f ds h.1 in
      (
        bs ++ cs,
        rw e (rw e'),
        Reads-append libs d fds bs cs (clone_with_data f x ∷ []) (map (clone_with_data f) ds) r r',
      )

  -- Nothing is left out where the field is repeated or has no additional data.
  write_repeats-eq :
      (f : ProtobufField)
      → (f.additional_data ≡ []) ⊎ (repeated_field f ≡ true)
      → write_repeats libs f ≡ write_additional libs f f.additional_data
  unfolding write_repeats write_additional repeated_field
  write_repeats-eq f (inl none_more) = elim (Bool-cases (repeated_field f)) [
    | inl many ↦ rw (none_more, many)
    | inr one ↦ rw (none_more, one)
  ]
  write_repeats-eq f (inr many) = elim (List-cases f.additional_data) [
    | inl none_more ↦ rw (none_more, many)
    | inr (x, xs, some_more) ↦ rw (some_more, many)
  ]

  entry-Reads :
      (k : ℕ) (f : ProtobufField)
      → IsEntry d fds (k, f)
      → (bs cs : List ℕ) × (write_field libs f f.field_data ≡ ok bs)
        × (write_repeats libs f ≡ ok cs)
        × Reads libs d fds (bs ++ cs) (fields_of f)
  unfolding fields_of
  entry-Reads k f is =
      let (bs, e, r) = write_clone-Reads f f.field_data is.are_fields.0 in
      let (cs, e', r') = write_additional-Reads f f.additional_data is.are_fields.1 in
      (
        bs,
        cs,
        e,
        write_repeats-eq f is.repeats ∙ e',
        Reads-append libs d fds bs cs (clone_with_data f f.field_data ∷ [])
            (map (clone_with_data f) f.additional_data) r r',
      )

  pub write_fields-Reads :
      (entries : List (ℕ × ProtobufField))
      → All (IsEntry d fds) entries
      → (bytes : List ℕ) × (write_fields libs entries ≡ ok bytes)
        × Reads libs d fds bytes (all_fields entries)
  unfolding write_fields
  write_fields-Reads [] h = ([], refl, Reads-nil libs d fds)
  write_fields-Reads ((k, f) ∷ entries) h =
      let (bs, cs, e, e', r) = entry-Reads k f h.0 in
      let (more, e'', r') = write_fields-Reads entries h.1 in
      (
        bs ++ (cs ++ more),
        rw e (rw e' (rw e'')),
        subst (λ b. Reads libs d fds b (fields_of f ++ all_fields entries))
            (append_assoc bs cs more)
            (Reads-append libs d fds (bs ++ cs) more (fields_of f) (all_fields entries) r r'),
      )

  -- Where each entry of a message's map is of fields that the descriptor has, each under the number of
  -- the entry and with one value in the range of its type (IsField; the types sint32 and sint64 and
  -- Unknown data left out), with more than one only where the field is repeated, write_to succeeds and
  -- decode_message on the bytes returns the fields of all entries, sorted by their numbers.
  pub write_to-decode_message :
      (m : DynamicMessage)
      → All (IsEntry d fds) m.fields
      → (bytes : List ℕ) × (write_to libs m ≡ ok bytes)
        × (decode_message libs bytes d fds
            ≡ ok (
                libs.sorted_by ProtobufField
                  (λ f. f.field_num)
                  (all_fields (libs.sorted_by (ℕ × ProtobufField) (λ p. p.0) m.fields))))
  unfolding write_to
  write_to-decode_message m h =
      let sorted = libs.sorted_by (ℕ × ProtobufField) (λ p. p.0) m.fields in
      let all = All-intro (IsEntry d fds) sorted (λ p at.
        All-Member (IsEntry d fds) m.fields h p
          (Member-sorted_by libs (λ (q : ℕ × ProtobufField). q.0) m.fields p at)) in
      let (bytes, e, r) = write_fields-Reads sorted all in
      (bytes, e, decode_message-Reads libs d fds bytes (all_fields sorted) r)
