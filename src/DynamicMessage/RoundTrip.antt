-- ===== src/DynamicMessage/RoundTrip.antt =====
-- A message that is built from fields, written and decoded has the same fields.
use pact_protobuf_plugin.Base.{
  ℕ, ◌≡◌, ◌≢◌, refl, sym, ap, ◌∙◌, ◌⊎◌, inl, inr, Bool, true, false, List, [], ◌∷◌, map, flat_map,
  All, Bool-cases, length, ◌≤◌, append-nil, ◌==◌, ==_ne, ==_iff, filter-append,
}
use mathlib.Core.Path.{subst}
use pact_protobuf_plugin.ProstTypes.{DescriptorProto, FileDescriptorSet}
use pact_protobuf_plugin.Outcome.{ok}
use pact_protobuf_plugin.Field.{ProtobufField, repeated_field}
use pact_protobuf_plugin.Libraries.{Libraries, with_key}
use pact_protobuf_plugin.Libraries.Sort.{sorted_by-eq, Member-sorted_by}
use pact_protobuf_plugin.Lookup.Search.{Member, filter_sound, All-Member, All-intro}
use pact_protobuf_plugin.Decoder.Message.{decode_message}
use pact_protobuf_plugin.DynamicMessage.{DynamicMessage, keyed, new, write_to}
use pact_protobuf_plugin.DynamicMessage.Reads.{IsField}
use pact_protobuf_plugin.DynamicMessage.Entries.{
  fields_of, IsEntry, all_fields, write_to-decode_message,
}
use pact_protobuf_plugin.DynamicMessage.Groups.{
  IsGroup, consolidate-IsGroup, with_key_distinct, values-keyed, with_key-numbers,
}

-- Fields as the decoder makes them; where a number occurs twice, its fields are repeated.
pub record IsMessage (d : DescriptorProto) (fds : FileDescriptorSet) (fs : List ProtobufField)
    : Type 0 where
  pub are_fields : All (IsField d fds) fs
  pub repeats :
      (k : ℕ)
      → (length (with_key (λ f. f.field_num) k fs) ≤ 1)
        ⊎ All (λ f. repeated_field f ≡ true) (with_key (λ f. f.field_num) k fs)

module _ (libs : Libraries) (d : DescriptorProto) (fds : FileDescriptorSet) where
  group_values :
      (fs : List ProtobufField) (g : ℕ × List ProtobufField)
      → Member g (libs.into_group_map ProtobufField (map keyed fs))
      → g.1 ≡ with_key (λ f. f.field_num) g.0 fs
  group_values fs g m =
      let once = with_key_distinct _ g (libs.into_group_map_keys ProtobufField (map keyed fs)) m in
      sym (append-nil g.1)
      ∙ sym (ap (flat_map (λ (h : ℕ × List ProtobufField). h.1)) once)
      ∙ libs.into_group_map_values ProtobufField (map keyed fs) g.0
      ∙ values-keyed g.0 fs

  groups_lem :
      (fs : List ProtobufField)
      → IsMessage d fds fs
      → All (IsGroup d fds) (libs.into_group_map ProtobufField (map keyed fs))
  groups_lem fs is = All-intro _ _ (λ g m.
      let values = group_values fs g m in
      record {
        nonempty = All-Member _ _ (libs.into_group_map_nonempty ProtobufField (map keyed fs)) g m;
        are_fields =
            subst (All (IsField d fds)) (sym values)
              (All-intro _ _ (λ f at. All-Member _ fs is.are_fields f (filter_sound _ fs f at).0));
        numbers = subst (All (λ f. f.field_num ≡ g.0)) (sym values) (with_key-numbers g.0 fs);
        repeats =
            subst (λ xs. (length xs ≤ 1) ⊎ All (λ f. repeated_field f ≡ true) xs) (sym values)
              (is.repeats g.0);
      })

  -- The map has the fields under their numbers.
  pub new-IsEntry :
      (fs : List ProtobufField)
      → IsMessage d fds fs
      → (m : DynamicMessage) × (new libs fs fds ≡ ok m)
        × All (IsEntry d fds) m.fields
        × ((k : ℕ) → all_fields (with_key (λ p. p.0) k m.fields) ≡ with_key (λ f. f.field_num) k fs)
  unfolding new
  new-IsEntry fs is =
      let (entries, e, all, same) = consolidate-IsGroup d fds _ (groups_lem fs is) in
      (
        record { fields = entries; descriptors = fds },
        rw e,
        all,
        λ k. same k ∙ libs.into_group_map_values ProtobufField (map keyed fs) k ∙ values-keyed k fs,
      )

true-false : {b : Bool} → b ≡ true → b ≡ false → ⊥
true-false p q = cc

with_key_whole :
    {A : Type 0} (key : A → ℕ) (n : ℕ) (xs : List A)
    → All (λ x. key x ≡ n) xs
    → with_key key n xs ≡ xs
with_key_whole key n [] h = refl
with_key_whole key n (x ∷ xs) h = rw ((==_iff (key x) n).1 h.0) (rw (with_key_whole key n xs h.1))

with_key_empty :
    {A : Type 0} (key : A → ℕ) (n k : ℕ) (xs : List A)
    → n ≢ k
    → All (λ x. key x ≡ n) xs
    → with_key key k xs ≡ []
with_key_empty key n k [] ne h = refl
with_key_empty key n k (x ∷ xs) ne h =
    rw (==_ne (key x) k (λ e. ne (sym h.0 ∙ e))) (with_key_empty key n k xs ne h.1)

-- The fields with a number are those of the entries with it.
with_key-all_fields :
    (d : DescriptorProto) (fds : FileDescriptorSet) (k : ℕ) (entries : List (ℕ × ProtobufField))
    → All (IsEntry d fds) entries
    → with_key (λ f. f.field_num) k (all_fields entries)
      ≡ all_fields (with_key (λ p. p.0) k entries)
with_key-all_fields d fds k [] h = refl
with_key-all_fields d fds k ((n, f) ∷ entries) h =
    let key : ProtobufField → ℕ = λ g. g.field_num in
    let ih = with_key-all_fields d fds k entries h.1 in
    filter-append (λ g. g.field_num == k) (fields_of f) (all_fields entries)
    ∙ (elim (Bool-cases (n == k)) [
      | inl here ↦ rw here (
          cc (
            with_key_whole key k (fields_of f) (
                subst (λ j. All (λ g. g.field_num ≡ j) (fields_of f)) ((==_iff n k).0 here)
                  h.0.numbers),
            ih,
          ))
      | inr past ↦ rw past (
          cc (
            with_key_empty key n k (fields_of f) (λ e. true-false ((==_iff n k).1 e) past)
                h.0.numbers,
            ih,
          ))
    ])

module _ (libs : Libraries) (d : DescriptorProto) (fds : FileDescriptorSet) where
  entries_sorted :
      (fs : List ProtobufField) (entries : List (ℕ × ProtobufField))
      → All (IsEntry d fds) entries
      → ((k : ℕ) → all_fields (with_key (λ p. p.0) k entries) ≡ with_key (λ f. f.field_num) k fs)
      → libs.sorted_by ProtobufField
          (λ f. f.field_num)
          (all_fields (libs.sorted_by (ℕ × ProtobufField) (λ p. p.0) entries))
        ≡ libs.sorted_by ProtobufField (λ f. f.field_num) fs
  entries_sorted fs entries all same =
      let sorted = libs.sorted_by (ℕ × ProtobufField) (λ p. p.0) entries in
      sorted_by-eq libs (λ f. f.field_num) (all_fields sorted) fs
        (λ k.
          with_key-all_fields d fds k sorted (
            All-intro _ _
              (λ p m. All-Member _ entries all p (Member-sorted_by libs (λ q. q.0) entries p m)))
          ∙ ap all_fields (libs.with_key-sorted_by (ℕ × ProtobufField) (λ p. p.0) entries k)
          ∙ same k)

  -- For fields that the descriptor has, each with one value in the range of its type, sint32 and sint64
  -- left out, in any order, and with a number twice only where its fields are repeated:
  -- DynamicMessage::new groups them without a panic, write_to succeeds, and decode_message on the
  -- bytes returns the same fields sorted by their numbers, whatever order the map is visited in.
  pub decode_message-write_to-new :
      (fs : List ProtobufField)
      → IsMessage d fds fs
      → (m : DynamicMessage) × (bytes : List ℕ) × (new libs fs fds ≡ ok m)
        × (write_to libs m ≡ ok bytes)
        × (decode_message libs bytes d fds
            ≡ ok (libs.sorted_by ProtobufField (λ f. f.field_num) fs))
  decode_message-write_to-new fs is =
      let (m, made, all, same) = new-IsEntry libs d fds fs is in
      let (bytes, written, back) = write_to-decode_message libs d fds m all in
      (m, bytes, made, written, back ∙ ap ok (entries_sorted fs m.fields all same))
