-- ===== src/DynamicMessage/Groups.antt =====
-- The fields that DynamicMessage::new groups by their number: the entry of a group has the data of
-- its fields, in their order.
use pact_protobuf_plugin.Base.{
  ℕ, ◌≡◌, ◌≢◌, refl, sym, ap, ◌∙◌, ◌⊎◌, inl, inr, true, List, [], ◌∷◌, ◌++◌, map, flat_map, All,
  Bool-cases, length, ◌≤◌, arith, append-nil, append_assoc, ◌==◌, ==_self, ==_ne, ==_iff,
}
use mathlib.Core.Path.{subst}
use mathlib.Core.List.{foldl}
use pact_protobuf_plugin.ProstTypes.{
  FieldDescriptorProto, DescriptorProto, FileDescriptorSet, text_or_default,
}
use pact_protobuf_plugin.Base.Int.{as_i32}
use pact_protobuf_plugin.Outcome.{ok}
use pact_protobuf_plugin.Field.{ProtobufFieldData, ProtobufField, repeated_field, clone_with_data}
use pact_protobuf_plugin.Defaults.{wire_type_of}
use pact_protobuf_plugin.Libraries.{with_key, IsDistinct}
use pact_protobuf_plugin.Lookup.Search.{Member, filter_sound, All-intro}
use pact_protobuf_plugin.Decoder.{find_field_descriptor}
use pact_protobuf_plugin.DynamicMessage.{push_data, consolidate, keyed}
use pact_protobuf_plugin.DynamicMessage.Carries.{Carries-wire}
use pact_protobuf_plugin.DynamicMessage.Reads.{IsField}
use pact_protobuf_plugin.DynamicMessage.Entries.{fields_of, IsEntry, all_fields}

abbrev with_additional : ProtobufField → List ProtobufFieldData → ProtobufField
with_additional f ds = record f { additional_data = ds }

abbrev field_data_of : ProtobufField → ProtobufFieldData
field_data_of f = f.field_data

abbrev merged : ProtobufField → List ProtobufField → ProtobufField
merged f gs = with_additional f (map field_data_of gs)

foldl-push_data :
    (f : ProtobufField) (gs : List ProtobufField)
    → foldl push_data f gs ≡ with_additional f (f.additional_data ++ map field_data_of gs)
unfolding push_data
foldl-push_data f [] = ap (with_additional f) (sym (append-nil f.additional_data))
foldl-push_data f (g ∷ gs) =
    foldl-push_data (push_data f g) gs
    ∙ ap (with_additional f)
        (append_assoc f.additional_data (g.field_data ∷ []) (map field_data_of gs))

length-le-one : {A : Type 0} (x : A) (xs : List A) → length (x ∷ xs) ≤ 1 → xs ≡ []
length-le-one x [] h = refl
length-le-one x (y ∷ ys) h = absurd (omega arith)

module _ (d : DescriptorProto) (fds : FileDescriptorSet) where
  -- Fields of one number differ in their data alone.
  same_number :
      (f g : ProtobufField)
      → IsField d fds f
      → IsField d fds g
      → g.field_num ≡ f.field_num
      → clone_with_data f g.field_data ≡ g
  unfolding clone_with_data
  same_number f g is_f is_g same = λ i. record {
    field_num = sym same i;
    field_name = name i;
    wire_type = wire i;
    field_data = g.field_data;
    additional_data = sym is_g.single i;
    descriptor = desc i;
  }
    where
      desc : f.descriptor ≡ g.descriptor
      desc = cc (is_f.found, is_g.found, ap (λ (n : ℕ). find_field_descriptor (as_i32 n) d) same)

      name : f.field_name ≡ g.field_name
      name =
          is_f.named
          ∙ ap (λ (h : FieldDescriptorProto). text_or_default h.name) desc
          ∙ sym is_g.named

      wire : f.wire_type ≡ g.wire_type
      wire =
          Carries-wire f.wire_type f.field_data is_f.carries
          ∙ ap (λ (h : FieldDescriptorProto). wire_type_of h.type) desc
          ∙ sym (Carries-wire g.wire_type g.field_data is_g.carries)

  clones :
      (f : ProtobufField) (gs : List ProtobufField)
      → IsField d fds f
      → All (IsField d fds) gs
      → All (λ g. g.field_num ≡ f.field_num) gs
      → map (clone_with_data f) (map field_data_of gs) ≡ gs
  clones f [] is all same = refl
  clones f (g ∷ gs) is all same = cc (same_number f g is all.0 same.0, clones f gs is all.1 same.1)

  foldl-merged :
      (f : ProtobufField) (gs : List ProtobufField)
      → IsField d fds f
      → foldl push_data f gs ≡ merged f gs
  foldl-merged f gs is = rw (foldl-push_data f gs, is.single)

  fields_of-merged :
      (f : ProtobufField) (gs : List ProtobufField)
      → All (IsField d fds) (f ∷ gs)
      → All (λ g. g.field_num ≡ f.field_num) gs
      → fields_of (merged f gs) ≡ f ∷ gs
  unfolding fields_of clone_with_data
  fields_of-merged f gs all same =
      cc (same_number f f all.0 all.0 refl, clones f gs all.0 all.1 same)

  merged-IsEntry :
      (k : ℕ) (f : ProtobufField) (gs : List ProtobufField)
      → All (IsField d fds) (f ∷ gs)
      → All (λ g. g.field_num ≡ k) (f ∷ gs)
      → (gs ≡ []) ⊎ (repeated_field f ≡ true)
      → (fields_of (merged f gs) ≡ f ∷ gs) × IsEntry d fds (k, merged f gs)
  unfolding repeated_field
  merged-IsEntry k f gs all same more =
      let e =
        fields_of-merged f gs all
          (subst (λ n. All (λ g. g.field_num ≡ n) gs) (sym same.0) same.1) in
      (
        e,
        record {
          numbers = subst (All (λ g. g.field_num ≡ k)) (sym e) same;
          are_fields = subst (All (IsField d fds)) (sym e) all;
          repeats = elim more [ inl one ↦ inl (ap (map field_data_of) one) | inr many ↦ inr many ];
        },
      )

  -- A group as the grouping makes it: one field at least, and more only where the field is repeated.
  pub record IsGroup (group : ℕ × List ProtobufField) : Type 0 where
    pub nonempty : group.1 ≢ []
    pub are_fields : All (IsField d fds) group.1
    pub numbers : All (λ g. g.field_num ≡ group.0) group.1
    pub repeats : (length group.1 ≤ 1) ⊎ All (λ g. repeated_field g ≡ true) group.1

  -- The entries stand for the groups, key by key.
  pub consolidate-IsGroup :
      (groups : List (ℕ × List ProtobufField))
      → All IsGroup groups
      → (entries : List (ℕ × ProtobufField)) × (consolidate groups ≡ ok entries)
        × All (IsEntry d fds) entries
        × ((k : ℕ)
            → all_fields (with_key (λ p. p.0) k entries)
              ≡ flat_map (λ (g : ℕ × List ProtobufField). g.1) (with_key (λ g. g.0) k groups))
  unfolding consolidate
  consolidate-IsGroup [] h = ([], refl, tt, λ k. refl)
  consolidate-IsGroup ((n, []) ∷ groups) h = absurd (h.0.nonempty refl)
  consolidate-IsGroup ((n, f ∷ gs) ∷ groups) h =
      let (entries, e, all, same) = consolidate-IsGroup groups h.1 in
      let (of, is) = merged-IsEntry n f gs h.0.are_fields h.0.numbers (more h.0.repeats) in
      (
        (n, merged f gs) ∷ entries,
        rw e (
            ap (λ (g : ProtobufField). ok ((n, g) ∷ entries)) (foldl-merged f gs h.0.are_fields.0)),
        (is, all),
        expand entries of same,
      )
    where
      more :
          (length (f ∷ gs) ≤ 1) ⊎ All (λ g. repeated_field g ≡ true) (f ∷ gs)
          → (gs ≡ []) ⊎ (repeated_field f ≡ true)
      more (inl one) = inl (length-le-one f gs one)
      more (inr many) = inr many.0

      expand :
          (entries : List (ℕ × ProtobufField))
          → fields_of (merged f gs) ≡ f ∷ gs
          → ((k : ℕ)
              → all_fields (with_key (λ p. p.0) k entries)
                ≡ flat_map (λ (g : ℕ × List ProtobufField). g.1) (with_key (λ g. g.0) k groups))
          → (k : ℕ)
          → all_fields (with_key (λ p. p.0) k ((n, merged f gs) ∷ entries))
            ≡ flat_map
                (λ (g : ℕ × List ProtobufField). g.1)
                (with_key (λ g. g.0) k ((n, f ∷ gs) ∷ groups))
      expand entries of same k = elim (Bool-cases (n == k)) [
        | inl here ↦ rw here (cc (of, same k))
        | inr past ↦ rw past (same k)
      ]

module _ {A : Type 0} where
  with_key_absent :
      (k : ℕ) (groups : List (ℕ × A))
      → All (λ y. y ≢ k) (map (λ p. p.0) groups)
      → with_key (λ p. p.0) k groups ≡ []
  with_key_absent k [] h = refl
  with_key_absent k (g ∷ groups) h = rw (==_ne g.0 k h.0) (with_key_absent k groups h.1)

  key-ne :
      (k : ℕ) (groups : List (ℕ × A)) (g : ℕ × A)
      → All (λ y. y ≢ k) (map (λ p. p.0) groups)
      → Member g groups
      → g.0 ≢ k
  key-ne k [] g h m = absurd m
  key-ne k (x ∷ groups) g h (inl same) = subst (λ (p : ℕ × A). p.0 ≢ k) same h.0
  key-ne k (x ∷ groups) g h (inr m) = key-ne k groups g h.1 m

  -- A group is listed once under its number.
  pub with_key_distinct :
      (groups : List (ℕ × A)) (g : ℕ × A)
      → IsDistinct (map (λ p. p.0) groups)
      → Member g groups
      → with_key (λ p. p.0) g.0 groups ≡ g ∷ []
  with_key_distinct [] g distinct m = absurd m
  with_key_distinct (h ∷ groups) g distinct (inl same) =
      subst (λ (p : ℕ × A). with_key (λ q. q.0) p.0 (h ∷ groups) ≡ p ∷ []) same
        (rw (==_self h.0) (rw (with_key_absent h.0 groups distinct.0)))
  with_key_distinct (h ∷ groups) g distinct (inr m) =
      let apart : h.0 ≢ g.0 = λ e. key-ne h.0 groups g distinct.0 m (sym e) in
      rw (==_ne h.0 g.0 apart) (with_key_distinct groups g distinct.1 m)

pub values-keyed :
    (k : ℕ) (fs : List ProtobufField)
    → map (λ (p : ℕ × ProtobufField). p.1) (with_key (λ p. p.0) k (map keyed fs))
      ≡ with_key (λ f. f.field_num) k fs
unfolding keyed
values-keyed k [] = refl
values-keyed k (f ∷ fs) = elim (Bool-cases (f.field_num == k)) [
  | inl here ↦ rw (here, values-keyed k fs)
  | inr past ↦ rw (past, values-keyed k fs)
]

pub with_key-numbers :
    (k : ℕ) (fs : List ProtobufField)
    → All (λ f. f.field_num ≡ k) (with_key (λ f. f.field_num) k fs)
with_key-numbers k fs = All-intro _ _ (λ f m. (==_iff f.field_num k).0 (filter_sound _ fs f m).1)
