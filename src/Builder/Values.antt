-- ===== src/Builder/Values.antt =====
-- The builder's fields as a function from names to values: what a sequence of calls makes of it, and
-- the order of the names.
use pact_protobuf_plugin.Base.{
  ◌≡◌, refl, sym, ap, ◌∙◌, Bool-cases, inl, inr, Option, none, some, List, [], ◌∷◌, ◌++◌,
  flat_map-append, if◌then◌else◌,
}
use pact_protobuf_plugin.Base.Text.{Text, text_eq, text_eq→eq}
use pact_protobuf_plugin.ProstTypes.{FieldDescriptorProto, DescriptorProto, FileDescriptorProto}
use pact_protobuf_plugin.FieldValue.{MessageFieldValue}
use pact_protobuf_plugin.BTreeMap.{get, IsOrdered}
use pact_protobuf_plugin.BTreeMap.Laws.{get-insert, insert-IsOrdered}
use pact_protobuf_plugin.Builder.{
  MessageFieldValueType, FieldValueInner, MessageBuilder, new, set_field_value,
  add_repeated_field_value, add_map_field_value, repeated_entry, map_entry,
}
use pact_protobuf_plugin.Builder.Calls.{
  Operation, perform, perform_all, name_of, is_set, values_of, type_of_first, type_after, calls_on,
  field_after,
}

-- The abstract state: what each name holds.
abbrev pub Fields : Type 0 → Type 0 → Type 0
Fields Builder Struct = Text → Option (FieldValueInner Builder Struct)

module _ {Builder Struct : Type 0} where
  unfoldable pub fields_view : MessageBuilder Builder Struct → Fields Builder Struct
  unfolding get
  fields_view b k = get k b.fields

  type_after-append :
      (t : MessageFieldValueType) (ops : List (Operation Builder Struct))
      (op : Operation Builder Struct)
      → type_after t (ops ++ (op ∷ [])) ≡ type_after (type_after t ops) (op ∷ [])
  type_after-append t [] op = refl
  type_after-append t (Operation.set f name v ∷ ops) op = type_after-append t ops op
  type_after-append t (Operation.add_repeated f name v ∷ ops) op =
      type_after-append MessageFieldValueType.repeated ops op
  type_after-append t (Operation.add_map f name k v ∷ ops) op = type_after-append t ops op

  -- A call that adds a value, behind those that count.
  field_after-add_repeated :
      (ops : List (Operation Builder Struct)) (f : FieldDescriptorProto) (name : Text)
      (v : MessageFieldValue Builder Struct)
      → field_after (ops ++ (Operation.add_repeated f name v ∷ []))
        ≡ some (repeated_entry f v (field_after ops))
  unfolding repeated_entry
  field_after-add_repeated [] f name v = refl
  field_after-add_repeated (op ∷ ops) f name v =
      let op' = Operation.add_repeated f name v in
      rw (
        flat_map-append values_of (op ∷ ops) (op' ∷ []),
        type_after-append (type_of_first op) ops op',
      )

  field_after-add_map :
      (ops : List (Operation Builder Struct)) (f : FieldDescriptorProto) (name : Text)
      (k v : MessageFieldValue Builder Struct)
      → field_after (ops ++ (Operation.add_map f name k v ∷ []))
        ≡ some (map_entry f k v (field_after ops))
  unfolding map_entry
  field_after-add_map [] f name k v = refl
  field_after-add_map (op ∷ ops) f name k v =
      let op' = Operation.add_map f name k v in
      rw (
        flat_map-append values_of (op ∷ ops) (op' ∷ []),
        type_after-append (type_of_first op) ops op',
      )

  -- What a name holds after one more call.
  fields_view-perform :
      (op : Operation Builder Struct) (b : MessageBuilder Builder Struct) (k : Text)
      (before : List (Operation Builder Struct))
      → fields_view b k ≡ field_after before
      → fields_view (perform op b) k
        ≡ field_after (
            if text_eq (name_of op) k
            then (if is_set op then op ∷ [] else before ++ (op ∷ []))
            else before)
  unfolding fields_view perform set_field_value add_repeated_field_value add_map_field_value
  fields_view-perform (Operation.set f name v) b k before h = elim (Bool-cases (text_eq name k)) [
    | inl same ↦ rw (get-insert name k _ b.fields, same)
    | inr other ↦ rw (get-insert name k _ b.fields, other) h
  ]
  fields_view-perform (Operation.add_repeated f name v) b k before h =
      elim (Bool-cases (text_eq name k)) [
        | inl same ↦
            let held = ap (λ n. get n b.fields) (text_eq→eq name k same) ∙ h in
            rw (get-insert name k _ b.fields, same)
              (ap (λ o. some (repeated_entry f v o)) held
                ∙ sym (field_after-add_repeated before f name v))
        | inr other ↦ rw (get-insert name k _ b.fields, other) h
      ]
  fields_view-perform (Operation.add_map f name key v) b k before h =
      elim (Bool-cases (text_eq name k)) [
        | inl same ↦
            let held = ap (λ n. get n b.fields) (text_eq→eq name k same) ∙ h in
            rw (get-insert name k _ b.fields, same)
              (ap (λ o. some (map_entry f key v o)) held
                ∙ sym (field_after-add_map before f name key v))
        | inr other ↦ rw (get-insert name k _ b.fields, other) h
      ]

  fields_view-perform_all :
      (ops : List (Operation Builder Struct)) (b : MessageBuilder Builder Struct) (k : Text)
      (before : List (Operation Builder Struct))
      → fields_view b k ≡ field_after before
      → fields_view (perform_all ops b) k ≡ field_after (calls_on k before ops)
  unfolding perform_all
  fields_view-perform_all [] b k before h = h
  fields_view-perform_all (op ∷ ops) b k before h =
      fields_view-perform_all ops (perform op b) k _ (fields_view-perform op b k before h)

  perform-IsOrdered :
      (op : Operation Builder Struct) (b : MessageBuilder Builder Struct)
      → IsOrdered b.fields
      → IsOrdered (perform op b).fields
  unfolding perform set_field_value add_repeated_field_value add_map_field_value
  perform-IsOrdered (Operation.set f name v) b h = insert-IsOrdered name _ b.fields h
  perform-IsOrdered (Operation.add_repeated f name v) b h = insert-IsOrdered name _ b.fields h
  perform-IsOrdered (Operation.add_map f name k v) b h = insert-IsOrdered name _ b.fields h

  perform_all-IsOrdered :
      (ops : List (Operation Builder Struct)) (b : MessageBuilder Builder Struct)
      → IsOrdered b.fields
      → IsOrdered (perform_all ops b).fields
  unfolding perform_all
  perform_all-IsOrdered [] b h = h
  perform_all-IsOrdered (op ∷ ops) b h =
      perform_all-IsOrdered ops (perform op b) (perform-IsOrdered op b h)

  -- A new builder, after any calls of its operations, holds under each name the field that the calls
  -- on this name make which count: the last one that sets its value and those behind it, or all where
  -- none sets it. Its descriptor is that of the first of these calls, it has the values of all of them
  -- in turn, a key and a value for a call that adds to a map, and its type is that of the first call
  -- until one adds a repeated value, which makes it repeated. A name without calls holds nothing. The
  -- names stay in their order, none twice.
  pub fields_view-perform_all-new :
      (descriptor : DescriptorProto) (message_name : Text) (file_descriptor : FileDescriptorProto)
      (ops : List (Operation Builder Struct))
      → ((k : Text)
          → fields_view (perform_all ops (new descriptor message_name file_descriptor)) k
            ≡ field_after (calls_on k [] ops))
        × IsOrdered (perform_all ops (new descriptor message_name file_descriptor)).fields
  fields_view-perform_all-new d name file ops = (
    λ k. fields_view-perform_all ops (new d name file) k [] (empty k),
    perform_all-IsOrdered ops (new d name file) ordered,
  )
    where
      empty : (k : Text) → fields_view (new d name file) k ≡ none
      empty k = unfold fields_view new get in refl

      ordered : IsOrdered (new {Builder = Builder} {Struct = Struct} d name file).fields
      ordered = unfold new in tt
