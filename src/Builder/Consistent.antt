-- ===== src/Builder/Consistent.antt =====
-- Fields that are only ever used in one way: as a single value, as a map or as a repeated field.
use pact_protobuf_plugin.Base.{
  ℕ, ◌%◌, ◌≤◌, ◌≡◌, refl, Option, none, some, List, [], ◌∷◌, ◌++◌, length, length-append, All,
  arith,
}
use mathlib.Core.Path.{subst, sym}
use pact_protobuf_plugin.Base.Text.{Text}
use pact_protobuf_plugin.ProstTypes.{FieldDescriptorProto, DescriptorProto, FileDescriptorProto}
use pact_protobuf_plugin.FieldValue.{MessageFieldValue}
use pact_protobuf_plugin.BTreeMap.{get}
use pact_protobuf_plugin.BTreeMap.Laws.{All-insert, All-get}
use pact_protobuf_plugin.Builder.{
  MessageFieldValueType, FieldValueInner, MessageBuilder, new, set_field_value,
  add_repeated_field_value, add_map_field_value, repeated_entry, map_entry,
}
use pact_protobuf_plugin.Builder.Calls.{Operation, perform, perform_all}

-- How many values a field of each kind has.
abbrev pub HasCount : MessageFieldValueType → ℕ → Type 0
HasCount MessageFieldValueType.normal n = n ≡ 1
HasCount MessageFieldValueType.map n = (1 ≤ n) × (n % 2 ≡ 0)
HasCount MessageFieldValueType.repeated n = 1 ≤ n

module _ {Builder Struct : Type 0} (kind : Text → MessageFieldValueType) where
  -- The call uses its field in the way of the field's kind.
  abbrev pub Follows : Operation Builder Struct → Type 0
  Follows (Operation.set f name v) = kind name ≡ MessageFieldValueType.normal
  Follows (Operation.add_repeated f name v) = kind name ≡ MessageFieldValueType.repeated
  Follows (Operation.add_map f name k v) = kind name ≡ MessageFieldValueType.map

  -- The field has its kind, and as many values as a field of the kind has.
  abbrev pub IsConsistent : Text × FieldValueInner Builder Struct → Type 0
  IsConsistent e = (e.1.field_type ≡ kind e.0) × HasCount (kind e.0) (length e.1.values)

  repeated_entry-IsConsistent :
      (f : FieldDescriptorProto) (name : Text) (v : MessageFieldValue Builder Struct)
      (o : Option (FieldValueInner Builder Struct))
      → kind name ≡ MessageFieldValueType.repeated
      → IsConsistent (name, repeated_entry f v o)
  unfolding repeated_entry
  repeated_entry-IsConsistent f name v none h = rw (h) (refl, omega arith)
  repeated_entry-IsConsistent f name v (some e) h =
      rw (h) (refl, omega (arith, length-append e.values (v ∷ [])))

  map_entry-IsConsistent :
      (f : FieldDescriptorProto) (name : Text) (k v : MessageFieldValue Builder Struct)
      (o : Option (FieldValueInner Builder Struct))
      → kind name ≡ MessageFieldValueType.map
      → ((e : FieldValueInner Builder Struct) → o ≡ some e → IsConsistent (name, e))
      → IsConsistent (name, map_entry f k v o)
  unfolding map_entry
  map_entry-IsConsistent f name k v none h before = rw (h) (refl, (omega arith, refl))
  map_entry-IsConsistent f name k v (some e) h before =
      let (same, count) = before e refl in
      let count' : (1 ≤ length e.values) × (length e.values % 2 ≡ 0) =
        subst (λ t. HasCount t (length e.values)) h count in
      (
        same,
        subst (λ t. HasCount t (length (e.values ++ (k ∷ v ∷ [])))) (sym h)
            (
              omega (arith, length-append e.values (k ∷ v ∷ [])),
              omega (arith, length-append e.values (k ∷ v ∷ []), count'.1),
            ),
      )

  perform-IsConsistent :
      (op : Operation Builder Struct) (b : MessageBuilder Builder Struct)
      → Follows op
      → All IsConsistent b.fields
      → All IsConsistent (perform op b).fields
  unfolding perform set_field_value add_repeated_field_value add_map_field_value
  perform-IsConsistent (Operation.set f name v) b h all =
      All-insert IsConsistent name _ b.fields (rw (h) (refl, refl)) all
  perform-IsConsistent (Operation.add_repeated f name v) b h all =
      All-insert IsConsistent name _ b.fields
        (repeated_entry-IsConsistent f name v (get name b.fields) h) all
  perform-IsConsistent (Operation.add_map f name k v) b h all =
      All-insert IsConsistent name _ b.fields
        (map_entry-IsConsistent f name k v (get name b.fields) h
          (λ e found. All-get IsConsistent name e b.fields all found))
        all

  perform_all-IsConsistent-from :
      (ops : List (Operation Builder Struct)) (b : MessageBuilder Builder Struct)
      → All Follows ops
      → All IsConsistent b.fields
      → All IsConsistent (perform_all ops b).fields
  unfolding perform_all
  perform_all-IsConsistent-from [] b h all = all
  perform_all-IsConsistent-from (op ∷ ops) b h all =
      perform_all-IsConsistent-from ops (perform op b) h.1 (perform-IsConsistent op b h.0 all)

  -- Where each field is only ever set, only ever added to as a map, or only ever added to as a repeated
  -- field, a builder that started empty has one value in each field that was set, an even number of
  -- values, two at least, in each map, one value at least in each repeated field, and each field has
  -- the type of its use.
  pub perform_all-IsConsistent :
      (descriptor : DescriptorProto) (message_name : Text) (file_descriptor : FileDescriptorProto)
      (ops : List (Operation Builder Struct))
      → All Follows ops
      → All IsConsistent (perform_all ops (new descriptor message_name file_descriptor)).fields
  unfolding new
  perform_all-IsConsistent d name file ops h = perform_all-IsConsistent-from ops _ h tt
