-- ===== src/Builder/Calls.antt =====
-- Calls of the builder's operations, and what a sequence of calls says of a name: the specification that
-- the builder's fields are compared with.
use pact_protobuf_plugin.Base.{
  Bool, true, false, Option, none, some, List, [], ◌∷◌, ◌++◌, flat_map, if◌then◌else◌,
}
use pact_protobuf_plugin.Base.Text.{Text, text_eq}
use pact_protobuf_plugin.ProstTypes.{FieldDescriptorProto}
use pact_protobuf_plugin.FieldValue.{MessageFieldValue}
use pact_protobuf_plugin.Builder.{
  MessageFieldValueType, FieldValueInner, MessageBuilder, set_field_value, add_repeated_field_value,
  add_map_field_value,
}

-- A call of one of the operations, with its arguments.
pub data Operation (Builder Struct : Type 0) : Type 0 where
  set : FieldDescriptorProto → Text → MessageFieldValue Builder Struct → Operation Builder Struct
  add_repeated :
      FieldDescriptorProto → Text → MessageFieldValue Builder Struct → Operation Builder Struct
  add_map :
      FieldDescriptorProto
      → Text
      → MessageFieldValue Builder Struct
      → MessageFieldValue Builder Struct
      → Operation Builder Struct

module _ {Builder Struct : Type 0} where
  -- The call.
  unfoldable pub perform :
      Operation Builder Struct → MessageBuilder Builder Struct → MessageBuilder Builder Struct
  perform (Operation.set f name v) b = set_field_value f name v b
  perform (Operation.add_repeated f name v) b = add_repeated_field_value f name v b
  perform (Operation.add_map f name k v) b = add_map_field_value f name k v b

  unfoldable pub perform_all :
      List (Operation Builder Struct)
      → MessageBuilder Builder Struct
      → MessageBuilder Builder Struct
  perform_all [] b = b
  perform_all (op ∷ ops) b = perform_all ops (perform op b)

  abbrev pub name_of : Operation Builder Struct → Text
  name_of (Operation.set f name v) = name
  name_of (Operation.add_repeated f name v) = name
  name_of (Operation.add_map f name k v) = name

  abbrev pub is_set : Operation Builder Struct → Bool
  is_set (Operation.set f name v) = true
  is_set _ = false

  abbrev pub field_of : Operation Builder Struct → FieldDescriptorProto
  field_of (Operation.set f name v) = f
  field_of (Operation.add_repeated f name v) = f
  field_of (Operation.add_map f name k v) = f

  abbrev pub values_of : Operation Builder Struct → List (MessageFieldValue Builder Struct)
  values_of (Operation.set f name v) = v ∷ []
  values_of (Operation.add_repeated f name v) = v ∷ []
  values_of (Operation.add_map f name k v) = k ∷ v ∷ []

  -- The type that a call gives to a field that is not there.
  abbrev pub type_of_first : Operation Builder Struct → MessageFieldValueType
  type_of_first (Operation.set f name v) = MessageFieldValueType.normal
  type_of_first (Operation.add_repeated f name v) = MessageFieldValueType.repeated
  type_of_first (Operation.add_map f name k v) = MessageFieldValueType.map

  -- The type of a field after further calls: repeated from the first call that adds a repeated value.
  abbrev pub type_after :
      MessageFieldValueType → List (Operation Builder Struct) → MessageFieldValueType
  type_after t [] = t
  type_after t (Operation.add_repeated f name v ∷ ops) =
      type_after MessageFieldValueType.repeated ops
  type_after t (op ∷ ops) = type_after t ops

  -- The calls on a name that count: the last one that sets its value and those behind it, or all where
  -- none sets it.
  abbrev pub calls_on :
      Text
      → List (Operation Builder Struct)
      → List (Operation Builder Struct)
      → List (Operation Builder Struct)
  calls_on k before [] = before
  calls_on k before (op ∷ ops) =
      calls_on k
        (if text_eq (name_of op) k
          then (if is_set op then op ∷ [] else before ++ (op ∷ []))
          else before)
        ops

  -- The field that these calls make: its descriptor is that of the first one, and it has the values of
  -- all of them in turn.
  abbrev pub field_after : List (Operation Builder Struct) → Option (FieldValueInner Builder Struct)
  field_after [] = none
  field_after (op ∷ ops) = some (record {
    values = flat_map values_of (op ∷ ops);
    descriptor = field_of op;
    field_type = type_after (type_of_first op) ops;
    proto_type = (field_of op).type;
  })
