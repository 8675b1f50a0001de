-- ===== src/StructJson.antt =====
-- A google.protobuf.Struct as JSON: struct_field_data_to_json and proto_value_to_json of src/utils.rs.
-- The two call each other on embedded messages, each of which is shorter than the one that holds it:
-- the fuel is for the nesting.
use pact_protobuf_plugin.Base.{ℕ, zero, suc, Bool, List, [], ◌∷◌, length, find, ◌==◌, if◌then◌else◌}
use pact_protobuf_plugin.Base.Text.{Text, codes, text_eq}
use pact_protobuf_plugin.Base.Int.{ℤ}
use pact_protobuf_plugin.ProstTypes.{FileDescriptorSet, text_or_default}
use pact_protobuf_plugin.Descriptor
use pact_protobuf_plugin.Outcome.{Outcome, Error, ok, err, out_of_fuel, ◌>>=◌, ok_or}
use pact_protobuf_plugin.Field.{ProtobufField, ProtobufFieldData, type_name}
use pact_protobuf_plugin.Libraries.{Libraries}
use pact_protobuf_plugin.Decoder.Message.{decode_message}
use pact_protobuf_plugin.BTreeMap.{text_cmp}
use Prim.Native.Nat.{Ordering}

-- serde_json::Value. `json!` of a float is kept as the float: its bit pattern.
mutual
  pub data Json : Type 0 where
    null : Json
    boolean : Bool → Json
    string : Text → Json
    unsigned : ℕ → Json
    signed : ℤ → Json
    float : ℕ → Json
    double : ℕ → Json
    array : Items → Json
    object : Members → Json

  pub data Items : Type 0 where
    items_nil : Items
    items_cons : Json → Items → Items

  pub data Members : Type 0 where
    members_nil : Members
    members_cons : Text → Json → Members → Members

-- serde_json::Map::insert: the members are in the order of their keys.
unfoldable pub insert_member : Text → Json → Members → Members
insert_member k v members_nil = members_cons k v members_nil
insert_member k v (members_cons l w m) = elim (text_cmp k l) [
  | Ordering.lt ↦ members_cons k v (members_cons l w m)
  | Ordering.eq ↦ members_cons k v m
  | Ordering.gt ↦ members_cons l w (insert_member k v m)
]

module _ (libs : Libraries) (fds : FileDescriptorSet) where
  -- The entry as a key and a value.
  unfoldable pub struct_key : ProtobufFieldData → Outcome Text
  struct_key (ProtobufFieldData.string key) = ok key
  struct_key d = err (Error.struct_key_not_a_string (type_name d))

  unfoldable pub struct_entry :
      (ProtobufField → Outcome Json) → ℕ → List ProtobufField → Outcome (Text × Json)
  struct_entry value_to_json field_num message_data =
      if length message_data == 2
      then (ok_or (find (λ f. text_eq f.field_name (codes "key")) message_data)
            Error.struct_key_missing
          >>= λ key_field.
              ok_or (find (λ f. text_eq f.field_name (codes "value")) message_data)
                Error.struct_value_missing
              >>= λ value_field. struct_key key_field.field_data >>= λ key.
                  value_to_json value_field >>= λ value. ok (key, value))
      else err (Error.struct_entry_count field_num (length message_data))

  unfoldable pub struct_field :
      (ProtobufField → Outcome Json) → ProtobufField → ProtobufFieldData → Outcome (Text × Json)
  struct_field value_to_json field (ProtobufFieldData.message b entry_descriptor) =
      decode_message libs b entry_descriptor fds >>= λ message_data.
      struct_entry value_to_json field.field_num message_data
  struct_field value_to_json field d = err (Error.struct_entry_not_a_message field.field_num)

  -- The loop over the entries, with the object so far.
  unfoldable pub struct_members :
      (ProtobufField → Outcome Json) → Members → List ProtobufField → Outcome Json
  struct_members value_to_json members [] = ok (Json.object members)
  struct_members value_to_json members (field ∷ fields) =
      struct_field value_to_json field field.field_data >>= λ (key, value).
      struct_members value_to_json (insert_member key value members) fields

  -- `for field in &list_data { items.push(…) }`.
  unfoldable pub list_items : (ProtobufField → Outcome Json) → List ProtobufField → Outcome Items
  list_items value_to_json [] = ok items_nil
  list_items value_to_json (field ∷ fields) = value_to_json field >>= λ item.
      list_items value_to_json fields >>= λ items. ok (items_cons item items)

  -- The match on the data of the only field that a Value has set.
  unfoldable pub value_data : (ProtobufField → Outcome Json) → ProtobufFieldData → Outcome Json
  value_data value_to_json (ProtobufFieldData.string s) = ok (Json.string s)
  value_data value_to_json (ProtobufFieldData.boolean b) = ok (Json.boolean b)
  value_data value_to_json (ProtobufFieldData.uinteger_32 n) = ok (Json.unsigned n)
  value_data value_to_json (ProtobufFieldData.integer_32 n) = ok (Json.signed n)
  value_data value_to_json (ProtobufFieldData.uinteger_64 n) = ok (Json.unsigned n)
  value_data value_to_json (ProtobufFieldData.integer_64 n) = ok (Json.signed n)
  value_data value_to_json (ProtobufFieldData.float n) = ok (Json.float n)
  value_data value_to_json (ProtobufFieldData.double n) = ok (Json.double n)
  value_data value_to_json (ProtobufFieldData.message m desc) =
      let list_value = decode_message libs m desc fds >>= λ list_data.
      list_items value_to_json list_data >>= λ items. ok (Json.array items) in
      let struct_value = decode_message libs m desc fds >>= λ struct_data.
      struct_members value_to_json members_nil struct_data in
      if text_eq (text_or_default (Descriptor.name desc)) (codes "ListValue")
      then list_value
      else if text_eq (text_or_default (Descriptor.name desc)) (codes "Struct")
      then struct_value
      else err (Error.struct_value_not_valid (codes "Message"))
  value_data value_to_json (ProtobufFieldData.enum n enum_desc) =
      if text_eq (text_or_default enum_desc.name) (codes "NullValue")
      then ok Json.null
      else err (Error.struct_value_not_valid (codes "Enum"))
  value_data value_to_json d = err (Error.struct_value_not_valid (type_name d))

  -- An empty value is null.
  unfoldable pub first_value : (ProtobufField → Outcome Json) → List ProtobufField → Outcome Json
  first_value value_to_json [] = ok Json.null
  first_value value_to_json (field_data ∷ rest) = value_data value_to_json field_data.field_data

  unfoldable pub value_to_json : (ProtobufField → Outcome Json) → ProtobufFieldData → Outcome Json
  value_to_json nested (ProtobufFieldData.message m d) =
      decode_message libs m d fds >>= λ message_data. first_value nested message_data
  value_to_json nested d = err (Error.struct_value_not_a_message (type_name d))

  unfoldable pub proto_value_to_json : ℕ → ProtobufField → Outcome Json
  proto_value_to_json zero value_field = out_of_fuel
  proto_value_to_json (suc fuel) value_field =
      value_to_json (proto_value_to_json fuel) value_field.field_data

  unfoldable pub struct_field_data_to_json : ℕ → List ProtobufField → Outcome Json
  struct_field_data_to_json fuel field_data =
      struct_members (proto_value_to_json fuel) members_nil field_data
