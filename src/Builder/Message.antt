-- ===== src/Builder/Message.antt =====
-- encode_message and encode_map_field of src/message_builder.rs. A map is encoded as a repeated field of
-- messages with a key and a value, so encode_message calls itself once more for them: the fuel is for
-- these calls alone, and two calls are enough. The builders of embedded messages nest to some depth.
use pact_protobuf_plugin.Base.{
  ℕ, zero, suc, ◌+◌, ◌-◌, ◌%◌, ◌^◌, Option, none, some, List, [], ◌∷◌, ◌++◌, map, find, length,
  ◌==◌, if◌then◌else◌, unwrap_or,
}
use pact_protobuf_plugin.Base.Text.{Text, codes, text_eq}
use pact_protobuf_plugin.Base.Int.{ℤ, pos, negsuc}
use pact_protobuf_plugin.ProstTypes.{FieldDescriptorProto, DescriptorProto, text_or_default}
use pact_protobuf_plugin.Descriptor
use pact_protobuf_plugin.Outcome.{Outcome, Error, ok, err, out_of_fuel, ◌>>=◌, ok_or}
use pact_protobuf_plugin.Names.{last_name}
use pact_protobuf_plugin.FieldValue.{RType, MessageFieldValue}
use pact_protobuf_plugin.BTreeMap.{BTreeMap, insert}
use pact_protobuf_plugin.Builder.{MessageFieldValueType, FieldValueInner, MessageBuilder, inner}
use pact_protobuf_plugin.Builder.Wire.{Encoding}
use pact_protobuf_plugin.Builder.Encode.{encode_single_field, encode_repeated_field}

-- `tuples::<(_, _)>()`: a value without a partner is left out.
abbrev pub tuples {ℓ} : {A : Type ℓ} → List A → List (A × A)
tuples [] = []
tuples (k ∷ []) = []
tuples (k ∷ v ∷ rest) = (k, v) ∷ tuples rest

-- The order of i32 as an order of numbers.
unfoldable pub i32_key : ℤ → ℕ
i32_key (pos n) = n + 2 ^ 31
i32_key (negsuc n) = 2 ^ 31 - 1 - n

-- The key that the fields are sorted by: `number.unwrap_or_default()`.
unfoldable pub number_key : {Builder Struct : Type 0} → FieldValueInner Builder Struct → ℕ
unfolding i32_key
number_key f = i32_key (unwrap_or f.descriptor.number (pos 0))

-- `values.first()`.
abbrev pub first {ℓ} : {A : Type ℓ} → List A → Option A
first [] = none
first (x ∷ xs) = some x

-- The nested type of a map's entries.
unfoldable pub find_entry_proto : DescriptorProto → Text → Outcome DescriptorProto
find_entry_proto descriptor entry_type_name =
    let entry_name = last_name entry_type_name in
    ok_or
      (find (λ nested_type. text_eq (text_or_default (Descriptor.name nested_type)) entry_name)
        (Descriptor.nested_type descriptor))
      (Error.nested_type_not_found entry_name entry_type_name)

unfoldable pub find_entry_field : Text → Error → DescriptorProto → Outcome FieldDescriptorProto
find_entry_field name e entry_proto =
    ok_or (find (λ f. text_eq (text_or_default f.name) name) (Descriptor.field entry_proto)) e

module _ {Builder Struct : Type 0} where
  -- The message of one entry of a map, with a key and a value.
  unfoldable pub entry_value :
      MessageBuilder Builder Struct
      → Text
      → DescriptorProto
      → FieldDescriptorProto
      → FieldDescriptorProto
      → MessageFieldValue Builder Struct × MessageFieldValue Builder Struct
      → MessageFieldValue (MessageBuilder Builder Struct) Struct
  entry_value b entry_name entry_proto key_proto value_proto (k, v) = record {
    name = entry_name;
    raw_value = none;
    rtype = RType.message (record {
      file_descriptor = b.file_descriptor;
      descriptor = entry_proto;
      message_name = entry_name;
      fields =
          insert (codes "value") (inner value_proto MessageFieldValueType.normal (v ∷ []))
            (insert (codes "key") (inner key_proto MessageFieldValueType.normal (k ∷ [])) []);
    });
  }

  -- The entries of a map as the values of a repeated field.
  unfoldable pub map_entries :
      MessageBuilder Builder Struct
      → FieldValueInner Builder Struct
      → Outcome (List (MessageFieldValue (MessageBuilder Builder Struct) Struct))
  map_entries b field_value =
      ok_or field_value.descriptor.type_name Error.type_name_missing >>= λ entry_type_name.
      find_entry_proto b.descriptor entry_type_name >>= λ entry_proto.
      find_entry_field (codes "key") (Error.map_key_not_found entry_type_name) entry_proto
      >>= λ key_proto.
          find_entry_field (codes "value") (Error.map_value_not_found entry_type_name) entry_proto
          >>= λ value_proto. ok (
              map (entry_value b (last_name entry_type_name) entry_proto key_proto value_proto)
                (tuples field_value.values))

  -- The repeated field of the entries.
  abbrev pub entries_field :
      FieldValueInner Builder Struct
      → List (MessageFieldValue (MessageBuilder Builder Struct) Struct)
      → FieldValueInner (MessageBuilder Builder Struct) Struct
  entries_field field_value entries = record {
    values = entries;
    descriptor = field_value.descriptor;
    field_type = MessageFieldValueType.repeated;
    proto_type = field_value.proto_type;
  }

module _ {Builder Struct : Type 0} (env : Encoding Struct) where
  -- What encode_map_field does with the values of the field, if there are any.
  unfoldable pub encode_map_values :
      (MessageBuilder Builder Struct → Outcome (List ℕ))
      → MessageBuilder Builder Struct
      → FieldValueInner Builder Struct
      → List (MessageFieldValue Builder Struct)
      → Outcome (List ℕ)
  encode_map_values encode_entry b field_value [] = ok []
  encode_map_values encode_entry b field_value (v ∷ vs) =
      if length (v ∷ vs) % 2 == 1
      then err (Error.odd_map_values (length (v ∷ vs)))
      else (map_entries b field_value >>= λ entries.
          encode_repeated_field env encode_entry (entries_field field_value entries))

  unfoldable pub encode_map_field :
      (MessageBuilder Builder Struct → Outcome (List ℕ))
      → MessageBuilder Builder Struct
      → FieldValueInner Builder Struct
      → Outcome (List ℕ)
  encode_map_field encode_entry b field_value =
      encode_map_values encode_entry b field_value field_value.values

  -- The match on the type of the field.
  unfoldable pub encode_one :
      (Builder → Outcome (List ℕ))
      → (MessageBuilder Builder Struct → Outcome (List ℕ))
      → MessageBuilder Builder Struct
      → MessageFieldValueType
      → FieldValueInner Builder Struct
      → Outcome (List ℕ)
  encode_one encode encode_entry b MessageFieldValueType.normal field_data =
      encode_single_field env encode field_data (first field_data.values)
  encode_one encode encode_entry b MessageFieldValueType.map field_data =
      encode_map_field encode_entry b field_data
  encode_one encode encode_entry b MessageFieldValueType.repeated field_data =
      encode_repeated_field env encode field_data

  -- The loop over the sorted fields.
  unfoldable pub encode_fields :
      (FieldValueInner Builder Struct → Outcome (List ℕ))
      → BTreeMap (FieldValueInner Builder Struct)
      → Outcome (List ℕ)
  encode_fields encode_field [] = ok []
  encode_fields encode_field ((name, field_data) ∷ rest) = encode_field field_data >>= λ bytes.
      encode_fields encode_field rest >>= λ more. ok (bytes ++ more)

  unfoldable pub encode_with :
      ℕ → (Builder → Outcome (List ℕ)) → MessageBuilder Builder Struct → Outcome (List ℕ)
  encode_with zero encode b = out_of_fuel
  encode_with (suc fuel) encode b =
      encode_fields (λ f. encode_one encode (encode_with fuel encode) b f.field_type f)
        (env.libs.sorted_by (Text × FieldValueInner Builder Struct) (λ e. number_key e.1) b.fields)

  unfoldable pub encode_message :
      (Builder → Outcome (List ℕ)) → MessageBuilder Builder Struct → Outcome (List ℕ)
  encode_message encode b = encode_with 2 encode b

-- The builders whose embedded messages nest to a depth below the number.
abbrev pub BuilderOf : Type 0 → ℕ → Type 0
BuilderOf Struct zero = ⊥
BuilderOf Struct (suc depth) = MessageBuilder (BuilderOf Struct depth) Struct

-- encode_message on such a builder, with itself for the embedded messages.
unfoldable pub encode_nested :
    {Struct : Type 0} → Encoding Struct → (depth : ℕ) → BuilderOf Struct depth → Outcome (List ℕ)
encode_nested env zero b = absurd b
encode_nested env (suc depth) b = encode_message env (encode_nested env depth) b
