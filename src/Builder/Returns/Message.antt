-- ===== src/Builder/Returns/Message.antt =====
-- encode_message returns bytes or an error: the calls for the entries of maps never go deeper than one.
use pact_protobuf_plugin.Names.{last_name}
use pact_protobuf_plugin.Builder.Message.{tuples}
use pact_protobuf_plugin.Base.{
  length, ◌%◌, ◌==◌, Bool-cases, inl, inr, ℕ, zero, suc, List, [], ◌∷◌, map, All,
}
use pact_protobuf_plugin.Base.Text.{Text, codes}
use pact_protobuf_plugin.ProstTypes.{FieldDescriptorProto, DescriptorProto}
use pact_protobuf_plugin.Outcome.{Outcome, Error, ok_or, Returns, >>=-Returns}
use pact_protobuf_plugin.FieldValue.{RType, MessageFieldValue}
use pact_protobuf_plugin.BTreeMap.{BTreeMap, insert}
use pact_protobuf_plugin.Builder.{MessageFieldValueType, FieldValueInner, MessageBuilder}
use pact_protobuf_plugin.Builder.Wire.{Encoding}
use pact_protobuf_plugin.Builder.Encode.{encode_repeated_field}
use pact_protobuf_plugin.Builder.Message.{
  BuilderOf, encode_nested, encode_message, encode_with, encode_one, encode_map_field,
  encode_map_values, map_entries, entries_field, entry_value, find_entry_proto, find_entry_field,
}
use pact_protobuf_plugin.Outcome.{Holds, Holds-eq, >>=-Holds}
use pact_protobuf_plugin.Builder.Returns.{
  ReturnsOn, ReturnsOnAll, map_entries-Returns, encode_single_field-Returns, encode_values-Returns,
  encode_with-Returns,
}

module _ {Builder Struct : Type 0} (env : Encoding Struct) (encode : Builder → Outcome (List ℕ))
    (ends : (m : Builder) → Returns (encode m)) where
  every-ReturnsOn : (r : RType Builder Struct) → ReturnsOn env encode r
  every-ReturnsOn (RType.message m) = ends m
  every-ReturnsOn _ = tt

  every-ReturnsOnAll : (vs : List (MessageFieldValue Builder Struct)) → ReturnsOnAll env encode vs
  every-ReturnsOnAll [] = tt
  every-ReturnsOnAll (v ∷ vs) = (every-ReturnsOn v.rtype, every-ReturnsOnAll vs)

  -- An entry of a map has a key and a value, and no map.
  entry_value-Returns :
      (b : MessageBuilder Builder Struct) (name : Text) (d : DescriptorProto)
      (k v : FieldDescriptorProto)
      (p : MessageFieldValue Builder Struct × MessageFieldValue Builder Struct)
      → ReturnsOn env (encode_with env 1 encode) (entry_value b name d k v p).rtype
  unfolding entry_value insert encode_one
  entry_value-Returns b name d k v p = encode_with-Returns env encode 0 _ (
    encode_single_field-Returns env encode _ (p.0 ∷ []) (every-ReturnsOnAll (p.0 ∷ [])),
    (encode_single_field-Returns env encode _ (p.1 ∷ []) (every-ReturnsOnAll (p.1 ∷ [])), tt),
  )

  entries-ReturnsOnAll :
      (b : MessageBuilder Builder Struct) (name : Text) (d : DescriptorProto)
      (k v : FieldDescriptorProto)
      (ps : List (MessageFieldValue Builder Struct × MessageFieldValue Builder Struct))
      → ReturnsOnAll env (encode_with env 1 encode) (map (entry_value b name d k v) ps)
  entries-ReturnsOnAll b name d k v [] = tt
  entries-ReturnsOnAll b name d k v (p ∷ ps) =
      (entry_value-Returns b name d k v p, entries-ReturnsOnAll b name d k v ps)

  map_entries-ReturnsOnAll :
      (b : MessageBuilder Builder Struct) (f : FieldValueInner Builder Struct)
      → Holds (ReturnsOnAll env (encode_with env 1 encode)) (map_entries b f)
  unfolding map_entries
  map_entries-ReturnsOnAll b f =
      let Q = ReturnsOnAll env (encode_with env 1 encode) in
      >>=-Holds Q (ok_or f.descriptor.type_name Error.type_name_missing) _ (λ t.
        >>=-Holds Q (find_entry_proto b.descriptor t) _ (λ p.
          >>=-Holds Q (find_entry_field (codes "key") (Error.map_key_not_found t) p) _ (λ k.
            >>=-Holds Q (find_entry_field (codes "value") (Error.map_value_not_found t) p) _
              (λ v. entries-ReturnsOnAll b (last_name t) p k v (tuples f.values)))))

  encode_map_values-Returns :
      (b : MessageBuilder Builder Struct) (f : FieldValueInner Builder Struct)
      (vs : List (MessageFieldValue Builder Struct))
      → Returns (encode_map_values env (encode_with env 1 encode) b f vs)
  unfolding encode_map_values encode_repeated_field
  encode_map_values-Returns b f [] = tt
  encode_map_values-Returns b f (v ∷ vs) = elim (Bool-cases (length (v ∷ vs) % 2 == 1)) [
    | inl odd ↦ rw (odd) tt
    | inr even ↦ rw (even) (
        >>=-Returns (map_entries b f) _ (map_entries-Returns env b f) (λ entries e.
          encode_values-Returns env (encode_with env 1 encode) (entries_field f entries) entries
            (Holds-eq _ (map_entries b f) (map_entries-ReturnsOnAll b f) e)))
  ]

  encode_one-Returns :
      (b : MessageBuilder Builder Struct) (t : MessageFieldValueType)
      (f : FieldValueInner Builder Struct)
      → Returns (encode_one env encode (encode_with env 1 encode) b t f)
  unfolding encode_one encode_map_field encode_repeated_field
  encode_one-Returns b MessageFieldValueType.normal f =
      encode_single_field-Returns env encode f f.values (every-ReturnsOnAll f.values)
  encode_one-Returns b MessageFieldValueType.map f = encode_map_values-Returns b f f.values
  encode_one-Returns b MessageFieldValueType.repeated f =
      encode_values-Returns env encode f f.values (every-ReturnsOnAll f.values)

  every-field-Returns :
      (b : MessageBuilder Builder Struct) (es : BTreeMap (FieldValueInner Builder Struct))
      → All
          (λ (e : Text × FieldValueInner Builder Struct).
            Returns (encode_one env encode (encode_with env 1 encode) b e.1.field_type e.1))
          es
  every-field-Returns b [] = tt
  every-field-Returns b (e ∷ es) =
      (encode_one-Returns b e.1.field_type e.1, every-field-Returns b es)

  encode_message-Returns :
      (b : MessageBuilder Builder Struct) → Returns (encode_message env encode b)
  unfolding encode_message
  encode_message-Returns b = encode_with-Returns env encode 1 b (every-field-Returns b b.fields)

-- Encoding a builder returns bytes or an error, however deeply its messages nest and whatever its maps
-- hold: it comes to an end and does not panic.
pub encode_nested-Returns :
    {Struct : Type 0} (env : Encoding Struct) (depth : ℕ) (b : BuilderOf Struct depth)
    → Returns (encode_nested env depth b)
unfolding encode_nested
encode_nested-Returns env zero b = absurd b
encode_nested-Returns env (suc depth) b =
    encode_message-Returns env (encode_nested env depth) (encode_nested-Returns env depth) b
