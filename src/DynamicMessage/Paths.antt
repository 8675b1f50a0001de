-- ===== src/DynamicMessage/Paths.antt =====
-- fetch_field_value and set_field_value of src/dynamic_message.rs, and the walk along a path that they
-- share. A path is the list of its tokens. The callback, which is given a reference, is a function from
-- the field to the changed field. The walk returns the message it leaves, and the field that the
-- callback was called with, which stands also where rewriting a child message fails afterwards.
pub mod Direct
use pact_protobuf_plugin.Base.{
  ℕ, zero, suc, ◌-◌, Bool, true, false, Option, none, some, List, [], ◌∷◌, ◌++◌, length, leb,
  if◌then◌else◌,
}
use pact_protobuf_plugin.Base.Text.{Text, text_eq}
use pact_protobuf_plugin.ProstTypes.{DescriptorProto, FileDescriptorSet}
use pact_protobuf_plugin.Outcome.{Outcome, Error, ok, err, panic, out_of_fuel, ◌>>=◌}
use pact_protobuf_plugin.Field.{ProtobufFieldData, ProtobufField, repeated_field, type_name}
use pact_protobuf_plugin.Libraries.{Libraries}
use pact_protobuf_plugin.Decoder.Message.{decode_message}
use pact_protobuf_plugin.DynamicMessage.{DynamicMessage, new, write_to}

-- pact_models::path_exp::PathToken.
pub data PathToken : Type 0 where
  root : PathToken
  field : Text → PathToken
  index : ℕ → PathToken
  star star_index : PathToken

abbrev pub Callback : Type 0
Callback = ProtobufField → Option PathToken → ProtobufField

-- The field of the name that the map visits first.
unfoldable pub find_field_value : List (ℕ × ProtobufField) → Text → Option ProtobufField
find_field_value [] field_name = none
find_field_value ((field_num, f) ∷ fields) field_name =
    let rest = find_field_value fields field_name in
    if text_eq f.field_name field_name then some f else rest

-- A change of that field through the reference.
unfoldable pub put_field_value :
    List (ℕ × ProtobufField) → Text → ProtobufField → List (ℕ × ProtobufField)
put_field_value [] field_name changed = []
put_field_value ((field_num, f) ∷ fields) field_name changed =
    let rest = put_field_value fields field_name changed in
    if text_eq f.field_name field_name then (field_num, changed) ∷ fields else (field_num, f) ∷ rest

-- What the walk leaves: the message or an error, and the field that the callback was called with.
abbrev pub Walk : Type 0
Walk = Outcome DynamicMessage × Option ProtobufField

unfoldable pub with_field : DynamicMessage → Text → ProtobufField → DynamicMessage
unfolding put_field_value
with_field m field_name changed = record m { fields = put_field_value m.fields field_name changed }

-- `callback(field, segment); Ok(())`.
unfoldable pub call : Callback → DynamicMessage → Text → ProtobufField → Option PathToken → Walk
unfolding with_field
call callback m field_name f segment = (ok (with_field m field_name (callback f segment)), some f)

-- The match on the token behind the name of a field that is no enum and no message.
unfoldable pub match_segment :
    Callback → DynamicMessage → Text → ProtobufField → PathToken → List PathToken → Walk
unfolding call
match_segment callback m field_name f PathToken.star [] = call callback m field_name f none
match_segment callback m field_name f PathToken.star (t ∷ ts) =
    (err (Error.path_beyond_field (type_name f.field_data)), none)
match_segment callback m field_name f PathToken.star_index [] = call callback m field_name f none
match_segment callback m field_name f PathToken.star_index (t ∷ ts) =
    (err (Error.path_beyond_field (type_name f.field_data)), none)
match_segment callback m field_name f (PathToken.index i) [] =
    if repeated_field f
    then call callback m field_name f (some (PathToken.index i))
    else (err (Error.path_index_not_repeated i), none)
match_segment callback m field_name f (PathToken.index i) (t ∷ ts) =
    (err (Error.path_index_not_repeated i), none)
match_segment callback m field_name f _ ts = (err Error.path_segment_not_applicable, none)

module _ (libs : Libraries) where
  -- The child message behind a field's data.
  unfoldable pub child_message :
      List ℕ → DescriptorProto → FileDescriptorSet → Outcome DynamicMessage
  child_message bytes descriptor descriptors =
      decode_message libs bytes descriptor descriptors >>= λ fields. new libs fields descriptors

  -- The rewriting of the child message, where the walk in it has come through. Where the writing fails,
  -- the source leaves the child's data cleared or written in part; here the error drops the message.
  unfoldable pub rewrite_child :
      DynamicMessage
      → Text
      → ProtobufField
      → DescriptorProto
      → Outcome DynamicMessage
      → Outcome DynamicMessage
  unfolding with_field
  rewrite_child m field_name f descriptor child = child >>= λ message.
      write_to libs message >>= λ bytes. ok (
        with_field m field_name
          (record f { field_data = ProtobufFieldData.message bytes descriptor }))

  -- The match on the field's data, where tokens are left; `inner` is the walk along them in a child.
  unfoldable pub match_data :
      (DynamicMessage → Walk)
      → PathToken
      → List PathToken
      → Callback
      → DynamicMessage
      → Text
      → ProtobufField
      → ProtobufFieldData
      → Walk
  unfolding match_segment rewrite_child child_message
  match_data inner t ts callback m field_name f (ProtobufFieldData.enum n e) =
      (err Error.path_in_enum, none)
  match_data inner t ts callback m field_name f (ProtobufFieldData.message bytes descriptor) =
      elim (child_message bytes descriptor m.descriptors) [
        | ok message ↦
            (rewrite_child m field_name f descriptor (inner message).0, (inner message).1)
        | err e ↦ (err e, none)
        | panic ↦ (panic, none)
        | out_of_fuel ↦ (out_of_fuel, none)
      ]
  match_data inner t ts callback m field_name f _ = match_segment callback m field_name f t ts

  -- The field of the name, where there is one.
  unfoldable pub match_field :
      (DynamicMessage → Walk)
      → List PathToken
      → Callback
      → DynamicMessage
      → Text
      → Option ProtobufField
      → Walk
  unfolding match_data call
  match_field inner ts callback m field_name none = (err (Error.path_not_found field_name), none)
  match_field inner [] callback m field_name (some f) = call callback m field_name f none
  match_field inner (t ∷ ts) callback m field_name (some f) =
      match_data inner t ts callback m field_name f f.field_data

  unfoldable pub match_path : List PathToken → Callback → DynamicMessage → Walk
  unfolding match_field find_field_value
  match_path [] callback m = (err Error.path_at_end, none)
  match_path (PathToken.root ∷ ts) callback m = (ok m, none)
  match_path (PathToken.field field_name ∷ ts) callback m =
      match_field (λ message. match_path ts callback message) ts callback m field_name
        (find_field_value m.fields field_name)
  match_path (PathToken.index i ∷ ts) callback m = (err Error.path_index, none)
  match_path (PathToken.star ∷ ts) callback m = (err Error.path_star, none)
  match_path (PathToken.star_index ∷ ts) callback m = (err Error.path_star_index, none)

-- `additional_data.resize(additional_index + 1, data)` and the assignment at `additional_index`.
unfoldable pub put_additional :
    List ProtobufFieldData → ℕ → ProtobufFieldData → ProtobufFieldData → List ProtobufFieldData
put_additional [] zero filler value = value ∷ []
put_additional [] (suc i) filler value = filler ∷ put_additional [] i filler value
put_additional (d ∷ ds) zero filler value = value ∷ ds
put_additional (d ∷ ds) (suc i) filler value = d ∷ put_additional ds i filler value

-- The callback of `set_field_value`.
unfoldable pub set_value : ProtobufFieldData → Callback
unfolding put_additional
set_value value f (some (PathToken.index zero)) = record f { field_data = value }
set_value value f (some (PathToken.index (suc i))) = record f {
  additional_data = put_additional f.additional_data i f.field_data value;
}
set_value value f _ = record f { field_data = value }

-- The callback of `fetch_field_value` changes nothing.
unfoldable pub keep_value : Callback
keep_value f segment = f

module _ (libs : Libraries) where
  -- An error of the walk is logged.
  unfoldable pub fetch_field_value : DynamicMessage → List PathToken → Option ProtobufField
  unfolding match_path
  fetch_field_value m (PathToken.root ∷ ts) = (match_path libs ts keep_value m).1
  fetch_field_value m _ = none

  unfoldable pub set_field_value :
      DynamicMessage → List PathToken → ProtobufFieldData → Outcome DynamicMessage
  unfolding match_path
  set_field_value m (PathToken.root ∷ ts) value = (match_path libs ts (set_value value) m).0
  set_field_value m _ value = err Error.path_without_root
