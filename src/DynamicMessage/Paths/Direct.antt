-- ===== src/DynamicMessage/Paths/Direct.antt =====
-- Paths to a field of the message itself.
use pact_protobuf_plugin.Base.{ℕ, ◌≡◌, ap, inl, inr, true, none, some, List, [], ◌∷◌, Bool-cases}
use mathlib.Core.Path.{subst}
use mathlib.Core.Option.{some-injective}
use pact_protobuf_plugin.Base.Text.{Text, text_eq}
use pact_protobuf_plugin.Outcome.{ok}
use pact_protobuf_plugin.Field.{ProtobufFieldData, ProtobufField}
use pact_protobuf_plugin.Libraries.{Libraries}
use pact_protobuf_plugin.DynamicMessage.{DynamicMessage}
use pact_protobuf_plugin.DynamicMessage.Paths.{
  PathToken, Callback, Walk, find_field_value, put_field_value, with_field, call, match_path,
  match_field, set_value, keep_value, fetch_field_value, set_field_value,
}

-- A field that was put back under its own name is found there.
find_field_value-put_field_value :
    (fields : List (ℕ × ProtobufField)) (name : Text) (f changed : ProtobufField)
    → find_field_value fields name ≡ some f
    → text_eq changed.field_name name ≡ true
    → find_field_value (put_field_value fields name changed) name ≡ some changed
unfolding find_field_value put_field_value
find_field_value-put_field_value [] name f changed e same = cc
find_field_value-put_field_value ((k, g) ∷ fields) name f changed e same =
    elim (Bool-cases (text_eq g.field_name name)) [
      | inl here ↦ rw here (rw same)
      | inr past ↦
          rw past
            (rw past (find_field_value-put_field_value fields name f changed (rw past at e) same))
    ]

-- A walk along the name of a field calls the callback with the field.
match_path_direct :
    (libs : Libraries) (callback : Callback) (m : DynamicMessage) (name : Text) (f : ProtobufField)
    → find_field_value m.fields name ≡ some f
    → match_path libs (PathToken.field name ∷ []) callback m
      ≡ (ok (with_field m name (callback f none)), some f)
unfolding match_path match_field call
match_path_direct libs callback m name f found =
    ap (match_field libs (λ message. match_path libs [] callback message) [] callback m name) found

-- The field that is found has the name.
find_field_value-name :
    (fields : List (ℕ × ProtobufField)) (name : Text) (f : ProtobufField)
    → find_field_value fields name ≡ some f
    → text_eq f.field_name name ≡ true
unfolding find_field_value
find_field_value-name [] name f e = cc
find_field_value-name ((k, g) ∷ fields) name f e = elim (Bool-cases (text_eq g.field_name name)) [
  | inl here ↦
      subst (λ h. text_eq h.field_name name ≡ true) (some-injective _ _ (rw here at e)) here
  | inr past ↦ find_field_value-name fields name f (rw past at e)
]

module _ (libs : Libraries) (m : DynamicMessage) (name : Text) (f : ProtobufField)
    (value : ProtobufFieldData) where
  -- Where the message has a field of the name, setting it succeeds, and fetching it from the message
  -- that results returns the field with the new data and the rest of it unchanged.
  pub fetch_field_value-set_field_value :
      find_field_value m.fields name ≡ some f
      → (m' : DynamicMessage) × (set_field_value libs m
            (PathToken.root ∷ PathToken.field name ∷ [])
            value
          ≡ ok m')
        × (fetch_field_value libs m' (PathToken.root ∷ PathToken.field name ∷ [])
            ≡ some (record f { field_data = value }))
  unfolding set_field_value fetch_field_value with_field set_value
  fetch_field_value-set_field_value found =
      let changed : ProtobufField = record f { field_data = value } in
      let again =
        find_field_value-put_field_value m.fields name f changed found
          (find_field_value-name m.fields name f found) in
      (
        with_field m name changed,
        ap (λ (w : Walk). w.0) (match_path_direct libs (set_value value) m name f found),
        ap (λ (w : Walk). w.1)
            (match_path_direct libs keep_value (with_field m name changed) name changed again),
      )
