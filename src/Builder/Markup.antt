-- ===== src/Builder/Markup.antt =====
-- generate_markup of src/message_builder.rs: the fields of a message as Markdown.
use pact_protobuf_plugin.Base.{ℕ, zero, suc, Option, none, some, [], ◌∷◌, ◌++◌}
use pact_protobuf_plugin.Base.Text.{Text, codes}
use pact_protobuf_plugin.Base.Int.{ℤ}
use pact_protobuf_plugin.Outcome.{Outcome, ok, ◌>>=◌}
use pact_protobuf_plugin.Libraries.{Libraries}
use pact_protobuf_plugin.FieldValue.{int_to_string}
use pact_protobuf_plugin.Render.{field_type_name}
use pact_protobuf_plugin.BTreeMap.{BTreeMap}
use pact_protobuf_plugin.Builder.{MessageFieldValueType, FieldValueInner, MessageBuilder}
use pact_protobuf_plugin.Builder.Message.{i32_key}

-- `Ord::cmp` on Option<i32>: a field without a number comes first.
unfoldable pub optional_key : Option ℤ → ℕ
unfolding i32_key
optional_key none = zero
optional_key (some n) = suc (i32_key n)

-- `\n`.
abbrev pub newline : Text
newline = 10 ∷ []

-- The line of a field, from the text before and behind the name of its type.
unfoldable pub field_line : Text → Text → Text → Text → Text → ℤ → Text
unfolding int_to_string
field_line indent before type_name behind name field_num =
    indent
    ++ (codes "    "
        ++ (before
            ++ (type_name
                ++ (behind
                    ++ (name
                        ++ (codes " = " ++ (int_to_string field_num ++ (codes ";" ++ newline))))))))

module _ {Builder Struct : Type 0} where
  -- A map shows the type of its entries between `map<` and `>`.
  unfoldable pub markup_line :
      Text → Text → MessageFieldValueType → FieldValueInner Builder Struct → ℤ → Outcome Text
  markup_line indent name MessageFieldValueType.normal f field_num =
      field_type_name f.proto_type f.descriptor.type_name >>= λ t.
      ok (field_line indent [] t (codes " ") name field_num)
  markup_line indent name MessageFieldValueType.map f field_num =
      field_type_name f.proto_type f.descriptor.type_name >>= λ t.
      ok (field_line indent (codes "map<") t (codes "> ") name field_num)
  markup_line indent name MessageFieldValueType.repeated f field_num =
      field_type_name f.proto_type f.descriptor.type_name >>= λ t.
      ok (field_line indent (codes "repeated ") t (codes " ") name field_num)

  -- A field without a number has no line.
  unfoldable pub markup_field : Text → Text × FieldValueInner Builder Struct → Outcome Text
  markup_field indent (name, f) = elim (f.descriptor.number) [
    | some field_num ↦ markup_line indent name f.field_type f field_num
    | none ↦ ok []
  ]

  unfoldable pub markup_fields : Text → BTreeMap (FieldValueInner Builder Struct) → Outcome Text
  markup_fields indent [] = ok []
  markup_fields indent (e ∷ es) =
      markup_field indent e >>= λ line. markup_fields indent es >>= λ more. ok (line ++ more)

  unfoldable pub generate_markup : Libraries → MessageBuilder Builder Struct → Text → Outcome Text
  generate_markup libs b indent =
      markup_fields indent (
        libs.sorted_by (Text × FieldValueInner Builder Struct)
          (λ e. optional_key e.1.descriptor.number) b.fields)
      >>= λ lines. ok (
          codes "```protobuf"
          ++ (newline
              ++ (indent
                  ++ (codes "message "
                      ++ (b.message_name
                          ++ (codes " {"
                              ++ (newline
                                  ++ (lines
                                      ++ (indent
                                          ++ (codes "}"
                                              ++ (newline ++ (codes "```" ++ newline))))))))))))
