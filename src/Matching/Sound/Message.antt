-- ===== src/Matching/Sound/Message.antt =====
-- Two messages match exactly where each field of their descriptor does.
use pact_protobuf_plugin.Base.{
  ℕ, ◌≡◌, refl, ap, ◌∙◌, ◌↔◌, inl, inr, Bool, true, false, Bool-cases, Option, none, some, List, [],
  ◌∷◌, All,
}
use pact_protobuf_plugin.Base.Int.{ℤ, as_u32}
use pact_protobuf_plugin.ProstTypes.{FieldDescriptorProto, DescriptorProto, FileDescriptorSet}
use pact_protobuf_plugin.Descriptor
use pact_protobuf_plugin.Outcome.{ok, ok-injective, >>=-eq-ok}
use pact_protobuf_plugin.Field.{ProtobufField}
use pact_protobuf_plugin.Lookup.{is_map_field, is_repeated_field}
use pact_protobuf_plugin.Matching.{BodyMatchResult, Pact, Compare}
use pact_protobuf_plugin.Matching.Lists.{compare_repeated_field}
use pact_protobuf_plugin.Matching.Maps.{compare_map_field}
use pact_protobuf_plugin.Matching.Messages.{
  Results, numbered, field_name, result_of, compare_numbered, compare_optional, compare_fields,
  compare_message,
}
use pact_protobuf_plugin.Matching.Sound.{mismatches_iff, SingleMatches, compare_single_iff}

module _ (pact : Pact) (fds : FileDescriptorSet) (compare_field : Compare pact)
    (path : pact.DocPath) (d : DescriptorProto) (context : pact.Context) where
  open pact use {DocPath}

  -- The expected and actual values of a field match, as those of a map, of a repeated field or of a
  -- single value.
  abbrev pub ValuesMatch :
      Bool
      → Bool
      → DocPath
      → FieldDescriptorProto
      → List ProtobufField
      → List ProtobufField
      → Type 0
  ValuesMatch true is_repeated field_path field expected actual =
      compare_map_field pact fds compare_field field_path field expected actual context ≡ ok []
  ValuesMatch false true field_path field expected actual =
      compare_repeated_field pact compare_field field_path field expected actual context ≡ ok []
  ValuesMatch false false field_path field expected actual =
      SingleMatches pact compare_field path field_path field expected actual context

  -- The values of a field with a number, which are those of the number; a field without one matches.
  abbrev pub FieldMatches :
      List ProtobufField → List ProtobufField → FieldDescriptorProto → Option ℤ → Type 0
  FieldMatches expected actual field none = Unit {0}
  FieldMatches expected actual field (some number) =
      ValuesMatch (is_map_field d field) (is_repeated_field field)
        (pact.join path (field_name field (as_u32 number))) field
        (numbered (as_u32 number) expected) (numbered (as_u32 number) actual)

  compare_numbered_iff :
      (field : FieldDescriptorProto) (n : ℕ) (expected actual : List ProtobufField) (r : Results)
      → (compare_numbered pact fds compare_field path d field n expected actual context r ≡ ok [])
        ↔ ((r ≡ [])
            × ValuesMatch
                (is_map_field d field)
                (is_repeated_field field)
                (pact.join path (field_name field n))
                field
                expected
                actual)
  unfolding compare_numbered
  compare_numbered_iff field n expected actual r = elim (Bool-cases (is_map_field d field)) [
    | inl map ↦ rw (map) (mismatches_iff _ _ r)
    | inr no_map ↦ elim (Bool-cases (is_repeated_field field)) [
      | inl repeated ↦ rw (no_map, repeated) (mismatches_iff _ _ r)
      | inr single ↦
          rw (no_map, single)
            (compare_single_iff pact compare_field path _ field _ expected actual context r)
    ]
  ]

  compare_optional_iff :
      (expected actual : List ProtobufField) (field : FieldDescriptorProto) (o : Option ℤ)
      (r : Results)
      → (compare_optional pact fds compare_field path d expected actual context field o r ≡ ok [])
        ↔ ((r ≡ []) × FieldMatches expected actual field o)
  unfolding compare_optional
  compare_optional_iff expected actual field none r = (λ e. (ok-injective e, tt), λ e. ap ok e.0)
  compare_optional_iff expected actual field (some number) r =
      compare_numbered_iff field (as_u32 number) (numbered (as_u32 number) expected)
        (numbered (as_u32 number) actual) r

  compare_fields_iff :
      (expected actual : List ProtobufField) (fields : List FieldDescriptorProto) (r : Results)
      → (compare_fields pact fds compare_field path d expected actual context fields r ≡ ok [])
        ↔ ((r ≡ []) × All (λ field. FieldMatches expected actual field field.number) fields)
  unfolding compare_fields
  compare_fields_iff expected actual [] r = (λ e. (ok-injective e, tt), λ e. ap ok e.0)
  compare_fields_iff expected actual (field ∷ fields) r =
      let step =
        compare_optional pact fds compare_field path d expected actual context field field.number
          r in
      let one = compare_optional_iff expected actual field field.number r in
      (
        λ e.
            let (r', first, more) = >>=-eq-ok step _ e in
            let (empty, others) = (compare_fields_iff expected actual fields r').0 more in
            let (before, here) = one.0 (first ∙ ap ok empty) in (before, (here, others)),
        λ (before, (here, others)).
            rw (one.1 (before, here))
              ((compare_fields_iff expected actual fields []).1 (refl, others)),
      )

  result_of_iff : (r : Results) → (result_of r ≡ BodyMatchResult.matches) ↔ (r ≡ [])
  unfolding result_of
  result_of_iff [] = (λ e. refl, λ e. refl)
  result_of_iff (m ∷ r) = (λ e. cc, λ e. cc)

  -- compare_message reports a match exactly where each field of the descriptor that has a number
  -- matches: a map and a repeated field by their comparisons; a single value by the comparison of the
  -- first expected value with the first actual one, or with its default where there is none, in the
  -- context that the matchers of the message give and with no reference unresolved; and where nothing
  -- was expected, by the actual value's being the default or unexpected values being allowed.
  pub compare_message_iff :
      (expected actual : List ProtobufField)
      → (compare_message pact fds compare_field path expected actual context d
          ≡ ok BodyMatchResult.matches)
        ↔ All (λ field. FieldMatches expected actual field field.number) (Descriptor.field d)
  unfolding compare_message
  compare_message_iff expected actual =
      let both = compare_fields_iff expected actual (Descriptor.field d) [] in
      (
        λ e.
            let (r, first, last) =
              >>=-eq-ok
                (compare_fields pact fds compare_field path d expected actual context
                  (Descriptor.field d) [])
                _ e in
            (both.0 (first ∙ ap ok ((result_of_iff r).0 (ok-injective last)))).1,
        λ h. rw (both.1 (refl, h)) (unfold result_of in refl),
      )
