-- ===== src/Matching/Sound.antt =====
-- When two messages match: the results of the fields one by one.
pub mod Message
use pact_protobuf_plugin.Base.{
  ℕ, suc, ◌≡◌, ◌≢◌, refl, ap, sym, ◌∙◌, ◌↔◌, ◌⊎◌, inl, inr, Bool, true, false, Bool-cases, Option,
  none, some, List, [], ◌∷◌, All, if◌then◌else◌, unwrap_or,
}
use pact_protobuf_plugin.Base.Text.{Text, codes}
use pact_protobuf_plugin.Base.Int.{ℤ, as_u32}
use pact_protobuf_plugin.ProstTypes.{FieldDescriptorProto, DescriptorProto, FileDescriptorSet}
use pact_protobuf_plugin.Descriptor
use pact_protobuf_plugin.Outcome.{Outcome, ok, err, panic, out_of_fuel, ok-injective, ◌>>=◌}
use pact_protobuf_plugin.Field.{ProtobufField, is_default_value}
use pact_protobuf_plugin.Lookup.{is_map_field, is_repeated_field}
use pact_protobuf_plugin.BTreeMap.{BTreeMap, insert}
use pact_protobuf_plugin.BTreeMap.Laws.{insert_nonempty}
use pact_protobuf_plugin.Matching.{DiffConfig, Mismatch, BodyMatchResult, Pact, Compare}
use pact_protobuf_plugin.Matching.Lists.{no_unexpected, compare_repeated_field}
use pact_protobuf_plugin.Matching.Maps.{compare_map_field}
use pact_protobuf_plugin.Matching.Messages.{
  Results, numbered, with_mismatches, field_name, result_of, rights, associated_rules,
  with_references, value_context, actual_or_default, unexpected_field, compare_single,
  compare_numbered, compare_optional, compare_fields, compare_message,
}

with_mismatches_iff :
    (p : Text) (ms : List Mismatch) (r : Results)
    → (with_mismatches p ms r ≡ []) ↔ ((ms ≡ []) × (r ≡ []))
unfolding with_mismatches
with_mismatches_iff p [] r = (λ e. (refl, e), λ e. e.1)
with_mismatches_iff p (m ∷ ms) r = (λ e. absurd (insert_nonempty p (m ∷ ms) r e), λ e. cc (e.0))

-- A comparison whose mismatches go into the results leaves them empty where it has none and they were.
pub mismatches_iff :
    (m : Outcome (List Mismatch)) (p : Text) (r : Results)
    → ((m >>= λ ms. ok (with_mismatches p ms r)) ≡ ok []) ↔ ((r ≡ []) × (m ≡ ok []))
mismatches_iff (ok ms) p r = (
  λ e.
      let (none_left, empty) = (with_mismatches_iff p ms r).0 (ok-injective e) in
      (empty, ap ok none_left),
  λ (empty, none_left). ap ok ((with_mismatches_iff p ms r).1 (ok-injective none_left, empty)),
)
mismatches_iff (err m) p r = (λ e. cc, λ e. cc (e.1))
mismatches_iff panic p r = (λ e. cc, λ e. cc (e.1))
mismatches_iff out_of_fuel p r = (λ e. cc, λ e. cc (e.1))

module _ (pact : Pact) where
  open pact use {DocPath, Context}

  -- Values that were not expected are allowed by the configuration, or start with the default.
  abbrev pub AreAllowed : Context → List ProtobufField → Type 0
  AreAllowed context [] = Unit {0}
  AreAllowed context (a ∷ actual) =
      (no_unexpected (pact.config context) ≡ false) ⊎ (is_default_value a ≡ true)

  unexpected_field_iff :
      (context : Context) (p name : Text) (actual : List ProtobufField) (r : Results)
      → (unexpected_field pact context p name actual r ≡ [])
        ↔ ((r ≡ []) × AreAllowed context actual)
  unfolding unexpected_field
  unexpected_field_iff context p name [] r = (λ e. (e, tt), λ e. e.0)
  unexpected_field_iff context p name (a ∷ actual) r =
      elim (Bool-cases (no_unexpected (pact.config context))) [
        | inr allowed ↦ rw (allowed) (λ e. (e, inl refl), λ e. e.0)
        | inl strict ↦ elim (Bool-cases (is_default_value a)) [
          | inl default ↦ rw (strict, default) (λ e. (e, inr refl), λ e. e.0)
          | inr other ↦
              rw (strict, other)
                (λ e. absurd (insert_nonempty p _ r e), λ (e, h). absurd (neither h))
        ]
      ]
    where
      neither : (true ≡ false) ⊎ (false ≡ true) → ⊥
      neither (inl e) = cc
      neither (inr e) = cc

  with_references_iff :
      (path : DocPath) (p : Text) (expected actual : List ProtobufField) (names : List Text)
      (r : Results)
      → (with_references pact path p expected actual names r ≡ []) ↔ ((r ≡ []) × (names ≡ []))
  unfolding with_references
  with_references_iff path p expected actual [] r = (λ e. (e, refl), λ e. e.0)
  with_references_iff path p expected actual (n ∷ ns) r = (
    λ e. absurd (insert_nonempty p _ r ((with_references_iff path p expected actual ns _).0 e).0),
    λ e. cc (e.1),
  )

  -- The references that an EachValue matcher of the message leaves unresolved.
  abbrev pub references : DocPath → Context → List Text
  references path context =
      if pact.values_matcher_defined context path
      then rights (
          unwrap_or
            (associated_rules pact (pact.cascaded (pact.select_best_matcher context path))
              (pact.rules (pact.select_best_matcher context path)))
            [])
      else []

  value_context_iff :
      (path : DocPath) (p : Text) (expected actual : List ProtobufField) (context : Context)
      (r : Results)
      → ((value_context pact path p expected actual context r).0 ≡ [])
        ↔ ((r ≡ []) × (references path context ≡ []))
  unfolding value_context
  value_context_iff path p expected actual context r =
      elim (Bool-cases (pact.values_matcher_defined context path)) [
        | inl defined ↦ rw (defined) (with_references_iff path p expected actual _ r)
        | inr undefined ↦ rw (undefined) (λ e. (e, refl), λ e. e.0)
      ]

  -- The context in which a single value is compared.
  abbrev pub single_context :
      DocPath → DocPath → List ProtobufField → List ProtobufField → Context → Context
  single_context path field_path expected actual context =
      (value_context pact path (pact.path_to_string field_path) expected actual context []).1

  -- A field that is neither a map nor repeated: nothing was expected and what is there is allowed, or
  -- the first expected value matches the first actual one, or its default where there is none.
  abbrev pub SingleMatches :
      Compare pact
      → DocPath
      → DocPath
      → FieldDescriptorProto
      → List ProtobufField
      → List ProtobufField
      → Context
      → Type 0
  SingleMatches compare_field path field_path field [] actual context = AreAllowed context actual
  SingleMatches compare_field path field_path field (e ∷ expected) actual context =
      (references path context ≡ [])
      × (compare_field field_path e field (actual_or_default pact e actual)
            (single_context path field_path (e ∷ expected) actual context)
          ≡ ok [])

  value_context_same :
      (path : DocPath) (p : Text) (expected actual : List ProtobufField) (context : Context)
      (r s : Results)
      → (value_context pact path p expected actual context r).1
        ≡ (value_context pact path p expected actual context s).1
  unfolding value_context
  value_context_same path p expected actual context r s =
      elim (Bool-cases (pact.values_matcher_defined context path)) [
        | inl defined ↦ rw (defined)
        | inr undefined ↦ rw (undefined)
      ]

  pub compare_single_iff :
      (compare_field : Compare pact) (path field_path : DocPath) (field : FieldDescriptorProto)
      (name : Text) (expected actual : List ProtobufField) (context : Context) (r : Results)
      → (compare_single pact compare_field path field_path field name expected actual context r
          ≡ ok [])
        ↔ ((r ≡ []) × SingleMatches compare_field path field_path field expected actual context)
  unfolding compare_single
  compare_single_iff compare_field path field_path field name [] actual context r =
      let both = unexpected_field_iff context (pact.path_to_string field_path) name actual r in
      (λ e. both.0 (ok-injective e), λ e. ap ok (both.1 e))
  compare_single_iff compare_field path field_path field name (e ∷ expected) actual context r =
      let p = pact.path_to_string field_path in
      let same = value_context_same path p (e ∷ expected) actual context r [] in
      let at_context =
        ap (λ c. compare_field field_path e field (actual_or_default pact e actual) c) same in
      let both =
        mismatches_iff
          (compare_field field_path e field (actual_or_default pact e actual)
            (value_context pact path p (e ∷ expected) actual context r).1)
          p (value_context pact path p (e ∷ expected) actual context r).0 in
      let results = value_context_iff path p (e ∷ expected) actual context r in
      (
        λ h.
            let (empty, matched) = both.0 h in
            let (none_before, none_named) = results.0 empty in
            (none_before, (none_named, sym at_context ∙ matched)),
        λ (none_before, (none_named, matched)).
            both.1 (results.1 (none_before, none_named), at_context ∙ matched),
      )
