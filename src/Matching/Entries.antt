-- ===== src/Matching/Entries.antt =====
-- When maps match, where no matcher is defined for them.
use pact_protobuf_plugin.Base.{
  ◌≡◌, refl, ap, ◌↔◌, inl, inr, Bool, false, ◌&&◌, not, Bool-cases, Option, none, some, List, [],
  ◌∷◌, ◌++◌, is_empty,
}
use pact_protobuf_plugin.Base.Text.{Text}
use pact_protobuf_plugin.ProstTypes.{FieldDescriptorProto, FileDescriptorSet}
use pact_protobuf_plugin.Outcome.{Outcome, ok, err, panic, out_of_fuel, ok-injective, ◌>>=◌}
use pact_protobuf_plugin.Field.{ProtobufField}
use pact_protobuf_plugin.BTreeMap.{BTreeMap, get}
use pact_protobuf_plugin.Matching.{Mismatch, MapEntry, Pact, Compare}
use pact_protobuf_plugin.Matching.Lists.{collect_entries, no_unexpected}
use pact_protobuf_plugin.Matching.Maps.{
  keys, compare_entry, compare_entries, compare_entry_maps, compare_map_field,
}
use pact_protobuf_plugin.Matching.Items.{append-nil_iff, both_iff}

module _ (pact : Pact) (compare_field : Compare pact) (path : pact.DocPath)
    (descriptor : FieldDescriptorProto) (context : pact.Context) where
  -- The entry is there, and its value matches.
  abbrev pub EntryMatches : Text → MapEntry → Option MapEntry → Type 0
  EntryMatches key value none = ⊥
  EntryMatches key value (some a) =
      compare_field (pact.join path key) value.value value.field_descriptor a.value context ≡ ok []

  abbrev pub EntriesMatch : BTreeMap MapEntry → BTreeMap MapEntry → Type 0
  EntriesMatch [] actual = Unit {0}
  EntriesMatch ((key, value) ∷ expected) actual =
      EntryMatches key value (get key actual) × EntriesMatch expected actual

  compare_entry_iff :
      (key : Text) (value : MapEntry) (a : Option MapEntry)
      → (compare_entry pact compare_field path descriptor context key value a ≡ ok [])
        ↔ EntryMatches key value a
  unfolding compare_entry
  compare_entry_iff key value none = (λ e. cc, λ e. absurd e)
  compare_entry_iff key value (some a) = (λ e. e, λ e. e)

  compare_entries_iff :
      (expected actual : BTreeMap MapEntry)
      → (compare_entries pact compare_field path descriptor actual context expected ≡ ok [])
        ↔ EntriesMatch expected actual
  unfolding compare_entries
  compare_entries_iff [] actual = (λ e. tt, λ e. refl)
  compare_entries_iff ((key, value) ∷ expected) actual =
      let both =
        both_iff
          (compare_entry pact compare_field path descriptor context key value (get key actual))
          (compare_entries pact compare_field path descriptor actual context expected) in
      let one = compare_entry_iff key value (get key actual) in
      let rest = compare_entries_iff expected actual in
      (
        λ e. let (here, others) = both.0 e in (one.0 here, rest.0 others),
        λ (here, others). both.1 (one.1 here, rest.1 others),
      )

  -- Entries that were not expected at all: some are there, and the configuration allows none.
  abbrev pub unexpected_entries : List ProtobufField → List ProtobufField → Bool
  unexpected_entries expected actual =
      is_empty expected && (not (is_empty actual) && no_unexpected (pact.config context))

  in_front_iff :
      (ns : List Mismatch) (m : Outcome (List Mismatch))
      → ((m >>= λ ms. ok (ns ++ ms)) ≡ ok []) ↔ ((ns ≡ []) × (m ≡ ok []))
  in_front_iff ns (ok ms) =
      let both = append-nil_iff ns ms in
      (
        λ e. let (left, right) = both.0 (ok-injective e) in (left, ap ok right),
        λ (left, right). ap ok (both.1 (left, ok-injective right)),
      )
  in_front_iff ns (err e) = (λ h. cc, λ h. cc (h.1))
  in_front_iff ns panic = (λ h. cc, λ h. cc (h.1))
  in_front_iff ns out_of_fuel = (λ h. cc, λ h. cc (h.1))

  compare_entry_maps_iff :
      (expected actual : List ProtobufField) (expected_map actual_map : BTreeMap MapEntry)
      → pact.matcher_is_defined context path ≡ false
      → (compare_entry_maps pact compare_field path descriptor expected actual expected_map
            actual_map context
          ≡ ok [])
        ↔ ((unexpected_entries expected actual ≡ false)
            × (pact.match_keys context path (keys expected_map) (keys actual_map) ≡ [])
            × EntriesMatch expected_map actual_map)
  unfolding compare_entry_maps
  compare_entry_maps_iff expected actual expected_map actual_map free =
      let both =
        in_front_iff (pact.match_keys context path (keys expected_map) (keys actual_map))
          (compare_entries pact compare_field path descriptor actual_map context expected_map) in
      let entries = compare_entries_iff expected_map actual_map in
      elim (Bool-cases (unexpected_entries expected actual)) [
        | inl unexpected ↦ rw (free, unexpected) (λ e. cc, λ h. cc (h.0))
        | inr fine ↦
            rw (free, fine)
              (
                λ e. let (same, others) = both.0 e in (refl, same, entries.0 others),
                λ h. both.1 (h.1, entries.1 h.2),
              )
      ]

module _ (pact : Pact) (fds : FileDescriptorSet) (compare_field : Compare pact)
    (path : pact.DocPath) (descriptor : FieldDescriptorProto) (context : pact.Context) where
  -- Where no matcher is defined for its path, and where the entries of both sides can be collected, a
  -- map matches exactly where the keys do, where each expected entry has an actual one under its key
  -- whose value matches, and where not all of the actual entries are unexpected ones in a configuration
  -- that allows none.
  pub compare_map_field_iff :
      (expected actual : List ProtobufField) (expected_map actual_map : BTreeMap MapEntry)
      → pact.matcher_is_defined context path ≡ false
      → collect_entries pact fds [] expected ≡ ok expected_map
      → collect_entries pact fds [] actual ≡ ok actual_map
      → (compare_map_field pact fds compare_field path descriptor expected actual context ≡ ok [])
        ↔ ((unexpected_entries pact compare_field path descriptor context expected actual ≡ false)
            × (pact.match_keys context path (keys expected_map) (keys actual_map) ≡ [])
            × EntriesMatch pact compare_field path descriptor context expected_map actual_map)
  unfolding compare_map_field
  compare_map_field_iff expected actual expected_map actual_map free left right =
      rw (left, right)
        (compare_entry_maps_iff pact compare_field path descriptor context expected actual
          expected_map actual_map free)
