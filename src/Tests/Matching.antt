-- ===== src/Tests/Matching.antt =====
-- Runs of the comparison of messages, with no matcher defined.
use pact_protobuf_plugin.Base.{
  ℕ, ◌≡◌, ◌<◌, refl, sym, ◌↔◌, ◌⊎◌, inl, inr, Bool, true, false, ◌&&◌, ◌||◌, not, Bool-cases,
  Option, none, some, List, [], ◌∷◌, ◌++◌, All, ◌==◌, ==_iff, ltb, ltb→lt, lt→ltb, if◌then◌else◌,
}
use pact_protobuf_plugin.Base.Text.{Text, codes, text_eq, text_eq→eq, text_eq_self}
use pact_protobuf_plugin.Base.Int.{int_eq, int_eq→eq, int_eq_self, as_i32, as_i64, pos, negsuc}
use pact_protobuf_plugin.ProstTypes.{
  FieldDescriptorProto, DescriptorProto, descriptor_proto, nil, Label, FieldType, WireType,
}
use pact_protobuf_plugin.Descriptor
use pact_protobuf_plugin.Outcome.{ok, ok-Ends}
use pact_protobuf_plugin.Field.{ProtobufField, ProtobufFieldData}
use pact_protobuf_plugin.BTreeMap
use pact_protobuf_plugin.BTreeMap.{BTreeMap}
use pact_protobuf_plugin.Matching.Lists
use pact_protobuf_plugin.Base.Bytes.{is_utf8}
use pact_protobuf_plugin.Decoder.{find_field_descriptor, varint_data}
use pact_protobuf_plugin.Decoder.Message.{
  decode_message, decode_fields, decode_field, decode_found, decode_known, known_field,
  read_delimited, delimited_data,
}
use pact_protobuf_plugin.Tests.Varint.{read_key, read_varint, wire_of_code}
use pact_protobuf_plugin.Tests.Groups
use pact_protobuf_plugin.Tests.Groups.{sort}
use pact_protobuf_plugin.Matching.{
  DiffConfig, BodyMatchResult, MatchValue, AreEqual, IsNumber, Pact, MapEntry, Compare,
}
use pact_protobuf_plugin.Matching.Fields.{compare_field}
use pact_protobuf_plugin.Matching.Lists.{compare_repeated_field, collect_entries}
use pact_protobuf_plugin.Matching.Maps.{compare_map_field, keys}
use pact_protobuf_plugin.Matching.Messages.{compare_message}
use pact_protobuf_plugin.Matching.Values.{compare_field_iff}
use pact_protobuf_plugin.Matching.Items.{ItemsMatch, compare_repeated_field_iff}
use pact_protobuf_plugin.Matching.Scalars.{SameItems, compare_repeated_field_scalars_iff}
use pact_protobuf_plugin.Matching.Entries.{EntriesMatch, compare_map_field_iff}
use pact_protobuf_plugin.Matching.Sound.Message.{FieldMatches, compare_message_iff}
use pact_protobuf_plugin.Tests.Instance.{test_libraries}
use pact_protobuf_plugin.Tests.Builder.{test_casts}
use pact_protobuf_plugin.Tests.Data.{
  descriptor_of, item, files, test_floats, id_field, tag_field, id_of, tag_of, item_fields,
}

both_true : (a b : Bool) → ((a && b) ≡ true) ↔ ((a ≡ true) × (b ≡ true))
both_true true b = (λ e. (refl, e), λ e. e.1)
both_true false b = (λ e. cc, λ e. cc (e.0))

one_true : (a b : Bool) → ((a || b) ≡ true) ↔ ((a ≡ true) ⊎ (b ≡ true))
one_true true b = (λ e. inl refl, λ e. refl)
one_true false b = (λ e. inr e, λ h. elim h [ inl e ↦ absurd (no_true e) | inr e ↦ e ])
  where
    no_true : false ≡ true → ⊥
    no_true e = cc

map_sum : {A B C D : Type 0} → (A → C) → (B → D) → A ⊎ B → C ⊎ D
map_sum f g (inl a) = inl (f a)
map_sum f g (inr b) = inr (g b)

abbrev is_number : ℕ → Bool
is_number n = ltb n 0x7ff0000000000001 || (ltb 0x7fffffffffffffff n && ltb n 0xfff0000000000001)

abbrev is_zero : ℕ → Bool
is_zero n = (n == 0) || (n == 0x8000000000000000)

abbrev are_equal : MatchValue → MatchValue → Bool
are_equal (MatchValue.text s) (MatchValue.text t) = text_eq s t
are_equal (MatchValue.boolean true) (MatchValue.boolean b) = b
are_equal (MatchValue.boolean false) (MatchValue.boolean b) = not b
are_equal (MatchValue.unsigned m) (MatchValue.unsigned n) = m == n
are_equal (MatchValue.signed_32 i) (MatchValue.signed_32 j) = int_eq i j
are_equal (MatchValue.signed_64 i) (MatchValue.signed_64 j) = int_eq i j
are_equal (MatchValue.double m) (MatchValue.double n) =
    (is_number m && (m == n)) || (is_zero m && is_zero n)
are_equal (MatchValue.bytes a) (MatchValue.bytes b) = text_eq a b
are_equal _ _ = false

text_eq_iff : (s t : Text) → (text_eq s t ≡ true) ↔ (s ≡ t)
text_eq_iff s t = (text_eq→eq s t, λ e. rw (e) (text_eq_self t))

ltb_iff : (m n : ℕ) → (ltb m n ≡ true) ↔ (m < n)
ltb_iff m n = (ltb→lt m n, lt→ltb m n)

-- Tests that are joined decide what they decide, joined.
either_iff :
    {A B : Type 0} (a b : Bool) → ((a ≡ true) ↔ A) → ((b ≡ true) ↔ B) → ((a || b) ≡ true) ↔ (A ⊎ B)
either_iff a b f g =
    (λ e. map_sum f.0 g.0 ((one_true a b).0 e), λ s. (one_true a b).1 (map_sum f.1 g.1 s))

and_iff :
    {A B : Type 0} (a b : Bool) → ((a ≡ true) ↔ A) → ((b ≡ true) ↔ B) → ((a && b) ≡ true) ↔ (A × B)
and_iff a b f g = (
  λ e. let (left, right) = (both_true a b).0 e in (f.0 left, g.0 right),
  λ (left, right). (both_true a b).1 (f.1 left, g.1 right),
)

is_zero_iff : (n : ℕ) → (is_zero n ≡ true) ↔ ((n ≡ 0) ⊎ (n ≡ 0x8000000000000000))
is_zero_iff n =
    either_iff (n == 0) (n == 0x8000000000000000) (==_iff n 0) (==_iff n 0x8000000000000000)

is_number_iff : (n : ℕ) → (is_number n ≡ true) ↔ IsNumber n
is_number_iff n =
    either_iff (ltb n 0x7ff0000000000001) (ltb 0x7fffffffffffffff n && ltb n 0xfff0000000000001)
      (ltb_iff n 0x7ff0000000000001)
      (and_iff (ltb 0x7fffffffffffffff n) (ltb n 0xfff0000000000001) (ltb_iff 0x7fffffffffffffff n)
        (ltb_iff n 0xfff0000000000001))

are_equal_iff : (a b : MatchValue) → (are_equal a b ≡ true) ↔ AreEqual a b
are_equal_iff (MatchValue.text s) (MatchValue.text t) = text_eq_iff s t
are_equal_iff (MatchValue.boolean true) (MatchValue.boolean b) = (sym, sym)
are_equal_iff (MatchValue.boolean false) (MatchValue.boolean true) = (λ e. cc, λ e. cc)
are_equal_iff (MatchValue.boolean false) (MatchValue.boolean false) = (λ e. refl, λ e. refl)
are_equal_iff (MatchValue.unsigned m) (MatchValue.unsigned n) = ==_iff m n
are_equal_iff (MatchValue.signed_32 i) (MatchValue.signed_32 j) =
    (int_eq→eq i j, λ e. rw (e) (int_eq_self j))
are_equal_iff (MatchValue.signed_64 i) (MatchValue.signed_64 j) =
    (int_eq→eq i j, λ e. rw (e) (int_eq_self j))
are_equal_iff (MatchValue.double m) (MatchValue.double n) =
    either_iff (is_number m && (m == n)) (is_zero m && is_zero n)
      (and_iff (is_number m) (m == n) (is_number_iff m) (==_iff m n))
      (and_iff (is_zero m) (is_zero n) (is_zero_iff m) (is_zero_iff n))
are_equal_iff (MatchValue.bytes a) (MatchValue.bytes b) = text_eq_iff a b
are_equal_iff _ _ = (λ e. cc, λ e. absurd e)

abbrev equality : MatchValue → MatchValue → Option Text
equality a b = if are_equal a b then none else some (codes "not equal")

pub equality_iff : (a b : MatchValue) → (equality a b ≡ none) ↔ AreEqual a b
equality_iff a b = elim (Bool-cases (are_equal a b)) [
  | inl same ↦ rw (same) (λ e. (are_equal_iff a b).0 same, λ e. refl)
  | inr other ↦ rw (other) (λ e. cc, λ e. let same = (are_equal_iff a b).1 e in cc)
]

abbrev pub test_pact : Pact
test_pact = record {
  libs = test_libraries;
  floats = test_floats;
  casts = test_casts;
  DocPath = List Text;
  Context = DiffConfig;
  MatchingRule = Unit {0};
  RuleList = Unit {0};
  Category = Unit {0};
  root = [];
  join = λ path name. path ++ (name ∷ []);
  path_to_string = λ path. codes "$";
  core_context = λ config category. config;
  config = λ context. context;
  matcher_is_defined = λ context path. false;
  values_matcher_defined = λ context path. false;
  select_best_matcher = λ context path. tt;
  rules = λ list. [];
  cascaded = λ list. false;
  each_value = λ rule. none;
  clone_with_matchers = λ context. context;
  clone_with_rules = λ context path rules. context;
  match_values = λ path list a b. [];
  matches_equality = equality;
  match_keys = λ context path expected actual. [];
  compare_json = λ context path expected actual. [];
  compare_lists_with_matchingrule = λ rule path expected actual context cascaded callback. ok [];
  compare_maps_with_matchingrule = λ rule cascaded path expected actual context callback. ok [];
  matches_equality-AreEqual = λ a b. (equality_iff a b).1;
  AreEqual-matches_equality = λ a b. (equality_iff a b).0;
  match_keys_same = λ context path keys free. refl;
  compare_lists-Ends = λ rule path expected actual context cascaded callback ends. ok-Ends [];
  compare_maps-Ends = λ rule cascaded path expected actual context callback ends. ok-Ends [];
}

compare_field_iff_example :
    (compare_field test_pact files 1 []
        (id_of (negsuc 6))
        id_field
        (id_of (negsuc 6))
        DiffConfig.no_unexpected_keys
      ≡ ok [])
    ↔ (negsuc 6 ≡ negsuc 6)
compare_field_iff_example =
    compare_field_iff test_pact files 0 [] (id_of (negsuc 6)) (id_of (negsuc 6)) id_field
      DiffConfig.no_unexpected_keys refl refl

abbrev strict : Compare test_pact
strict = compare_field test_pact files 1

abbrev tags : List ProtobufField
tags = tag_of (codes "new") ∷ tag_of (codes "red") ∷ []

compare_repeated_field_iff_example :
    (compare_repeated_field test_pact strict [] tag_field tags tags DiffConfig.no_unexpected_keys
      ≡ ok [])
    ↔ ItemsMatch test_pact strict [] tag_field DiffConfig.no_unexpected_keys 0 tags tags
compare_repeated_field_iff_example =
    compare_repeated_field_iff test_pact strict [] tag_field DiffConfig.no_unexpected_keys tags tags
      refl

compare_repeated_field_scalars_iff_example :
    (compare_repeated_field test_pact strict [] tag_field tags tags DiffConfig.no_unexpected_keys
      ≡ ok [])
    ↔ SameItems test_pact files 0 [] tag_field DiffConfig.no_unexpected_keys tags tags
compare_repeated_field_scalars_iff_example =
    compare_repeated_field_scalars_iff test_pact files 0 [] tag_field DiffConfig.no_unexpected_keys
      tags tags (λ p. refl) (refl, (refl, tt))

compare_message_iff_example :
    (compare_message test_pact files strict [] item_fields item_fields DiffConfig.no_unexpected_keys
        item
      ≡ ok BodyMatchResult.matches)
    ↔ All
        (λ field.
          FieldMatches test_pact files strict [] item DiffConfig.no_unexpected_keys item_fields
            item_fields field field.number)
        (Descriptor.field item)
compare_message_iff_example =
    compare_message_iff test_pact files strict [] item DiffConfig.no_unexpected_keys item_fields
      item_fields

abbrev entry : DescriptorProto
entry =
    descriptor_proto (some (codes "SizesEntry"))
      (descriptor_of (codes "key") 1 Label.optional FieldType.string
        ∷ descriptor_of (codes "value") 2 Label.optional FieldType.int64
        ∷ [])
      nil [] none

abbrev sizes : FieldDescriptorProto
sizes = descriptor_of (codes "sizes") 7 Label.repeated FieldType.message

-- The entry of the key "a" with the value 5.
abbrev entry_field : ProtobufField
entry_field = record {
  field_num = 7;
  field_name = codes "sizes";
  wire_type = WireType.length_delimited;
  field_data = ProtobufFieldData.message (10 ∷ 1 ∷ 97 ∷ 16 ∷ 5 ∷ []) entry;
  additional_data = [];
  descriptor = sizes;
}

abbrev entries : BTreeMap MapEntry
entries =
    (
      codes "a",
      record {
        field_descriptor = descriptor_of (codes "value") 2 Label.optional FieldType.int64;
        value = record {
          field_num = 2;
          field_name = codes "value";
          wire_type = WireType.varint;
          field_data = ProtobufFieldData.integer_64 (pos 5);
          additional_data = [];
          descriptor = descriptor_of (codes "value") 2 Label.optional FieldType.int64;
        };
      },
    )
    ∷ []

collected : collect_entries test_pact files [] (entry_field ∷ []) ≡ ok entries
unfolding collect_entries Lists.entry_of Lists.decode_message_map_entry Lists.find_field_descriptor
    Lists.insert_entry Lists.key_text decode_message decode_fields read_key read_varint wire_of_code
    decode_field decode_found find_field_descriptor decode_known known_field read_delimited
    delimited_data is_utf8 varint_data sort Groups.insert BTreeMap.insert as_i32 as_i64
collected = refl

compare_map_field_iff_example :
    (compare_map_field test_pact files strict [] sizes
        (entry_field ∷ [])
        (entry_field ∷ [])
        DiffConfig.no_unexpected_keys
      ≡ ok [])
    ↔ ((false ≡ false)
        × (test_pact.match_keys DiffConfig.no_unexpected_keys [] (keys entries) (keys entries) ≡ [])
        × EntriesMatch test_pact strict [] sizes DiffConfig.no_unexpected_keys entries entries)
compare_map_field_iff_example =
    compare_map_field_iff test_pact files strict [] sizes DiffConfig.no_unexpected_keys
      (entry_field ∷ []) (entry_field ∷ []) entries entries refl collected collected
