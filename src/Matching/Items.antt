-- ===== src/Matching/Items.antt =====
-- When repeated fields match, where no matcher is defined for them.
use pact_protobuf_plugin.Base.{
  ℕ, suc, ◌≡◌, refl, ap, ◌↔◌, inl, inr, false, Bool-cases, List, [], ◌∷◌, ◌++◌, length, ◌==◌,
  ==_iff, arith,
}
use pact_protobuf_plugin.ProstTypes.{FieldDescriptorProto}
use pact_protobuf_plugin.Outcome.{Outcome, ok, err, panic, out_of_fuel, ok-injective, ◌>>=◌}
use pact_protobuf_plugin.Field.{ProtobufField}
use pact_protobuf_plugin.FieldValue.{decimal}
use pact_protobuf_plugin.Matching.{Mismatch, Pact, Compare}
use pact_protobuf_plugin.Matching.Lists.{
  compare_list_content, length_mismatches, compare_repeated_field,
}

pub append-nil_iff : {A : Type 0} (xs ys : List A) → (xs ++ ys ≡ []) ↔ ((xs ≡ []) × (ys ≡ []))
append-nil_iff [] ys = (λ e. (refl, e), λ e. e.1)
append-nil_iff (x ∷ xs) ys = (λ e. cc, λ e. cc (e.0))

-- The mismatches of two comparisons, one behind the other.
pub both_iff :
    (m n : Outcome (List Mismatch))
    → ((m >>= λ ms. n >>= λ ns. ok (ms ++ ns)) ≡ ok []) ↔ ((m ≡ ok []) × (n ≡ ok []))
both_iff (ok ms) (ok ns) =
    let both = append-nil_iff ms ns in
    (
      λ e. let (left, right) = both.0 (ok-injective e) in (ap ok left, ap ok right),
      λ (left, right). ap ok (both.1 (ok-injective left, ok-injective right)),
    )
both_iff (ok ms) (err e) = (λ h. cc, λ h. cc (h.1))
both_iff (ok ms) panic = (λ h. cc, λ h. cc (h.1))
both_iff (ok ms) out_of_fuel = (λ h. cc, λ h. cc (h.1))
both_iff (err e) n = (λ h. cc, λ h. cc (h.0))
both_iff panic n = (λ h. cc, λ h. cc (h.0))
both_iff out_of_fuel n = (λ h. cc, λ h. cc (h.0))

module _ (pact : Pact) (compare_field : Compare pact) (path : pact.DocPath)
    (descriptor : FieldDescriptorProto) (context : pact.Context) where
  -- The lists are of one length, and each item matches the one at its place.
  abbrev pub ItemsMatch : ℕ → List ProtobufField → List ProtobufField → Type 0
  ItemsMatch index [] [] = Unit {0}
  ItemsMatch index (e ∷ expected) (a ∷ actual) =
      (compare_field (pact.join path (decimal index)) e descriptor a context ≡ ok [])
      × ItemsMatch (suc index) expected actual
  ItemsMatch index _ _ = ⊥

  compare_list_content_iff :
      (index : ℕ) (expected actual : List ProtobufField)
      → ((compare_list_content pact compare_field path descriptor index expected actual context
            ≡ ok [])
          × (length expected ≡ length actual))
        ↔ ItemsMatch index expected actual
  unfolding compare_list_content
  compare_list_content_iff index [] [] = (λ e. tt, λ e. (refl, refl))
  compare_list_content_iff index [] (a ∷ actual) = (λ e. absurd (omega (arith, e.1)), λ e. absurd e)
  compare_list_content_iff index (e ∷ expected) [] =
      (λ h. absurd (omega (arith, h.1)), λ h. absurd h)
  compare_list_content_iff index (e ∷ expected) (a ∷ actual) =
      let both = both_iff (compare_field (pact.join path (decimal index)) e descriptor a context) (
        compare_list_content pact compare_field path descriptor (suc index) expected actual
          context) in
      let rest = compare_list_content_iff (suc index) expected actual in
      (
        λ (matched, same).
            let (here, others) = both.0 matched in (here, rest.0 (others, omega (arith, same))),
        λ (here, others).
            let (matched, same) = rest.1 others in (both.1 (here, matched), ap suc same),
      )

  length_mismatches_iff : (m n : ℕ) → (length_mismatches pact path descriptor m n ≡ []) ↔ (m ≡ n)
  unfolding length_mismatches
  length_mismatches_iff m n = elim (Bool-cases (m == n)) [
    | inl same ↦ rw (same) (λ e. (==_iff m n).0 same, λ e. refl)
    | inr other ↦ rw (other) (λ e. cc, λ e. let same = (==_iff m n).1 e in cc)
  ]

  content_iff :
      (m : Outcome (List Mismatch)) (ns : List Mismatch)
      → ((m >>= λ ms. ok (ms ++ ns)) ≡ ok []) ↔ ((m ≡ ok []) × (ns ≡ []))
  content_iff (ok ms) ns =
      let both = append-nil_iff ms ns in
      (
        λ e. let (left, right) = both.0 (ok-injective e) in (ap ok left, right),
        λ (left, right). ap ok (both.1 (ok-injective left, right)),
      )
  content_iff (err e) ns = (λ h. cc, λ h. cc (h.0))
  content_iff panic ns = (λ h. cc, λ h. cc (h.0))
  content_iff out_of_fuel ns = (λ h. cc, λ h. cc (h.0))

  compared :
      (expected actual : List ProtobufField)
      → ((compare_list_content pact compare_field path descriptor 0 expected actual context
            >>= λ ms.
                ok (ms ++ length_mismatches pact path descriptor (length expected) (length actual)))
          ≡ ok [])
        ↔ ItemsMatch 0 expected actual
  compared expected actual =
      let both =
        content_iff
          (compare_list_content pact compare_field path descriptor 0 expected actual context)
          (length_mismatches pact path descriptor (length expected) (length actual)) in
      let lengths = length_mismatches_iff (length expected) (length actual) in
      let items = compare_list_content_iff 0 expected actual in
      (
        λ e. let (content, none_left) = both.0 e in items.0 (content, lengths.0 none_left),
        λ h. let (content, same) = items.1 h in both.1 (content, lengths.1 same),
      )

  -- Where no matcher is defined for its path, a repeated field matches exactly where it has as many
  -- values as expected, and each of them matches the expected value at its place.
  pub compare_repeated_field_iff :
      (expected actual : List ProtobufField)
      → pact.matcher_is_defined context path ≡ false
      → (compare_repeated_field pact compare_field path descriptor expected actual context ≡ ok [])
        ↔ ItemsMatch 0 expected actual
  unfolding compare_repeated_field
  compare_repeated_field_iff [] (a ∷ actual) free = rw (free) (λ e. cc, λ e. absurd e)
  compare_repeated_field_iff [] [] free = rw (free) (compared [] [])
  compare_repeated_field_iff (e ∷ expected) actual free = rw (free) (compared (e ∷ expected) actual)
