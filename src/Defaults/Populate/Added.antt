-- ===== src/Defaults/Populate/Added.antt =====
-- The fields that populate_default_values adds.
use pact_protobuf_plugin.Base.{
  ◌≡◌, refl, sym, ap, ◌∙◌, ◌⊎◌, inl, inr, Bool, true, none, some, List, [], ◌∷◌, ◌++◌, find, All,
  length, length-append, ◌==◌, ==_iff, unwrap_or, Bool-cases, Option-cases, arith, append_assoc,
  append-nil, All-append,
}
use mathlib.Core.Path.{subst}
use mathlib.Core.Option.{some-injective}
use pact_protobuf_plugin.Base.Int.{ℤ, pos, as_u32}
use pact_protobuf_plugin.ProstTypes.{FieldDescriptorProto, DescriptorProto, FileDescriptorSet}
use pact_protobuf_plugin.Descriptor
use pact_protobuf_plugin.Field.{ProtobufField}
use pact_protobuf_plugin.Lookup.Search.{Member, find_sound, All-Member}
use pact_protobuf_plugin.Defaults.{Floats, default_field, default_field_data, field_of_data}
use pact_protobuf_plugin.Defaults.Populate.{
  should_use_default, populate_number, populate_field, populate_fields, populate_default_values,
  push_default,
}

some-none : {A : Type 0} {x : A} → some x ≡ none → ⊥
some-none e = cc

module _ {A : Type 0} (p : A → Bool) where
  find-none-append : (xs ys : List A) → find p (xs ++ ys) ≡ none → find p xs ≡ none
  find-none-append [] ys e = refl
  find-none-append (x ∷ xs) ys e = elim (Bool-cases (p x)) [
    | inl here ↦ absurd (some-none (rw here at e))
    | inr past ↦ rw past (find-none-append xs ys (rw past at e))
  ]

  find-append_last :
      (xs : List A) (y : A)
      → find p xs ≡ none
      → p y ≡ true
      → (x : A) × (find p (xs ++ (y ∷ [])) ≡ some x)
  find-append_last [] y e h = (y, rw h)
  find-append_last (x ∷ xs) y e h = elim (Bool-cases (p x)) [
    | inl here ↦ (x, rw here)
    | inr past ↦ rw past (find-append_last xs y (rw past at e) h)
  ]

module _ (floats : Floats) (d : DescriptorProto) (fds : FileDescriptorSet) where
  abbrev has_number : ℤ → ProtobufField → Bool
  has_number n i = i.field_num == as_u32 n

  default_field-number :
      (f : FieldDescriptorProto) (n : ℤ) (g : ProtobufField)
      → f.number ≡ some n
      → default_field floats f d fds ≡ some g
      → g.field_num ≡ as_u32 n
  unfolding default_field field_of_data
  default_field-number f n g num e = elim (Option-cases (default_field_data floats f d fds)) [
    | inl missing ↦ absurd (some-none (sym (rw (missing, default_field) at e)))
    | inr (v, made) ↦
        sym (
          ap (λ (x : ProtobufField). x.field_num)
            (some-injective _ _ (rw (made, default_field) at e)))
        ∙ ap (λ o. as_u32 (unwrap_or o (pos 0))) num
  ]

  -- What a round of the loop adds.
  abbrev Adds : List ProtobufField → FieldDescriptorProto → ProtobufField → Type 0
  Adds v f g =
      (n : ℤ) × (f.number ≡ some n)
      × (find (has_number n) v ≡ none)
      × (should_use_default f ≡ true)
      × (default_field floats f d fds ≡ some g)

  round_number :
      (v : List ProtobufField) (f : FieldDescriptorProto) (n : ℤ)
      → (populate_number floats d fds v f (some n) ≡ v)
        ⊎ ((g : ProtobufField) × (find (has_number n) v ≡ none)
            × (should_use_default f ≡ true)
            × (default_field floats f d fds ≡ some g)
            × (populate_number floats d fds v f (some n) ≡ v ++ (g ∷ [])))
  unfolding populate_number push_default
  round_number v f n = elim (Option-cases (find (has_number n) v)) [
    | inr (present, found) ↦ inl (rw (found, populate_number))
    | inl absent ↦ elim (Bool-cases (should_use_default f)) [
      | inr unused ↦ inl (rw (absent, populate_number) (rw unused))
      | inl used ↦ elim (Option-cases (default_field floats f d fds)) [
        | inl no_default ↦ inl (rw (absent, populate_number) (rw used (rw no_default)))
        | inr (g, made) ↦
            inr (g, absent, used, made, rw (absent, populate_number) (rw used (rw made)))
      ]
    ]
  ]

  -- A round leaves the list as it is or adds one field.
  round :
      (v : List ProtobufField) (f : FieldDescriptorProto)
      → (populate_field floats d fds v f ≡ v)
        ⊎ ((g : ProtobufField) × Adds v f g × (populate_field floats d fds v f ≡ v ++ (g ∷ [])))
  unfolding populate_field populate_number
  round v f = elim (Option-cases f.number) [
    | inl no_number ↦ inl (ap (populate_number floats d fds v f) no_number)
    | inr (n, number) ↦ elim (round_number v f n) [
      | inl same ↦ inl (ap (populate_number floats d fds v f) number ∙ same)
      | inr (g, absent, used, made, e) ↦
          inr (g, (n, number, absent, used, made), ap (populate_number floats d fds v f) number ∙ e)
    ]
  ]

  -- The field is not missing from the list.
  abbrev Settled : List ProtobufField → FieldDescriptorProto → Type 0
  Settled v f = populate_field floats d fds v f ≡ v

  longer : (v : List ProtobufField) (g : ProtobufField) → v ++ (g ∷ []) ≡ v → ⊥
  longer v g e = omega (arith, ap length e, length-append v (g ∷ []))

  populate_field-Adds :
      (v : List ProtobufField) (f : FieldDescriptorProto) (g : ProtobufField)
      → Adds v f g
      → populate_field floats d fds v f ≡ v ++ (g ∷ [])
  unfolding populate_field populate_number push_default
  populate_field-Adds v f g (n, number, absent, used, made) =
      ap (populate_number floats d fds v f) number
      ∙ (rw (absent, populate_number) (rw used (rw made)))

  Settled-append :
      (v w : List ProtobufField) (f : FieldDescriptorProto) → Settled v f → Settled (v ++ w) f
  Settled-append v w f h = elim (round (v ++ w) f) [
    | inl same ↦ same
    | inr (g, (n, number, absent, used, made), e) ↦ absurd (
        longer v g (
          sym (
            populate_field-Adds v f g
              (n, number, find-none-append (has_number n) v w absent, used, made))
          ∙ h))
  ]

  present-Settled :
      (v : List ProtobufField) (f : FieldDescriptorProto) (n : ℤ) (x : ProtobufField)
      → f.number ≡ some n
      → find (has_number n) v ≡ some x
      → Settled v f
  unfolding populate_field populate_number
  present-Settled v f n x number found =
      ap (populate_number floats d fds v f) number ∙ (rw (found, populate_number))

  own-Settled :
      (v : List ProtobufField) (f : FieldDescriptorProto)
      → Settled (populate_field floats d fds v f) f
  own-Settled v f = elim (round v f) [
    | inl same ↦ ap (λ w. populate_field floats d fds w f) same
    | inr (g, (n, number, absent, used, made), e) ↦
        let own : has_number n g ≡ true =
          (==_iff g.field_num (as_u32 n)).1 (default_field-number f n g number made) in
        let (x, found) = find-append_last (has_number n) v g absent own in
        subst (λ w. Settled w f) (sym e) (present-Settled (v ++ (g ∷ [])) f n x number found)
  ]

  populate_fields_extends :
      (fields : List FieldDescriptorProto) (v : List ProtobufField)
      → (w : List ProtobufField) × (populate_fields floats d fds fields v ≡ v ++ w)
  unfolding populate_fields
  populate_fields_extends [] v = ([], sym (append-nil v))
  populate_fields_extends (f ∷ fields) v =
      let (w, e) = populate_fields_extends fields (populate_field floats d fds v f) in
      elim (round v f) [
        | inl same ↦ (w, e ∙ ap (λ u. u ++ w) same)
        | inr (g, a, grown) ↦ (g ∷ w, e ∙ ap (λ u. u ++ w) grown ∙ append_assoc v (g ∷ []) w)
      ]

  populate_fields-All-Settled :
      (fields : List FieldDescriptorProto) (v : List ProtobufField)
      → All (Settled (populate_fields floats d fds fields v)) fields
  unfolding populate_fields
  populate_fields-All-Settled [] v = tt
  populate_fields-All-Settled (f ∷ fields) v =
      let v' = populate_field floats d fds v f in
      let (w, e) = populate_fields_extends fields v' in
      (
        subst (λ u. Settled u f) (sym e) (Settled-append v' w f (own-Settled v f)),
        populate_fields-All-Settled fields v',
      )

  Settled-populate_fields :
      (fields : List FieldDescriptorProto) (v : List ProtobufField)
      → All (Settled v) fields
      → populate_fields floats d fds fields v ≡ v
  unfolding populate_fields
  Settled-populate_fields [] v h = refl
  Settled-populate_fields (f ∷ fields) v h = rw h.0 (Settled-populate_fields fields v h.1)

  -- A field that populate_default_values adds to `fs`: the default of a field of the descriptor that
  -- has one and is not repeated, under a number that `fs` does not have.
  pub record IsAdded (fs : List ProtobufField) (g : ProtobufField) : Type 0 where
    pub field : FieldDescriptorProto
    pub number : ℤ
    pub in_descriptor : Member field (Descriptor.field d)
    pub number_of : field.number ≡ some number
    pub missing : find (has_number number) fs ≡ none
    pub used : should_use_default field ≡ true
    pub made : default_field floats field d fds ≡ some g

  populate_fields-IsAdded :
      (fs : List ProtobufField) (fields : List FieldDescriptorProto) (v w : List ProtobufField)
      → v ≡ fs ++ w
      → ((f : FieldDescriptorProto) → Member f fields → Member f (Descriptor.field d))
      → All (IsAdded fs) w
      → (u : List ProtobufField) × (populate_fields floats d fds fields v ≡ fs ++ u)
        × All (IsAdded fs) u
  unfolding populate_fields
  populate_fields-IsAdded fs [] v w e sub all = (w, e, all)
  populate_fields-IsAdded fs (f ∷ fields) v w e sub all = elim (round v f) [
    | inl same ↦ rw same (populate_fields-IsAdded fs fields v w e (λ h m. sub h (inr m)) all)
    | inr (g, (n, number, absent, used, made), grown) ↦
        let added : IsAdded fs g = record {
          field = f;
          number = n;
          in_descriptor = sub f (inl refl);
          number_of = number;
          missing =
              find-none-append (has_number n) fs w (ap (find (has_number n)) (sym e) ∙ absent);
          used = used;
          made = made;
        } in
        rw grown (
          populate_fields-IsAdded fs fields (v ++ (g ∷ [])) (w ++ (g ∷ []))
            (ap (λ u. u ++ (g ∷ [])) e ∙ append_assoc fs w (g ∷ [])) (λ h m. sub h (inr m))
            (All-append (IsAdded fs) w (g ∷ []) all (added, tt)))
  ]

  -- populate_default_values keeps the fields it is given, in their order, and appends only defaults of
  -- fields of the descriptor that have a default, are not repeated and have a number that is missing.
  pub populate_default_values_sound :
      (fs : List ProtobufField)
      → (added : List ProtobufField) × (populate_default_values floats fs d fds ≡ fs ++ added)
        × All (IsAdded fs) added
  unfolding populate_default_values
  populate_default_values_sound fs =
      populate_fields-IsAdded fs (Descriptor.field d) fs [] (sym (append-nil fs)) (λ f m. m) tt

  -- Every field of the descriptor that is not repeated and has a number and a default is among the
  -- populated fields.
  pub populate_default_values_complete :
      (fs : List ProtobufField) (f : FieldDescriptorProto) (n : ℤ) (g : ProtobufField)
      → Member f (Descriptor.field d)
      → f.number ≡ some n
      → should_use_default f ≡ true
      → default_field floats f d fds ≡ some g
      → (x : ProtobufField) × Member x (populate_default_values floats fs d fds)
        × (x.field_num ≡ as_u32 n)
  unfolding populate_default_values
  populate_default_values_complete fs f n g m number used made =
      let v = populate_fields floats d fds (Descriptor.field d) fs in
      elim (Option-cases (find (has_number n) v)) [
        | inl absent ↦
            let settled =
              All-Member (Settled v) (Descriptor.field d)
                (populate_fields-All-Settled (Descriptor.field d) fs) f m in
            absurd (
              longer v g
                (sym (populate_field-Adds v f g (n, number, absent, used, made)) ∙ settled))
        | inr (x, found) ↦
            let (at, same) = find_sound (has_number n) v x found in
            (x, at, (==_iff x.field_num (as_u32 n)).0 same)
      ]

  -- Populating populated fields adds nothing.
  pub populate_default_values_idempotent :
      (fs : List ProtobufField)
      → populate_default_values floats (populate_default_values floats fs d fds) d fds
        ≡ populate_default_values floats fs d fds
  unfolding populate_default_values
  populate_default_values_idempotent fs =
      Settled-populate_fields (Descriptor.field d)
        (populate_fields floats d fds (Descriptor.field d) fs)
        (populate_fields-All-Settled (Descriptor.field d) fs)
