-- ===== src/DynamicMessage/Reads.antt =====
-- Fields that were written are read back by the loop of decode_message, whatever follows them.
use pact_protobuf_plugin.Base.{
  ℕ, zero, suc, ◌<◌, ◌≡◌, sym, ap, ◌∙◌, some, List, [], ◌∷◌, ◌++◌, length, arith, append_assoc,
  length-append, map, append-nil, refl,
}
use pact_protobuf_plugin.Base.Int.{as_i32}
use pact_protobuf_plugin.ProstTypes.{
  WireType, FieldDescriptorProto, DescriptorProto, FileDescriptorSet, text_or_default,
}
use pact_protobuf_plugin.Outcome.{Outcome, ok}
use mathlib.Core.Path.{subst}
use pact_protobuf_plugin.Field.{ProtobufField, ProtobufFieldData}
use pact_protobuf_plugin.Libraries.{Libraries, IsTag}
use pact_protobuf_plugin.Decoder.{find_field_descriptor}
use pact_protobuf_plugin.Decoder.Message.{
  decode_known, decode_field, decode_found, decode_fields, decode_message, known_field,
}
use pact_protobuf_plugin.DynamicMessage.{write_field}
use pact_protobuf_plugin.DynamicMessage.Carries.{Carries, Carries-ReadsBack}

-- A field that is read back as it was written: its number is a tag that the message's descriptor has,
-- and it carries one value of the type that the descriptor gives, sint32 and sint64 left out.
pub record IsField (d : DescriptorProto) (fds : FileDescriptorSet) (f : ProtobufField)
    : Type 0 where
  pub tag : IsTag f.field_num
  pub found : find_field_descriptor (as_i32 f.field_num) d ≡ ok f.descriptor
  pub named : f.field_name ≡ text_or_default f.descriptor.name
  pub single : f.additional_data ≡ []
  pub carries : Carries d fds f.descriptor f.field_num f.wire_type f.field_data

known_field-eq :
    (f : ProtobufField)
    → f.field_name ≡ text_or_default f.descriptor.name
    → f.additional_data ≡ []
    → known_field f.descriptor f.field_num (f.field_data, f.wire_type) ≡ f
unfolding known_field
known_field-eq f named single = λ i. record {
  field_num = f.field_num;
  field_name = sym named i;
  wire_type = f.wire_type;
  field_data = f.field_data;
  additional_data = sym single i;
  descriptor = f.descriptor;
}

module _ (libs : Libraries) (d : DescriptorProto) (fds : FileDescriptorSet) where
  -- The bytes are read as the fields, and the reading goes on behind them.
  abbrev pub Reads : List ℕ → List ProtobufField → Type 0
  Reads bytes fields =
      (rest : List ℕ) (more : List ProtobufField)
      → ((fuel : ℕ) → length rest < fuel → decode_fields libs fuel d fds rest ≡ ok more)
      → (fuel : ℕ) → length (bytes ++ rest) < fuel
      → decode_fields libs fuel d fds (bytes ++ rest) ≡ ok (fields ++ more)

  pub Reads-nil : Reads [] []
  Reads-nil rest more h fuel lt = h fuel lt

  pub Reads-append :
      (bs cs : List ℕ) (fs gs : List ProtobufField)
      → Reads bs fs
      → Reads cs gs
      → Reads (bs ++ cs) (fs ++ gs)
  Reads-append bs cs fs gs h k rest more go fuel lt =
      let e : (bs ++ cs) ++ rest ≡ bs ++ (cs ++ rest) = append_assoc bs cs rest in
      rw (e, append_assoc fs gs more)
        (h (cs ++ rest) (gs ++ more) (k rest more go) fuel (rw e at lt))

  decode_fields_step :
      (fuel : ℕ) (bs rest left : List ℕ) (n : ℕ) (w : WireType) (fields more : List ProtobufField)
      → libs.decode_key bs ≡ some (n, w, rest)
      → decode_field libs d fds n w rest ≡ ok (fields, left)
      → decode_fields libs fuel d fds left ≡ ok more
      → decode_fields libs (suc fuel) d fds bs ≡ ok (fields ++ more)
  unfolding decode_fields
  decode_fields_step fuel [] rest left n w fields more key one others =
      absurd (omega (arith, libs.decode_key_shrinks [] n w rest key))
  decode_fields_step fuel (b ∷ bs) rest left n w fields more key one others =
      rw (key) (rw (one) (rw (others)))

  -- One field of the buffer: its key, and the bytes that are decoded to its values.
  pub values-Reads :
      (f : FieldDescriptorProto) (n : ℕ) (w : WireType) (written : List ℕ)
      (values : List (ProtobufFieldData × WireType))
      → IsTag n
      → find_field_descriptor (as_i32 n) d ≡ ok f
      → ((rest : List ℕ) → decode_known libs w f d fds n (written ++ rest) ≡ ok (values, rest))
      → Reads (libs.encode_key n w ++ written) (map (known_field f n) values)
  unfolding decode_field decode_found
  values-Reads f n w written values tag found back rest more go zero lt = absurd (omega arith)
  values-Reads f n w written values tag found back rest more go (suc fuel) lt =
      let key = libs.decode_key-encode_key n w (written ++ rest) tag in
      let e = append_assoc (libs.encode_key n w) written rest in
      let field : decode_field libs d fds n w (written ++ rest)
          ≡ ok (map (known_field f n) values, rest) =
        ap (λ (m : Outcome FieldDescriptorProto). decode_found libs m d fds n w (written ++ rest))
          found
        ∙ (rw (back rest)) in
      rw e (
        decode_fields_step fuel _ (written ++ rest) rest n w _ more key field (
          go fuel (
            omega (
              arith,
              libs.decode_key_shrinks _ _ _ _ key,
              length-append written rest,
              ap length e,
            ))))

  pub write_field-Reads :
      (f : ProtobufField)
      → IsField d fds f
      → (bytes : List ℕ) × (write_field libs f f.field_data ≡ ok bytes) × Reads bytes (f ∷ [])
  unfolding write_field
  write_field-Reads f is =
      let (written, e, back) =
        Carries-ReadsBack libs d fds f.descriptor f.field_num f.wire_type f.field_data is.carries in
      let reads =
        values-Reads f.descriptor f.field_num f.wire_type written _ is.tag is.found back in
      (
        libs.encode_key f.field_num f.wire_type ++ written,
        rw e,
        subst (Reads (libs.encode_key f.field_num f.wire_type ++ written))
            (ap (λ (g : ProtobufField). g ∷ []) (known_field-eq f is.named is.single)) reads,
      )

  at_end : (fuel : ℕ) → 0 < fuel → decode_fields libs fuel d fds [] ≡ ok []
  unfolding decode_fields
  at_end zero lt = absurd (omega arith)
  at_end (suc fuel) lt = refl

  pub decode_message-Reads :
      (bytes : List ℕ) (fields : List ProtobufField)
      → Reads bytes fields
      → decode_message libs bytes d fds
        ≡ ok (libs.sorted_by ProtobufField (λ f. f.field_num) fields)
  unfolding decode_message
  decode_message-Reads bytes fields r =
      let back =
        r [] [] at_end (suc (length bytes)) (omega (arith, ap length (append-nil bytes))) in
      rw (rw (append-nil bytes, append-nil fields) at back)
