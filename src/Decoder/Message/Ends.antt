-- ===== src/Decoder/Message/Ends.antt =====
-- decode_message comes to an end on every buffer.
use pact_protobuf_plugin.Base.{
  ℕ, zero, suc, ◌<◌, ◌≢◌, inl, inr, List, [], ◌∷◌, ◌++◌, length, leb, Bool-cases, arith,
  if◌then◌else◌, ◌&&◌,
}
use pact_protobuf_plugin.Base.Bytes.{is_utf8}
use pact_protobuf_plugin.ProstTypes.{
  WireType, FieldType, FieldDescriptorProto, DescriptorProto, FileDescriptorSet,
}
use pact_protobuf_plugin.Outcome.{
  Outcome, Error, ok, err, panic, out_of_fuel, ok_or, Ends, >>=-Ends, ok_or-Ends, or_else_err,
  ok_or-eq-ok,
}
use pact_protobuf_plugin.Field.{ProtobufFieldData}
use pact_protobuf_plugin.Lookup.{
  is_repeated_field, should_be_packed_type, find_message_descriptor_for_type,
}
use pact_protobuf_plugin.Lookup.Ends.{find_message_descriptor_for_type-Ends}
use pact_protobuf_plugin.Libraries.{Libraries}
use pact_protobuf_plugin.Decoder.{find_embedded}
use pact_protobuf_plugin.Decoder.Within.{
  Within, >>=-Within, >>=-Within-Ends, >>=-Ends-Within, Within-mono, decode_varint-Within,
  get_le-Within, get_be-Within, copy_to_bytes-Within,
}
use pact_protobuf_plugin.Decoder.Packed.{decode_packed_field}
use pact_protobuf_plugin.Decoder.Packed.Ends.{varint_data-Ends, decode_packed_field-Ends}
use pact_protobuf_plugin.Decoder.Message.{
  delimited_data, read_delimited, decode_known, decode_unknown, decode_found, decode_field,
  decode_fields, decode_message,
}

or_else_err-Ends :
    {A : Type 0} (m other : Outcome A) → Ends m → Ends other → Ends (or_else_err m other)
or_else_err-Ends (ok a) other h k = λ q. cc
or_else_err-Ends (err e) other h k = k
or_else_err-Ends panic other h k = λ q. cc
or_else_err-Ends out_of_fuel other h k = h

find_embedded-Ends :
    (d : DescriptorProto) (fds : FileDescriptorSet) (f : FieldDescriptorProto) (n : ℕ)
    → Ends (find_embedded d fds f n)
unfolding find_embedded
find_embedded-Ends d fds f n =
    or_else_err-Ends _ _
      (>>=-Ends (find_message_descriptor_for_type _ fds) _
        (find_message_descriptor_for_type-Ends _ fds) (λ a e q. ok_ends a.0 q))
      (ok_or-Ends _ _)
  where
    ok_ends : (a : DescriptorProto) → Ends (ok a)
    ok_ends a q = cc

module _ (libs : Libraries) where
  module _ (f : FieldDescriptorProto) (d : DescriptorProto) (fds : FileDescriptorSet)
      (n data_length : ℕ) (bs : List ℕ) where
    unpacked-Ends :
        (t : FieldType)
        → Ends (
            if should_be_packed_type t && is_repeated_field f
            then decode_packed_field libs f d fds bs
            else ok (
                (
                  ProtobufFieldData.unknown (libs.encode_varint data_length ++ bs),
                  WireType.length_delimited,
                )
                ∷ []))
    unpacked-Ends t = elim (Bool-cases (should_be_packed_type t && is_repeated_field f)) [
      | inl packed ↦ rw packed (decode_packed_field-Ends libs f d fds bs)
      | inr kept ↦ rw kept (λ q. cc)
    ]

    delimited_data-Ends : (t : FieldType) → Ends (delimited_data libs t f d fds n data_length bs)
    unfolding delimited_data
    delimited_data-Ends FieldType.string = elim (Bool-cases (is_utf8 bs)) [
      | inl valid ↦ rw valid (λ q. cc)
      | inr invalid ↦ rw invalid (λ q. cc)
    ]
    delimited_data-Ends FieldType.message =
        >>=-Ends (find_embedded d fds f n) _ (find_embedded-Ends d fds f n) (λ a e q. cc)
    delimited_data-Ends FieldType.bytes = λ q. cc
    delimited_data-Ends FieldType.double = unpacked-Ends FieldType.double
    delimited_data-Ends FieldType.float = unpacked-Ends FieldType.float
    delimited_data-Ends FieldType.int64 = unpacked-Ends FieldType.int64
    delimited_data-Ends FieldType.uint64 = unpacked-Ends FieldType.uint64
    delimited_data-Ends FieldType.int32 = unpacked-Ends FieldType.int32
    delimited_data-Ends FieldType.fixed64 = unpacked-Ends FieldType.fixed64
    delimited_data-Ends FieldType.fixed32 = unpacked-Ends FieldType.fixed32
    delimited_data-Ends FieldType.bool = unpacked-Ends FieldType.bool
    delimited_data-Ends FieldType.group = unpacked-Ends FieldType.group
    delimited_data-Ends FieldType.uint32 = unpacked-Ends FieldType.uint32
    delimited_data-Ends FieldType.enum = unpacked-Ends FieldType.enum
    delimited_data-Ends FieldType.sfixed32 = unpacked-Ends FieldType.sfixed32
    delimited_data-Ends FieldType.sfixed64 = unpacked-Ends FieldType.sfixed64
    delimited_data-Ends FieldType.sint32 = unpacked-Ends FieldType.sint32
    delimited_data-Ends FieldType.sint64 = unpacked-Ends FieldType.sint64

  read_delimited-Within :
      (n data_length : ℕ) (bs : List ℕ) → Within (length bs) (read_delimited libs n data_length bs)
  unfolding read_delimited
  read_delimited-Within n data_length bs = elim (Bool-cases (leb data_length (length bs))) [
    | inl enough ↦ rw enough (copy_to_bytes-Within libs data_length bs)
    | inr short ↦ rw short tt
  ]

  varint_reads :
      (bs : List ℕ) → Within (length bs) (ok_or (libs.decode_varint bs) Error.invalid_varint)
  varint_reads bs = Within-mono _ _ _ (omega arith) (decode_varint-Within libs bs _)

  decode_known-Within :
      (w : WireType) (f : FieldDescriptorProto) (d : DescriptorProto) (fds : FileDescriptorSet)
      (n : ℕ) (bs : List ℕ)
      → Within (length bs) (decode_known libs w f d fds n bs)
  unfolding decode_known
  decode_known-Within WireType.varint f d fds n bs =
      >>=-Within (length bs) _ _ (varint_reads bs) (λ v rest le.
        >>=-Within-Ends (length bs) _ _ (varint_data-Ends d fds f v f.type) (λ value. le))
  decode_known-Within WireType.sixty_four_bit f d fds n bs =
      >>=-Within (length bs) _ _ (Within-mono _ _ _ (omega arith) (get_le-Within libs 8 bs))
        (λ v rest le. le)
  decode_known-Within WireType.thirty_two_bit f d fds n bs =
      >>=-Within (length bs) _ _ (Within-mono _ _ _ (omega arith) (get_le-Within libs 4 bs))
        (λ v rest le. le)
  decode_known-Within WireType.length_delimited f d fds n bs =
      >>=-Within (length bs) _ _ (varint_reads bs) (λ data_length rest le.
        >>=-Within (length bs) _ _ (Within-mono _ _ _ le (read_delimited-Within n data_length rest))
          (λ buffer left le'.
            >>=-Within-Ends (length bs) _ _
              (delimited_data-Ends f d fds n data_length buffer f.type) (λ values. le')))
  decode_known-Within _ f d fds n bs = tt

  decode_unknown-Within :
      (w : WireType) (bs : List ℕ) → Within (length bs) (decode_unknown libs w bs)
  unfolding decode_unknown
  decode_unknown-Within WireType.varint bs =
      >>=-Within (length bs) _ _ (varint_reads bs) (λ v rest le. le)
  decode_unknown-Within WireType.sixty_four_bit bs =
      >>=-Within (length bs) _ _ (Within-mono _ _ _ (omega arith) (get_be-Within libs 8 bs))
        (λ v rest le. le)
  decode_unknown-Within WireType.thirty_two_bit bs =
      >>=-Within (length bs) _ _ (Within-mono _ _ _ (omega arith) (get_be-Within libs 4 bs))
        (λ v rest le. le)
  decode_unknown-Within WireType.length_delimited bs =
      >>=-Within (length bs) _ _ (varint_reads bs) (λ data_length rest le.
        >>=-Within (length bs) _ _
          (Within-mono _ _ _ le (copy_to_bytes-Within libs data_length rest))
          (λ buffer left le'. le'))
  decode_unknown-Within _ bs = tt

  decode_found-Within :
      (m : Outcome FieldDescriptorProto) (d : DescriptorProto) (fds : FileDescriptorSet) (n : ℕ)
      (w : WireType) (bs : List ℕ)
      → Within (length bs) (decode_found libs m d fds n w bs)
  unfolding decode_found
  decode_found-Within (ok f) d fds n w bs =
      >>=-Within (length bs) _ _ (decode_known-Within w f d fds n bs) (λ values rest le. le)
  decode_found-Within _ d fds n w bs =
      >>=-Within (length bs) _ _ (decode_unknown-Within w bs) (λ kept rest le. le)

  decode_fields-Ends :
      (fuel : ℕ) (d : DescriptorProto) (fds : FileDescriptorSet) (bs : List ℕ)
      → length bs < fuel
      → Ends (decode_fields libs fuel d fds bs)
  unfolding decode_fields decode_field
  decode_fields-Ends zero d fds bs h = absurd (omega arith)
  decode_fields-Ends (suc fuel) d fds [] h = λ q. cc
  decode_fields-Ends (suc fuel) d fds (b ∷ bs) h =
      >>=-Ends (ok_or (libs.decode_key (b ∷ bs)) Error.invalid_key) _ (ok_or-Ends _ _)
        (λ (n, w, rest) e.
          >>=-Ends-Within (length rest) _ _ (decode_found-Within _ d fds n w rest)
            (λ fields left le.
              >>=-Ends (decode_fields libs fuel d fds left) _
                (decode_fields-Ends fuel d fds left
                  (omega (arith, libs.decode_key_shrinks (b ∷ bs) n w rest (ok_or-eq-ok _ _ e))))
                (λ more e' q. cc)))

  -- `decode_message` comes to an end on every buffer: the model never spends its fuel, so it returns
  -- the fields, an error or a panic.
  pub decode_message-Ends :
      (bs : List ℕ) (d : DescriptorProto) (fds : FileDescriptorSet)
      → decode_message libs bs d fds ≢ out_of_fuel
  unfolding decode_message
  decode_message-Ends bs d fds =
      >>=-Ends (decode_fields libs (suc (length bs)) d fds bs) _
        (decode_fields-Ends _ d fds bs (omega arith)) (λ fields e q. cc)
