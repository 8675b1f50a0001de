-- ===== src/Builder/Wire.antt =====
-- The calls of prost::encoding in src/message_builder.rs, as a record of operations: one for each of
-- prost's modules double, float, int64, …, with the documented wire format as their laws.
use pact_protobuf_plugin.Base.{
  ℕ, ◌≡◌, Bool, true, false, Option, List, [], ◌∷◌, ◌++◌, length, flat_map,
}
use pact_protobuf_plugin.Base.Text.{Text}
use pact_protobuf_plugin.Base.Int.{ℤ, as_u32, as_u64}
use pact_protobuf_plugin.Base.Bytes.{to_le_bytes}
use pact_protobuf_plugin.ProstTypes.{WireType}
use pact_protobuf_plugin.Libraries.{Libraries}
use pact_protobuf_plugin.Defaults.{Floats}
use pact_protobuf_plugin.FieldValue.{FloatCasts}
use pact_protobuf_plugin.Decoder.Zigzag.{encode_zigzag}

-- The modules of prost::encoding that the builder calls.
pub data Scalar : Type 0 where
  double float int64 uint64 int32 uint32 fixed64 fixed32 sfixed32 sfixed64 sint32 sint64 : Scalar
  bool string bytes : Scalar

-- The type of the values of a module. A float is its bit pattern.
abbrev pub Value : Scalar → Type 0
Value Scalar.double = ℕ
Value Scalar.float = ℕ
Value Scalar.int64 = ℤ
Value Scalar.uint64 = ℕ
Value Scalar.int32 = ℤ
Value Scalar.uint32 = ℕ
Value Scalar.fixed64 = ℕ
Value Scalar.fixed32 = ℕ
Value Scalar.sfixed32 = ℤ
Value Scalar.sfixed64 = ℤ
Value Scalar.sint32 = ℤ
Value Scalar.sint64 = ℤ
Value Scalar.bool = Bool
Value Scalar.string = Text
Value Scalar.bytes = List ℕ

abbrev pub wire_type : Scalar → WireType
wire_type Scalar.double = WireType.sixty_four_bit
wire_type Scalar.float = WireType.thirty_two_bit
wire_type Scalar.int64 = WireType.varint
wire_type Scalar.uint64 = WireType.varint
wire_type Scalar.int32 = WireType.varint
wire_type Scalar.uint32 = WireType.varint
wire_type Scalar.fixed64 = WireType.sixty_four_bit
wire_type Scalar.fixed32 = WireType.thirty_two_bit
wire_type Scalar.sfixed32 = WireType.thirty_two_bit
wire_type Scalar.sfixed64 = WireType.sixty_four_bit
wire_type Scalar.sint32 = WireType.varint
wire_type Scalar.sint64 = WireType.varint
wire_type Scalar.bool = WireType.varint
wire_type Scalar.string = WireType.length_delimited
wire_type Scalar.bytes = WireType.length_delimited

abbrev pub bool_bit : Bool → ℕ
bool_bit true = 1
bool_bit false = 0

-- The bytes of a value behind its key, in the Protobuf wire format.
abbrev pub payload : Libraries → (s : Scalar) → Value s → List ℕ
payload libs Scalar.double n = to_le_bytes 8 n
payload libs Scalar.float n = to_le_bytes 4 n
payload libs Scalar.int64 i = libs.encode_varint (as_u64 i)
payload libs Scalar.uint64 n = libs.encode_varint n
payload libs Scalar.int32 i = libs.encode_varint (as_u64 i)
payload libs Scalar.uint32 n = libs.encode_varint n
payload libs Scalar.fixed64 n = to_le_bytes 8 n
payload libs Scalar.fixed32 n = to_le_bytes 4 n
payload libs Scalar.sfixed32 i = to_le_bytes 4 (as_u32 i)
payload libs Scalar.sfixed64 i = to_le_bytes 8 (as_u64 i)
payload libs Scalar.sint32 i = libs.encode_varint (encode_zigzag i)
payload libs Scalar.sint64 i = libs.encode_varint (encode_zigzag i)
payload libs Scalar.bool b = libs.encode_varint (bool_bit b)
payload libs Scalar.string s = libs.encode_varint (length s) ++ s
payload libs Scalar.bytes b = libs.encode_varint (length b) ++ b

-- What the builder calls and the repository does not hold. The bytes are those appended to the buffer;
-- `encode_struct` is `s.encode(…)` of a google.protobuf.Struct, which can fail.
pub record Encoding (Struct : Type 0) : Type 1 where
  pub libs : Libraries
  pub floats : Floats
  pub casts : FloatCasts
  pub encode : (s : Scalar) → ℕ → Value s → List ℕ
  pub encode_packed : (s : Scalar) → ℕ → List (Value s) → List ℕ
  pub encode_struct : Struct → Option (List ℕ)
  pub encode_lem :
      (s : Scalar) (tag : ℕ) (v : Value s)
      → encode s tag v ≡ libs.encode_key tag (wire_type s) ++ payload libs s v
  -- No bytes for no values.
  pub encode_packed_nil : (s : Scalar) (tag : ℕ) → encode_packed s tag [] ≡ []
  pub encode_packed_cons :
      (s : Scalar) (tag : ℕ) (v : Value s) (vs : List (Value s))
      → encode_packed s tag (v ∷ vs)
        ≡ libs.encode_key tag WireType.length_delimited
          ++ (libs.encode_varint (length (flat_map (payload libs s) (v ∷ vs)))
              ++ flat_map (payload libs s) (v ∷ vs))
