-- ===== src/FieldValue.antt =====
-- RType and MessageFieldValue of src/message_builder.rs: the values that a message builder is given. A
-- float is its bit pattern; parsing, printing and converting floats are parameters. The builder of an
-- embedded message and a google.protobuf.Struct are type parameters: their values are only passed on.
pub mod Decimal
pub mod Returns
use pact_protobuf_plugin.Base.{
  ℕ, zero, suc, ◌+◌, ◌/◌, ◌%◌, ◌^◌, Bool, true, false, ◌&&◌, Option, none, some, List, [], ◌∷◌,
  ◌++◌, ltb, leb, if◌then◌else◌,
}
use pact_protobuf_plugin.Base.Text.{Text, codes, text_eq}
use pact_protobuf_plugin.Base.Int.{ℤ, pos, negsuc, as_i32, as_i64, as_u32, as_u64}
use pact_protobuf_plugin.Base.Bytes.{parse_unsigned, parse_signed}
use pact_protobuf_plugin.ProstTypes.{EnumDescriptorProto}
use pact_protobuf_plugin.Outcome.{Outcome, Error, ok, err, ok_or, ◌>>=◌}
use pact_protobuf_plugin.Defaults.{Floats}

-- The conversions of floats: `as` casts, which round or saturate, and `to_string`.
pub record FloatCasts : Type 0 where
  pub integer_as_f32 : ℤ → ℕ
  pub integer_as_f64 : ℤ → ℕ
  pub f32_as_f64 : ℕ → ℕ
  pub f64_as_f32 : ℕ → ℕ
  pub f32_as_u64 : ℕ → ℕ
  pub f64_as_u64 : ℕ → ℕ
  pub f32_as_u32 : ℕ → ℕ
  pub f64_as_u32 : ℕ → ℕ
  pub f32_as_i64 : ℕ → ℤ
  pub f64_as_i64 : ℕ → ℤ
  pub f32_as_i32 : ℕ → ℤ
  pub f64_as_i32 : ℕ → ℤ
  pub f32_to_string : ℕ → Text
  pub f64_to_string : ℕ → Text

pub data RType (Builder Struct : Type 0) : Type 0 where
  string : Text → RType Builder Struct
  boolean : Bool → RType Builder Struct
  uinteger_32 : ℕ → RType Builder Struct
  integer_32 : ℤ → RType Builder Struct
  uinteger_64 : ℕ → RType Builder Struct
  integer_64 : ℤ → RType Builder Struct
  float : ℕ → RType Builder Struct
  double : ℕ → RType Builder Struct
  bytes : List ℕ → RType Builder Struct
  enum : ℤ → EnumDescriptorProto → RType Builder Struct
  message : Builder → RType Builder Struct
  struct_value : Struct → RType Builder Struct

pub record MessageFieldValue (Builder Struct : Type 0) : Type 0 where
  pub name : Text
  pub raw_value : Option Text
  pub rtype : RType Builder Struct

-- The decimal digits of a number, of at most `more` digits in front of the last.
unfoldable pub digits_of : ℕ → ℕ → Text
digits_of zero n = (b'0' + n % 10) ∷ []
digits_of (suc more) n =
    let front = digits_of more (n / 10) in
    if ltb n 10 then (b'0' + n % 10) ∷ [] else front ++ ((b'0' + n % 10) ∷ [])

-- `to_string` of a number of 64 bits, which has twenty digits at most.
unfoldable pub decimal : ℕ → Text
unfolding digits_of
decimal n = digits_of 19 n

unfoldable pub int_to_string : ℤ → Text
unfolding decimal
int_to_string (pos n) = decimal n
int_to_string (negsuc n) = b'-' ∷ decimal (n + 1)

abbrev pub bool_int : Bool → ℕ
bool_int true = 1
bool_int false = 0

-- `i > 0`.
abbrev pub is_positive : ℤ → Bool
is_positive (pos n) = ltb 0 n
is_positive (negsuc n) = false

-- `parse::<bool>`.
unfoldable pub parse_bool : Text → Option Bool
parse_bool s =
    if text_eq s (codes "true")
    then some true
    else if text_eq s (codes "false")
    then some false
    else none

-- `s.parse()` with its error.
abbrev pub parsed : {A : Type 0} → (Text → Option A) → Text → Outcome A
parsed parse s = ok_or (parse s) (Error.not_a_value s)

module _ {Builder Struct : Type 0} (floats : Floats) (casts : FloatCasts) where
  unfoldable pub as_f64 : RType Builder Struct → Outcome ℕ
  as_f64 (RType.string s) = parsed floats.parse_f64 s
  as_f64 (RType.boolean b) = ok (casts.integer_as_f64 (pos (bool_int b)))
  as_f64 (RType.uinteger_32 u) = ok (casts.integer_as_f64 (pos u))
  as_f64 (RType.integer_32 i) = ok (casts.integer_as_f64 i)
  as_f64 (RType.uinteger_64 u) = ok (casts.integer_as_f64 (pos u))
  as_f64 (RType.integer_64 i) = ok (casts.integer_as_f64 i)
  as_f64 (RType.float f) = ok (casts.f32_as_f64 f)
  as_f64 (RType.double d) = ok d
  as_f64 _ = err Error.cannot_convert

  unfoldable pub as_f32 : RType Builder Struct → Outcome ℕ
  as_f32 (RType.string s) = parsed floats.parse_f32 s
  as_f32 (RType.boolean b) = ok (casts.integer_as_f32 (pos (bool_int b)))
  as_f32 (RType.uinteger_32 u) = ok (casts.integer_as_f32 (pos u))
  as_f32 (RType.integer_32 i) = ok (casts.integer_as_f32 i)
  as_f32 (RType.uinteger_64 u) = ok (casts.integer_as_f32 (pos u))
  as_f32 (RType.integer_64 i) = ok (casts.integer_as_f32 i)
  as_f32 (RType.float f) = ok f
  as_f32 (RType.double d) = ok (casts.f64_as_f32 d)
  as_f32 _ = err Error.cannot_convert

  unfoldable pub to_u64 : RType Builder Struct → Outcome ℕ
  to_u64 (RType.string s) = parsed (parse_unsigned (2 ^ 64)) s
  to_u64 (RType.boolean b) = ok (bool_int b)
  to_u64 (RType.uinteger_32 u) = ok u
  to_u64 (RType.integer_32 i) = ok (as_u64 i)
  to_u64 (RType.uinteger_64 u) = ok u
  to_u64 (RType.integer_64 i) = ok (as_u64 i)
  to_u64 (RType.float f) = ok (casts.f32_as_u64 f)
  to_u64 (RType.double d) = ok (casts.f64_as_u64 d)
  to_u64 _ = err Error.cannot_convert

  unfoldable pub to_i64 : RType Builder Struct → Outcome ℤ
  to_i64 (RType.string s) = parsed (parse_signed (2 ^ 63)) s
  to_i64 (RType.boolean b) = ok (pos (bool_int b))
  to_i64 (RType.uinteger_32 u) = ok (pos u)
  to_i64 (RType.integer_32 i) = ok i
  to_i64 (RType.uinteger_64 u) = ok (as_i64 u)
  to_i64 (RType.integer_64 i) = ok i
  to_i64 (RType.float f) = ok (casts.f32_as_i64 f)
  to_i64 (RType.double d) = ok (casts.f64_as_i64 d)
  to_i64 _ = err Error.cannot_convert

  unfoldable pub to_u32 : RType Builder Struct → Outcome ℕ
  to_u32 (RType.string s) = parsed (parse_unsigned (2 ^ 32)) s
  to_u32 (RType.boolean b) = ok (bool_int b)
  to_u32 (RType.uinteger_32 u) = ok u
  to_u32 (RType.integer_32 i) = ok (as_u32 i)
  to_u32 (RType.uinteger_64 u) = ok (u % 2 ^ 32)
  to_u32 (RType.integer_64 i) = ok (as_u32 i)
  to_u32 (RType.float f) = ok (casts.f32_as_u32 f)
  to_u32 (RType.double d) = ok (casts.f64_as_u32 d)
  to_u32 _ = err Error.cannot_convert

  unfoldable pub to_i32 : RType Builder Struct → Outcome ℤ
  to_i32 (RType.string s) = parsed (parse_signed (2 ^ 31)) s
  to_i32 (RType.boolean b) = ok (pos (bool_int b))
  to_i32 (RType.uinteger_32 u) = ok (as_i32 u)
  to_i32 (RType.integer_32 i) = ok i
  to_i32 (RType.uinteger_64 u) = ok (as_i32 u)
  to_i32 (RType.integer_64 i) = ok (as_i32 (as_u32 i))
  to_i32 (RType.float f) = ok (casts.f32_as_i32 f)
  to_i32 (RType.double d) = ok (casts.f64_as_i32 d)
  to_i32 _ = err Error.cannot_convert

  unfoldable pub as_str : RType Builder Struct → Outcome Text
  unfolding decimal int_to_string
  as_str (RType.string s) = ok s
  as_str (RType.boolean b) = ok (if b then codes "true" else codes "false")
  as_str (RType.uinteger_32 u) = ok (decimal u)
  as_str (RType.integer_32 i) = ok (int_to_string i)
  as_str (RType.uinteger_64 u) = ok (decimal u)
  as_str (RType.integer_64 i) = ok (int_to_string i)
  as_str (RType.float f) = ok (casts.f32_to_string f)
  as_str (RType.double d) = ok (casts.f64_to_string d)
  as_str (RType.enum n e) = ok (int_to_string n)
  as_str _ = err Error.cannot_convert

  -- A float above zero has no sign bit and is no NaN.
  unfoldable pub as_bool : RType Builder Struct → Outcome Bool
  unfolding parse_bool
  as_bool (RType.string s) = parsed parse_bool s
  as_bool (RType.boolean b) = ok b
  as_bool (RType.uinteger_32 u) = ok (ltb 0 u)
  as_bool (RType.integer_32 i) = ok (is_positive i)
  as_bool (RType.uinteger_64 u) = ok (ltb 0 u)
  as_bool (RType.integer_64 i) = ok (is_positive i)
  as_bool (RType.float f) = ok (ltb 0 f && leb f 0x7f800000)
  as_bool (RType.double d) = ok (ltb 0 d && leb d 0x7ff0000000000000)
  as_bool _ = err Error.cannot_convert

  unfoldable pub value_of : Text → Text → RType Builder Struct → MessageFieldValue Builder Struct
  value_of field_name field_value rtype = record {
    name = field_name;
    raw_value = some field_value;
    rtype = rtype;
  }

  unfoldable pub string_value : Text → Text → MessageFieldValue Builder Struct
  string_value field_name field_value = value_of field_name field_value (RType.string field_value)

  unfoldable pub bytes_value : Text → Text → MessageFieldValue Builder Struct
  bytes_value field_name field_value = value_of field_name field_value (RType.bytes field_value)

  unfoldable pub boolean_value : Text → Text → Outcome (MessageFieldValue Builder Struct)
  boolean_value field_name field_value =
      parsed parse_bool field_value >>= λ v. ok (value_of field_name field_value (RType.boolean v))

  unfoldable pub uinteger_32_value : Text → Text → Outcome (MessageFieldValue Builder Struct)
  uinteger_32_value field_name field_value = parsed (parse_unsigned (2 ^ 32)) field_value >>= λ v.
      ok (value_of field_name field_value (RType.uinteger_32 v))

  unfoldable pub integer_32_value : Text → Text → Outcome (MessageFieldValue Builder Struct)
  integer_32_value field_name field_value = parsed (parse_signed (2 ^ 31)) field_value >>= λ v.
      ok (value_of field_name field_value (RType.integer_32 v))

  unfoldable pub uinteger_64_value : Text → Text → Outcome (MessageFieldValue Builder Struct)
  unfolding value_of
  uinteger_64_value field_name field_value = parsed (parse_unsigned (2 ^ 64)) field_value >>= λ v.
      ok (value_of field_name field_value (RType.uinteger_64 v))

  unfoldable pub integer_64_value : Text → Text → Outcome (MessageFieldValue Builder Struct)
  integer_64_value field_name field_value = parsed (parse_signed (2 ^ 63)) field_value >>= λ v.
      ok (value_of field_name field_value (RType.integer_64 v))

  unfoldable pub float_value : Text → Text → Outcome (MessageFieldValue Builder Struct)
  float_value field_name field_value = parsed floats.parse_f32 field_value >>= λ v.
      ok (value_of field_name field_value (RType.float v))

  unfoldable pub double_value : Text → Text → Outcome (MessageFieldValue Builder Struct)
  double_value field_name field_value = parsed floats.parse_f64 field_value >>= λ v.
      ok (value_of field_name field_value (RType.double v))
