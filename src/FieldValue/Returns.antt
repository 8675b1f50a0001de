-- ===== src/FieldValue/Returns.antt =====
-- The conversions of field values return a value or an error.
use pact_protobuf_plugin.Outcome.{Returns, ok_or-Returns}
use pact_protobuf_plugin.Defaults.{Floats}
use pact_protobuf_plugin.FieldValue.{
  RType, FloatCasts, as_f64, as_f32, to_u64, to_i64, to_u32, to_i32, as_str, as_bool,
}

module _ {Builder Struct : Type 0} (floats : Floats) (casts : FloatCasts) where
  pub as_f64-Returns : (r : RType Builder Struct) → Returns (as_f64 floats casts r)
  unfolding as_f64
  as_f64-Returns (RType.string s) = ok_or-Returns _ _
  as_f64-Returns _ = tt

  pub as_f32-Returns : (r : RType Builder Struct) → Returns (as_f32 floats casts r)
  unfolding as_f32
  as_f32-Returns (RType.string s) = ok_or-Returns _ _
  as_f32-Returns _ = tt

  pub to_u64-Returns : (r : RType Builder Struct) → Returns (to_u64 floats casts r)
  unfolding to_u64
  to_u64-Returns (RType.string s) = ok_or-Returns _ _
  to_u64-Returns _ = tt

  pub to_i64-Returns : (r : RType Builder Struct) → Returns (to_i64 floats casts r)
  unfolding to_i64
  to_i64-Returns (RType.string s) = ok_or-Returns _ _
  to_i64-Returns _ = tt

  pub to_u32-Returns : (r : RType Builder Struct) → Returns (to_u32 floats casts r)
  unfolding to_u32
  to_u32-Returns (RType.string s) = ok_or-Returns _ _
  to_u32-Returns _ = tt

  pub to_i32-Returns : (r : RType Builder Struct) → Returns (to_i32 floats casts r)
  unfolding to_i32
  to_i32-Returns (RType.string s) = ok_or-Returns _ _
  to_i32-Returns _ = tt

  pub as_str-Returns : (r : RType Builder Struct) → Returns (as_str floats casts r)
  unfolding as_str
  as_str-Returns (RType.string s) = tt
  as_str-Returns (RType.boolean b) = tt
  as_str-Returns (RType.uinteger_32 u) = tt
  as_str-Returns (RType.integer_32 i) = tt
  as_str-Returns (RType.uinteger_64 u) = tt
  as_str-Returns (RType.integer_64 i) = tt
  as_str-Returns (RType.float f) = tt
  as_str-Returns (RType.double d) = tt
  as_str-Returns (RType.enum n e) = tt
  as_str-Returns _ = tt

  pub as_bool-Returns : (r : RType Builder Struct) → Returns (as_bool floats casts r)
  unfolding as_bool
  as_bool-Returns (RType.string s) = ok_or-Returns _ _
  as_bool-Returns _ = tt
