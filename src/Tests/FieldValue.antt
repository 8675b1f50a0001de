-- ===== src/Tests/FieldValue.antt =====
-- Runs of the field values.
use pact_protobuf_plugin.Base.{ℕ, ◌≡◌, arith}
use pact_protobuf_plugin.Base.Text.{codes}
use pact_protobuf_plugin.Base.Int.{pos}
use pact_protobuf_plugin.Outcome.{ok}
use pact_protobuf_plugin.FieldValue.{
  FloatCasts, MessageFieldValue, uinteger_64_value, to_u64, as_str, decimal,
}
use pact_protobuf_plugin.FieldValue.Decimal.{uinteger_64_value-decimal}
use pact_protobuf_plugin.Tests.Data.{test_floats}

-- Conversions that are right on zero.
abbrev test_casts : FloatCasts
test_casts = record {
  integer_as_f32 = λ i. 0;
  integer_as_f64 = λ i. 0;
  f32_as_f64 = λ n. 0;
  f64_as_f32 = λ n. 0;
  f32_as_u64 = λ n. 0;
  f64_as_u64 = λ n. 0;
  f32_as_u32 = λ n. 0;
  f64_as_u32 = λ n. 0;
  f32_as_i64 = λ n. pos 0;
  f64_as_i64 = λ n. pos 0;
  f32_as_i32 = λ n. pos 0;
  f64_as_i32 = λ n. pos 0;
  f32_to_string = λ n. codes "0";
  f64_to_string = λ n. codes "0";
}

uinteger_64_value-decimal_example :
    (v : MessageFieldValue ℕ ℕ) × (uinteger_64_value test_floats test_casts
        (codes "id")
        (decimal 18446744073709551615)
      ≡ ok v)
    × (to_u64 test_floats test_casts v.rtype ≡ ok 18446744073709551615)
    × (as_str test_floats test_casts v.rtype ≡ ok (decimal 18446744073709551615))
uinteger_64_value-decimal_example =
    uinteger_64_value-decimal test_floats test_casts (codes "id") 18446744073709551615 (omega arith)
