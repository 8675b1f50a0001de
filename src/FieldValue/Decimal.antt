-- ===== src/FieldValue/Decimal.antt =====
-- Numbers that are printed and parsed again.
use pact_protobuf_plugin.Base.{
  ℕ, zero, suc, ◌+◌, ◌-◌, ◌*◌, ◌/◌, ◌%◌, ◌^◌, ◌<◌, ◌≤◌, ◌≡◌, refl, sym, ap, ◌∙◌, inl, inr, ◌&&◌,
  none, some, [], ◌∷◌, ◌++◌, ltb, leb, le→leb, lt→ltb, ltb→lt, ==_ne, Bool-cases, arith,
}
use mathlib.Core.Option.{some-injective}
use native.Mathlib.Nat.{pow-suc}
use pact_protobuf_plugin.Base.Text.{Text}
use pact_protobuf_plugin.Base.Bytes.{parse_digits, parse_magnitude, parse_unsigned}
use pact_protobuf_plugin.Base.Int.{IsU64}
use pact_protobuf_plugin.Outcome.{ok}
use pact_protobuf_plugin.Defaults.{Floats}
use pact_protobuf_plugin.FieldValue.{
  digits_of, decimal, FloatCasts, RType, MessageFieldValue, uinteger_64_value, value_of, to_u64,
  as_str,
}

none-some : {A : Type 0} {a : A} → none ≡ some a → ⊥
none-some e = cc

one_digit : (acc k : ℕ) → k < 10 → parse_digits acc ((b'0' + k) ∷ []) ≡ some (acc * 10 + k)
unfolding parse_digits
one_digit acc k h =
    rw (le→leb b'0' (b'0' + k) (omega arith))
      (rw (le→leb (b'0' + k) b'9' (omega arith)) (ap some (omega arith)))

-- One more digit.
parse_digits-append :
    (acc m k : ℕ) (s : Text)
    → k < 10
    → parse_digits acc s ≡ some m
    → parse_digits acc (s ++ ((b'0' + k) ∷ [])) ≡ some (m * 10 + k)
unfolding parse_digits
parse_digits-append acc m k [] h e =
    one_digit acc k h ∙ ap (λ a. some (a * 10 + k)) (some-injective _ _ e)
parse_digits-append acc m k (c ∷ s) h e = elim (Bool-cases (leb b'0' c && leb c b'9')) [
  | inl digit ↦ rw digit (parse_digits-append (acc * 10 + (c - b'0')) m k s h (rw digit at e))
  | inr other ↦ absurd (none-some (rw other at e))
]

parse_digits-digits_of :
    (more n : ℕ) → n < 10 ^ suc more → parse_digits 0 (digits_of more n) ≡ some n
unfolding digits_of
parse_digits-digits_of zero n h = one_digit 0 (n % 10) (omega arith) ∙ ap some (omega arith)
parse_digits-digits_of (suc more) n h = elim (Bool-cases (ltb n 10)) [
  | inl small ↦
      rw small (one_digit 0 (n % 10) (omega arith) ∙ ap some (omega (arith, ltb→lt n 10 small)))
  | inr large ↦
      let ih = parse_digits-digits_of more (n / 10) (omega (arith, pow-suc 10 (suc more))) in
      rw large (
        parse_digits-append 0 (n / 10) (n % 10) (digits_of more (n / 10)) (omega arith) ih
        ∙ ap some (omega arith))
]

-- Printing starts with a digit.
digits_of-cons : (more n : ℕ) → (c : ℕ) × (t : Text) × (digits_of more n ≡ c ∷ t) × (b'0' ≤ c)
unfolding digits_of
digits_of-cons zero n = (b'0' + n % 10, [], refl, omega arith)
digits_of-cons (suc more) n = elim (Bool-cases (ltb n 10)) [
  | inl small ↦ (b'0' + n % 10, [], rw small, omega arith)
  | inr large ↦
      let (c, t, e, h) = digits_of-cons more (n / 10) in
      (
        c,
        t ++ ((b'0' + n % 10) ∷ []),
        rw large (ap (λ (s : Text). s ++ ((b'0' + n % 10) ∷ [])) e),
        h,
      )
]

parse_unsigned-digits :
    (limit n c : ℕ) (t : Text)
    → b'0' ≤ c
    → parse_digits 0 (c ∷ t) ≡ some n
    → n < limit
    → parse_unsigned limit (c ∷ t) ≡ some n
unfolding parse_unsigned parse_magnitude
parse_unsigned-digits limit n c t h e lt =
    rw (==_ne c b'+' (omega arith), parse_unsigned)
      (rw (e, parse_magnitude) (rw (lt→ltb n limit lt)))

parse_unsigned-decimal : (n : ℕ) → IsU64 n → parse_unsigned (2 ^ 64) (decimal n) ≡ some n
unfolding decimal
parse_unsigned-decimal n h =
    let (c, t, e, digit) = digits_of-cons 19 n in
    ap (parse_unsigned (2 ^ 64)) e
    ∙ parse_unsigned-digits (2 ^ 64) n c t digit
        (ap (parse_digits 0) (sym e) ∙ parse_digits-digits_of 19 n (omega (arith, h))) h

module _ {Builder Struct : Type 0} (floats : Floats) (casts : FloatCasts) where
  -- A number of 64 bits that is printed in decimal makes a field value, which converts back to the
  -- number and to its text.
  pub uinteger_64_value-decimal :
      (field_name : Text) (n : ℕ)
      → IsU64 n
      → (v : MessageFieldValue Builder Struct) × (uinteger_64_value floats casts field_name
            (decimal n)
          ≡ ok v)
        × (to_u64 floats casts v.rtype ≡ ok n)
        × (as_str floats casts v.rtype ≡ ok (decimal n))
  unfolding uinteger_64_value to_u64 as_str value_of
  uinteger_64_value-decimal field_name n h = (
    value_of floats casts field_name (decimal n) (RType.uinteger_64 n),
    rw (parse_unsigned-decimal n h),
    refl,
    refl,
  )
