-- ===== src/Tests/Varint.antt =====
-- Varints and keys as prost encodes them, with the laws that the codec relies on.
use pact_protobuf_plugin.Base.{
  ℕ, zero, suc, ◌+◌, ◌-◌, ◌*◌, ◌/◌, ◌%◌, ◌^◌, ◌<◌, ◌≤◌, ◌≡◌, refl, ap, inl, inr, false, Option,
  none, some, List, [], ◌∷◌, ◌++◌, length, ltb, lt→ltb, ◌==◌, ==_ne, if◌then◌else◌, Bool-cases,
  Option-cases, arith,
}
use mathlib.Core.Option.{some-injective}
use native.Mathlib.Nat.{pow-suc}
use pact_protobuf_plugin.ProstTypes.{WireType}
use pact_protobuf_plugin.Libraries.{IsTag}

-- At most `more` further bytes.
unfoldable pub varint_bytes : ℕ → ℕ → List ℕ
varint_bytes zero n = n ∷ []
varint_bytes (suc more) n =
    let rest = varint_bytes more (n / 128) in if ltb n 128 then n ∷ [] else (128 + n % 128) ∷ rest

unfoldable pub read_varint : List ℕ → Option (ℕ × List ℕ)
read_varint [] = none
read_varint (b ∷ bs) =
    let rest = read_varint bs in
    if ltb b 128
    then some (b, bs)
    else elim rest [ some (n, left) ↦ some ((b - 128) + 128 * n, left) | none ↦ none ]

lt→not_ltb : (a b : ℕ) → a ≤ b → ltb b a ≡ false
lt→not_ltb a b h = ground arith

pub read_varint-varint_bytes :
    (more n : ℕ) (rest : List ℕ)
    → n < 128 ^ suc more
    → read_varint (varint_bytes more n ++ rest) ≡ some (n, rest)
unfolding varint_bytes read_varint
read_varint-varint_bytes zero n rest h = rw (lt→ltb n 128 (omega arith))
read_varint-varint_bytes (suc more) n rest h = elim (Bool-cases (ltb n 128)) [
  | inl small ↦ rw (small, small)
  | inr large ↦
      let ih =
        read_varint-varint_bytes more (n / 128) rest (omega (arith, pow-suc 128 (suc more))) in
      let flagged : ltb (128 + n % 128) 128 ≡ false =
        lt→not_ltb 128 (128 + n % 128) (omega arith) in
      rw large (rw flagged (rw ih (ap (λ v. some (v, rest)) (omega arith))))
]

none-some : {A : Type 0} {a : A} → none ≡ some a → ⊥
none-some e = cc

pub read_varint_shrinks :
    (bs : List ℕ) (n : ℕ) (rest : List ℕ)
    → read_varint bs ≡ some (n, rest)
    → length rest < length bs
unfolding read_varint
read_varint_shrinks [] n rest e = cc
read_varint_shrinks (b ∷ bs) n rest e = elim (Bool-cases (ltb b 128)) [
  | inl small ↦
      omega (arith, ap (λ (p : ℕ × List ℕ). length p.1) (some-injective _ _ (rw small at e)))
  | inr large ↦ elim (Option-cases (read_varint bs)) [
    | inl stop ↦ absurd (none-some (rw (large, stop) at e))
    | inr (got, more) ↦
        let left : length got.1 < length bs = read_varint_shrinks bs got.0 got.1 more in
        omega (
          arith,
          left,
          ap (λ (p : ℕ × List ℕ). length p.1) (some-injective _ _ (rw (large, more) at e)),
        )
  ]
]

unfoldable pub wire_code : WireType → ℕ
wire_code WireType.varint = 0
wire_code WireType.sixty_four_bit = 1
wire_code WireType.length_delimited = 2
wire_code WireType.start_group = 3
wire_code WireType.end_group = 4
wire_code WireType.thirty_two_bit = 5

unfoldable pub wire_of_code : ℕ → Option WireType
wire_of_code zero = some WireType.varint
wire_of_code (suc zero) = some WireType.sixty_four_bit
wire_of_code (suc (suc zero)) = some WireType.length_delimited
wire_of_code (suc (suc (suc zero))) = some WireType.start_group
wire_of_code (suc (suc (suc (suc zero)))) = some WireType.end_group
wire_of_code (suc (suc (suc (suc (suc zero))))) = some WireType.thirty_two_bit
wire_of_code _ = none

key_of : ℕ → List ℕ → Option (ℕ × WireType × List ℕ)
unfolding wire_of_code
key_of v rest = elim (wire_of_code (v % 8)) [
  | some w ↦ if (v / 8) == 0 then none else some (v / 8, w, rest)
  | none ↦ none
]

key_of-rest :
    (v : ℕ) (bs : List ℕ) (n : ℕ) (w : WireType) (rest : List ℕ)
    → key_of v bs ≡ some (n, w, rest)
    → length bs ≡ length rest
unfolding key_of
key_of-rest v bs n w rest e = elim (Option-cases (wire_of_code (v % 8))) [
  | inl bad ↦ absurd (none-some (rw (bad, key_of) at e))
  | inr (w', good) ↦ elim (Bool-cases ((v / 8) == 0)) [
    | inl no_tag ↦ absurd (none-some (rw (good, key_of, no_tag) at e))
    | inr tag ↦
        ap (λ (p : ℕ × WireType × List ℕ). length p.2)
          (some-injective _ _ (rw (good, key_of, tag) at e))
  ]
]

unfoldable pub read_key : List ℕ → Option (ℕ × WireType × List ℕ)
unfolding read_varint key_of
read_key bs = elim (read_varint bs) [ some (v, rest) ↦ key_of v rest | none ↦ none ]

unfoldable pub key_bytes : ℕ → WireType → List ℕ
unfolding varint_bytes wire_code
key_bytes n w = varint_bytes 9 (n * 8 + wire_code w)

wire_code-lt : (w : WireType) → wire_code w < 8
unfolding wire_code
wire_code-lt WireType.varint = omega arith
wire_code-lt WireType.sixty_four_bit = omega arith
wire_code-lt WireType.length_delimited = omega arith
wire_code-lt WireType.start_group = omega arith
wire_code-lt WireType.end_group = omega arith
wire_code-lt WireType.thirty_two_bit = omega arith

wire_of_code-wire_code : (w : WireType) → wire_of_code (wire_code w) ≡ some w
unfolding wire_of_code wire_code
wire_of_code-wire_code WireType.varint = refl
wire_of_code-wire_code WireType.sixty_four_bit = refl
wire_of_code-wire_code WireType.length_delimited = refl
wire_of_code-wire_code WireType.start_group = refl
wire_of_code-wire_code WireType.end_group = refl
wire_of_code-wire_code WireType.thirty_two_bit = refl

pub read_key-key_bytes :
    (n : ℕ) (w : WireType) (rest : List ℕ)
    → IsTag n
    → read_key (key_bytes n w ++ rest) ≡ some (n, w, rest)
unfolding read_key key_bytes key_of
read_key-key_bytes n w rest (positive, small) =
    let code = wire_code-lt w in
    let read = read_varint-varint_bytes 9 (n * 8 + wire_code w) rest (omega arith) in
    let low : (n * 8 + wire_code w) % 8 ≡ wire_code w = omega (arith, code) in
    let high : (n * 8 + wire_code w) / 8 ≡ n = omega (arith, code) in
    rw (read, read_key)
      (rw (low, key_of)
        (rw (wire_of_code-wire_code w, key_of) (rw high (rw (==_ne n 0 (omega arith))))))

pub read_key_shrinks :
    (bs : List ℕ) (n : ℕ) (w : WireType) (rest : List ℕ)
    → read_key bs ≡ some (n, w, rest)
    → length rest < length bs
unfolding read_key
read_key_shrinks bs n w rest e = elim (Option-cases (read_varint bs)) [
  | inl stop ↦ absurd (none-some (rw (stop, read_key) at e))
  | inr (got, more) ↦
      let left : length got.1 < length bs = read_varint_shrinks bs got.0 got.1 more in
      omega (arith, left, key_of-rest got.0 got.1 n w rest (rw (more, read_key) at e))
]
