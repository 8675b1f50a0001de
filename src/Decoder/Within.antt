-- ===== src/Decoder/Within.antt =====
-- Readers: a call that returns the bytes it leaves, and never more than it was given.
use pact_protobuf_plugin.Base.{
  ℕ, ◌-◌, ◌≤◌, refl, inl, inr, List, length, leb, leb→le, length-drop, Option-cases, Bool-cases,
  arith, not_leb→lt,
}
use pact_protobuf_plugin.Outcome.{
  Outcome, Error, ok, err, panic, out_of_fuel, ◌>>=◌, ok_or, or_panic, Ends,
}
use pact_protobuf_plugin.Libraries.{Libraries}

-- The call comes to an end, and a value it returns comes with at most `n` bytes left.
abbrev pub Within {ℓ} : {A : Type ℓ} → ℕ → Outcome (A × List ℕ) → Type 0
Within n (ok (a, rest)) = length rest ≤ n
Within n out_of_fuel = ⊥
Within n _ = Unit {0}

module _ {ℓ κ} {A : Type ℓ} {B : Type κ} where
  pub >>=-Within :
      (n : ℕ) (m : Outcome (A × List ℕ)) (f : A × List ℕ → Outcome (B × List ℕ))
      → Within n m
      → ((a : A) (rest : List ℕ) → length rest ≤ n → Within n (f (a, rest)))
      → Within n (m >>= f)
  >>=-Within n (ok (a, rest)) f h k = k a rest h
  >>=-Within n (err e) f h k = tt
  >>=-Within n panic f h k = tt
  >>=-Within n out_of_fuel f h k = absurd h

module _ {ℓ κ} {A : Type ℓ} {B : Type κ} where
  pub >>=-Ends-Within :
      (n : ℕ) (m : Outcome (A × List ℕ)) (f : A × List ℕ → Outcome B)
      → Within n m
      → ((a : A) (rest : List ℕ) → length rest ≤ n → Ends (f (a, rest)))
      → Ends (m >>= f)
  >>=-Ends-Within n (ok (a, rest)) f h k = k a rest h
  >>=-Ends-Within n (err e) f h k = λ q. cc
  >>=-Ends-Within n panic f h k = λ q. cc
  >>=-Ends-Within n out_of_fuel f h k = absurd h

  pub >>=-Within-Ends :
      (n : ℕ) (m : Outcome A) (f : A → Outcome (B × List ℕ))
      → Ends m
      → ((a : A) → Within n (f a))
      → Within n (m >>= f)
  >>=-Within-Ends n (ok a) f h k = k a
  >>=-Within-Ends n (err e) f h k = tt
  >>=-Within-Ends n panic f h k = tt
  >>=-Within-Ends n out_of_fuel f h k = absurd (h refl)

-- A smaller bound is a bound.
pub Within-mono {ℓ} :
    {A : Type ℓ} (k n : ℕ) (m : Outcome (A × List ℕ)) → k ≤ n → Within k m → Within n m
Within-mono k n (ok (a, rest)) h w = omega arith
Within-mono k n (err e) h w = tt
Within-mono k n panic h w = tt
Within-mono k n out_of_fuel h w = w

module _ (libs : Libraries) where
  open libs use {
    decode_varint, decode_varint_shrinks, get_le, get_le_enough, get_le_short, get_be,
    get_be_enough, get_be_short, copy_to_bytes, copy_to_bytes_enough, copy_to_bytes_short,
  }

  pub decode_varint-Within :
      (bs : List ℕ) (e : Error) → Within (length bs - 1) (ok_or (decode_varint bs) e)
  decode_varint-Within bs e = elim (Option-cases (decode_varint bs)) [
    | inl stop ↦ rw stop tt
    | inr ((n, rest), more) ↦ rw more (omega (arith, decode_varint_shrinks bs n rest more))
  ]

  pub get_le-Within : (k : ℕ) (bs : List ℕ) → Within (length bs - k) (or_panic (get_le k bs))
  get_le-Within k bs = elim (Bool-cases (leb k (length bs))) [
    | inl enough ↦ rw (get_le_enough k bs (leb→le _ _ enough)) (omega (arith, length-drop k bs))
    | inr short ↦ rw (get_le_short k bs (not_leb→lt _ _ short)) tt
  ]

  pub get_be-Within : (k : ℕ) (bs : List ℕ) → Within (length bs - k) (or_panic (get_be k bs))
  get_be-Within k bs = elim (Bool-cases (leb k (length bs))) [
    | inl enough ↦ rw (get_be_enough k bs (leb→le _ _ enough)) (omega (arith, length-drop k bs))
    | inr short ↦ rw (get_be_short k bs (not_leb→lt _ _ short)) tt
  ]

  pub copy_to_bytes-Within :
      (k : ℕ) (bs : List ℕ) → Within (length bs) (or_panic (copy_to_bytes k bs))
  copy_to_bytes-Within k bs = elim (Bool-cases (leb k (length bs))) [
    | inl enough ↦
        rw (copy_to_bytes_enough k bs (leb→le _ _ enough)) (omega (arith, length-drop k bs))
    | inr short ↦ rw (copy_to_bytes_short k bs (not_leb→lt _ _ short)) tt
  ]
