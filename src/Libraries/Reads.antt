-- ===== src/Libraries/Reads.antt =====
-- What the readers of a buffer return on bytes that were written.
use pact_protobuf_plugin.Base.{
  ℕ, ◌+◌, ◌^◌, ◌<◌, ◌≡◌, some, List, ◌++◌, length, take, drop, take-append, drop-append,
  length-append, arith,
}
use pact_protobuf_plugin.Base.Bytes.{to_le_bytes, from_le_bytes-to_le_bytes, length-to_le_bytes}
use pact_protobuf_plugin.Libraries.{Libraries}
use mathlib.Core.Path.{subst}

pub take-append_of_length :
    {A : Type 0} (k : ℕ) (xs ys : List A) → length xs ≡ k → take k (xs ++ ys) ≡ xs
take-append_of_length k xs ys e = subst (λ j. take j (xs ++ ys) ≡ xs) e (take-append xs ys)

pub drop-append_of_length :
    {A : Type 0} (k : ℕ) (xs ys : List A) → length xs ≡ k → drop k (xs ++ ys) ≡ ys
drop-append_of_length k xs ys e = subst (λ j. drop j (xs ++ ys) ≡ ys) e (drop-append xs ys)

pub length-to_le_bytes-append :
    (k n : ℕ) (rest : List ℕ) → length (to_le_bytes k n ++ rest) ≡ k + length rest
length-to_le_bytes-append k n rest =
    omega (arith, length-append (to_le_bytes k n) rest, length-to_le_bytes k n)

module _ (libs : Libraries) where
  open libs use {get_le, get_le_enough, copy_to_bytes, copy_to_bytes_enough}

  pub get_le-to_le_bytes :
      (k n : ℕ) (rest : List ℕ) → n < 256 ^ k → get_le k (to_le_bytes k n ++ rest) ≡ some (n, rest)
  get_le-to_le_bytes k n rest h =
      rw
        (get_le_enough k (to_le_bytes k n ++ rest)
          (omega (arith, length-to_le_bytes-append k n rest)))
        (rw (
          take-append_of_length k (to_le_bytes k n) rest (length-to_le_bytes k n),
          drop-append_of_length k (to_le_bytes k n) rest (length-to_le_bytes k n),
          from_le_bytes-to_le_bytes k n h,
        ))

  pub copy_to_bytes-append : (xs ys : List ℕ) → copy_to_bytes (length xs) (xs ++ ys) ≡ some (xs, ys)
  copy_to_bytes-append xs ys =
      rw (copy_to_bytes_enough (length xs) (xs ++ ys) (omega (arith, length-append xs ys)))
        (rw (take-append xs ys, drop-append xs ys))
