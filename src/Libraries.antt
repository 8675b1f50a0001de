-- ===== src/Libraries.antt =====
-- The library functions that the codec calls and that are not in the repository: prost's varints and
-- keys, the buffers of the bytes crate, and itertools. Each law is the documented behaviour.
pub mod Reads
pub mod Sort
use pact_protobuf_plugin.Base.{
  ℕ, ◌<◌, ◌≤◌, ◌^◌, ◌≡◌, Option, none, some, List, [], ◌∷◌, ◌++◌, length, take, drop, filter, ◌==◌,
  map, flat_map, All, ◌≢◌,
}
use pact_protobuf_plugin.Base.Int.{IsU64}
use pact_protobuf_plugin.Base.Bytes.{to_le_bytes, from_le_bytes}
use pact_protobuf_plugin.ProstTypes.{WireType}
use mathlib.Core.List.{reverse}

-- The elements with the key `k`, in their order.
abbrev pub with_key {ℓ} : {A : Type ℓ} → (A → ℕ) → ℕ → List A → List A
with_key key k xs = filter (λ x. key x == k) xs

-- No element has a smaller key than the one before it.
abbrev pub IsSorted : {A : Type 0} → (A → ℕ) → List A → Type 0
IsSorted key [] = Unit {0}
IsSorted key (x ∷ []) = Unit {0}
IsSorted key (x ∷ y ∷ ys) = (key x ≤ key y) × IsSorted key (y ∷ ys)

-- Field numbers run from 1 to 2 ^ 29 - 1.
abbrev pub IsTag : ℕ → Type 0
IsTag n = (1 ≤ n) × (n < 2 ^ 29)

-- No number occurs twice.
abbrev pub IsDistinct : List ℕ → Type 0
IsDistinct [] = Unit {0}
IsDistinct (x ∷ xs) = All (λ y. y ≢ x) xs × IsDistinct xs

pub record Libraries : Type 1 where
  -- prost::encoding. `none` is a decoding error; a function that reads returns the bytes left.
  pub encode_varint : ℕ → List ℕ
  pub decode_varint : List ℕ → Option (ℕ × List ℕ)
  pub encode_key : ℕ → WireType → List ℕ
  pub decode_key : List ℕ → Option (ℕ × WireType × List ℕ)
  pub decode_varint-encode_varint :
      (n : ℕ) (rest : List ℕ) → IsU64 n → decode_varint (encode_varint n ++ rest) ≡ some (n, rest)
  pub decode_key-encode_key :
      (n : ℕ) (w : WireType) (rest : List ℕ)
      → IsTag n
      → decode_key (encode_key n w ++ rest) ≡ some (n, w, rest)
  pub decode_varint_shrinks :
      (bs : List ℕ) (n : ℕ) (rest : List ℕ)
      → decode_varint bs ≡ some (n, rest)
      → length rest < length bs
  pub decode_key_shrinks :
      (bs : List ℕ) (n : ℕ) (w : WireType) (rest : List ℕ)
      → decode_key bs ≡ some (n, w, rest)
      → length rest < length bs
  -- bytes::Buf and BufMut, for numbers of `k` bytes: `none` is the panic on a short buffer.
  pub get_le : ℕ → List ℕ → Option (ℕ × List ℕ)
  pub get_be : ℕ → List ℕ → Option (ℕ × List ℕ)
  pub put_le : ℕ → ℕ → List ℕ
  pub copy_to_bytes : ℕ → List ℕ → Option (List ℕ × List ℕ)
  pub get_le_enough :
      (k : ℕ) (bs : List ℕ)
      → k ≤ length bs
      → get_le k bs ≡ some (from_le_bytes (take k bs), drop k bs)
  pub get_le_short : (k : ℕ) (bs : List ℕ) → length bs < k → get_le k bs ≡ none
  pub get_be_enough :
      (k : ℕ) (bs : List ℕ)
      → k ≤ length bs
      → get_be k bs ≡ some (from_le_bytes (reverse (take k bs)), drop k bs)
  pub get_be_short : (k : ℕ) (bs : List ℕ) → length bs < k → get_be k bs ≡ none
  pub put_le_lem : (k n : ℕ) → put_le k n ≡ to_le_bytes k n
  pub copy_to_bytes_enough :
      (k : ℕ) (bs : List ℕ) → k ≤ length bs → copy_to_bytes k bs ≡ some (take k bs, drop k bs)
  pub copy_to_bytes_short : (k : ℕ) (bs : List ℕ) → length bs < k → copy_to_bytes k bs ≡ none
  -- itertools::sorted_by with a comparison of keys: a stable sort.
  pub sorted_by : (A : Type 0) → (A → ℕ) → List A → List A
  pub sorted_by-IsSorted :
      (A : Type 0) (key : A → ℕ) (xs : List A) → IsSorted key (sorted_by A key xs)
  pub with_key-sorted_by :
      (A : Type 0) (key : A → ℕ) (xs : List A) (k : ℕ)
      → with_key key k (sorted_by A key xs) ≡ with_key key k xs
  -- itertools::into_group_map: a HashMap from each key to its values, in some order of the keys. The
  -- group of a key has no other values, and a value at least.
  pub into_group_map : (A : Type 0) → List (ℕ × A) → List (ℕ × List A)
  pub into_group_map_keys :
      (A : Type 0) (xs : List (ℕ × A))
      → IsDistinct (map (λ (g : ℕ × List A). g.0) (into_group_map A xs))
  pub into_group_map_nonempty :
      (A : Type 0) (xs : List (ℕ × A)) → All (λ (g : ℕ × List A). g.1 ≢ []) (into_group_map A xs)
  pub into_group_map_values :
      (A : Type 0) (xs : List (ℕ × A)) (k : ℕ)
      → flat_map (λ (g : ℕ × List A). g.1) (with_key (λ g. g.0) k (into_group_map A xs))
        ≡ map (λ (p : ℕ × A). p.1) (with_key (λ p. p.0) k xs)
