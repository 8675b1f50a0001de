-- ===== src/Decoder/Zigzag.antt =====
-- The zigzag decoding of sint32 and sint64, against the encoding that the protobuf format defines.
use pact_protobuf_plugin.Base.{ℕ, ◌+◌, ◌*◌, ◌/◌, ◌^◌, ◌<◌, ◌≡◌, arith}
use Prim.Native.Nat.{bit_and}
use pact_protobuf_plugin.Base.Int.{
  ℤ, pos, negsuc, as_i32, as_i64, as_u32, as_u64, neg, xor_i32, xor_i64, IsI32, IsI64,
}
use pact_protobuf_plugin.Base.Bits.{bit_xor-zero, bit_xor-ones, bit_and-one}
use pact_protobuf_plugin.Decoder.{zigzag_32, zigzag_64}

-- Zigzag encoding: 0, -1, 1, -2, 2, … become 0, 1, 2, 3, 4, ….
unfoldable pub encode_zigzag : ℤ → ℕ
encode_zigzag (pos n) = 2 * n
encode_zigzag (negsuc n) = 2 * n + 1

-- A number whose lowest bit is clear is decoded to its half.
pub even_64 : (v n : ℕ) → v / 2 ≡ n → bit_and v 1 ≡ 0 → n < 2 ^ 63 → zigzag_64 v ≡ pos n
unfolding zigzag_64 xor_i64 neg as_i64 as_u64
even_64 v n half bit h =
    rw (half, bit) (ground (arith, bit_xor-zero (as_u64 (as_i64 n)), bit_xor-zero n))

-- One whose lowest bit is set, to the complement of its half.
pub odd_64 : (v n : ℕ) → v / 2 ≡ n → bit_and v 1 ≡ 1 → n < 2 ^ 63 → zigzag_64 v ≡ negsuc n
unfolding zigzag_64 xor_i64 neg as_i64 as_u64
odd_64 v n half bit h = rw (half, bit) (ground (arith, bit_xor-ones 64 n))

pub even_32 : (v n : ℕ) → v / 2 ≡ n → bit_and v 1 ≡ 0 → n < 2 ^ 31 → zigzag_32 v ≡ pos n
unfolding zigzag_32 xor_i32 neg as_i32 as_u32
even_32 v n half bit h = rw (half, bit) (ground (arith, bit_xor-zero n))

pub odd_32 : (v n : ℕ) → v / 2 ≡ n → bit_and v 1 ≡ 1 → n < 2 ^ 31 → zigzag_32 v ≡ negsuc n
unfolding zigzag_32 xor_i32 neg as_i32 as_u32
odd_32 v n half bit h = rw (half, bit) (ground (arith, bit_xor-ones 32 n))

-- The sint64 decoder returns every 64-bit number from its zigzag encoding.
pub zigzag_64-encode_zigzag : (i : ℤ) → IsI64 i → zigzag_64 (encode_zigzag i) ≡ i
unfolding encode_zigzag
zigzag_64-encode_zigzag (pos n) h =
    even_64 (2 * n) n (omega arith) (omega (arith, bit_and-one (2 * n))) h
zigzag_64-encode_zigzag (negsuc n) h =
    odd_64 (2 * n + 1) n (omega arith) (omega (arith, bit_and-one (2 * n + 1))) h

-- The sint32 decoder returns every 32-bit number from its zigzag encoding.
pub zigzag_32-encode_zigzag : (i : ℤ) → IsI32 i → zigzag_32 (encode_zigzag i) ≡ i
unfolding encode_zigzag
zigzag_32-encode_zigzag (pos n) h =
    even_32 (2 * n) n (omega arith) (omega (arith, bit_and-one (2 * n))) h
zigzag_32-encode_zigzag (negsuc n) h =
    odd_32 (2 * n + 1) n (omega arith) (omega (arith, bit_and-one (2 * n + 1))) h
