-- ===== src/Base/Int.antt =====
-- Signed integers over the native numbers, and Rust's `as` casts between i32, i64, u32 and u64 with
-- their wrap-around written out. `bit_xor` against a mask of ones is complement.
use pact_protobuf_plugin.Base.Tests.{ltb, if◌then◌else◌, ◌==◌, ==_iff, ==_self}
use Prim.Native.Nat.{ℕ, zero, suc, ◌-◌, ◌%◌, ◌^◌, ◌<◌, bit_xor}
use mathlib.Core.Path.{◌≡◌, ap}
use mathlib.Core.Bool.{Bool, true, false}
use native.Mathlib.Omega.{arith}

-- `negsuc n` is -(n + 1).
pub data ℤ : Type 0 where
  pos : ℕ → ℤ
  negsuc : ℕ → ℤ

-- The values of an i32 and of an i64.
abbrev pub IsI32 : ℤ → Type 0
IsI32 (pos n) = n < 2 ^ 31
IsI32 (negsuc n) = n < 2 ^ 31

abbrev pub IsI64 : ℤ → Type 0
IsI64 (pos n) = n < 2 ^ 63
IsI64 (negsuc n) = n < 2 ^ 63

abbrev pub IsU32 : ℕ → Type 0
IsU32 n = n < 2 ^ 32

abbrev pub IsU64 : ℕ → Type 0
IsU64 n = n < 2 ^ 64

-- `n as i32` and `n as i64`: the low bits, read in two's complement.
unfoldable pub as_i32 : ℕ → ℤ
as_i32 n = if ltb (n % 2 ^ 32) (2 ^ 31) then pos (n % 2 ^ 32) else negsuc (2 ^ 32 - 1 - n % 2 ^ 32)

unfoldable pub as_i64 : ℕ → ℤ
as_i64 n = if ltb (n % 2 ^ 64) (2 ^ 63) then pos (n % 2 ^ 64) else negsuc (2 ^ 64 - 1 - n % 2 ^ 64)

-- `i as u32` and `i as u64`: the sign is extended, then the low bits are kept.
unfoldable pub as_u32 : ℤ → ℕ
as_u32 (pos n) = n % 2 ^ 32
as_u32 (negsuc n) = 2 ^ 32 - 1 - n % 2 ^ 32

unfoldable pub as_u64 : ℤ → ℕ
as_u64 (pos n) = n % 2 ^ 64
as_u64 (negsuc n) = 2 ^ 64 - 1 - n % 2 ^ 64

pub as_i64-as_u64 : (i : ℤ) → IsI64 i → as_i64 (as_u64 i) ≡ i
unfolding as_i64 as_u64
as_i64-as_u64 (pos n) h = ground arith
as_i64-as_u64 (negsuc n) h = ground arith

pub as_i32-as_u32 : (i : ℤ) → IsI32 i → as_i32 (as_u32 i) ≡ i
unfolding as_i32 as_u32
as_i32-as_u32 (pos n) h = ground arith
as_i32-as_u32 (negsuc n) h = ground arith

-- The sign extension to 64 bits is undone by the truncation to 32.
pub as_i32-as_u64 : (i : ℤ) → IsI32 i → as_i32 (as_u64 i) ≡ i
unfolding as_i32 as_u64
as_i32-as_u64 (pos n) h = ground arith
as_i32-as_u64 (negsuc n) h = ground arith

pub as_u64-lt : (i : ℤ) → as_u64 i < 2 ^ 64
unfolding as_u64
as_u64-lt (pos n) = omega arith
as_u64-lt (negsuc n) = omega arith

pub as_u32-lt : (i : ℤ) → as_u32 i < 2 ^ 32
unfolding as_u32
as_u32-lt (pos n) = omega arith
as_u32-lt (negsuc n) = omega arith

pub as_i32-IsI32 : (n : ℕ) → IsI32 (as_i32 n)
unfolding as_i32
as_i32-IsI32 n = ground arith

pub as_i64-IsI64 : (n : ℕ) → IsI64 (as_i64 n)
unfolding as_i64
as_i64-IsI64 n = ground arith

-- `-i`, where it does not overflow.
unfoldable pub neg : ℤ → ℤ
neg (pos zero) = pos zero
neg (pos (suc n)) = negsuc n
neg (negsuc n) = pos (suc n)

-- `a ^ b` on i32 and on i64.
unfoldable pub xor_i32 : ℤ → ℤ → ℤ
xor_i32 a b = as_i32 (bit_xor (as_u32 a) (as_u32 b))

unfoldable pub xor_i64 : ℤ → ℤ → ℤ
xor_i64 a b = as_i64 (bit_xor (as_u64 a) (as_u64 b))

abbrev pub int_eq : ℤ → ℤ → Bool
int_eq (pos m) (pos n) = m == n
int_eq (negsuc m) (negsuc n) = m == n
int_eq _ _ = false

pub int_eq→eq : (a b : ℤ) → int_eq a b ≡ true → a ≡ b
int_eq→eq (pos m) (pos n) h = ap pos ((==_iff m n).0 h)
int_eq→eq (negsuc m) (negsuc n) h = ap negsuc ((==_iff m n).0 h)
int_eq→eq (pos m) (negsuc n) h = cc
int_eq→eq (negsuc m) (pos n) h = cc

pub int_eq_self : (a : ℤ) → int_eq a a ≡ true
int_eq_self (pos n) = ==_self n
int_eq_self (negsuc n) = ==_self n
