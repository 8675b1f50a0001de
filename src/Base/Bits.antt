-- ===== src/Base/Bits.antt =====
-- `bit_xor` with no bits and with a mask of ones, from the digit recursion it stands for.
use Prim.Native.Nat.{
  ℕ, zero, suc, ◌+◌, ◌-◌, ◌*◌, ◌/◌, ◌%◌, ◌^◌, ◌≤◌, ◌<◌, bit_xor, bit_xor-bitwise, digits, differ,
  bit_and, bit_and-bitwise, min,
}
use mathlib.Core.Path.{◌≡◌, refl, ap}
use native.Mathlib.Nat.{pow-suc}
use native.Mathlib.Omega.{arith}

-- The digit recursion of any of the operations gives one result for all counts that are enough.
module _ (rest : ℕ → ℕ) (digit : ℕ → ℕ → ℕ) where
  digits_enough :
      (count other a b : ℕ)
      → (a ≤ count) × (a ≤ other)
      → digits rest digit count a b ≡ digits rest digit other a b
  digits_enough zero zero a b h = refl
  digits_enough zero (suc other) zero b h = refl
  digits_enough (suc count) zero zero b h = refl
  digits_enough (suc count) (suc other) zero b h = refl
  digits_enough zero (suc other) (suc a) b h = absurd (omega arith)
  digits_enough (suc count) zero (suc a) b h = absurd (omega arith)
  digits_enough (suc count) (suc other) (suc a) b h =
      ap (λ (high : ℕ). high * 2 + digit (suc a % 2) (b % 2))
        (digits_enough count other (suc a / 2) (b / 2) (omega arith))

-- Nothing xor `b` is `b`.
pub zero-bit_xor : (b : ℕ) → bit_xor 0 b ≡ b
zero-bit_xor b = bit_xor-bitwise 0 b

-- The law for the lowest digit.
bit_xor_step : (a b : ℕ) → bit_xor a b ≡ bit_xor (a / 2) (b / 2) * 2 + differ (a % 2) (b % 2)
bit_xor_step zero b = omega (arith, zero-bit_xor b, zero-bit_xor (b / 2))
bit_xor_step (suc a) b = omega (
  arith,
  bit_xor-bitwise (suc a) b,
  bit_xor-bitwise (suc a / 2) (b / 2),
  digits_enough (λ b. b) differ a (suc a / 2) (suc a / 2) (b / 2) (omega arith),
)

differ-zero : (d : ℕ) → differ d 0 ≡ d
differ-zero zero = refl
differ-zero (suc d) = refl

differ-one : (d : ℕ) → d < 2 → differ d 1 ≡ 1 - d
differ-one zero h = refl
differ-one (suc zero) h = refl
differ-one (suc (suc d)) h = absurd (omega arith)

bit_xor-zero_fuel : (n a : ℕ) → a ≤ n → bit_xor a 0 ≡ a
bit_xor-zero_fuel n zero h = refl
bit_xor-zero_fuel zero (suc a) h = absurd (omega arith)
bit_xor-zero_fuel (suc n) (suc a) h = omega (
  arith,
  bit_xor_step (suc a) 0,
  differ-zero (suc a % 2),
  bit_xor-zero_fuel n (suc a / 2) (omega arith),
)

-- Xor with no bits changes nothing.
pub bit_xor-zero : (a : ℕ) → bit_xor a 0 ≡ a
bit_xor-zero a = bit_xor-zero_fuel a a (omega arith)

pow_two_pos : (k : ℕ) → 0 < 2 ^ k
pow_two_pos zero = omega arith
pow_two_pos (suc k) = omega (arith, pow_two_pos k, pow-suc 2 k)

-- Xor with a mask of `k` ones is complement below 2 ^ k.
pub bit_xor-ones : (k x : ℕ) → x < 2 ^ k → bit_xor x (2 ^ k - 1) ≡ 2 ^ k - 1 - x
bit_xor-ones zero x h = omega (arith, bit_xor-zero x)
bit_xor-ones (suc k) x h = omega (
  arith,
  pow-suc 2 k,
  pow_two_pos k,
  half_mask,
  odd_mask,
  rw odd_mask at (rw half_mask at (bit_xor_step x (2 ^ suc k - 1))),
  differ-one (x % 2) (omega arith),
  bit_xor-ones k (x / 2) (omega (arith, pow-suc 2 k)),
)
  where
    half_mask : (2 ^ suc k - 1) / 2 ≡ 2 ^ k - 1
    half_mask = omega (arith, pow-suc 2 k, pow_two_pos k)

    odd_mask : (2 ^ suc k - 1) % 2 ≡ 1
    odd_mask = omega (arith, pow-suc 2 k, pow_two_pos k)

-- `a & 1` is the lowest bit: digit by digit, and then with no mask left.
low_digit : (a b : ℕ) → bit_and a b ≡ bit_and (a / 2) (b / 2) * 2 + min (a % 2) (b % 2)
low_digit zero b = omega (arith, bit_and-bitwise 0 b, bit_and-bitwise 0 (b / 2))
low_digit (suc a) b = omega (
  arith,
  bit_and-bitwise (suc a) b,
  bit_and-bitwise (suc a / 2) (b / 2),
  digits_enough (λ b. zero) min a (suc a / 2) (suc a / 2) (b / 2) (omega arith),
)

no_mask : (bound a : ℕ) → a ≤ bound → bit_and a 0 ≡ 0
no_mask bound zero h = refl
no_mask zero (suc a) h = absurd (omega arith)
no_mask (suc bound) (suc a) h =
    omega (arith, low_digit (suc a) 0, no_mask bound (suc a / 2) (omega arith))

pub bit_and-one : (a : ℕ) → bit_and a 1 ≡ a % 2
bit_and-one a = omega (arith, low_digit a 1, no_mask (a / 2) (a / 2) (omega arith))
