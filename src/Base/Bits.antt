-- ===== src/Base/Bits.antt =====
-- Bits of machine words: the masks `x & (2^k - 1)`, the joins `lo | hi << k`, and single bits.
use Prim.Native.Nat.{
  ℕ, zero, suc, ◌+◌, ◌-◌, ◌*◌, ◌/◌, ◌%◌, ◌^◌, ◌≤◌, ◌<◌, min, max, bit_and, bit_or, digits, bitwise,
  bit_and-bitwise, bit_or-bitwise,
}
use mathlib.Core.Path.{◌≡◌, refl}
use mathlib.Core.Bool.{Bool}
use native.Mathlib.Omega.{arith}
use native.Mathlib.Nat.{
  le_refl, pow-suc, one-le-pow, mod-mod_of_dvd, dvd-mul_right, pow-le-pow_right,
}
use hvisor_tool.Base.Tests.{◌==◌}

-- `x & (1 << k)` as a test.
abbrev pub test_bit : ℕ → ℕ → Bool
test_bit x k = x / 2 ^ k % 2 == 1

module _ (z : ℕ → ℕ) (f : ℕ → ℕ → ℕ) where
  digits_enough : (n m a b : ℕ) → a ≤ n → a ≤ m → digits z f n a b ≡ digits z f m a b
  digits_enough zero zero a b p q = refl
  digits_enough zero (suc m) zero b p q = refl
  digits_enough zero (suc m) (suc a) b p q = absurd (omega arith)
  digits_enough (suc n) zero zero b p q = refl
  digits_enough (suc n) zero (suc a) b p q = absurd (omega arith)
  digits_enough (suc n) (suc m) zero b p q = refl
  digits_enough (suc n) (suc m) (suc a) b p q =
      rw (digits_enough n m (suc a / 2) (b / 2) (omega arith) (omega arith))

  bitwise_low :
      (a b : ℕ)
      → bitwise z f (suc a) b ≡ bitwise z f (suc a / 2) (b / 2) * 2 + f (suc a % 2) (b % 2)
  bitwise_low a b =
      omega (arith, digits_enough a (suc a / 2) (suc a / 2) (b / 2) (omega arith) (le_refl _))

bit_and_low : (a b : ℕ) → bit_and a b ≡ bit_and (a / 2) (b / 2) * 2 + min (a % 2) (b % 2)
bit_and_low zero b = simp bit_and-bitwise (omega arith)
bit_and_low (suc a) b = simp bit_and-bitwise (bitwise_low (λ y. 0) min a b)

bit_or_low : (a b : ℕ) → bit_or a b ≡ bit_or (a / 2) (b / 2) * 2 + max (a % 2) (b % 2)
bit_or_low zero b = simp bit_or-bitwise (omega arith)
bit_or_low (suc a) b = simp bit_or-bitwise (bitwise_low (λ y. y) max a b)

mod_double : (x m : ℕ) → 0 < m → x % (m * 2) ≡ x / 2 % m * 2 + x % 2
mod_double x m h = grind arith

mask_low : (m : ℕ) → 0 < m → ((m * 2 - 1) / 2 ≡ m - 1) × ((m * 2 - 1) % 2 ≡ 1)
mask_low m h = omega arith

bit_and-zero_below : (n a : ℕ) → a ≤ n → bit_and a 0 ≡ 0
bit_and-zero_below n zero h = refl
bit_and-zero_below zero (suc a) h = absurd (omega arith)
bit_and-zero_below (suc n) (suc a) h =
    omega (arith, bit_and_low (suc a) 0, bit_and-zero_below n (suc a / 2) (omega arith))

bit_and_mask_step :
    (m x : ℕ) → 0 < m → bit_and (x / 2) (m - 1) ≡ x / 2 % m → bit_and x (m * 2 - 1) ≡ x % (m * 2)
bit_and_mask_step m x h ih =
    rw (bit_and_low x (m * 2 - 1), (mask_low m h).0, (mask_low m h).1, ih, mod_double x m h)
      (omega arith)

-- A mask of k ones is a remainder.
pub bit_and_mask : (k x : ℕ) → bit_and x (2 ^ k - 1) ≡ x % 2 ^ k
bit_and_mask zero x = omega (arith, bit_and-zero_below x x (le_refl x))
bit_and_mask (suc k) x =
    rw pow-suc (bit_and_mask_step (2 ^ k) x (one-le-pow k 2 (omega arith)) (bit_and_mask k (x / 2)))

double_shift : (b m : ℕ) → (b * (m * 2) / 2 ≡ b * m) × (b * (m * 2) % 2 ≡ 0)
double_shift b m = (omega arith, omega arith)

pub bit_or_zero : (b : ℕ) → bit_or 0 b ≡ b
bit_or_zero b = bit_or-bitwise 0 b

bit_or_shift_step :
    (m a b : ℕ) → bit_or (a / 2) (b * m) ≡ a / 2 + b * m → bit_or a (b * (m * 2)) ≡ a + b * (m * 2)
bit_or_shift_step m a b ih =
    rw (bit_or_low a (b * (m * 2)), (double_shift b m).0, (double_shift b m).1, ih) (omega arith)

-- A field above k bits does not meet what lies below them.
pub bit_or_shift : (k a b : ℕ) → a < 2 ^ k → bit_or a (b * 2 ^ k) ≡ a + b * 2 ^ k
bit_or_shift zero a b h = let e : a ≡ 0 = omega arith in rw (e, bit_or_zero) (omega arith)
bit_or_shift (suc k) a b h =
    rw pow-suc (
      bit_or_shift_step (2 ^ k) a b
        (bit_or_shift k (a / 2) b (half_lt (2 ^ k) a (rw pow-suc at h))))
  where
    half_lt : (m a : ℕ) → a < m * 2 → a / 2 < m
    half_lt m a h = omega arith

pow2_split : (k j n : ℕ) → k + j ≡ n → 2 ^ k * 2 ^ j ≡ 2 ^ n
pow2_split k zero n h = let e : n ≡ k = omega arith in rw e (omega arith)
pow2_split k (suc j) zero h = absurd (omega arith)
pow2_split k (suc j) (suc n) h =
    rw (pow-suc 2 j, pow-suc 2 n) (omega (arith, pow2_split k j n (omega arith)))

-- The low k bits of the low n bits are the low k bits.
pub mod-mod_pow2 : (x k n : ℕ) → k ≤ n → x % 2 ^ n % 2 ^ k ≡ x % 2 ^ k
mod-mod_pow2 x k n h =
    rw (← pow2_split k (n - k) n (omega arith))
      (mod-mod_of_dvd (2 ^ k) x (dvd-mul_right (2 ^ k) (2 ^ (n - k))))

pub pow2_bounds : (k n : ℕ) → k ≤ n → (1 ≤ 2 ^ k) × (2 ^ k ≤ 2 ^ n)
pow2_bounds k n h = (one-le-pow k 2 (omega arith), pow-le-pow_right (omega arith) h)

-- Setting the lowest bit.
pub bit_or_one : (x : ℕ) → bit_or x 1 % 2 ≡ 1
bit_or_one x = omega (arith, bit_or_low x 1)
