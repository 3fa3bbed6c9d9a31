-- ===== src/Prelude/Bits.antt =====
-- Bit operations with the masks and shifts that the code uses, as arithmetic.
use Prim.Native.Nat.{
  ℕ, zero, suc, ◌+◌, ◌-◌, ◌*◌, ◌/◌, ◌%◌, ◌^◌, ◌≤◌, ◌<◌, min, max, differ, digits, bit_and, bit_or,
  bit_xor, bit_and-bitwise, bit_or-bitwise, bit_xor-bitwise,
}
use mathlib.Core.Path.{◌≡◌, refl, ap}
use mathlib.Core.Bool.{Bool, true, ◌&&◌}
use dataform.Prelude.Tests.{nat_eq}
use native.Mathlib.Omega.{arith}
use native.Mathlib.Nat.{pow-suc}

module _ (last : ℕ → ℕ) (f : ℕ → ℕ → ℕ) where
  -- Any count of digits that is enough gives the same.
  digits_enough : (a b n m : ℕ) → (a ≤ n) × (a ≤ m) → digits last f n a b ≡ digits last f m a b
  digits_enough a b zero zero h = refl
  digits_enough zero b zero (suc m) h = refl
  digits_enough zero b (suc n) zero h = refl
  digits_enough zero b (suc n) (suc m) h = refl
  digits_enough (suc a) b zero (suc m) h = absurd (omega arith)
  digits_enough (suc a) b (suc n) zero h = absurd (omega arith)
  digits_enough (suc a) b (suc n) (suc m) h =
      ap (λ (t : ℕ). t * 2 + f (suc a % 2) (b % 2))
        (digits_enough (suc a / 2) (b / 2) n m (omega arith))

  -- The lowest digit, and the others.
  lowest_digit :
      (a b : ℕ)
      → digits last f (suc a) (suc a) b
        ≡ digits last f (suc a / 2) (suc a / 2) (b / 2) * 2 + f (suc a % 2) (b % 2)
  lowest_digit a b =
      ap (λ (t : ℕ). t * 2 + f (suc a % 2) (b % 2))
        (digits_enough (suc a / 2) (b / 2) a (suc a / 2) (omega arith))

pub bit_and_halves : (a b : ℕ) → bit_and a b ≡ bit_and (a / 2) (b / 2) * 2 + min (a % 2) (b % 2)
bit_and_halves zero b = simp bit_and-bitwise (omega arith)
bit_and_halves (suc a) b = simp bit_and-bitwise (lowest_digit (λ y. 0) min a b)

pub bit_or_halves : (a b : ℕ) → bit_or a b ≡ bit_or (a / 2) (b / 2) * 2 + max (a % 2) (b % 2)
bit_or_halves zero b = simp bit_or-bitwise (omega arith)
bit_or_halves (suc a) b = simp bit_or-bitwise (lowest_digit (λ y. y) max a b)

pub bit_xor_halves : (a b : ℕ) → bit_xor a b ≡ bit_xor (a / 2) (b / 2) * 2 + differ (a % 2) (b % 2)
bit_xor_halves zero b = simp bit_xor-bitwise (omega arith)
bit_xor_halves (suc a) b = simp bit_xor-bitwise (lowest_digit (λ y. y) differ a b)

bit_and-nothing_fuel : (n a : ℕ) → a ≤ n → bit_and a 0 ≡ 0
bit_and-nothing_fuel n zero h = refl
bit_and-nothing_fuel zero (suc a) h = absurd (omega arith)
bit_and-nothing_fuel (suc n) (suc a) h =
    omega (arith, bit_and_halves (suc a) 0, bit_and-nothing_fuel n (suc a / 2) (omega arith))

bit_or-nothing_fuel : (n a : ℕ) → a ≤ n → bit_or a 0 ≡ a
bit_or-nothing_fuel n zero h = refl
bit_or-nothing_fuel zero (suc a) h = absurd (omega arith)
bit_or-nothing_fuel (suc n) (suc a) h =
    omega (arith, bit_or_halves (suc a) 0, bit_or-nothing_fuel n (suc a / 2) (omega arith))

differ_zero : (d : ℕ) → differ d 0 ≡ d
differ_zero zero = refl
differ_zero (suc d) = refl

differ_one : (d : ℕ) → d < 2 → differ d 1 ≡ 1 - d
differ_one zero h = refl
differ_one (suc zero) h = refl
differ_one (suc (suc d)) h = absurd (omega arith)

bit_xor-nothing_fuel : (n a : ℕ) → a ≤ n → bit_xor a 0 ≡ a
bit_xor-nothing_fuel n zero h = refl
bit_xor-nothing_fuel zero (suc a) h = absurd (omega arith)
bit_xor-nothing_fuel (suc n) (suc a) h = omega (
  arith,
  bit_xor_halves (suc a) 0,
  differ_zero (suc a % 2),
  bit_xor-nothing_fuel n (suc a / 2) (omega arith),
)

pub bit_xor-nothing : (a : ℕ) → bit_xor a 0 ≡ a
bit_xor-nothing a = bit_xor-nothing_fuel a a (omega arith)

-- `a & mask` for the masks in use.
pub bit_and_one : (a : ℕ) → bit_and a 1 ≡ a % 2
bit_and_one a = omega (arith, bit_and_halves a 1, bit_and-nothing_fuel (a / 2) (a / 2))

pub bit_and_seven : (a : ℕ) → bit_and a 7 ≡ a % 8
bit_and_seven a =
    omega (arith, bit_and_halves a 7, bit_and_halves (a / 2) 3, bit_and_one (a / 2 / 2))

bit_and_31 : (a : ℕ) → bit_and a 31 ≡ a % 32
bit_and_31 a =
    omega (arith, bit_and_halves a 31, bit_and_halves (a / 2) 15, bit_and_seven (a / 2 / 2))

pub bit_and_127 : (a : ℕ) → bit_and a 127 ≡ a % 128
bit_and_127 a =
    omega (arith, bit_and_halves a 127, bit_and_halves (a / 2) 63, bit_and_31 (a / 2 / 2))

-- Every number below the bound passes the test.
passes_below : ℕ → (ℕ → Bool) → Bool
passes_below zero test = true
passes_below (suc n) test = test n && passes_below n test

passes_at : (test : ℕ → Bool) (n : ℕ) → passes_below n test ≡ true → (x : ℕ) → x < n → test x ≡ true
unfolding passes_below
passes_at test zero h x lt = absurd (omega arith)
passes_at test (suc n) h x lt = ground (arith, passes_at test n (ground arith) x)

-- The top bit of a byte.
pub bit_and_128 : (b : ℕ) → b < 256 → bit_and b 128 ≡ b / 128 * 128
unfolding passes_below
bit_and_128 b h =
    let e = passes_at (λ y. nat_eq (bit_and y 128) (y / 128 * 128)) 256 refl b h in ground arith

-- A byte with its top bit set.
pub bit_or_128 : (x : ℕ) → x < 128 → bit_or x 128 ≡ x + 128
unfolding passes_below
bit_or_128 x h =
    let e = passes_at (λ y. nat_eq (bit_or y 128) (y + 128)) 128 refl x h in ground arith

-- `a | b` of numbers whose bits do not meet.
pub bit_or_fields : (k a b : ℕ) → b < 2 ^ k → bit_or (a * 2 ^ k) b ≡ a * 2 ^ k + b
bit_or_fields zero a b h = ground (arith, bit_or-nothing_fuel a a (omega arith))
bit_or_fields (suc k) a b h = ground (
  arith,
  pow-suc 2 k,
  ap (λ (t : ℕ). a * t) (pow-suc 2 k),
  bit_or_halves (a * 2 ^ suc k) b,
  bit_or_fields k a (b / 2) (omega (arith, pow-suc 2 k)),
)

-- `a ^ ones` is the complement.
pub bit_xor_ones : (k a : ℕ) → a < 2 ^ k → bit_xor a (2 ^ k - 1) ≡ 2 ^ k - 1 - a
bit_xor_ones zero a h = rw bit_xor-nothing (omega arith)
bit_xor_ones (suc k) a h = ground (
  arith,
  pow-suc 2 k,
  bit_xor_halves a (2 ^ suc k - 1),
  bit_xor_ones k (a / 2) (omega (arith, pow-suc 2 k)),
  differ_one (a % 2) (omega arith),
)
