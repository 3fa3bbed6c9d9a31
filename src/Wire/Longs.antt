-- ===== src/Wire/Longs.antt =====
-- What protoc-gen-ts/runtime/serialize.ts uses of the package long, with what that package's
-- documentation says of it. A Long has 64 bits, read as signed or unsigned.
use Prim.Native.Nat.{bit_and, bit_or, bit_xor}
use dataform.Prelude.{
  ℕ, ◌+◌, ◌-◌, ◌*◌, ◌/◌, ◌%◌, ◌^◌, ◌<◌, ◌≡◌, Bool, true, false, ◌&&◌, List, [], ◌∷◌, if◌then◌else◌,
  ltb, nat_eq, All,
}
use dataform.Prelude.Int.{ℤ, wrap64, signed64, IsSafe}

pub record Long : Type 0 where
  pub bits : ℕ
  pub unsigned : Bool

abbrev pub IsLong : Long → Type 0
IsLong v = v.bits < 2 ^ 64

-- `Long.ZERO` and `Long.ONE`
abbrev pub zero_long : Long
zero_long = record { bits = 0; unsigned = false }

abbrev pub one_long : Long
one_long = record { bits = 1; unsigned = false }

-- The number that bytes stand for, the lowest first.
abbrev pub little_endian : List ℕ → ℕ
little_endian [] = 0
little_endian (b ∷ bytes) = b + 256 * little_endian bytes

-- A number in `or` and `and` is below 2 ^ 31, so that it is the Long of the same bits.
pub record Longs : Type 0 where
  pub is_zero : Long → Bool
  pub greater_than_zero : Long → Bool
  pub get_low_bits : Long → ℕ
  pub get_high_bits : Long → ℕ
  pub shift_left : Long → ℕ → Long
  pub shift_right : Long → ℕ → Long
  pub shift_right_unsigned : Long → ℕ → Long
  pub or : Long → ℕ → Long
  pub and : Long → ℕ → Long
  pub xor : Long → Long → Long
  pub negate : Long → Long
  pub from_number : ℤ → Long
  pub to_number : Long → ℤ
  pub to_unsigned : Long → Long
  pub from_bytes_le : List ℕ → Bool → Long
  pub is_zero_law : (v : Long) → is_zero v ≡ nat_eq v.bits 0
  pub greater_than_zero_law :
      (v : Long)
      → greater_than_zero v ≡ (ltb 0 v.bits && (if v.unsigned then true else ltb v.bits (2 ^ 63)))
  pub get_low_bits_law : (v : Long) → get_low_bits v ≡ v.bits % 2 ^ 32
  pub get_high_bits_law : (v : Long) → get_high_bits v ≡ v.bits / 2 ^ 32 % 2 ^ 32
  pub shift_left_law :
      (v : Long) (k : ℕ) → k < 64 → shift_left v k ≡ record v { bits = v.bits * 2 ^ k % 2 ^ 64 }
  -- The sign bit is repeated.
  pub shift_right_law :
      (v : Long) (k : ℕ)
      → k < 64
      → shift_right v k ≡ record v {
        bits = v.bits / 2 ^ k + (if ltb v.bits (2 ^ 63) then 0 else 2 ^ 64 - 2 ^ (64 - k));
      }
  pub shift_right_unsigned_law :
      (v : Long) (k : ℕ) → k < 64 → shift_right_unsigned v k ≡ record v { bits = v.bits / 2 ^ k }
  pub or_law : (v : Long) (n : ℕ) → n < 2 ^ 31 → or v n ≡ record v { bits = bit_or v.bits n }
  pub and_law : (v : Long) (n : ℕ) → n < 2 ^ 31 → and v n ≡ record v { bits = bit_and v.bits n }
  pub xor_law : (v w : Long) → xor v w ≡ record v { bits = bit_xor v.bits w.bits }
  pub negate_law : (v : Long) → IsLong v → negate v ≡ record v { bits = (2 ^ 64 - v.bits) % 2 ^ 64 }
  pub from_number_law :
      (z : ℤ) → IsSafe z → from_number z ≡ record { bits = wrap64 z; unsigned = false }
  -- The number is exact where JavaScript's numbers are.
  pub to_number_law :
      (v : Long) → v.unsigned ≡ false → IsSafe (signed64 v.bits) → to_number v ≡ signed64 v.bits
  pub to_unsigned_law : (v : Long) → to_unsigned v ≡ record v { unsigned = true }
  pub from_bytes_le_law :
      (a b c d e f g h : ℕ) (unsigned : Bool)
      → All (λ x. x < 256) (a ∷ b ∷ c ∷ d ∷ e ∷ f ∷ g ∷ h ∷ [])
      → from_bytes_le (a ∷ b ∷ c ∷ d ∷ e ∷ f ∷ g ∷ h ∷ []) unsigned
        ≡ record { bits = little_endian (a ∷ b ∷ c ∷ d ∷ e ∷ f ∷ g ∷ h ∷ []); unsigned = unsigned }
