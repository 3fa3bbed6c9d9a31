-- ===== src/Prelude/Int.antt =====
-- Integers over the native numbers, and two's complement.
use Prim.Native.Nat.{ℕ, suc, ◌-◌, ◌%◌, ◌^◌, ◌<◌}
use mathlib.Core.Path.{◌≡◌}
use native.Mathlib.Omega.{arith}
use dataform.Prelude.Tests.{if◌then◌else◌, ltb}

-- `negsuc n` is -(n + 1).
pub data ℤ : Type 0 where
  pos : ℕ → ℤ
  negsuc : ℕ → ℤ

-- The low 32 and 64 bits of an integer.
abbrev pub wrap32 : ℤ → ℕ
wrap32 (pos n) = n % 2 ^ 32
wrap32 (negsuc n) = 2 ^ 32 - 1 - n % 2 ^ 32

abbrev pub wrap64 : ℤ → ℕ
wrap64 (pos n) = n % 2 ^ 64
wrap64 (negsuc n) = 2 ^ 64 - 1 - n % 2 ^ 64

-- The integer that a pattern of 32 or 64 bits stands for.
abbrev pub signed32 : ℕ → ℤ
signed32 p = if ltb p (2 ^ 31) then pos p else negsuc (2 ^ 32 - 1 - p)

abbrev pub signed64 : ℕ → ℤ
signed64 p = if ltb p (2 ^ 63) then pos p else negsuc (2 ^ 64 - 1 - p)

-- The range of an int32, and that in which a JavaScript number is exact.
abbrev pub IsInt32 : ℤ → Type 0
IsInt32 (pos n) = n < 2 ^ 31
IsInt32 (negsuc n) = n < 2 ^ 31

abbrev pub IsSafe : ℤ → Type 0
IsSafe (pos n) = n < 2 ^ 53
IsSafe (negsuc n) = suc n < 2 ^ 53

pub signed32-wrap32 : (z : ℤ) → IsInt32 z → signed32 (wrap32 z) ≡ z
signed32-wrap32 (pos n) h = ground arith
signed32-wrap32 (negsuc n) h = ground arith

pub signed64-wrap64 : (z : ℤ) → IsSafe z → signed64 (wrap64 z) ≡ z
signed64-wrap64 (pos n) h = ground arith
signed64-wrap64 (negsuc n) h = ground arith

pub wrap32-signed32 : (p : ℕ) → p < 2 ^ 32 → wrap32 (signed32 p) ≡ p
wrap32-signed32 p h = ground arith

pub wrap64-signed32 : (p : ℕ) → p < 2 ^ 32 → wrap64 (signed32 p) % 2 ^ 32 ≡ p
wrap64-signed32 p h = ground arith

pub wrap64-lt : (z : ℤ) → wrap64 z < 2 ^ 64
wrap64-lt (pos n) = omega arith
wrap64-lt (negsuc n) = omega arith

pub wrap32-lt : (z : ℤ) → wrap32 z < 2 ^ 32
wrap32-lt (pos n) = omega arith
wrap32-lt (negsuc n) = omega arith
