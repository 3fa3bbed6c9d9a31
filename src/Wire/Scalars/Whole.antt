-- ===== src/Wire/Scalars/Whole.antt =====
-- protoc-gen-ts/runtime/serialize.ts: all types of numbers at once.
use dataform.Prelude.{ℕ, ◌≡◌, refl, Bool, true, false, List, [], ◌++◌, Result, ok, arith}
use dataform.Prelude.Int.{ℤ, pos, negsuc, IsInt32, IsSafe}
use dataform.Wire.Longs.{Long, Longs, IsLong}
use dataform.Wire.Bytes.{BytesReader}
use dataform.Wire.Scalars.{
  write_int32, read_int32, write_uint32, read_uint32, write_enum, read_enum, write_sint32,
  read_sint32, write_fixed32, read_fixed32, write_sfixed32, read_sfixed32, write_int64, read_int64,
  write_uint64, read_uint64, write_sint64, read_sint64, write_fixed64, read_fixed64, write_sfixed64,
  read_sfixed64, write_bool, read_bool,
}
use dataform.Wire.Scalars.Laws.{
  IsCoded, IsUint32, int32-IsCoded, uint32-IsCoded, enum-IsCoded, sint32-IsCoded, int64-IsCoded,
  uint64-IsCoded, bool-IsCoded,
}
use dataform.Wire.Scalars.Sixty.{
  fixed32-IsCoded, sfixed32-IsCoded, fixed64-IsCoded, sfixed64-IsCoded, sint64-IsCoded,
}

-- What is written is read back, and the reader stops behind it.
abbrev pub IsReadBack {ℓ} :
    {T : Type ℓ} → (T → List ℕ → List ℕ) → (BytesReader → Result (T × BytesReader)) → T → Type ℓ
IsReadBack write read x =
    (size : ℕ) (rest : List ℕ)
    → read (record { size = size; unread = write x [] ++ rest })
      ≡ ok (x, record { size = size; unread = rest })

coded-IsReadBack {ℓ} :
    {T : Type ℓ} (Shape : List ℕ → Type 0) (write : T → List ℕ → List ℕ)
    (read : BytesReader → Result (T × BytesReader)) (x : T)
    → IsCoded Shape write read x
    → IsReadBack write read x
coded-IsReadBack Shape write read x c size rest = rw (c.written []) (c.read_back size rest)

pub int32-IsSafe : (z : ℤ) → IsInt32 z → IsSafe z
int32-IsSafe (pos n) h = omega arith
int32-IsSafe (negsuc n) h = omega arith

pub uint32-IsSafe : (z : ℤ) → IsUint32 z → IsSafe z
uint32-IsSafe (pos n) h = omega arith
uint32-IsSafe (negsuc n) h = absurd h

module _ (longs : Longs) where
  -- Each type of numbers of protocol buffers, but the floating-point ones, reads back what it wrote, for
  -- every value in its range, whatever bytes follow.
  pub scalars-AreReadBack :
      (i u : ℤ) (v : Long) (b : Bool)
      → IsInt32 i
      → IsUint32 u
      → IsLong v
      → IsReadBack (write_int32 longs) (read_int32 longs) i
        × IsReadBack (write_enum longs) (read_enum longs) i
        × IsReadBack (write_sint32 longs) (read_sint32 longs) i
        × IsReadBack (write_sfixed32 longs) (read_sfixed32 longs) i
        × IsReadBack (write_uint32 longs) (read_uint32 longs) u
        × IsReadBack (write_fixed32 longs) (read_fixed32 longs) u
        × IsReadBack (write_int64 longs) (read_int64 longs) (record v { unsigned = false })
        × IsReadBack (write_sint64 longs) (read_sint64 longs) (record v { unsigned = false })
        × IsReadBack (write_sfixed64 longs) (read_sfixed64 longs) (record v { unsigned = false })
        × IsReadBack (write_uint64 longs) (read_uint64 longs) (record v { unsigned = true })
        × IsReadBack (write_fixed64 longs) (read_fixed64 longs) (record v { unsigned = true })
        × IsReadBack (write_bool longs) (read_bool longs) b
  scalars-AreReadBack i u v b h k l = (
    coded-IsReadBack _ _ _ i (int32-IsCoded longs i (int32-IsSafe i h)),
    coded-IsReadBack _ _ _ i (enum-IsCoded longs i (int32-IsSafe i h)),
    coded-IsReadBack _ _ _ i (sint32-IsCoded longs i h),
    coded-IsReadBack _ _ _ i (sfixed32-IsCoded longs i h),
    coded-IsReadBack _ _ _ u (uint32-IsCoded longs u (uint32-IsSafe u k)),
    coded-IsReadBack _ _ _ u (fixed32-IsCoded longs u k),
    coded-IsReadBack _ _ _ _ (int64-IsCoded longs (record v { unsigned = false }) l refl),
    coded-IsReadBack _ _ _ _ (sint64-IsCoded longs (record v { unsigned = false }) l refl),
    coded-IsReadBack _ _ _ _ (sfixed64-IsCoded longs (record v { unsigned = false }) l refl),
    coded-IsReadBack _ _ _ _ (uint64-IsCoded longs (record v { unsigned = true }) l refl),
    coded-IsReadBack _ _ _ _ (fixed64-IsCoded longs (record v { unsigned = true }) l refl),
    coded-IsReadBack _ _ _ b (bool-IsCoded longs b),
  )
