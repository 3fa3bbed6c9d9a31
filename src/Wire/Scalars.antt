-- ===== src/Wire/Scalars.antt =====
-- protoc-gen-ts/runtime/serialize.ts: how `Serializer` writes a single value of each type, and how the
-- decoder of that type in `Decoders` reads one.
pub mod Laws
pub mod Sixty
pub mod Whole
use Prim.Native.Nat.{bit_and, bit_xor}
use dataform.Prelude.{
  ℕ, ◌-◌, ◌*◌, ◌/◌, ◌%◌, ◌^◌, Bool, true, false, List, ◌++◌, if◌then◌else◌, ltb, nat_eq, length,
  Result, ok, ◌>>=◌,
}
use dataform.Prelude.Int.{ℤ, pos, negsuc, wrap32, signed32}
use dataform.Wire.Longs.{Long, Longs, zero_long, one_long}
use dataform.Wire.Bytes.{
  BytesReader, write_var_int, write_thirty_two_bit_integer, write_sixty_four_bit_integer,
  read_var_int, read_thirty_two_bit_integer, read_sixty_four_bit_integer, read_all_bytes,
}

-- `((v << 1) ^ (v >> 31)) >>> 0`
unfoldable pub zig_zag : ℤ → ℤ
zig_zag v =
    let p = wrap32 v in pos (bit_xor (p * 2 % 2 ^ 32) (if ltb p (2 ^ 31) then 0 else 2 ^ 32 - 1))

-- `(v >>> 1) ^ -(v & 1)`
unfoldable pub un_zig_zag : ℤ → ℤ
un_zig_zag v =
    let p = wrap32 v in
    signed32 (bit_xor (p / 2) (if nat_eq (bit_and p 1) 0 then 0 else 2 ^ 32 - 1))

module _ (longs : Longs) where
  -- Also `uint32` and `enum`, which have the same body.
  unfoldable pub write_int32 : ℤ → List ℕ → List ℕ
  write_int32 v buffer = write_var_int longs (longs.from_number v) buffer

  unfoldable pub read_int32 : BytesReader → Result (ℤ × BytesReader)
  read_int32 r = do (v, rest) ← read_var_int longs r; ok (longs.to_number v, rest)

  unfoldable pub write_uint32 : ℤ → List ℕ → List ℕ
  write_uint32 v buffer = write_var_int longs (longs.from_number v) buffer

  unfoldable pub read_uint32 : BytesReader → Result (ℤ × BytesReader)
  read_uint32 r = do (v, rest) ← read_var_int longs r; ok (longs.to_number v, rest)

  unfoldable pub write_enum : ℤ → List ℕ → List ℕ
  write_enum v buffer = write_var_int longs (longs.from_number v) buffer

  unfoldable pub read_enum : BytesReader → Result (ℤ × BytesReader)
  read_enum r = do (v, rest) ← read_var_int longs r; ok (longs.to_number v, rest)

  unfoldable pub write_sint32 : ℤ → List ℕ → List ℕ
  unfolding zig_zag
  write_sint32 v buffer = write_var_int longs (longs.from_number (zig_zag v)) buffer

  unfoldable pub read_sint32 : BytesReader → Result (ℤ × BytesReader)
  unfolding un_zig_zag
  read_sint32 r = do (v, rest) ← read_var_int longs r; ok (un_zig_zag (longs.to_number v), rest)

  unfoldable pub write_fixed32 : ℤ → List ℕ → List ℕ
  write_fixed32 v buffer = write_thirty_two_bit_integer longs v buffer

  unfoldable pub read_fixed32 : BytesReader → Result (ℤ × BytesReader)
  read_fixed32 r = read_thirty_two_bit_integer true r

  unfoldable pub write_sfixed32 : ℤ → List ℕ → List ℕ
  write_sfixed32 v buffer = write_thirty_two_bit_integer longs v buffer

  unfoldable pub read_sfixed32 : BytesReader → Result (ℤ × BytesReader)
  read_sfixed32 r = read_thirty_two_bit_integer false r

  unfoldable pub write_int64 : Long → List ℕ → List ℕ
  write_int64 v buffer = write_var_int longs v buffer

  unfoldable pub read_int64 : BytesReader → Result (Long × BytesReader)
  read_int64 r = read_var_int longs r

  unfoldable pub write_uint64 : Long → List ℕ → List ℕ
  write_uint64 v buffer = write_var_int longs v buffer

  unfoldable pub read_uint64 : BytesReader → Result (Long × BytesReader)
  read_uint64 r = do (v, rest) ← read_var_int longs r; ok (longs.to_unsigned v, rest)

  unfoldable pub write_sint64 : Long → List ℕ → List ℕ
  write_sint64 v buffer =
      write_var_int longs (longs.xor (longs.shift_left v 1) (longs.shift_right v 63)) buffer

  unfoldable pub read_sint64 : BytesReader → Result (Long × BytesReader)
  read_sint64 r = do
    (v, rest) ← read_var_int longs r
    ok (longs.xor (longs.shift_right_unsigned v 1) (longs.negate (longs.and v 1)), rest)

  unfoldable pub write_fixed64 : Long → List ℕ → List ℕ
  write_fixed64 v buffer = write_sixty_four_bit_integer longs v buffer

  unfoldable pub read_fixed64 : BytesReader → Result (Long × BytesReader)
  read_fixed64 r = read_sixty_four_bit_integer longs true r

  unfoldable pub write_sfixed64 : Long → List ℕ → List ℕ
  write_sfixed64 v buffer = write_sixty_four_bit_integer longs v buffer

  unfoldable pub read_sfixed64 : BytesReader → Result (Long × BytesReader)
  read_sfixed64 r = read_sixty_four_bit_integer longs false r

  unfoldable pub write_bool : Bool → List ℕ → List ℕ
  write_bool v buffer = write_var_int longs (if v then one_long else zero_long) buffer

  unfoldable pub read_bool : BytesReader → Result (Bool × BytesReader)
  read_bool r = do (v, rest) ← read_var_int longs r; ok (longs.greater_than_zero v, rest)

  -- Also a `string` or a `message`, once it is a buffer.
  unfoldable pub write_bytes : List ℕ → List ℕ → List ℕ
  write_bytes v buffer = write_var_int longs (longs.from_number (pos (length v))) buffer ++ v
