-- ===== src/Wire/Bytes.antt =====
-- protoc-gen-ts/runtime/serialize.ts: `BytesWriter` and `BytesReader`. A byte is a number below 256, the
-- writer is its buffer, and the reader is the number of its bytes with those that its cursor has not
-- passed. Floating-point numbers are left out.
pub mod Varint
pub mod RoundTrip
use Prim.Native.Nat.{bit_and, bit_or}
use dataform.Prelude.{
  ℕ, zero, suc, ◌+◌, ◌*◌, ◌/◌, ◌%◌, ◌^◌, Bool, true, false, not, List, [], ◌∷◌, ◌++◌, if◌then◌else◌,
  ltb, nat_eq, length, take, drop, Result, ok, throw, ◌>>=◌, varint_not_ended, no_more_data,
}
use dataform.Prelude.Int.{ℤ, pos, negsuc, wrap32, signed32}
use dataform.Wire.Longs.{Long, Longs, zero_long}

pub record BytesReader : Type 0 where
  pub size : ℕ
  pub unread : List ℕ

abbrev pub reader_of : List ℕ → BytesReader
reader_of bytes = record { size = length bytes; unread = bytes }

abbrev pub done : BytesReader → Bool
done r = nat_eq (length r.unread) 0

-- The four bytes that `setInt32(…, true)` stores.
unfoldable pub int32_bytes : ℕ → List ℕ
int32_bytes p = p % 256 ∷ p / 256 % 256 ∷ p / 65536 % 256 ∷ p / 16777216 % 256 ∷ []

-- `nextVarIntSize`, of the bytes from the cursor on
unfoldable pub next_var_int_size : List ℕ → Result ℕ
next_var_int_size [] = throw varint_not_ended
next_var_int_size (b ∷ bytes) =
    let more = next_var_int_size bytes in
    if nat_eq (bit_and b 128) 0 then ok 1 else more >>= λ n. ok (suc n)

-- `readBytesAsNumberArray`, with the bytes after those
unfoldable pub read_number_array : ℕ → List ℕ → Result (List ℕ × List ℕ)
read_number_array zero bytes = ok ([], bytes)
read_number_array (suc n) [] = throw no_more_data
read_number_array (suc n) (b ∷ bytes) = do
  (taken, rest) ← read_number_array n bytes
  ok (b ∷ taken, rest)

-- A loop up to a number that is negative makes no round.
abbrev pub rounds : ℤ → ℕ
rounds (pos n) = n
rounds (negsuc n) = 0

-- `readBytes` with a number
unfoldable pub read_bytes : ℤ → BytesReader → Result (List ℕ × BytesReader)
unfolding read_number_array
read_bytes num r = do
  (taken, rest) ← read_number_array (rounds num) r.unread
  ok (taken, record r { unread = rest })

-- `readBytes()`
unfoldable pub read_all_bytes : BytesReader → Result (List ℕ × BytesReader)
unfolding read_bytes
read_all_bytes r = read_bytes (pos r.size) r

-- The pattern that `getInt32(0, true)` and `getUint32(0, true)` read as a number.
abbrev pub int32_of_bytes : List ℕ → ℕ
int32_of_bytes (a ∷ b ∷ c ∷ d ∷ []) = a + 256 * b + 65536 * c + 16777216 * d
int32_of_bytes bytes = 0

unfoldable pub read_thirty_two_bit_integer : Bool → BytesReader → Result (ℤ × BytesReader)
unfolding read_bytes
read_thirty_two_bit_integer unsigned r = do
  (bytes, rest) ← read_bytes (pos 4) r
  let pattern_read = int32_of_bytes bytes
  ok (if unsigned then pos pattern_read else signed32 pattern_read, rest)

module _ (longs : Longs) where
  -- The loop of `writeVarInt` for a positive Long. Ten rounds shift all bits out.
  unfoldable pub write_positive : ℕ → Long → List ℕ → List ℕ
  write_positive zero v buffer = buffer
  write_positive (suc fuel) v buffer =
      let low = bit_and (longs.get_low_bits v) 127 in
      let next = longs.shift_right_unsigned v 7 in
      let byte = if not (longs.is_zero next) then bit_or low 128 else low in
      let rest = write_positive fuel next (buffer ++ (byte ∷ [])) in
      if longs.is_zero v then buffer else rest

  -- The loop for a negative Long, from round `i` on.
  unfoldable pub write_negative : ℕ → ℕ → Long → List ℕ → List ℕ
  write_negative zero i v buffer = buffer
  write_negative (suc left) i v buffer =
      let byte = if nat_eq i 9 then 1 else bit_or (bit_and (longs.get_low_bits v) 127) 128 in
      write_negative left (i + 1) (longs.shift_right v 7) (buffer ++ (byte ∷ []))

  unfoldable pub write_var_int : Long → List ℕ → List ℕ
  write_var_int v buffer =
      if longs.is_zero v
      then buffer ++ (0 ∷ [])
      else if longs.greater_than_zero v
      then write_positive 10 v buffer
      else write_negative 10 0 v buffer

  abbrev pub write_thirty_two_bit_integer : ℤ → List ℕ → List ℕ
  write_thirty_two_bit_integer num buffer = buffer ++ int32_bytes (wrap32 num)

  abbrev pub write_sixty_four_bit_integer : Long → List ℕ → List ℕ
  write_sixty_four_bit_integer num buffer =
      buffer ++ (int32_bytes (longs.get_low_bits num) ++ int32_bytes (longs.get_high_bits num))

  -- The value of the collected bytes.
  unfoldable pub var_int_value : List ℕ → Long
  var_int_value [] = zero_long
  var_int_value (b ∷ bytes) = longs.or (longs.shift_left (var_int_value bytes) 7) (bit_and b 127)

  unfoldable pub read_var_int : BytesReader → Result (Long × BytesReader)
  unfolding next_var_int_size var_int_value
  read_var_int r = do
    size ← next_var_int_size r.unread
    ok (var_int_value (take size r.unread), record r { unread = drop size r.unread })

  unfoldable pub read_sixty_four_bit_integer : Bool → BytesReader → Result (Long × BytesReader)
  unfolding read_number_array
  read_sixty_four_bit_integer unsigned r = do
    (bytes, rest) ← read_number_array 8 r.unread
    ok (longs.from_bytes_le bytes unsigned, record r { unread = rest })
