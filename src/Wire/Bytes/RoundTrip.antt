-- ===== src/Wire/Bytes/RoundTrip.antt =====
-- protoc-gen-ts/runtime/serialize.ts: `readVarInt` reads back what `writeVarInt` wrote, and what the
-- readers take.
use Prim.Native.Nat.{bit_and, bit_or}
use dataform.Prelude.{
  ℕ, zero, suc, ◌+◌, ◌*◌, ◌/◌, ◌%◌, ◌^◌, ◌≤◌, ◌<◌, ◌≡◌, refl, ap, ◌∙◌, inl, inr, true, false, List,
  [], ◌∷◌, ◌++◌, ltb, nat_eq, length, take-append, drop-append, All, Bool-cases, ok, arith,
}
use native.Mathlib.Nat.{pow-suc}
use dataform.Prelude.Bits.{bit_and_127, bit_and_128, bit_or_fields}
use dataform.Wire.Longs.{Long, Longs, IsLong, zero_long}
use dataform.Wire.Bytes.{next_var_int_size, write_var_int, var_int_value, read_var_int}
use dataform.Wire.Bytes.Varint.{groups, write_var_int-groups}

-- A byte with its top bit set, and one without.
top_bit_set : (x : ℕ) → x < 128 → nat_eq (bit_and (x + 128) 128) 0 ≡ false
top_bit_set x h = ground (arith, bit_and_128 (x + 128))

top_bit_clear : (x : ℕ) → x < 128 → nat_eq (bit_and x 128) 0 ≡ true
top_bit_clear x h = ground (arith, bit_and_128 x)

pub next_var_int_size-groups :
    (k n : ℕ) (rest : List ℕ)
    → n < 128 ^ suc k
    → next_var_int_size (groups k n ++ rest) ≡ ok (length (groups k n))
unfolding next_var_int_size groups
next_var_int_size-groups zero n rest below = rw (top_bit_clear n below) refl
next_var_int_size-groups (suc k) n rest below = elim (Bool-cases (ltb n 128)) [
  | inl last ↦ rw last (rw (top_bit_clear n (ground arith)) refl)
  | inr more ↦
      let ih = next_var_int_size-groups k (n / 128) rest (omega (arith, pow-suc 128 (suc k))) in
      rw more (rw (top_bit_set (n % 128) (omega arith), ih) refl)
]

-- The shape of what is written: one to ten bytes.
pub groups_bounds :
    (k n : ℕ)
    → n < 128 ^ suc k
    → (1 ≤ length (groups k n)) × (length (groups k n) ≤ suc k) × All (λ b. b < 256) (groups k n)
unfolding groups
groups_bounds zero n below = omega arith
groups_bounds (suc k) n below =
    ground (arith, groups_bounds k (n / 128) (omega (arith, pow-suc 128 (suc k))))

module _ (longs : Longs) where
  -- One byte in front of the higher groups.
  joined :
      (high low : ℕ)
      → low < 128
      → high * 128 + low < 2 ^ 64
      → longs.or (longs.shift_left (record { bits = high; unsigned = false }) 7) low
        ≡ record { bits = high * 128 + low; unsigned = false }
  joined high low h fits =
      let wrapped : high * 128 % 2 ^ 64 ≡ high * 2 ^ 7 = omega arith in
      rw (longs.shift_left_law (record { bits = high; unsigned = false }) 7 (omega arith)) (
        longs.or_law (record { bits = high * 128 % 2 ^ 64; unsigned = false }) low (omega arith)
        ∙ ap (λ (n : ℕ). record { bits = n; unsigned = false })
            (ap (λ (m : ℕ). bit_or m low) wrapped ∙ bit_or_fields 7 high low h))

  value_cons :
      (b : ℕ) (bytes : List ℕ)
      → var_int_value longs (b ∷ bytes)
        ≡ longs.or (longs.shift_left (var_int_value longs bytes) 7) (bit_and b 127)
  unfolding var_int_value
  value_cons b bytes = refl

  value_nil : var_int_value longs [] ≡ zero_long
  unfolding var_int_value
  value_nil = refl

  last_byte :
      (n : ℕ) → n < 128 → var_int_value longs (n ∷ []) ≡ record { bits = n; unsigned = false }
  last_byte n below =
      let same : n % 128 ≡ n = omega arith in
      rw (value_cons n [], value_nil, bit_and_127 n, same)
        (joined 0 n below (omega arith)
          ∙ ap (λ (m : ℕ). record { bits = m; unsigned = false }) (omega arith))

  var_int_value-groups :
      (k n : ℕ)
      → n < 128 ^ suc k
      → n < 2 ^ 64
      → var_int_value longs (groups k n) ≡ record { bits = n; unsigned = false }
  unfolding groups
  var_int_value-groups zero n below fits = last_byte n below
  var_int_value-groups (suc k) n below fits = elim (Bool-cases (ltb n 128)) [
    | inl last ↦ rw last (last_byte n (ground arith))
    | inr more ↦ rw more (
        inner_byte (groups k (n / 128))
          (var_int_value-groups k (n / 128) (omega (arith, pow-suc 128 (suc k))) (omega arith)))
  ]
    where
      inner_byte :
          (higher : List ℕ)
          → var_int_value longs higher ≡ record { bits = n / 128; unsigned = false }
          → var_int_value longs ((n % 128 + 128) ∷ higher) ≡ record { bits = n; unsigned = false }
      inner_byte higher ih =
          let low : (n % 128 + 128) % 128 ≡ n % 128 = omega arith in
          rw (value_cons (n % 128 + 128) higher, ih, bit_and_127 (n % 128 + 128), low)
            (joined (n / 128) (n % 128) (omega arith) (omega arith)
              ∙ ap (λ (m : ℕ). record { bits = m; unsigned = false }) (omega arith))

  pub read_var_int-groups :
      (n size : ℕ) (rest : List ℕ)
      → n < 2 ^ 64
      → read_var_int longs (record { size = size; unread = groups 9 n ++ rest })
        ≡ ok (record { bits = n; unsigned = false }, record { size = size; unread = rest })
  unfolding read_var_int
  read_var_int-groups n size rest fits =
      rw
        (
          next_var_int_size-groups 9 n rest (omega arith),
          take-append (groups 9 n) rest,
          drop-append (groups 9 n) rest,
          var_int_value-groups 9 n (omega arith) fits,
        )
        refl

  -- `readVarInt` gives the 64 bits that `writeVarInt` was given, as a signed Long, and goes no further.
  pub read_var_int-write_var_int :
      (v : Long) (size : ℕ) (rest : List ℕ)
      → IsLong v
      → read_var_int longs (record { size = size; unread = write_var_int longs v [] ++ rest })
        ≡ ok (record v { unsigned = false }, record { size = size; unread = rest })
  read_var_int-write_var_int v size rest h =
      rw (write_var_int-groups longs v [] h) (read_var_int-groups v.bits size rest h)

  -- `writeVarInt` keeps what is in the buffer and adds one to ten bytes.
  pub write_var_int_bounds :
      (v : Long) (buffer : List ℕ)
      → IsLong v
      → (added : List ℕ) × (write_var_int longs v buffer ≡ buffer ++ added)
        × (1 ≤ length added)
        × (length added ≤ 10)
        × All (λ b. b < 256) added
  write_var_int_bounds v buffer h =
      let (least, most, bytes) = groups_bounds 9 v.bits (omega arith) in
      (groups 9 v.bits, write_var_int-groups longs v buffer h, least, most, bytes)
