-- ===== src/Wire/Scalars/Sixty.antt =====
-- protoc-gen-ts/runtime/serialize.ts: the types of fixed size, and the signed varint of 64 bits.
use Prim.Native.Nat.{bit_xor}
use dataform.Prelude.{
  ℕ, ◌+◌, ◌-◌, ◌*◌, ◌/◌, ◌%◌, ◌^◌, ◌<◌, ◌≡◌, refl, sym, ap, ◌∙◌, subst, inl, inr, Bool, true, false,
  List, ◌++◌, if◌then◌else◌, ltb, Bool-cases, ok, arith,
}
use dataform.Prelude.Bits.{bit_and_one, bit_xor-nothing, bit_xor_ones}
use dataform.Prelude.Int.{ℤ, pos, negsuc, wrap32, signed32, IsInt32, signed32-wrap32, wrap32-lt}
use dataform.Wire.Longs.{Long, Longs, IsLong, little_endian}
use dataform.Wire.Bytes.{
  int32_bytes, int32_of_bytes, read_thirty_two_bit_integer, read_sixty_four_bit_integer,
  write_var_int,
}
use dataform.Wire.Scalars.{
  write_fixed32, read_fixed32, write_sfixed32, read_sfixed32, write_sint64, read_sint64,
  write_fixed64, read_fixed64, write_sfixed64, read_sfixed64,
}
use dataform.Wire.Scalars.Laws.{
  IsCoded, IsVarint, HasLength, IsUint32, IsCoded-as, IsVarint-IsCoded,
}

four_bytes : (p : ℕ) → p < 2 ^ 32 → int32_of_bytes (int32_bytes p) ≡ p
unfolding int32_bytes
four_bytes p h = omega arith

module _ (longs : Longs) where
  pub fixed32-IsCoded :
      (z : ℤ) → IsUint32 z → IsCoded (HasLength 4) (write_fixed32 longs) (read_fixed32 longs) z
  unfolding write_fixed32 read_fixed32 read_thirty_two_bit_integer int32_bytes
  fixed32-IsCoded (pos n) h = record {
    payload = int32_bytes (n % 2 ^ 32);
    shaped = refl;
    written = λ buffer. refl;
    read_back = λ size rest.
        ap (λ (m : ℕ). ok (pos m, record { size = size; unread = rest })) (omega arith);
  }
  fixed32-IsCoded (negsuc n) h = absurd h

  pub sfixed32-IsCoded :
      (z : ℤ) → IsInt32 z → IsCoded (HasLength 4) (write_sfixed32 longs) (read_sfixed32 longs) z
  unfolding write_sfixed32 read_sfixed32 read_thirty_two_bit_integer int32_bytes
  sfixed32-IsCoded z h = record {
    payload = int32_bytes (wrap32 z);
    shaped = refl;
    written = λ buffer. refl;
    read_back = λ size rest.
        ap (λ (y : ℤ). ok (y, record { size = size; unread = rest }))
          (ap signed32 (four_bytes (wrap32 z) (wrap32-lt z)) ∙ signed32-wrap32 z h);
  }

  eight_bytes :
      (n : ℕ)
      → n < 2 ^ 64
      → little_endian (int32_bytes (n % 2 ^ 32) ++ int32_bytes (n / 2 ^ 32 % 2 ^ 32)) ≡ n
  unfolding int32_bytes
  eight_bytes n h = omega arith

  sixty_four-read_back :
      (v : Long) (size : ℕ) (rest : List ℕ)
      → IsLong v
      → read_sixty_four_bit_integer longs v.unsigned (record {
        size = size;
        unread =
            (int32_bytes (longs.get_low_bits v) ++ int32_bytes (longs.get_high_bits v)) ++ rest;
      })
        ≡ ok (v, record { size = size; unread = rest })
  unfolding read_sixty_four_bit_integer int32_bytes
  sixty_four-read_back v size rest h =
      rw (longs.get_low_bits_law v, longs.get_high_bits_law v)
        (ap (λ (w : Long). ok (w, record { size = size; unread = rest }))
          (longs.from_bytes_le_law _ _ _ _ _ _ _ _ v.unsigned (omega arith)
            ∙ ap (λ (n : ℕ). record v { bits = n }) (eight_bytes v.bits h)))

  pub fixed64-IsCoded :
      (v : Long)
      → IsLong v
      → v.unsigned ≡ true
      → IsCoded (HasLength 8) (write_fixed64 longs) (read_fixed64 longs) v
  unfolding write_fixed64 read_fixed64 int32_bytes
  fixed64-IsCoded v h unsigned = record {
    payload = int32_bytes (longs.get_low_bits v) ++ int32_bytes (longs.get_high_bits v);
    shaped = refl;
    written = λ buffer. refl;
    read_back = λ size rest.
        subst
          (λ b.
            read_sixty_four_bit_integer longs b (record {
              size = size;
              unread =
                  (int32_bytes (longs.get_low_bits v) ++ int32_bytes (longs.get_high_bits v))
                  ++ rest;
            })
            ≡ ok (v, record { size = size; unread = rest }))
          unsigned (sixty_four-read_back v size rest h);
  }

  pub sfixed64-IsCoded :
      (v : Long)
      → IsLong v
      → v.unsigned ≡ false
      → IsCoded (HasLength 8) (write_sfixed64 longs) (read_sfixed64 longs) v
  unfolding write_sfixed64 read_sfixed64 int32_bytes
  sfixed64-IsCoded v h signed = record {
    payload = int32_bytes (longs.get_low_bits v) ++ int32_bytes (longs.get_high_bits v);
    shaped = refl;
    written = λ buffer. refl;
    read_back = λ size rest.
        subst
          (λ b.
            read_sixty_four_bit_integer longs b (record {
              size = size;
              unread =
                  (int32_bytes (longs.get_low_bits v) ++ int32_bytes (longs.get_high_bits v))
                  ++ rest;
            })
            ≡ ok (v, record { size = size; unread = rest }))
          signed (sixty_four-read_back v size rest h);
  }

  shift_one : (v : Long) → longs.shift_left v 1 ≡ record v { bits = v.bits * 2 % 2 ^ 64 }
  shift_one v = longs.shift_left_law v 1 (omega arith)

  -- All ones for a negative number, and else none.
  sign_of :
      (v : Long)
      → IsLong v
      → longs.shift_right v 63 ≡ record v { bits = if ltb v.bits (2 ^ 63) then 0 else 2 ^ 64 - 1 }
  sign_of v h =
      longs.shift_right_law v 63 (omega arith)
      ∙ ap (λ (n : ℕ). record v { bits = n }) (ground arith)

  -- What is written of a number, with the signed numbers counted 0, -1, 1, -2, and so on.
  counted : Long → Long
  counted v = record v {
    bits = if ltb v.bits (2 ^ 63) then 2 * v.bits else 2 * (2 ^ 64 - 1 - v.bits) + 1;
  }

  zig_zag64 :
      (v : Long) → IsLong v → longs.xor (longs.shift_left v 1) (longs.shift_right v 63) ≡ counted v
  unfolding counted
  zig_zag64 v h = elim (Bool-cases (ltb v.bits (2 ^ 63))) [
    | inl low ↦
        rw (shift_one v, sign_of v h, low, longs.xor_law, bit_xor-nothing)
          (ap (λ (n : ℕ). record v { bits = n }) (ground arith))
    | inr high ↦
        rw
          (
            shift_one v,
            sign_of v h,
            high,
            longs.xor_law,
            bit_xor_ones 64 (v.bits * 2 % 2 ^ 64) (omega arith),
          )
          (ap (λ (n : ℕ). record v { bits = n }) (ground arith))
  ]

  half_and_sign :
      (c : Long)
      → longs.xor (longs.shift_right_unsigned c 1) (longs.negate (longs.and c 1))
        ≡ record c { bits = bit_xor (c.bits / 2) ((2 ^ 64 - c.bits % 2) % 2 ^ 64) }
  half_and_sign c =
      rw
        (
          longs.shift_right_unsigned_law c 1 (omega arith),
          longs.and_law c 1 (omega arith),
          bit_and_one c.bits,
        )
        (rw (longs.negate_law (record c { bits = c.bits % 2 }) (omega arith))
          (longs.xor_law (record c { bits = c.bits / 2 }) _))

  un_zig_zag64 :
      (v : Long)
      → IsLong v
      → longs.xor
          (longs.shift_right_unsigned (counted v) 1)
          (longs.negate (longs.and (counted v) 1))
        ≡ v
  unfolding counted
  un_zig_zag64 v h =
      half_and_sign (counted v)
      ∙ ap (λ (n : ℕ). record v { bits = n })
          (elim (Bool-cases (ltb v.bits (2 ^ 63))) [
            | inl low ↦
                let none : (2 ^ 64 - 2 * v.bits % 2) % 2 ^ 64 ≡ 0 = omega arith in
                rw (low, none, bit_xor-nothing) (omega arith)
            | inr high ↦
                let ones : (2 ^ 64 - (2 * (2 ^ 64 - 1 - v.bits) + 1) % 2) % 2 ^ 64 ≡ 2 ^ 64 - 1 =
                  omega arith in
                let below : (2 * (2 ^ 64 - 1 - v.bits) + 1) / 2 < 2 ^ 64 = omega arith in
                rw (high, ones, bit_xor_ones 64 ((2 * (2 ^ 64 - 1 - v.bits) + 1) / 2) below)
                  (omega arith)
          ])

  counted-IsLong : (v : Long) → IsLong v → IsLong (counted v)
  unfolding counted
  counted-IsLong v h = ground arith

  counted_signed :
      (v : Long) → v.unsigned ≡ false → record (counted v) { unsigned = false } ≡ counted v
  unfolding counted
  counted_signed v signed = ap (λ (b : Bool). record (counted v) { unsigned = b }) (sym signed)

  pub sint64-IsCoded :
      (v : Long)
      → IsLong v
      → v.unsigned ≡ false
      → IsCoded IsVarint (write_sint64 longs) (read_sint64 longs) v
  unfolding write_sint64 read_sint64
  sint64-IsCoded v h signed =
      IsCoded-as longs (write_sint64 longs) (read_sint64 longs)
        (IsVarint-IsCoded longs v (counted v)
          (λ w. longs.xor (longs.shift_right_unsigned w 1) (longs.negate (longs.and w 1)))
          (counted-IsLong v h) (rw (counted_signed v signed) (un_zig_zag64 v h)))
        (λ b. ap (λ (w : Long). write_var_int longs w b) (zig_zag64 v h)) (λ r. refl)
