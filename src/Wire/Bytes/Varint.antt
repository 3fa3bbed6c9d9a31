-- ===== src/Wire/Bytes/Varint.antt =====
-- protoc-gen-ts/runtime/serialize.ts: what `writeVarInt` writes, and that `readVarInt` reads it back.
use Prim.Native.Nat.{bit_and, bit_or}
use dataform.Prelude.{
  ℕ, zero, suc, ◌+◌, ◌-◌, ◌*◌, ◌/◌, ◌%◌, ◌^◌, ◌≤◌, ◌<◌, ◌≡◌, refl, ap, ◌∙◌, inl, inr, false, not,
  List, [], ◌∷◌, ◌++◌, append_assoc, if◌then◌else◌, ltb, nat_eq, Bool-cases, arith,
}
use native.Mathlib.Nat.{pow-suc}
use dataform.Prelude.Bits.{bit_and_127, bit_or_128}
use dataform.Wire.Longs.{Long, Longs, IsLong}
use dataform.Wire.Bytes.{write_positive, write_negative, write_var_int}

-- The groups of seven bits of a number below 128 ^ (k + 1), the lowest first, with the top bit set in
-- all but the last.
unfoldable pub groups : ℕ → ℕ → List ℕ
groups zero n = n ∷ []
groups (suc k) n =
    let more = groups k (n / 128) in if ltb n 128 then n ∷ [] else (n % 128 + 128) ∷ more

module _ (longs : Longs) where
  low_seven : (v : Long) → bit_and (longs.get_low_bits v) 127 ≡ v.bits % 128
  low_seven v = rw (longs.get_low_bits_law v, bit_and_127) (omega arith)

  shift_seven : (v : Long) → longs.shift_right_unsigned v 7 ≡ record v { bits = v.bits / 128 }
  shift_seven v = longs.shift_right_unsigned_law v 7 (omega arith)

  next_byte :
      (n : ℕ)
      → (if not (nat_eq (n / 128) 0) then bit_or (n % 128) 128 else n % 128)
        ≡ (if ltb n 128 then n else n % 128 + 128)
  next_byte n = ground (arith, bit_or_128 (n % 128))

  -- One round of the loop.
  write_positive_round :
      (fuel : ℕ) (v : Long) (buffer : List ℕ)
      → 0 < v.bits
      → write_positive longs (suc fuel) v buffer
        ≡ write_positive longs fuel
            (record v { bits = v.bits / 128 })
            (buffer ++ ((if ltb v.bits 128 then v.bits else v.bits % 128 + 128) ∷ []))
  unfolding write_positive
  write_positive_round fuel v buffer pos =
      let more : nat_eq v.bits 0 ≡ false = ground arith in
      rw
        (
          shift_seven v,
          longs.is_zero_law v,
          more,
          longs.is_zero_law (record v { bits = v.bits / 128 }),
          low_seven v,
          next_byte v.bits,
        )
        refl

  write_positive_end :
      (fuel : ℕ) (v : Long) (buffer : List ℕ)
      → v.bits ≡ 0
      → write_positive longs fuel v buffer ≡ buffer
  unfolding write_positive
  write_positive_end zero v buffer h = refl
  write_positive_end (suc fuel) v buffer h = ground (arith, longs.is_zero_law v)

  write_positive-groups :
      (k : ℕ) (v : Long) (buffer : List ℕ)
      → 0 < v.bits
      → v.bits < 128 ^ suc k
      → write_positive longs (suc k) v buffer ≡ buffer ++ groups k v.bits
  unfolding groups
  write_positive-groups zero v buffer pos below =
      write_positive_round zero v buffer pos
      ∙ write_positive_end zero (record v { bits = v.bits / 128 }) _ (omega arith)
      ∙ ground arith
  write_positive-groups (suc k) v buffer pos below = elim (Bool-cases (ltb v.bits 128)) [
    | inl last ↦
        write_positive_round (suc k) v buffer pos
        ∙ write_positive_end (suc k) (record v { bits = v.bits / 128 }) _ (ground arith)
        ∙ rw last refl
    | inr more ↦
        write_positive_round (suc k) v buffer pos
        ∙ write_positive-groups k (record v { bits = v.bits / 128 }) _ (ground arith)
            (omega (arith, pow-suc 128 (suc k)))
        ∙ rw more (append_assoc buffer ((v.bits % 128 + 128) ∷ []) (groups k (v.bits / 128)))
  ]

  -- 2 ^ (7 * j), the sign bit of the 7 * j + 1 bits that are left in round 9 - j.
  abbrev sign_bit : ℕ → ℕ
  sign_bit zero = 1
  sign_bit (suc j) = 128 * sign_bit j

  one-le-sign_bit : (j : ℕ) → 1 ≤ sign_bit j
  one-le-sign_bit zero = omega arith
  one-le-sign_bit (suc j) = omega (arith, one-le-sign_bit j)

  sign_shift :
      (v : Long)
      → 2 ^ 63 ≤ v.bits
      → longs.shift_right v 7 ≡ record v { bits = v.bits / 128 + (2 ^ 64 - 2 ^ 57) }
  sign_shift v h =
      longs.shift_right_law v 7 (omega arith)
      ∙ ap (λ (n : ℕ). record v { bits = v.bits / 128 + n }) (ground arith)

  write_negative-groups :
      (j i : ℕ) (v : Long) (w : ℕ) (buffer : List ℕ)
      → i + j ≡ 9
      → v.bits + 2 * sign_bit j ≡ w + 2 ^ 64
      → w < 2 * sign_bit j
      → sign_bit j ≤ w
      → 2 ^ 63 ≤ v.bits
      → write_negative longs (suc j) i v buffer ≡ buffer ++ groups j w
  unfolding write_negative groups
  write_negative-groups zero i v w buffer at bits below above sign = ground arith
  write_negative-groups (suc j) i v w buffer at bits below above sign =
      let early : nat_eq i 9 ≡ false = ground arith in
      let big : ltb w 128 ≡ false = ground (arith, one-le-sign_bit j) in
      let low : v.bits % 128 ≡ w % 128 = omega arith in
      rw (early, sign_shift v sign, low_seven v, low, bit_or_128 (w % 128) (omega arith), big)
        (write_negative-groups j (i + 1) (record v { bits = v.bits / 128 + (2 ^ 64 - 2 ^ 57) })
            (w / 128) (buffer ++ ((w % 128 + 128) ∷ [])) (omega arith) (omega arith) (omega arith)
            (omega arith) (omega arith)
          ∙ append_assoc buffer ((w % 128 + 128) ∷ []) (groups j (w / 128)))

  -- What is written for every Long, whatever its sign and signedness.
  pub write_var_int-groups :
      (v : Long) (buffer : List ℕ)
      → IsLong v
      → write_var_int longs v buffer ≡ buffer ++ groups 9 v.bits
  unfolding write_var_int
  write_var_int-groups v buffer h = elim (Bool-cases (nat_eq v.bits 0)) [
    | inl none_set ↦
        rw (longs.is_zero_law v, none_set) (rw (zero_groups v.bits (ground arith)) refl)
    | inr some_set ↦ elim (Bool-cases (longs.greater_than_zero v)) [
      | inl positive ↦
          rw (longs.is_zero_law v, some_set, positive)
            (write_positive-groups 9 v buffer (ground arith) (omega arith))
      | inr negative ↦
          rw (longs.is_zero_law v, some_set, negative)
            (write_negative-groups 9 0 v v.bits buffer refl (omega arith) (omega arith)
              (high negative some_set) (high negative some_set))
    ]
  ]
    where
      zero_groups : (n : ℕ) → n ≡ 0 → groups 9 n ≡ 0 ∷ []
      zero_groups n e = rw e (unfold groups in refl)

      high : longs.greater_than_zero v ≡ false → nat_eq v.bits 0 ≡ false → 2 ^ 63 ≤ v.bits
      high negative some_set = ground (arith, longs.greater_than_zero_law v)
