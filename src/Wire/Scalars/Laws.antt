-- ===== src/Wire/Scalars/Laws.antt =====
-- protoc-gen-ts/runtime/serialize.ts: each type reads back what it wrote.
use Prim.Native.Nat.{bit_and}
use dataform.Prelude.{
  ℕ, ◌+◌, ◌-◌, ◌*◌, ◌/◌, ◌%◌, ◌^◌, ◌<◌, ◌≡◌, refl, sym, ap, ◌∙◌, Bool, true, false, List, ◌++◌, ltb,
  nat_eq, length, Result, ok, ◌>>=◌, bind_ok, arith,
}
use dataform.Prelude.Bits.{bit_and_one, bit_xor-nothing, bit_xor_ones}
use dataform.Prelude.Int.{ℤ, pos, negsuc, wrap64, IsInt32, IsSafe, signed64-wrap64, wrap64-lt}
use dataform.Wire.Longs.{Long, Longs, IsLong, zero_long, one_long}
use dataform.Wire.Bytes.{BytesReader, write_var_int, read_var_int}
use dataform.Wire.Bytes.Varint.{groups, write_var_int-groups}
use dataform.Wire.Bytes.RoundTrip.{read_var_int-groups}
use dataform.Wire.Scalars.{
  zig_zag, un_zig_zag, write_int32, read_int32, write_uint32, read_uint32, write_enum, read_enum,
  write_sint32, read_sint32, write_int64, read_int64, write_uint64, read_uint64, write_bool,
  read_bool,
}

-- What is written for a value, and that it is read back, with whatever follows left.
pub record IsCoded {ℓ} {T : Type ℓ} (Shape : List ℕ → Type 0) (write : T → List ℕ → List ℕ)
    (read : BytesReader → Result (T × BytesReader)) (x : T) : Type ℓ where
  pub payload : List ℕ
  pub shaped : Shape payload
  pub written : (buffer : List ℕ) → write x buffer ≡ buffer ++ payload
  pub read_back :
      (size : ℕ) (rest : List ℕ)
      → read (record { size = size; unread = payload ++ rest })
        ≡ ok (x, record { size = size; unread = rest })

-- What the wire types say of the payload.
abbrev pub IsVarint : List ℕ → Type 0
IsVarint payload = (n : ℕ) × (n < 2 ^ 64) × (payload ≡ groups 9 n)

abbrev pub HasLength : ℕ → List ℕ → Type 0
HasLength n payload = length payload ≡ n

abbrev pub IsUint32 : ℤ → Type 0
IsUint32 (pos n) = n < 2 ^ 32
IsUint32 (negsuc n) = ⊥

-- The signed numbers are counted 0, -1, 1, -2, and so on.
zig_zag_lem :
    (z : ℤ) → IsInt32 z → zig_zag z ≡ elim z [ pos n ↦ pos (2 * n) | negsuc n ↦ pos (2 * n + 1) ]
unfolding zig_zag
zig_zag_lem (pos n) h =
    let low : ltb (n % 2 ^ 32) (2 ^ 31) ≡ true = ground arith in
    rw (low, bit_xor-nothing (n % 2 ^ 32 * 2 % 2 ^ 32)) (ap pos (omega arith))
zig_zag_lem (negsuc n) h =
    let high : ltb (2 ^ 32 - 1 - n % 2 ^ 32) (2 ^ 31) ≡ false = ground arith in
    rw (high, bit_xor_ones 32 ((2 ^ 32 - 1 - n % 2 ^ 32) * 2 % 2 ^ 32) (omega arith))
      (ap pos (omega arith))

un_zig_zag_even : (n : ℕ) → n < 2 ^ 31 → un_zig_zag (pos (2 * n)) ≡ pos n
unfolding un_zig_zag
un_zig_zag_even n h =
    let even : nat_eq (bit_and (2 * n % 2 ^ 32) 1) 0 ≡ true =
      ground (arith, bit_and_one (2 * n % 2 ^ 32)) in
    rw (even, bit_xor-nothing (2 * n % 2 ^ 32 / 2)) (ground arith)

un_zig_zag_odd : (n : ℕ) → n < 2 ^ 31 → un_zig_zag (pos (2 * n + 1)) ≡ negsuc n
unfolding un_zig_zag
un_zig_zag_odd n h =
    let odd : nat_eq (bit_and ((2 * n + 1) % 2 ^ 32) 1) 0 ≡ false =
      ground (arith, bit_and_one ((2 * n + 1) % 2 ^ 32)) in
    rw (odd, bit_xor_ones 32 ((2 * n + 1) % 2 ^ 32 / 2) (omega arith)) (ground arith)

un_zig_zag-zig_zag : (z : ℤ) → IsInt32 z → IsSafe (zig_zag z) × (un_zig_zag (zig_zag z) ≡ z)
un_zig_zag-zig_zag (pos n) h = rw (zig_zag_lem (pos n) h) (omega arith, un_zig_zag_even n h)
un_zig_zag-zig_zag (negsuc n) h = rw (zig_zag_lem (negsuc n) h) (omega arith, un_zig_zag_odd n h)

module _ (longs : Longs) where
  pub IsVarint-IsCoded {ℓ} :
      {T : Type ℓ} (x : T) (v : Long) (f : Long → T)
      → IsLong v
      → f (record v { unsigned = false }) ≡ x
      → IsCoded IsVarint
          (λ y. write_var_int longs v)
          (λ r. read_var_int longs r >>= λ p. ok (f p.0, p.1))
          x
  IsVarint-IsCoded x v f h e = record {
    payload = groups 9 v.bits;
    shaped = (v.bits, h, refl);
    written = λ buffer. write_var_int-groups longs v buffer h;
    read_back = λ size rest.
        rw (read_var_int-groups longs v.bits size rest h)
          (ap (λ y. ok (y, record { size = size; unread = rest })) e);
  }

  number-IsCoded :
      (z : ℤ) (f g : ℤ → ℤ)
      → IsSafe (g z)
      → f (g z) ≡ z
      → IsCoded IsVarint
          (λ y. write_var_int longs (longs.from_number (g z)))
          (λ r. read_var_int longs r >>= λ p. ok (f (longs.to_number p.0), p.1))
          z
  number-IsCoded z f g safe e =
      IsVarint-IsCoded z (longs.from_number (g z)) (λ v. f (longs.to_number v))
        (rw (longs.from_number_law (g z) safe) (wrap64-lt (g z)))
        (rw (longs.from_number_law (g z) safe) (
          ap f (
            longs.to_number_law (record { bits = wrap64 (g z); unsigned = false }) refl
              (rw (signed64-wrap64 (g z) safe) safe)
            ∙ signed64-wrap64 (g z) safe)
          ∙ e))

  -- The same value under functions that agree with those.
  pub IsCoded-as {ℓ} :
      {T : Type ℓ} {Shape : List ℕ → Type 0} {write : T → List ℕ → List ℕ}
      {read : BytesReader → Result (T × BytesReader)} {x : T} (write' : T → List ℕ → List ℕ)
      (read' : BytesReader → Result (T × BytesReader))
      → IsCoded Shape write read x
      → ((buffer : List ℕ) → write' x buffer ≡ write x buffer)
      → ((r : BytesReader) → read' r ≡ read r)
      → IsCoded Shape write' read' x
  IsCoded-as write' read' c same_write same_read = record {
    payload = c.payload;
    shaped = c.shaped;
    written = λ buffer. same_write buffer ∙ c.written buffer;
    read_back = λ size rest. same_read _ ∙ c.read_back size rest;
  }

  pub int32-IsCoded : (z : ℤ) → IsSafe z → IsCoded IsVarint (write_int32 longs) (read_int32 longs) z
  unfolding write_int32 read_int32
  int32-IsCoded z safe =
      IsCoded-as (write_int32 longs) (read_int32 longs)
        (number-IsCoded z (λ y. y) (λ y. y) safe refl) (λ b. refl) (λ r. refl)

  pub uint32-IsCoded :
      (z : ℤ) → IsSafe z → IsCoded IsVarint (write_uint32 longs) (read_uint32 longs) z
  unfolding write_uint32 read_uint32
  uint32-IsCoded z safe =
      IsCoded-as (write_uint32 longs) (read_uint32 longs)
        (number-IsCoded z (λ y. y) (λ y. y) safe refl) (λ b. refl) (λ r. refl)

  pub enum-IsCoded : (z : ℤ) → IsSafe z → IsCoded IsVarint (write_enum longs) (read_enum longs) z
  unfolding write_enum read_enum
  enum-IsCoded z safe =
      IsCoded-as (write_enum longs) (read_enum longs) (number-IsCoded z (λ y. y) (λ y. y) safe refl)
        (λ b. refl) (λ r. refl)

  pub sint32-IsCoded :
      (z : ℤ) → IsInt32 z → IsCoded IsVarint (write_sint32 longs) (read_sint32 longs) z
  unfolding write_sint32 read_sint32
  sint32-IsCoded z h =
      let (safe, back) = un_zig_zag-zig_zag z h in
      IsCoded-as (write_sint32 longs) (read_sint32 longs)
        (number-IsCoded z un_zig_zag zig_zag safe back) (λ b. refl) (λ r. refl)

  pub int64-IsCoded :
      (v : Long)
      → IsLong v
      → v.unsigned ≡ false
      → IsCoded IsVarint (write_int64 longs) (read_int64 longs) v
  unfolding write_int64 read_int64
  int64-IsCoded v h signed =
      IsCoded-as (write_int64 longs) (read_int64 longs)
        (IsVarint-IsCoded v v (λ w. w) h
          (ap (λ (b : Bool). record v { unsigned = b }) (sym signed)))
        (λ b. refl) (λ r. sym (bind_ok (read_var_int longs r)))

  pub uint64-IsCoded :
      (v : Long)
      → IsLong v
      → v.unsigned ≡ true
      → IsCoded IsVarint (write_uint64 longs) (read_uint64 longs) v
  unfolding write_uint64 read_uint64
  uint64-IsCoded v h unsigned =
      IsCoded-as (write_uint64 longs) (read_uint64 longs)
        (IsVarint-IsCoded v v longs.to_unsigned h (
          longs.to_unsigned_law (record v { unsigned = false })
          ∙ ap (λ (b : Bool). record v { unsigned = b }) (sym unsigned)))
        (λ b. refl) (λ r. refl)

  pub bool-IsCoded : (b : Bool) → IsCoded IsVarint (write_bool longs) (read_bool longs) b
  unfolding write_bool read_bool
  bool-IsCoded true =
      IsCoded-as (write_bool longs) (read_bool longs)
        (IsVarint-IsCoded true one_long longs.greater_than_zero (omega arith)
          (longs.greater_than_zero_law one_long))
        (λ b. refl) (λ r. refl)
  bool-IsCoded false =
      IsCoded-as (write_bool longs) (read_bool longs)
        (IsVarint-IsCoded false zero_long longs.greater_than_zero (omega arith)
          (longs.greater_than_zero_law zero_long))
        (λ b. refl) (λ r. refl)
