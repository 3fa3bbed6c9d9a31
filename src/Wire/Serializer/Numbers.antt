-- ===== src/Wire/Serializer/Numbers.antt =====
-- protoc-gen-ts/runtime/serialize.ts: a repeated field of each type of numbers is decoded to the values that
-- it was serialized from.
use dataform.Prelude.{
  ℕ, ◌*◌, ◌^◌, ◌<◌, ◌≡◌, Bool, true, false, List, [], ◌∷◌, length, All, Result, ok, ◌>>=◌,
}
use dataform.Prelude.Int.{ℤ, IsInt32}
use dataform.Wire.Longs.{Long, Longs, IsLong}
use dataform.Wire.Bytes.{BytesReader}
use dataform.Wire.Scalars.{
  write_int32, read_int32, write_uint32, read_uint32, write_enum, read_enum, write_sint32,
  read_sint32, write_fixed32, read_fixed32, write_sfixed32, read_sfixed32, write_int64, read_int64,
  write_uint64, read_uint64, write_sint64, read_sint64, write_fixed64, read_fixed64, write_sfixed64,
  read_sfixed64, write_bool, read_bool,
}
use dataform.Wire.Scalars.Laws.{
  IsCoded, IsUint32, int32-IsCoded, uint32-IsCoded, enum-IsCoded, sint32-IsCoded, int64-IsCoded,
  uint64-IsCoded, bool-IsCoded,
}
use dataform.Wire.Scalars.Sixty.{
  fixed32-IsCoded, sfixed32-IsCoded, fixed64-IsCoded, sfixed64-IsCoded, sint64-IsCoded,
}
use dataform.Wire.Scalars.Whole.{int32-IsSafe, uint32-IsSafe}
use dataform.Wire.Fields.{varint, sixty_four_bit, thirty_two_bit, Value, repeated, deserialize}
use dataform.Wire.Fields.Chunks.{IsPayload}
use dataform.Wire.Fields.Decoding.{decode_fields, decode_values, decode-serialize_field}
use dataform.Wire.Serializer.{
  int32, fixed32, uint32, sfixed32, sint32, enum, int64, uint64, fixed64, sfixed64, sint64, bool,
}

-- The ranges of the signed and unsigned types of 64 bits.
abbrev pub IsSignedLong : Long → Type 0
IsSignedLong v = IsLong v × (v.unsigned ≡ false)

abbrev pub IsUnsignedLong : Long → Type 0
IsUnsignedLong v = IsLong v × (v.unsigned ≡ true)

All-map {ℓ κ μ} :
    {A : Type ℓ} {P : A → Type κ} {Q : A → Type μ} (f : (x : A) → P x → Q x) (xs : List A)
    → All P xs
    → All Q xs
All-map f [] h = tt
All-map f (x ∷ xs) (h, hs) = (f x h, All-map f xs hs)

-- A message with the field alone is decoded to the values.
abbrev pub IsDecoded {ℓ} :
    {T : Type ℓ}
    → Longs
    → (Value T → List ℕ → List ℕ)
    → (BytesReader → Result (T × BytesReader))
    → List T
    → Type ℓ
IsDecoded longs serialize read xs =
    (deserialize longs (serialize (repeated xs) []) >>= λ fields.
    decode_fields (decode_values read) fields [])
    ≡ ok xs

module _ (longs : Longs) (n : ℕ) (packed : Bool) where
  -- A repeated field of numbers, with any field number below 2 ^ 28, packed or not, is decoded to the
  -- values that it was serialized from, in their order.
  pub numbers-AreDecoded :
      (is us : List ℤ) (vs ws : List Long) (bs : List Bool)
      → n < 2 ^ 28
      → All IsInt32 is
      → All IsUint32 us
      → All IsSignedLong vs
      → All IsUnsignedLong ws
      → (10 * length is < 2 ^ 53)
        × (10 * length us < 2 ^ 53)
        × (10 * length vs < 2 ^ 53)
        × (10 * length ws < 2 ^ 53)
        × (10 * length bs < 2 ^ 53)
      → IsDecoded longs (int32 longs n packed) (read_int32 longs) is
        × IsDecoded longs (enum longs n packed) (read_enum longs) is
        × IsDecoded longs (sint32 longs n packed) (read_sint32 longs) is
        × IsDecoded longs (sfixed32 longs n packed) (read_sfixed32 longs) is
        × IsDecoded longs (uint32 longs n packed) (read_uint32 longs) us
        × IsDecoded longs (fixed32 longs n packed) (read_fixed32 longs) us
        × IsDecoded longs (int64 longs n packed) (read_int64 longs) vs
        × IsDecoded longs (sint64 longs n packed) (read_sint64 longs) vs
        × IsDecoded longs (sfixed64 longs n packed) (read_sfixed64 longs) vs
        × IsDecoded longs (uint64 longs n packed) (read_uint64 longs) ws
        × IsDecoded longs (fixed64 longs n packed) (read_fixed64 longs) ws
        × IsDecoded longs (bool longs n packed) (read_bool longs) bs
  unfolding int32 fixed32 uint32 sfixed32 sint32 enum int64 uint64 fixed64 sfixed64 sint64 bool
  numbers-AreDecoded is us vs ws bs h hi hu hv hw (ni, nu, nv, nw, nb) = (
    decode-serialize_field longs varint (write_int32 longs) (read_int32 longs) n packed is
        (All-map (λ i k. int32-IsCoded longs i (int32-IsSafe i k)) is hi) h tt ni,
    decode-serialize_field longs varint (write_enum longs) (read_enum longs) n packed is
        (All-map (λ i k. enum-IsCoded longs i (int32-IsSafe i k)) is hi) h tt ni,
    decode-serialize_field longs varint (write_sint32 longs) (read_sint32 longs) n packed is
        (All-map (sint32-IsCoded longs) is hi) h tt ni,
    decode-serialize_field longs thirty_two_bit (write_sfixed32 longs) (read_sfixed32 longs) n
        packed is (All-map (sfixed32-IsCoded longs) is hi) h tt ni,
    decode-serialize_field longs varint (write_uint32 longs) (read_uint32 longs) n packed us
        (All-map (λ u k. uint32-IsCoded longs u (uint32-IsSafe u k)) us hu) h tt nu,
    decode-serialize_field longs thirty_two_bit (write_fixed32 longs) (read_fixed32 longs) n packed
        us (All-map (fixed32-IsCoded longs) us hu) h tt nu,
    decode-serialize_field longs varint (write_int64 longs) (read_int64 longs) n packed vs
        (All-map (λ v k. int64-IsCoded longs v k.0 k.1) vs hv) h tt nv,
    decode-serialize_field longs varint (write_sint64 longs) (read_sint64 longs) n packed vs
        (All-map (λ v k. sint64-IsCoded longs v k.0 k.1) vs hv) h tt nv,
    decode-serialize_field longs sixty_four_bit (write_sfixed64 longs) (read_sfixed64 longs) n
        packed vs (All-map (λ v k. sfixed64-IsCoded longs v k.0 k.1) vs hv) h tt nv,
    decode-serialize_field longs varint (write_uint64 longs) (read_uint64 longs) n packed ws
        (All-map (λ v k. uint64-IsCoded longs v k.0 k.1) ws hw) h tt nw,
    decode-serialize_field longs sixty_four_bit (write_fixed64 longs) (read_fixed64 longs) n packed
        ws (All-map (λ v k. fixed64-IsCoded longs v k.0 k.1) ws hw) h tt nw,
    decode-serialize_field longs varint (write_bool longs) (read_bool longs) n packed bs
        (all-bools bs) h tt nb,
  )
    where
      all-bools :
          (xs : List Bool)
          → All (IsCoded (IsPayload varint) (write_bool longs) (read_bool longs)) xs
      all-bools [] = tt
      all-bools (b ∷ xs) = (bool-IsCoded longs b, all-bools xs)
