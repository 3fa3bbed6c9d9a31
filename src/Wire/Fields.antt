-- ===== src/Wire/Fields.antt =====
-- protoc-gen-ts/runtime/serialize.ts: `Serializer.serializeField` and `Deserializer.deserialize`, and the
-- decoders of repeated and single fields. The serializer is its buffer. The generator yields its fields
-- one by one; here all of them are read before the first is decoded.
pub mod Tags
pub mod Chunks
pub mod Decoding
pub mod Ends
use Prim.Native.Nat.{bit_and, bit_or}
use dataform.Prelude.{
  ℕ, zero, suc, ◌+◌, ◌-◌, ◌*◌, ◌/◌, ◌%◌, ◌^◌, Bool, true, false, List, [], ◌∷◌, ◌++◌, if◌then◌else◌,
  ltb, nat_eq, length, Option, none, some, Result, ok, throw, out_of_fuel, ◌>>=◌,
  unrecognized_wire_type, expected_one_value, incomplete_map_entry,
}
use dataform.Prelude.Int.{ℤ, pos, negsuc, wrap32, signed32}
use dataform.Wire.Longs.{Long, Longs}
use dataform.Wire.Bytes.{
  BytesReader, reader_of, done, next_var_int_size, read_bytes, read_all_bytes, write_var_int,
  read_var_int,
}
use dataform.Wire.Scalars.{write_bytes}

pub data WireType : Type 0 where
  varint sixty_four_bit length_delimited thirty_two_bit : WireType

abbrev pub wire_number : WireType → ℕ
wire_number varint = 0
wire_number sixty_four_bit = 1
wire_number length_delimited = 2
wire_number thirty_two_bit = 5

-- `T | T[]`
pub data Value {ℓ} (T : Type ℓ) : Type ℓ where
  single : T → Value T
  repeated : List T → Value T

-- `(fieldNumber << 3) | wireType`, a number of 32 bits
unfoldable pub tag_of : ℕ → WireType → ℤ
tag_of field_number wire = signed32 (bit_or (field_number * 8 % 2 ^ 32) (wire_number wire))

-- `tag >> 3`, which repeats the sign
unfoldable pub field_number_of : ℤ → ℤ
field_number_of tag =
    let p = wrap32 tag in if ltb p (2 ^ 31) then pos (p / 8) else negsuc ((2 ^ 32 - 1 - p) / 8)

-- `tag & 7`
unfoldable pub wire_type_of : ℤ → ℕ
wire_type_of tag = bit_and (wrap32 tag) 7

-- A field as it is yielded: its number, and the bytes of its reader.
pub record Field : Type 0 where
  pub number : ℤ
  pub bytes : List ℕ

module _ (longs : Longs) where
  unfoldable pub new_tag : ℕ → WireType → List ℕ → List ℕ
  unfolding tag_of
  new_tag field_number wire buffer =
      write_var_int longs (longs.from_number (tag_of field_number wire)) buffer

  module _ {ℓ} {T : Type ℓ} (write_single : T → List ℕ → List ℕ) where
    unfoldable pub write_packed : List T → List ℕ → List ℕ
    write_packed [] writer = writer
    write_packed (x ∷ values) writer = write_packed values (write_single x writer)

    unfoldable pub write_each : ℕ → WireType → List T → List ℕ → List ℕ
    unfolding new_tag
    write_each field_number wire [] buffer = buffer
    write_each field_number wire (x ∷ values) buffer =
        write_each field_number wire values (write_single x (new_tag field_number wire buffer))

    unfoldable pub serialize_field : ℕ → WireType → Bool → Value T → List ℕ → List ℕ
    serialize_field field_number wire packed (single x) buffer =
        write_single x (new_tag field_number wire buffer)
    serialize_field field_number wire packed (repeated values) buffer =
        if packed
        then write_bytes longs (write_packed values [])
            (new_tag field_number length_delimited buffer)
        else write_each field_number wire values buffer

  -- The bytes of a field, by the number of its wire type.
  unfoldable pub read_payload : ℕ → BytesReader → Result (List ℕ × BytesReader)
  unfolding read_bytes
  read_payload wire r =
      if nat_eq wire 0
      then (next_var_int_size r.unread >>= λ size. read_bytes (pos size) r)
      else if nat_eq wire 1
      then read_bytes (pos 8) r
      else if nat_eq wire 2
      then (read_var_int longs r >>= λ p. read_bytes (longs.to_number p.0) p.1)
      else if nat_eq wire 5
      then read_bytes (pos 4) r
      else throw (unrecognized_wire_type wire)

  -- The loop of `read`, with what is done with each tag. Every round takes a byte at least.
  unfoldable pub deserialize_within : ℕ → BytesReader → Result (List Field)
  unfolding field_number_of wire_type_of
  deserialize_within zero r = if done r then ok [] else out_of_fuel
  deserialize_within (suc fuel) r = elim (done r) [
    | true ↦ ok []
    | false ↦ do
      (tag, after_tag) ← read_var_int longs r
      let number = longs.to_number tag
      (bytes, rest) ← read_payload (wire_type_of number) after_tag
      fields ← deserialize_within fuel rest
      ok (record { number = field_number_of number; bytes = bytes } ∷ fields)
  ]

  unfoldable pub deserialize : List ℕ → Result (List Field)
  deserialize bytes = deserialize_within (length bytes) (reader_of bytes)

module _ {ℓ} {T : Type ℓ} (decode_single_value : BytesReader → Result (T × BytesReader)) where
  -- `NotPackedFieldDecoder.decode`
  unfoldable pub decode_not_packed : BytesReader → List T → Result (List T)
  decode_not_packed r current = decode_single_value r >>= λ p. ok (current ++ (p.0 ∷ []))

  -- `MaybePackedFieldDecoder.decode`. A value that takes no byte would be read for ever.
  unfoldable pub decode_maybe_packed : ℕ → BytesReader → List T → Result (List T)
  decode_maybe_packed zero r current = if done r then ok current else out_of_fuel
  decode_maybe_packed (suc fuel) r current = elim (done r) [
    | true ↦ ok current
    | false ↦ do
      (x, rest) ← decode_single_value r
      decode_maybe_packed fuel rest (current ++ (x ∷ []))
  ]

  abbrev pub only_value : List T → Result T
  only_value (x ∷ []) = ok x
  only_value values = throw (expected_one_value (length values))

  -- `MaybePackedFieldDecoder.single().decode`
  unfoldable pub decode_single : BytesReader → Result T
  unfolding decode_maybe_packed
  decode_single r = decode_maybe_packed (length r.unread) r [] >>= only_value
