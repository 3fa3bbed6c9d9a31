-- ===== src/Wire/Serializer.antt =====
-- protoc-gen-ts/runtime/serialize.ts: the methods of `Serializer` and the decoders of `Decoders`, for each
-- type of fields but floating-point numbers.
pub mod Numbers
pub mod Messages
use dataform.Prelude.{ℕ, Bool, false, List, [], ◌∷◌, ◌++◌, Result, ok, ◌>>=◌}
use dataform.Prelude.Int.{ℤ}
use dataform.Wire.Longs.{Long, Longs}
use dataform.Wire.Bytes.{BytesReader, read_all_bytes}
use dataform.Wire.Scalars.{
  write_int32, write_uint32, write_enum, write_sint32, write_fixed32, write_sfixed32, write_int64,
  write_uint64, write_sint64, write_fixed64, write_sfixed64, write_bool, write_bytes,
}
use dataform.Wire.Fields.{
  varint, sixty_four_bit, length_delimited, thirty_two_bit, Value, serialize_field,
  decode_not_packed,
}

module _ (longs : Longs) (field_number : ℕ) (packed : Bool) where
  unfoldable pub int32 : Value ℤ → List ℕ → List ℕ
  int32 val = serialize_field longs (write_int32 longs) field_number varint packed val

  unfoldable pub fixed32 : Value ℤ → List ℕ → List ℕ
  fixed32 val = serialize_field longs (write_fixed32 longs) field_number thirty_two_bit packed val

  unfoldable pub uint32 : Value ℤ → List ℕ → List ℕ
  uint32 val = serialize_field longs (write_uint32 longs) field_number varint packed val

  unfoldable pub sfixed32 : Value ℤ → List ℕ → List ℕ
  sfixed32 val = serialize_field longs (write_sfixed32 longs) field_number thirty_two_bit packed val

  unfoldable pub sint32 : Value ℤ → List ℕ → List ℕ
  sint32 val = serialize_field longs (write_sint32 longs) field_number varint packed val

  unfoldable pub enum : Value ℤ → List ℕ → List ℕ
  enum val = serialize_field longs (write_enum longs) field_number varint packed val

  unfoldable pub int64 : Value Long → List ℕ → List ℕ
  int64 val = serialize_field longs (write_int64 longs) field_number varint packed val

  unfoldable pub uint64 : Value Long → List ℕ → List ℕ
  uint64 val = serialize_field longs (write_uint64 longs) field_number varint packed val

  unfoldable pub fixed64 : Value Long → List ℕ → List ℕ
  fixed64 val = serialize_field longs (write_fixed64 longs) field_number sixty_four_bit packed val

  unfoldable pub sfixed64 : Value Long → List ℕ → List ℕ
  sfixed64 val = serialize_field longs (write_sfixed64 longs) field_number sixty_four_bit packed val

  unfoldable pub sint64 : Value Long → List ℕ → List ℕ
  sint64 val = serialize_field longs (write_sint64 longs) field_number varint packed val

  unfoldable pub bool : Value Bool → List ℕ → List ℕ
  bool val = serialize_field longs (write_bool longs) field_number varint packed val

  -- Never packed, whatever is asked.
  unfoldable pub bytes : Value (List ℕ) → List ℕ → List ℕ
  bytes val = serialize_field longs (write_bytes longs) field_number length_delimited false val

  -- `string`, with the encoding of `Buffer.from`
  unfoldable pub string {ℓ} : {T : Type ℓ} → (T → List ℕ) → Value T → List ℕ → List ℕ
  string buffer_from val =
      serialize_field longs (λ s. write_bytes longs (buffer_from s)) field_number length_delimited
        false val

  -- `message`, with the `serialize` of its messages
  unfoldable pub message {ℓ} : {T : Type ℓ} → (T → List ℕ) → Value T → List ℕ → List ℕ
  message serialize val =
      serialize_field longs (λ m. write_bytes longs (serialize m)) field_number length_delimited
        false val

-- `Decoders.bytes` and `Decoders.string`, with the `toString` of buffers
unfoldable pub decode_bytes : BytesReader → List (List ℕ) → Result (List (List ℕ))
decode_bytes = decode_not_packed read_all_bytes

unfoldable pub decode_string {ℓ} :
    {T : Type ℓ} → (List ℕ → T) → BytesReader → List T → Result (List T)
decode_string to_string = decode_not_packed (λ r. read_all_bytes r >>= λ p. ok (to_string p.0, p.1))
