-- ===== src/Wire/Tests.antt =====
-- protoc-gen-ts/runtime/serialize.ts at concrete values, with a package long that is its documentation.
use Prim.Native.Nat.{bit_and, bit_or, bit_xor}
use dataform.Prelude.{
  map, ℕ, ◌+◌, ◌-◌, ◌*◌, ◌/◌, ◌%◌, ◌^◌, ◌≤◌, ◌<◌, ◌≡◌, ◌≢◌, refl, Bool, true, false, ◌&&◌, List, [],
  ◌∷◌, ◌++◌, if◌then◌else◌, ltb, nat_eq, length, All, some, ok, out_of_fuel, ◌>>=◌, arith,
}
use dataform.Prelude.Int.{ℤ, pos, negsuc, wrap64, signed64}
use dataform.Wire.Longs.{Long, Longs, little_endian}
use dataform.Wire.Bytes.{reader_of, write_positive, write_var_int, read_var_int}
use dataform.Wire.Bytes.Varint.{groups}
use dataform.Wire.Scalars.{write_int32, read_int32, write_bool, read_bool, read_sint32}
use dataform.Wire.Scalars.Laws.{IsCoded, IsVarint, int32-IsCoded, bool-IsCoded}
use dataform.Wire.Scalars.Whole.{scalars-AreReadBack, IsReadBack}
use dataform.Wire.Fields.{
  Field, varint, length_delimited, tag_of, field_number_of, wire_type_of, single, repeated, new_tag,
  serialize_field, deserialize, decode_single,
}
use dataform.Wire.Fields.Tags.{tag_of_cases}
use dataform.Wire.Fields.Chunks.{Chunk, field_of, IsChunk, message_bytes, deserialize-message_bytes}
use dataform.Wire.Fields.Ends.{deserialize_ends}
use dataform.Wire.Fields.Decoding.{decode_fields, decode_values, decode-serialize_field}
use dataform.Wire.Serializer.{sint32, message, string, decode_string}
use dataform.Wire.Serializer.Numbers.{IsDecoded, numbers-AreDecoded}
use dataform.Wire.Serializer.Messages.{decode-message}
use dataform.Wire.Messages.{
  Decoder, decode_message, serialize_map, decode_map, decode_single_message,
}
use dataform.Wire.Messages.RoundTrip.{
  number-IsKept, decode_map-serialize_map, decode_single_message_merges,
}
use dataform.Wire.Bytes.RoundTrip.{read_var_int-write_var_int, write_var_int_bounds}

abbrev documented : Longs
documented = record {
  is_zero = λ v. nat_eq v.bits 0;
  greater_than_zero = λ v. ltb 0 v.bits && (if v.unsigned then true else ltb v.bits (2 ^ 63));
  get_low_bits = λ v. v.bits % 2 ^ 32;
  get_high_bits = λ v. v.bits / 2 ^ 32 % 2 ^ 32;
  shift_left = λ v k. record v { bits = v.bits * 2 ^ k % 2 ^ 64 };
  shift_right = λ v k. record v {
    bits = v.bits / 2 ^ k + (if ltb v.bits (2 ^ 63) then 0 else 2 ^ 64 - 2 ^ (64 - k));
  };
  shift_right_unsigned = λ v k. record v { bits = v.bits / 2 ^ k };
  or = λ v n. record v { bits = bit_or v.bits n };
  and = λ v n. record v { bits = bit_and v.bits n };
  xor = λ v w. record v { bits = bit_xor v.bits w.bits };
  negate = λ v. record v { bits = (2 ^ 64 - v.bits) % 2 ^ 64 };
  from_number = λ z. record { bits = wrap64 z; unsigned = false };
  to_number = λ v. signed64 v.bits;
  to_unsigned = λ v. record v { unsigned = true };
  from_bytes_le = λ bytes u. record { bits = little_endian bytes; unsigned = u };
  is_zero_law = λ v. refl;
  greater_than_zero_law = λ v. refl;
  get_low_bits_law = λ v. refl;
  get_high_bits_law = λ v. refl;
  shift_left_law = λ v k h. refl;
  shift_right_law = λ v k h. refl;
  shift_right_unsigned_law = λ v k h. refl;
  or_law = λ v n h. refl;
  and_law = λ v n h. refl;
  xor_law = λ v w. refl;
  negate_law = λ v h. refl;
  from_number_law = λ z h. refl;
  to_number_law = λ v signed h. refl;
  to_unsigned_law = λ v. refl;
  from_bytes_le_law = λ a b c d e f g h u bytes. refl;
}

abbrev minus_two : Long
minus_two = record { bits = 2 ^ 64 - 2; unsigned = false }

read_var_int-write_var_int_example :
    read_var_int documented
      (record { size = 12; unread = write_var_int documented minus_two [] ++ (7 ∷ []) })
    ≡ ok (minus_two, record { size = 12; unread = 7 ∷ [] })
read_var_int-write_var_int_example =
    read_var_int-write_var_int documented minus_two 12 (7 ∷ []) (omega arith)

write_var_int_300 :
    write_var_int documented (record { bits = 300; unsigned = false }) [] ≡ 172 ∷ 2 ∷ []
unfolding write_var_int write_positive
write_var_int_300 = refl

write_var_int_bounds_example :
    (added : List ℕ) × (write_var_int documented minus_two (7 ∷ []) ≡ (7 ∷ []) ++ added)
    × (1 ≤ length added)
    × (length added ≤ 10)
    × All (λ b. b < 256) added
write_var_int_bounds_example = write_var_int_bounds documented minus_two (7 ∷ []) (omega arith)

scalars-AreReadBack_example : IsReadBack (write_int32 documented) (read_int32 documented) (negsuc 6)
scalars-AreReadBack_example =
    (scalars-AreReadBack documented (negsuc 6) (pos 4000000000) minus_two true (omega arith)
      (omega arith) (omega arith)).0

tag_of_cases_example :
    (wire_type_of (tag_of 268435456 varint) ≡ 0)
    × (field_number_of (tag_of 268435456 varint) ≡ negsuc 268435455)
tag_of_cases_example = tag_of_cases 268435456 varint (omega arith)

abbrev two_chunks : List Chunk
two_chunks =
    record { number = 1; wire = varint; payload = 172 ∷ 2 ∷ [] }
    ∷ record { number = 2; wire = length_delimited; payload = 9 ∷ 8 ∷ 7 ∷ [] }
    ∷ []

two_chunks-AreChunks : All IsChunk two_chunks
unfolding groups
two_chunks-AreChunks = ((omega arith, (300, omega arith, refl)), ((omega arith, omega arith), tt))

deserialize-message_bytes_example :
    deserialize documented (message_bytes two_chunks)
    ≡ ok (
        record { number = pos 1; bytes = 172 ∷ 2 ∷ [] }
        ∷ record { number = pos 2; bytes = 9 ∷ 8 ∷ 7 ∷ [] }
        ∷ [])
deserialize-message_bytes_example =
    deserialize-message_bytes documented two_chunks two_chunks-AreChunks

deserialize_ends_example : deserialize documented (8 ∷ 172 ∷ []) ≢ out_of_fuel
deserialize_ends_example = deserialize_ends documented (8 ∷ 172 ∷ [])

abbrev two_numbers : List ℤ
two_numbers = pos 3 ∷ negsuc 1 ∷ []

two_numbers-AreCoded :
    All (IsCoded IsVarint (write_int32 documented) (read_int32 documented)) two_numbers
two_numbers-AreCoded = (
  int32-IsCoded documented (pos 3) (omega arith),
  (int32-IsCoded documented (negsuc 1) (omega arith), tt),
)

decode-serialize_field_example :
    (deserialize documented (
        serialize_field documented (write_int32 documented) 4 varint true (repeated two_numbers) [])
      >>= λ fields. decode_fields (decode_values (read_int32 documented)) fields [])
    ≡ ok two_numbers
decode-serialize_field_example =
    decode-serialize_field documented varint (write_int32 documented) (read_int32 documented) 4 true
      two_numbers two_numbers-AreCoded (omega arith) tt (omega arith)

-- A map from int32 to bool, as entries of which the latest is first.
abbrev write_key : ℤ → List ℕ → List ℕ
write_key key = serialize_field documented (write_int32 documented) 1 varint false (single key)

abbrev write_value : Bool → List ℕ → List ℕ
write_value value = serialize_field documented (write_bool documented) 2 varint false (single value)

abbrev decode_key : Decoder ℤ
decode_key r current = decode_single (read_int32 documented) r

abbrev decode_value : Decoder Bool
decode_value r current = decode_single (read_bool documented) r

abbrev cons_entry : ℤ → Bool → List (ℤ × Bool) → List (ℤ × Bool)
cons_entry key value entries = (key, value) ∷ entries

entry_length : length (write_value true (write_key (pos 9) [])) ≡ 4
unfolding serialize_field new_tag tag_of write_int32 write_bool write_var_int write_positive
entry_length = refl

decode_map-serialize_map_example :
    (deserialize documented
        (serialize_map documented 3 write_key write_value ((pos 9, true) ∷ []) [])
      >>= λ fields.
          decode_fields (decode_map documented decode_key decode_value cons_entry) fields [])
    ≡ ok ((pos 9, true) ∷ [])
decode_map-serialize_map_example =
    decode_map-serialize_map documented write_key write_value decode_key decode_value cons_entry 3
      ((pos 9, true) ∷ []) [] (omega arith)
      (
        (
          number-IsKept documented 1 varint (write_int32 documented) (read_int32 documented) (pos 9)
              (omega arith) tt (int32-IsCoded documented (pos 9) (omega arith)),
          number-IsKept documented 2 varint (write_bool documented) (read_bool documented) true
              (omega arith) tt (bool-IsCoded documented true),
          omega (arith, entry_length),
        ),
        tt,
      )

-- A message that is kept as its fields, and has two of them.
decode_single_message_merges_example :
    decode_single_message
      (λ (fields : List Field). message_bytes two_chunks)
      (λ bytes. deserialize documented bytes >>= λ fields. ok fields)
      (reader_of (message_bytes two_chunks))
      (some (map field_of two_chunks))
    ≡ ok (map field_of (two_chunks ++ two_chunks))
decode_single_message_merges_example =
    decode_single_message_merges documented (λ fields. message_bytes two_chunks)
      (λ fields. ok fields) (map field_of two_chunks) two_chunks two_chunks refl
      two_chunks-AreChunks two_chunks-AreChunks

numbers-AreDecoded_example :
    IsDecoded documented (sint32 documented 5 true) (read_sint32 documented) two_numbers
numbers-AreDecoded_example =
    (numbers-AreDecoded documented 5 true two_numbers (pos 4000000000 ∷ []) (minus_two ∷ []) []
      (true ∷ []) (omega arith) (omega arith, (omega arith, tt)) (omega arith, tt)
      ((omega arith, refl), tt) tt
      (omega arith, omega arith, omega arith, omega arith, omega arith)).2

decode-message_example :
    ((deserialize documented
          (message documented 2 false (λ (x : List ℕ). x) (repeated ((1 ∷ 2 ∷ []) ∷ [] ∷ [])) [])
        >>= λ fields. decode_fields (decode_message (λ (x : List ℕ). x) (λ x. ok x)) fields [])
      ≡ ok ((1 ∷ 2 ∷ []) ∷ [] ∷ []))
    × ((deserialize documented
            (string documented 2 false (λ (x : List ℕ). x) (repeated ((1 ∷ 2 ∷ []) ∷ [] ∷ [])) [])
          >>= λ fields. decode_fields (decode_string (λ (x : List ℕ). x)) fields [])
        ≡ ok ((1 ∷ 2 ∷ []) ∷ [] ∷ []))
decode-message_example =
    decode-message documented (λ x. x) (λ x. ok x) (λ x. x) 2 false ((1 ∷ 2 ∷ []) ∷ [] ∷ [])
      (omega arith) (refl, (refl, tt)) (refl, (refl, tt)) (omega arith, (omega arith, tt))
