-- ===== src/Wire/Messages.antt =====
-- protoc-gen-ts/runtime/serialize.ts: map fields, fields that hold messages, and the entries of a oneof.
pub mod RoundTrip
use dataform.Prelude.{
  ℕ, Bool, false, if◌then◌else◌, nat_eq, List, [], ◌∷◌, ◌++◌, Option, none, some, Result, ok, throw,
  ◌>>=◌, incomplete_map_entry, expected_one_value, length,
}
use dataform.Prelude.Int.{ℤ, pos, negsuc}
use dataform.Wire.Longs.{Longs}
use dataform.Wire.Bytes.{BytesReader, reader_of, read_all_bytes}
use dataform.Wire.Scalars.{write_bytes}
use dataform.Wire.Fields.{
  WireType, length_delimited, Value, repeated, Field, serialize_field, deserialize,
}

-- `Deserializer.single`
abbrev pub only_of {ℓ} : {T : Type ℓ} → List T → Result T
only_of (x ∷ []) = ok x
only_of values = throw (expected_one_value (length values))

-- `IDecoder.decode`, whose current value may be undefined.
abbrev pub Decoder {ℓ} : Type ℓ → Type ℓ
Decoder T = BytesReader → Option T → Result T

-- `single().decode` of a `NotPackedFieldDecoder`
abbrev pub decode_single_value {ℓ} :
    {T : Type ℓ} → (BytesReader → Result (T × BytesReader)) → Decoder T
decode_single_value read r current = read r >>= λ p. ok p.0

-- `{ field, value }` of `oneOfEntry`
pub record Entry {ℓ} (Name : Type 0) (T : Type ℓ) : Type ℓ where
  pub field : Name
  pub value : T

abbrev pub value_of {ℓ} : {Name : Type 0} {T : Type ℓ} → Option (Entry Name T) → Option T
value_of none = none
value_of (some entry) = some entry.value

abbrev pub one_of_entry {ℓ} :
    {Name : Type 0} {T : Type ℓ} → Name → Decoder T → Decoder (Entry Name T)
one_of_entry field decode r current =
    decode r (value_of current) >>= λ value. ok (record { field = field; value = value })

module _ {ℓ} {T : Type ℓ} (serialize_message : T → List ℕ)
    (deserialize_message : List ℕ → Result T) where
  -- `message(…).decode`
  unfoldable pub decode_message : BytesReader → List T → Result (List T)
  decode_message r current = do
    (bytes, rest) ← read_all_bytes r
    value ← deserialize_message bytes
    ok (current ++ (value ∷ []))

  -- `message(…).single().decode`
  unfoldable pub decode_single_message : Decoder T
  decode_single_message r none = read_all_bytes r >>= λ p. deserialize_message p.0
  decode_single_message r (some current) =
      read_all_bytes r >>= λ p. deserialize_message (serialize_message current ++ p.0)

module _ {ℓ κ} {K : Type ℓ} {V : Type κ} (longs : Longs) where
  -- A key and a value of a map are serialized with a serializer of their own.
  unfoldable pub write_entry :
      (K → List ℕ → List ℕ) → (V → List ℕ → List ℕ) → K × V → List ℕ → List ℕ
  write_entry serialize_key serialize_value entry writer =
      write_bytes longs (serialize_value entry.1 (serialize_key entry.0 [])) writer

  -- `Serializer.map` of the entries of the map
  unfoldable pub serialize_map :
      ℕ → (K → List ℕ → List ℕ) → (V → List ℕ → List ℕ) → List (K × V) → List ℕ → List ℕ
  serialize_map field_number serialize_key serialize_value entries buffer =
      serialize_field longs (write_entry serialize_key serialize_value) field_number
        length_delimited false (repeated entries) buffer

  module _ (decode_key : Decoder K) (decode_value : Decoder V) where
    -- The switch on the field's number.
    unfoldable pub entry_field : Field → Option K → Option V → Result (Option K × Option V)
    entry_field f key value = elim f.number [
      | pos n ↦
          if nat_eq n 1
          then (decode_key (reader_of f.bytes) key >>= λ k. ok (some k, value))
          else if nat_eq n 2
          then (decode_value (reader_of f.bytes) value >>= λ v. ok (key, some v))
          else ok (key, value)
      | negsuc n ↦ ok (key, value)
    ]

    unfoldable pub entry_fields : List Field → Option K → Option V → Result (Option K × Option V)
    entry_fields [] key value = ok (key, value)
    entry_fields (f ∷ fields) key value = do
      (new_key, new_value) ← entry_field f key value
      entry_fields fields new_key new_value

    abbrev pub complete {μ} : {M : Type μ} → (K → V → M → M) → M → Option K × Option V → Result M
    complete set current (some key, some value) = ok (set key value current)
    complete set current (none, value) = throw incomplete_map_entry
    complete set current (some key, none) = throw incomplete_map_entry

    -- The decoder of a map field, which has `set` of the map that it fills.
    unfoldable pub decode_map {μ} : {M : Type μ} → (K → V → M → M) → BytesReader → M → Result M
    decode_map set r current = do
      (bytes, rest) ← read_all_bytes r
      fields ← deserialize longs bytes
      entry ← entry_fields fields none none
      complete set current entry
