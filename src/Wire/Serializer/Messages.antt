-- ===== src/Wire/Serializer/Messages.antt =====
-- protoc-gen-ts/runtime/serialize.ts: a repeated field of messages, strings or bytes is decoded to the
-- values that it was serialized from.
use dataform.Prelude.{
  ℕ, ◌^◌, ◌<◌, ◌≡◌, refl, sym, ap, ◌∙◌, Bool, List, [], ◌∷◌, ◌++◌, append_assoc, append-nil, map,
  length, All, Result, ok, ◌>>=◌,
}
use dataform.Wire.Longs.{Longs}
use dataform.Wire.Bytes.{BytesReader, reader_of}
use dataform.Wire.Scalars.{write_bytes}
use dataform.Wire.Fields.{repeated, serialize_field, deserialize, decode_not_packed}
use dataform.Wire.Fields.Chunks.{field_of, deserialize-message_bytes}
use dataform.Wire.Fields.Decoding.{decode_fields}
use dataform.Wire.Messages.{decode_message}
use dataform.Wire.Messages.RoundTrip.{
  read_all_bytes-reader_of, length_chunk, length_chunk-AreChunks, write_each-length_chunk,
}
use dataform.Wire.Serializer.{message, string, decode_string}

module _ {ℓ} {T : Type ℓ} (longs : Longs) (bytes_of : T → List ℕ)
    (decode : BytesReader → List T → Result (List T)) (P : T → Type ℓ) where
  -- A decoder that adds the value of a field.
  abbrev Adds : Type ℓ
  Adds =
      (x : T)
      → P x
      → (current : List T) → decode (reader_of (bytes_of x)) current ≡ ok (current ++ (x ∷ []))

  decode_fields-length_chunk :
      Adds
      → (n : ℕ) (xs : List T) (current : List T) → All P xs
      → decode_fields decode (map field_of (map (length_chunk bytes_of n) xs)) current
        ≡ ok (current ++ xs)
  unfolding length_chunk
  decode_fields-length_chunk adds n [] current h = ap ok (sym (append-nil current))
  decode_fields-length_chunk adds n (x ∷ xs) current (h, hs) = rw (adds x h current) (
      decode_fields-length_chunk adds n xs (current ++ (x ∷ [])) hs
      ∙ ap ok (append_assoc current (x ∷ []) xs))

module _ {ℓ} {T : Type ℓ} (longs : Longs) (serialize : T → List ℕ) where
  -- A repeated field with a number below 2 ^ 28, of values that serialize to less than 2 ^ 53 bytes each
  -- and that both the deserialization of a message and the decoding of a string give back, is decoded to
  -- the values that it was serialized from, as messages and as strings, where no other field stands in
  -- the bytes.
  pub decode-message :
      (deserialize_message : List ℕ → Result T) (to_string : List ℕ → T) (n : ℕ) (packed : Bool)
      (xs : List T)
      → n < 2 ^ 28
      → All (λ x. deserialize_message (serialize x) ≡ ok x) xs
      → All (λ x. to_string (serialize x) ≡ x) xs
      → All (λ x. length (serialize x) < 2 ^ 53) xs
      → ((deserialize longs (message longs n packed serialize (repeated xs) []) >>= λ fields.
            decode_fields (decode_message serialize deserialize_message) fields [])
          ≡ ok xs)
        × ((deserialize longs (string longs n packed serialize (repeated xs) []) >>= λ fields.
              decode_fields (decode_string to_string) fields [])
            ≡ ok xs)
  unfolding message string serialize_field decode_message decode_string decode_not_packed
  decode-message deserialize_message to_string n packed xs h from_message from_string short =
      let written =
        write_each-length_chunk longs serialize (λ x. write_bytes longs (serialize x))
          (λ x writer. refl) n xs [] h short in
      let read =
        deserialize-message_bytes longs (map (length_chunk serialize n) xs)
          (length_chunk-AreChunks longs serialize n xs h short) in
      (
        rw (written, read)
            (decode_fields-length_chunk longs serialize
              (decode_message serialize deserialize_message) _ adds_message n xs [] from_message),
        rw (written, read)
            (decode_fields-length_chunk longs serialize (decode_string to_string) _ adds_string n xs
              [] from_string),
      )
    where
      adds_message :
          Adds longs serialize
            (decode_message serialize deserialize_message)
            (λ x. deserialize_message (serialize x) ≡ ok x)
      adds_message x e current = (rw (read_all_bytes-reader_of (serialize x), e) refl)

      adds_string :
          Adds longs serialize (decode_string to_string) (λ x. to_string (serialize x) ≡ x)
      adds_string x e current = (rw (read_all_bytes-reader_of (serialize x), e) refl)
