-- ===== src/Wire/Messages/RoundTrip.antt =====
-- protoc-gen-ts/runtime/serialize.ts: maps, and fields with one value, are decoded to what they were
-- serialized from.
use dataform.Prelude.{
  ℕ, ◌+◌, ◌*◌, ◌^◌, ◌<◌, ◌≡◌, refl, sym, ap, ◌∙◌, subst, false, List, [], ◌∷◌, ◌++◌, append_assoc,
  append-nil, map, length, All, none, some, Result, ok, ◌>>=◌, arith,
}
use dataform.Wire.Longs.{Longs}
use dataform.Wire.Bytes.{BytesReader, reader_of, read_number_array, read_bytes, read_all_bytes}
use dataform.Wire.Bytes.Varint.{groups}
use dataform.Wire.Scalars.{write_bytes}
use dataform.Wire.Scalars.Laws.{IsCoded}
use dataform.Wire.Fields.{
  WireType, length_delimited, wire_number, single, Field, write_each, serialize_field, deserialize,
  decode_single,
}
use dataform.Wire.Fields.Chunks.{
  Chunk, IsChunk, IsPayload, chunk_bytes, message_bytes, field_of, read_number_array-append,
  deserialize-message_bytes,
}
use dataform.Wire.Fields.Decoding.{
  IsPackable, framed_packable, decode_fields, decode_values, payloads, decode_values-payloads,
  new_tag-groups, write_bytes-framed,
}
use dataform.Wire.Messages.{
  Decoder, write_entry, serialize_map, entry_field, entry_fields, decode_map, decode_single_message,
}

pub read_all_bytes-reader_of :
    (bytes : List ℕ)
    → read_all_bytes (reader_of bytes) ≡ ok (bytes, record { size = length bytes; unread = [] })
unfolding read_all_bytes read_bytes
read_all_bytes-reader_of bytes =
    subst
      (λ (l : List ℕ).
        (read_number_array (length bytes) l >>= λ p.
        ok (p.0, record { size = length bytes; unread = p.1 }))
        ≡ ok (bytes, record { size = length bytes; unread = [] }))
      (append-nil bytes) (rw (read_number_array-append bytes []) refl)

-- A value is serialized to one field of that number, which is decoded to it.
pub record IsKept {ℓ} {T : Type ℓ} (n : ℕ) (serialize : T → List ℕ → List ℕ) (decode : Decoder T)
    (x : T) : Type ℓ where
  pub wire : WireType
  pub payload : List ℕ
  pub shaped : IsPayload wire payload
  pub serialized :
      (buffer : List ℕ)
      → serialize x buffer
        ≡ buffer ++ chunk_bytes (record { number = n; wire = wire; payload = payload })
  pub decoded : decode (reader_of payload) none ≡ ok x

module _ (longs : Longs) where
  -- A single number.
  pub number-IsKept {ℓ} :
      {T : Type ℓ} (n : ℕ) (wire : WireType) (write : T → List ℕ → List ℕ)
      (read : BytesReader → Result (T × BytesReader)) (x : T)
      → n < 2 ^ 28
      → IsPackable wire
      → IsCoded (IsPayload wire) write read x
      → IsKept n
          (λ y. serialize_field longs write n wire false (single y))
          (λ r current. decode_single read r)
          x
  unfolding serialize_field decode_single payloads
  number-IsKept n wire write read x h p c = record {
    wire = wire;
    payload = c.payload;
    shaped = c.shaped;
    serialized = λ buffer.
        rw
          (
            new_tag-groups longs n wire buffer h,
            c.written (buffer ++ groups 9 (n * 8 + wire_number wire)),
            framed_packable wire c.payload p,
          )
          (append_assoc buffer (groups 9 (n * 8 + wire_number wire)) c.payload);
    decoded = rw (one) refl;
  }
    where
      one : decode_values read (reader_of c.payload) [] ≡ ok (x ∷ [])
      one =
          subst (λ (l : List ℕ). decode_values read (reader_of l) [] ≡ ok (x ∷ []))
            (append-nil c.payload)
            (decode_values-payloads longs wire write read (x ∷ []) (c, tt) [] p)

-- The field of a value whose bytes are preceded by their length.
unfoldable pub length_chunk {ℓ} : {T : Type ℓ} → (T → List ℕ) → ℕ → T → Chunk
length_chunk bytes_of n x = record { number = n; wire = length_delimited; payload = bytes_of x }

module _ {ℓ} {T : Type ℓ} (longs : Longs) (bytes_of : T → List ℕ) where
  pub length_chunk-AreChunks :
      (n : ℕ) (xs : List T)
      → n < 2 ^ 28
      → All (λ x. length (bytes_of x) < 2 ^ 53) xs
      → All IsChunk (map (length_chunk bytes_of n) xs)
  unfolding length_chunk
  length_chunk-AreChunks n [] h short = tt
  length_chunk-AreChunks n (x ∷ xs) h (first, others) =
      ((h, first), length_chunk-AreChunks n xs h others)

  pub write_each-length_chunk :
      (write : T → List ℕ → List ℕ)
      → ((x : T) (writer : List ℕ) → write x writer ≡ write_bytes longs (bytes_of x) writer)
      → (n : ℕ) (xs : List T) (buffer : List ℕ) → n < 2 ^ 28
      → All (λ x. length (bytes_of x) < 2 ^ 53) xs
      → write_each longs write n length_delimited xs buffer
        ≡ buffer ++ message_bytes (map (length_chunk bytes_of n) xs)
  unfolding write_each length_chunk
  write_each-length_chunk write same n [] buffer h short = sym (append-nil buffer)
  write_each-length_chunk write same n (x ∷ xs) buffer h (first, others) =
      let tag = groups 9 (n * 8 + 2) in
      rw
        (
          new_tag-groups longs n length_delimited buffer h,
          same x (buffer ++ tag),
          write_bytes-framed longs (bytes_of x) (buffer ++ tag) first,
        )
        (write_each-length_chunk write same n xs _ h others
          ∙ append_assoc (buffer ++ tag) _ _
          ∙ append_assoc buffer tag _
          ∙ ap (λ (l : List ℕ). buffer ++ l) (sym (append_assoc tag _ _)))

module _ {ℓ κ} {K : Type ℓ} {V : Type κ} (longs : Longs) (serialize_key : K → List ℕ → List ℕ)
    (serialize_value : V → List ℕ → List ℕ) (decode_key : Decoder K)
    (decode_value : Decoder V) where
  entry_bytes : K × V → List ℕ
  entry_bytes e = serialize_value e.1 (serialize_key e.0 [])

  -- The key is kept as field 1 and the value as field 2, and the entry has a length that fits.
  abbrev pub IsEntry : K × V → Type (ℓ ⊔ κ)
  IsEntry e =
      IsKept 1 serialize_key decode_key e.0
      × IsKept 2 serialize_value decode_value e.1
      × (length (serialize_value e.1 (serialize_key e.0 [])) < 2 ^ 53)

  short_entries :
      (entries : List (K × V))
      → All IsEntry entries
      → All (λ e. length (entry_bytes e) < 2 ^ 53) entries
  unfolding entry_bytes
  short_entries [] c = tt
  short_entries (e ∷ entries) ((key, value, short), cs) = (short, short_entries entries cs)

  key_chunk : (e : K × V) → IsEntry e → Chunk
  key_chunk e (key, value, short) = record { number = 1; wire = key.wire; payload = key.payload }

  value_chunk : (e : K × V) → IsEntry e → Chunk
  value_chunk e (key, value, short) = record {
    number = 2;
    wire = value.wire;
    payload = value.payload;
  }

  entry_bytes_lem :
      (e : K × V) (c : IsEntry e)
      → entry_bytes e ≡ message_bytes (key_chunk e c ∷ value_chunk e c ∷ [])
  unfolding entry_bytes key_chunk value_chunk
  entry_bytes_lem e (key, value, short) =
      rw (key.serialized [], value.serialized _)
        (ap (λ (l : List ℕ). chunk_bytes (key_chunk e (key, value, short)) ++ l)
          (sym (append-nil _)))

  deserialize-entry_bytes :
      (e : K × V) (c : IsEntry e)
      → deserialize longs (entry_bytes e)
        ≡ ok (field_of (key_chunk e c) ∷ field_of (value_chunk e c) ∷ [])
  unfolding key_chunk value_chunk
  deserialize-entry_bytes e (key, value, short) =
      let c : IsEntry e = (key, value, short) in
      rw (entry_bytes_lem e c) (
        deserialize-message_bytes longs (key_chunk e c ∷ value_chunk e c ∷ [])
          ((omega arith, key.shaped), ((omega arith, value.shaped), tt)))

  entry_fields-chunks :
      (e : K × V) (c : IsEntry e)
      → entry_fields longs decode_key decode_value
          (field_of (key_chunk e c) ∷ field_of (value_chunk e c) ∷ [])
          none
          none
        ≡ ok (some e.0, some e.1)
  unfolding entry_fields entry_field key_chunk value_chunk
  entry_fields-chunks e (key, value, short) = rw (key.decoded, value.decoded) refl

  module _ {μ} {M : Type μ} (set : K → V → M → M) where
    decode_map-entry_bytes :
        (e : K × V)
        → IsEntry e
        → (current : M)
        → decode_map longs decode_key decode_value set (reader_of (entry_bytes e)) current
          ≡ ok (set e.0 e.1 current)
    unfolding decode_map
    decode_map-entry_bytes e c current =
        rw
          (
            read_all_bytes-reader_of (entry_bytes e),
            deserialize-entry_bytes e c,
            entry_fields-chunks e c,
          )
          refl

    -- The map filled with entries, a later one over an earlier one.
    abbrev pub set_all : List (K × V) → M → M
    set_all [] current = current
    set_all (e ∷ entries) current = set_all entries (set e.0 e.1 current)

    decode_fields-entry_chunks :
        (n : ℕ) (entries : List (K × V)) (current : M)
        → All IsEntry entries
        → decode_fields
            (decode_map longs decode_key decode_value set)
            (map field_of (map (length_chunk entry_bytes n) entries))
            current
          ≡ ok (set_all entries current)
    unfolding length_chunk
    decode_fields-entry_chunks n [] current c = refl
    decode_fields-entry_chunks n (e ∷ entries) current (c, cs) =
        rw (decode_map-entry_bytes e c current)
          (decode_fields-entry_chunks n entries (set e.0 e.1 current) cs)

    -- A map field with a number below 2 ^ 28, whose entries have less than 2 ^ 53 bytes and keep their
    -- key as field 1 and their value as field 2, is decoded to the map with the entries that it was
    -- serialized from, where no other field stands in the bytes.
    pub decode_map-serialize_map :
        (n : ℕ) (entries : List (K × V)) (current : M)
        → n < 2 ^ 28
        → All IsEntry entries
        → (deserialize longs (serialize_map longs n serialize_key serialize_value entries [])
            >>= λ fields.
                decode_fields (decode_map longs decode_key decode_value set) fields current)
          ≡ ok (set_all entries current)
    unfolding serialize_map serialize_field entry_bytes write_entry
    decode_map-serialize_map n entries current h c =
        let short = short_entries entries c in
        rw
          (
            write_each-length_chunk longs entry_bytes
                (write_entry longs serialize_key serialize_value) (λ e writer. refl) n entries [] h
                short,
            deserialize-message_bytes longs (map (length_chunk entry_bytes n) entries)
                (length_chunk-AreChunks longs entry_bytes n entries h short),
          )
          (decode_fields-entry_chunks n entries current c)

message_bytes-append :
    (a b : List Chunk) → message_bytes a ++ message_bytes b ≡ message_bytes (a ++ b)
message_bytes-append [] b = refl
message_bytes-append (c ∷ a) b =
    append_assoc (chunk_bytes c) (message_bytes a) (message_bytes b)
    ∙ ap (λ (l : List ℕ). chunk_bytes c ++ l) (message_bytes-append a b)

All-append {ℓ} : {A : Type ℓ} (P : A → Type 0) (a b : List A) → All P a → All P b → All P (a ++ b)
All-append P [] b h k = k
All-append P (x ∷ a) b (h, hs) k = (h, All-append P a b hs k)

-- If the current value serializes to a sequence of fields, and the bytes of a second occurrence of a
-- field with a message are a sequence of fields, all with numbers below 2 ^ 28 and lengths below 2 ^ 53,
-- then the occurrence is decoded as one message with the fields of both, those of the current value
-- first.
pub decode_single_message_merges {ℓ} :
    {T : Type ℓ} (longs : Longs) (serialize_message : T → List ℕ)
    (from_fields : List Field → Result T) (current : T) (old new : List Chunk)
    → serialize_message current ≡ message_bytes old
    → All IsChunk old
    → All IsChunk new
    → decode_single_message serialize_message
        (λ bytes. deserialize longs bytes >>= from_fields)
        (reader_of (message_bytes new))
        (some current)
      ≡ from_fields (map field_of (old ++ new))
unfolding decode_single_message
decode_single_message_merges longs serialize_message from_fields current old new e h k =
    rw
      (
        read_all_bytes-reader_of (message_bytes new),
        e,
        message_bytes-append old new,
        deserialize-message_bytes longs (old ++ new) (All-append IsChunk old new h k),
      )
      refl
