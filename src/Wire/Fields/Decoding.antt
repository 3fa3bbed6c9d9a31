-- ===== src/Wire/Fields/Decoding.antt =====
-- protoc-gen-ts/runtime/serialize.ts: what `serializeField` adds to the buffer, and that a repeated field is
-- decoded to the values it was serialized from.
use dataform.Prelude.{
  ℕ, zero, suc, ◌+◌, ◌*◌, ◌%◌, ◌^◌, ◌≤◌, ◌<◌, ◌≡◌, refl, sym, ap, ◌∙◌, subst, Bool, true, false,
  List, [], ◌∷◌, ◌++◌, append_assoc, append-nil, map, length, length-append, All, Result, ok, ◌>>=◌,
  arith,
}
use dataform.Prelude.Int.{pos}
use dataform.Wire.Longs.{Longs}
use dataform.Wire.Bytes.{BytesReader, reader_of, done, write_var_int}
use dataform.Wire.Bytes.Varint.{groups, write_var_int-groups}
use dataform.Wire.Bytes.RoundTrip.{groups_bounds}
use dataform.Wire.Scalars.{write_bytes}
use dataform.Wire.Scalars.Laws.{IsCoded}
use dataform.Wire.Fields.{
  WireType, varint, sixty_four_bit, length_delimited, thirty_two_bit, wire_number, repeated, Field,
  new_tag, write_packed, write_each, serialize_field, deserialize, decode_maybe_packed,
}
use dataform.Wire.Fields.Tags.{tag_of_lem, wire_number-lt}
use dataform.Wire.Fields.Chunks.{
  Chunk, IsChunk, IsPayload, framed, chunk_bytes, message_bytes, field_of,
  deserialize-message_bytes,
}

-- The wire types whose values can be packed.
abbrev pub IsPackable : WireType → Type 0
IsPackable varint = Unit
IsPackable sixty_four_bit = Unit
IsPackable length_delimited = ⊥
IsPackable thirty_two_bit = Unit

pub framed_packable :
    (wire : WireType) (payload : List ℕ) → IsPackable wire → framed wire payload ≡ payload
framed_packable varint payload h = refl
framed_packable sixty_four_bit payload h = refl
framed_packable length_delimited payload h = absurd h
framed_packable thirty_two_bit payload h = refl

payload_not_empty :
    (wire : WireType) (payload : List ℕ)
    → IsPackable wire
    → IsPayload wire payload
    → 1 ≤ length payload
payload_not_empty varint payload p (n, below, e) =
    let (least, most, bytes) = groups_bounds 9 n (omega arith) in rw e least
payload_not_empty sixty_four_bit payload p h = omega arith
payload_not_empty length_delimited payload p h = absurd p
payload_not_empty thirty_two_bit payload p h = omega arith

-- No number takes more than ten bytes.
payload_bounded :
    (wire : WireType) (payload : List ℕ)
    → IsPackable wire
    → IsPayload wire payload
    → length payload ≤ 10
payload_bounded varint payload p (n, below, e) =
    let (least, most, bytes) = groups_bounds 9 n (omega arith) in rw e most
payload_bounded sixty_four_bit payload p h = omega arith
payload_bounded length_delimited payload p h = absurd p
payload_bounded thirty_two_bit payload p h = omega arith

-- A decoder run over the fields of a message, as the generated code does, but for the numbers of the fields.
abbrev pub decode_fields {ℓ} :
    {S : Type ℓ} → (BytesReader → S → Result S) → List Field → S → Result S
decode_fields decode [] current = ok current
decode_fields decode (f ∷ fields) current =
    decode (reader_of f.bytes) current >>= decode_fields decode fields

abbrev pub decode_values {ℓ} :
    {T : Type ℓ} → (BytesReader → Result (T × BytesReader)) → BytesReader → List T → Result (List T)
decode_values read r current = decode_maybe_packed read (length r.unread) r current

module _ (longs : Longs) where
  long_of_number :
      (n : ℕ) (buffer : List ℕ)
      → n < 2 ^ 53
      → write_var_int longs (longs.from_number (pos n)) buffer ≡ buffer ++ groups 9 n
  long_of_number n buffer h =
      let same : n % 2 ^ 64 ≡ n = omega arith in
      rw (longs.from_number_law (pos n) h) (
        rw same
          (write_var_int-groups longs (record { bits = n; unsigned = false }) buffer (omega arith)))

  pub new_tag-groups :
      (n : ℕ) (wire : WireType) (buffer : List ℕ)
      → n < 2 ^ 28
      → new_tag longs n wire buffer ≡ buffer ++ groups 9 (n * 8 + wire_number wire)
  unfolding new_tag
  new_tag-groups n wire buffer h =
      rw (tag_of_lem n wire h)
        (long_of_number (n * 8 + wire_number wire) buffer (omega (arith, wire_number-lt wire)))

  pub write_bytes-framed :
      (v buffer : List ℕ)
      → length v < 2 ^ 53
      → write_bytes longs v buffer ≡ buffer ++ framed length_delimited v
  unfolding write_bytes
  write_bytes-framed v buffer h =
      rw (long_of_number (length v) buffer h) (append_assoc buffer (groups 9 (length v)) v)

  module _ {ℓ} {T : Type ℓ} (wire : WireType) (write : T → List ℕ → List ℕ)
      (read : BytesReader → Result (T × BytesReader)) where
    abbrev pub AreCoded : List T → Type ℓ
    AreCoded = All (IsCoded (IsPayload wire) write read)

    unfoldable pub payloads : (xs : List T) → AreCoded xs → List ℕ
    payloads [] c = []
    payloads (x ∷ xs) (c, cs) = c.payload ++ payloads xs cs

    chunks : ℕ → (xs : List T) → AreCoded xs → List Chunk
    chunks n [] c = []
    chunks n (x ∷ xs) (c, cs) =
        record { number = n; wire = wire; payload = c.payload } ∷ chunks n xs cs

    write_packed-payloads :
        (xs : List T) (c : AreCoded xs) (writer : List ℕ)
        → write_packed longs write xs writer ≡ writer ++ payloads xs c
    unfolding write_packed payloads
    write_packed-payloads [] c writer = sym (append-nil writer)
    write_packed-payloads (x ∷ xs) (c, cs) writer = rw (c.written writer) (
        write_packed-payloads xs cs (writer ++ c.payload)
        ∙ append_assoc writer c.payload (payloads xs cs))

    write_each-chunks :
        (n : ℕ) (xs : List T) (c : AreCoded xs) (buffer : List ℕ)
        → n < 2 ^ 28
        → IsPackable wire
        → write_each longs write n wire xs buffer ≡ buffer ++ message_bytes (chunks n xs c)
    unfolding write_each chunks
    write_each-chunks n [] c buffer h p = sym (append-nil buffer)
    write_each-chunks n (x ∷ xs) (c, cs) buffer h p =
        let tag = groups 9 (n * 8 + wire_number wire) in
        rw (new_tag-groups n wire buffer h, c.written (buffer ++ tag))
          (write_each-chunks n xs cs ((buffer ++ tag) ++ c.payload) h p
            ∙ rw (framed_packable wire c.payload p) (
                append_assoc (buffer ++ tag) c.payload _
                ∙ append_assoc buffer tag _
                ∙ ap (λ (l : List ℕ). buffer ++ l) (sym (append_assoc tag c.payload _))))

    chunks-AreChunks :
        (n : ℕ) (xs : List T) (c : AreCoded xs) → n < 2 ^ 28 → All IsChunk (chunks n xs c)
    unfolding chunks
    chunks-AreChunks n [] c h = tt
    chunks-AreChunks n (x ∷ xs) (c, cs) h = ((h, c.shaped), chunks-AreChunks n xs cs h)

    value_round :
        (fuel : ℕ) (r : BytesReader) (current : List T)
        → done r ≡ false
        → decode_maybe_packed read (suc fuel) r current
          ≡ (read r >>= λ p. decode_maybe_packed read fuel p.1 (current ++ (p.0 ∷ [])))
    unfolding decode_maybe_packed
    value_round fuel r current h = rw (h, decode_maybe_packed) refl

    value_read :
        (x : T) (c : IsCoded (IsPayload wire) write read x) (rest : List ℕ) (fuel size : ℕ)
        (current : List T)
        → IsPackable wire
        → decode_maybe_packed read
            (suc fuel)
            (record { size = size; unread = c.payload ++ rest })
            current
          ≡ decode_maybe_packed read fuel
              (record { size = size; unread = rest })
              (current ++ (x ∷ []))
    value_read x c rest fuel size current p =
        let more = payload_not_empty wire c.payload p c.shaped in
        value_round fuel (record { size = size; unread = c.payload ++ rest }) current
          (ground (arith, length-append c.payload rest))
        ∙ rw (c.read_back size rest) refl

    decode_maybe_packed-payloads :
        (xs : List T) (c : AreCoded xs) (fuel size : ℕ) (current : List T)
        → IsPackable wire
        → length xs ≤ fuel
        → decode_maybe_packed read fuel (record { size = size; unread = payloads xs c }) current
          ≡ ok (current ++ xs)
    unfolding decode_maybe_packed payloads
    decode_maybe_packed-payloads [] c zero size current p enough = ap ok (sym (append-nil current))
    decode_maybe_packed-payloads [] c (suc fuel) size current p enough =
        ap ok (sym (append-nil current))
    decode_maybe_packed-payloads (x ∷ xs) c zero size current p enough =
        let no : ⊥ = omega arith in absurd no
    decode_maybe_packed-payloads (x ∷ xs) (c, cs) (suc fuel) size current p enough =
        value_read x c (payloads xs cs) fuel size current p
        ∙ decode_maybe_packed-payloads xs cs fuel size (current ++ (x ∷ [])) p (omega arith)
        ∙ ap ok (append_assoc current (x ∷ []) xs)

    payloads-length :
        (xs : List T) (c : AreCoded xs) → IsPackable wire → length xs ≤ length (payloads xs c)
    unfolding payloads
    payloads-length [] c p = omega arith
    payloads-length (x ∷ xs) (c, cs) p = omega (
      arith,
      payloads-length xs cs p,
      length-append c.payload (payloads xs cs),
      payload_not_empty wire c.payload p c.shaped,
    )

    payloads-bounded :
        (xs : List T) (c : AreCoded xs) → IsPackable wire → length (payloads xs c) ≤ 10 * length xs
    unfolding payloads
    payloads-bounded [] c p = omega arith
    payloads-bounded (x ∷ xs) (c, cs) p = omega (
      arith,
      payloads-bounded xs cs p,
      length-append c.payload (payloads xs cs),
      payload_bounded wire c.payload p c.shaped,
    )

    pub decode_values-payloads :
        (xs : List T) (c : AreCoded xs) (current : List T)
        → IsPackable wire
        → decode_values read (reader_of (payloads xs c)) current ≡ ok (current ++ xs)
    decode_values-payloads xs c current p =
        decode_maybe_packed-payloads xs c (length (payloads xs c)) (length (payloads xs c)) current
          p (payloads-length xs c p)

    decode_fields-chunks :
        (n : ℕ) (xs : List T) (c : AreCoded xs) (current : List T)
        → IsPackable wire
        → decode_fields (decode_values read) (map field_of (chunks n xs c)) current
          ≡ ok (current ++ xs)
    unfolding chunks payloads
    decode_fields-chunks n [] c current p = ap ok (sym (append-nil current))
    decode_fields-chunks n (x ∷ xs) (c, cs) current p =
        let first : decode_values read (reader_of c.payload) current ≡ ok (current ++ (x ∷ [])) =
          subst
            (λ (l : List ℕ). decode_values read (reader_of l) current ≡ ok (current ++ (x ∷ [])))
            (append-nil c.payload) (decode_values-payloads (x ∷ []) (c, tt) current p) in
        rw first (
          decode_fields-chunks n xs cs (current ++ (x ∷ [])) p
          ∙ ap ok (append_assoc current (x ∷ []) xs))

    -- A repeated field whose values are coded is decoded to what it was serialized from, packed or not.
    pub decode-serialize_field :
        (n : ℕ) (packed : Bool) (xs : List T) (c : AreCoded xs)
        → n < 2 ^ 28
        → IsPackable wire
        → 10 * length xs < 2 ^ 53
        → (deserialize longs (serialize_field longs write n wire packed (repeated xs) [])
            >>= λ fields. decode_fields (decode_values read) fields [])
          ≡ ok xs
    unfolding serialize_field
    decode-serialize_field n false xs c h p fits =
        rw
          (
            write_each-chunks n xs c [] h p,
            deserialize-message_bytes longs (chunks n xs c) (chunks-AreChunks n xs c h),
          )
          (decode_fields-chunks n xs c [] p)
    decode-serialize_field n true xs c h p fits =
        let packed_bytes = write_packed-payloads xs c [] in
        let chunk : Chunk = record {
          number = n;
          wire = length_delimited;
          payload = payloads xs c;
        } in
        let short : length (payloads xs c) < 2 ^ 53 = omega (arith, payloads-bounded xs c p) in
        let one_chunk : write_bytes longs (payloads xs c) (new_tag longs n length_delimited [])
            ≡ message_bytes (chunk ∷ []) =
          write_bytes-framed (payloads xs c) (new_tag longs n length_delimited []) short
          ∙ rw (new_tag-groups n length_delimited [] h) (sym (append-nil (chunk_bytes chunk))) in
        rw
          (
            packed_bytes,
            one_chunk,
            deserialize-message_bytes longs (chunk ∷ []) ((h, short), tt),
            decode_values-payloads xs c [] p,
          )
          refl
