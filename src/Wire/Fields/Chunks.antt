-- ===== src/Wire/Fields/Chunks.antt =====
-- protoc-gen-ts/runtime/serialize.ts: messages as the protocol buffers encoding describes them, a sequence
-- of tags with payloads, and what `deserialize` makes of them.
use dataform.Prelude.{
  ℕ, zero, suc, ◌+◌, ◌*◌, ◌^◌, ◌≤◌, ltb, nat_eq, ◌<◌, ◌≡◌, refl, sym, ◌∙◌, subst, true, false, List,
  [], ◌∷◌, ◌++◌, append_assoc, map, length, length-append, All, ok, ◌>>=◌, arith,
}
use dataform.Prelude.Int.{ℤ, pos, signed64}
use dataform.Wire.Longs.{Longs}
use dataform.Wire.Bytes.{read_number_array, read_bytes}
use dataform.Wire.Bytes.Varint.{groups}
use dataform.Wire.Bytes.RoundTrip.{groups_bounds, read_var_int-groups, next_var_int_size-groups}
use dataform.Wire.Scalars.Laws.{IsVarint, HasLength}
use dataform.Wire.Fields.{
  WireType, varint, sixty_four_bit, length_delimited, thirty_two_bit, wire_number, field_number_of,
  wire_type_of, Field, read_payload, deserialize_within, deserialize,
}
use dataform.Wire.Fields.Ends.{deserialize_round}
use dataform.Wire.Fields.Tags.{tag_of_lem, tag_of_cases, wire_number-lt}

pub record Chunk : Type 0 where
  pub number : ℕ
  pub wire : WireType
  pub payload : List ℕ

-- What a payload of a wire type is.
abbrev pub IsPayload : WireType → List ℕ → Type 0
IsPayload varint payload = IsVarint payload
IsPayload sixty_four_bit payload = HasLength 8 payload
IsPayload length_delimited payload = length payload < 2 ^ 53
IsPayload thirty_two_bit payload = HasLength 4 payload

abbrev pub IsChunk : Chunk → Type 0
IsChunk c = (c.number < 2 ^ 28) × IsPayload c.wire c.payload

abbrev pub framed : WireType → List ℕ → List ℕ
framed varint payload = payload
framed sixty_four_bit payload = payload
framed length_delimited payload = groups 9 (length payload) ++ payload
framed thirty_two_bit payload = payload

abbrev pub chunk_bytes : Chunk → List ℕ
chunk_bytes c = groups 9 (c.number * 8 + wire_number c.wire) ++ framed c.wire c.payload

abbrev pub message_bytes : List Chunk → List ℕ
message_bytes [] = []
message_bytes (c ∷ chunks) = chunk_bytes c ++ message_bytes chunks

abbrev pub field_of : Chunk → Field
field_of c = record { number = pos c.number; bytes = c.payload }

pub read_number_array-append :
    (bytes rest : List ℕ) → read_number_array (length bytes) (bytes ++ rest) ≡ ok (bytes, rest)
unfolding read_number_array
read_number_array-append [] rest = refl
read_number_array-append (b ∷ bytes) rest = rw (read_number_array-append bytes rest) refl

read_bytes_of_length :
    (n size : ℕ) (bytes rest : List ℕ)
    → length bytes ≡ n
    → read_bytes (pos n) (record { size = size; unread = bytes ++ rest })
      ≡ ok (bytes, record { size = size; unread = rest })
unfolding read_bytes
read_bytes_of_length n size bytes rest h = rw (sym h, read_number_array-append bytes rest) refl

module _ (longs : Longs) where
  -- A number below 2 ^ 53 is written as a Long and read as the same number.
  pub number_back :
      (n : ℕ) → n < 2 ^ 53 → longs.to_number (record { bits = n; unsigned = false }) ≡ pos n
  number_back n h =
      let same : signed64 n ≡ pos n = ground arith in
      longs.to_number_law (record { bits = n; unsigned = false }) refl (rw same h) ∙ same

  read_payload-framed :
      (wire : WireType) (payload : List ℕ) (size : ℕ) (rest : List ℕ)
      → IsPayload wire payload
      → read_payload longs
          (wire_number wire)
          (record { size = size; unread = framed wire payload ++ rest })
        ≡ ok (payload, record { size = size; unread = rest })
  unfolding read_payload
  read_payload-framed varint payload size rest (n, below, e) =
      rw (e, next_var_int_size-groups 9 n rest (omega arith))
        (read_bytes_of_length (length (groups 9 n)) size (groups 9 n) rest refl)
  read_payload-framed sixty_four_bit payload size rest h =
      read_bytes_of_length 8 size payload rest h
  read_payload-framed length_delimited payload size rest h =
      rw
        (
          append_assoc (groups 9 (length payload)) payload rest,
          read_var_int-groups longs (length payload) size (payload ++ rest) (omega arith),
          number_back (length payload) h,
        )
        (read_bytes_of_length (length payload) size payload rest refl)
  read_payload-framed thirty_two_bit payload size rest h =
      read_bytes_of_length 4 size payload rest h

  tag-read :
      (c : Chunk)
      → IsChunk c
      → (longs.to_number (record { bits = c.number * 8 + wire_number c.wire; unsigned = false })
          ≡ pos (c.number * 8 + wire_number c.wire))
        × (wire_type_of (pos (c.number * 8 + wire_number c.wire)) ≡ wire_number c.wire)
        × (field_number_of (pos (c.number * 8 + wire_number c.wire)) ≡ pos c.number)
  tag-read c (number, payload) =
      let (wire_back, number_of) = tag_of_cases c.number c.wire (omega arith) in
      let small : ltb c.number (2 ^ 28) ≡ true = ground arith in
      (
        number_back (c.number * 8 + wire_number c.wire) (omega (arith, wire_number-lt c.wire)),
        subst (λ (t : ℤ). wire_type_of t ≡ wire_number c.wire) (tag_of_lem c.number c.wire number)
            wire_back,
        subst (λ (t : ℤ). field_number_of t ≡ pos c.number) (tag_of_lem c.number c.wire number)
            (number_of ∙ rw small refl),
      )

  not_done :
      (c : Chunk) (rest : List ℕ) → IsChunk c → nat_eq (length (chunk_bytes c ++ rest)) 0 ≡ false
  not_done c rest (number, payload) =
      let (least, most, bytes) =
        groups_bounds 9 (c.number * 8 + wire_number c.wire)
          (omega (arith, wire_number-lt c.wire)) in
      ground (
        arith,
        length-append (chunk_bytes c) rest,
        length-append (groups 9 (c.number * 8 + wire_number c.wire)) (framed c.wire c.payload),
      )

  chunk-read :
      (c : Chunk) (rest : List ℕ) (fuel size : ℕ)
      → IsChunk c
      → deserialize_within longs (suc fuel) (record { size = size; unread = chunk_bytes c ++ rest })
        ≡ (deserialize_within longs fuel (record { size = size; unread = rest }) >>= λ fields.
            ok (field_of c ∷ fields))
  chunk-read c rest fuel size h =
      let (value, wire_back, number_of) = tag-read c h in
      deserialize_round longs fuel (record { size = size; unread = chunk_bytes c ++ rest })
        (not_done c rest h)
      ∙ rw
          (
            append_assoc (groups 9 (c.number * 8 + wire_number c.wire)) (framed c.wire c.payload)
                rest,
            read_var_int-groups longs (c.number * 8 + wire_number c.wire) size
                (framed c.wire c.payload ++ rest) (omega (arith, wire_number-lt c.wire)),
            value,
            wire_back,
            read_payload-framed c.wire c.payload size rest h.1,
            number_of,
          )
          refl

  deserialize_within-message_bytes :
      (chunks : List Chunk) (fuel size : ℕ)
      → All IsChunk chunks
      → length chunks ≤ fuel
      → deserialize_within longs fuel (record { size = size; unread = message_bytes chunks })
        ≡ ok (map field_of chunks)
  unfolding deserialize_within
  deserialize_within-message_bytes [] zero size h enough = refl
  deserialize_within-message_bytes [] (suc fuel) size h enough = refl
  deserialize_within-message_bytes (c ∷ chunks) zero size h enough =
      let no : ⊥ = omega arith in absurd no
  deserialize_within-message_bytes (c ∷ chunks) (suc fuel) size (first, others) enough =
      chunk-read c (message_bytes chunks) fuel size first
      ∙ rw (deserialize_within-message_bytes chunks fuel size others (omega arith)) refl

  message_bytes-length :
      (chunks : List Chunk) → All IsChunk chunks → length chunks ≤ length (message_bytes chunks)
  message_bytes-length [] h = omega arith
  message_bytes-length (c ∷ chunks) (first, others) =
      let some_byte = not_done c [] first in
      ground (
        arith,
        message_bytes-length chunks others,
        length-append (chunk_bytes c) (message_bytes chunks),
        length-append (chunk_bytes c) [],
      )

  -- A message in the encoding is read as its fields, in their order.
  pub deserialize-message_bytes :
      (chunks : List Chunk)
      → All IsChunk chunks
      → deserialize longs (message_bytes chunks) ≡ ok (map field_of chunks)
  unfolding deserialize
  deserialize-message_bytes chunks h =
      deserialize_within-message_bytes chunks (length (message_bytes chunks))
        (length (message_bytes chunks)) h (message_bytes-length chunks h)
