-- ===== src/Wire/Fields/Ends.antt =====
-- protoc-gen-ts/runtime/serialize.ts: the reading of a message ends, whatever its bytes are.
use dataform.Prelude.{
  ℕ, zero, suc, ◌≤◌, ◌≡◌, ◌≢◌, refl, inl, inr, true, false, List, [], ◌∷◌, nat_eq, length, take,
  drop, length-drop-le, Bool-cases, Result, ok, throw, out_of_fuel, ◌>>=◌, arith,
}
use Prim.Native.Nat.{bit_and}
use dataform.Prelude.Int.{ℤ, pos}
use dataform.Wire.Longs.{Longs}
use dataform.Wire.Bytes.{
  BytesReader, reader_of, done, rounds, next_var_int_size, read_number_array, read_bytes,
  var_int_value, read_var_int,
}
use dataform.Wire.Fields.{
  wire_type_of, field_number_of, read_payload, deserialize_within, deserialize,
}

-- What a reader returns leaves at most so many bytes, and it does return.
abbrev Leaves {ℓ} : {A : Type ℓ} → ℕ → Result (A × BytesReader) → Type 0
Leaves bound (ok p) = length p.1.unread ≤ bound
Leaves bound (throw err) = Unit
Leaves bound out_of_fuel = ⊥

Leaves-bind {ℓ κ} :
    {A : Type ℓ} {B : Type κ} (bound left : ℕ) (m : Result (A × BytesReader))
    (next : A × BytesReader → Result (B × BytesReader))
    → Leaves bound m
    → ((p : A × BytesReader) → length p.1.unread ≤ bound → Leaves left (next p))
    → Leaves left (m >>= next)
Leaves-bind bound left (ok p) next h step = step p h
Leaves-bind bound left (throw err) next h step = tt
Leaves-bind bound left out_of_fuel next h step = absurd h

-- A size that was found, and is not nothing.
abbrev IsFound : Result ℕ → Type 0
IsFound (ok n) = 1 ≤ n
IsFound (throw err) = Unit
IsFound out_of_fuel = ⊥

next_var_int_size-IsFound : (bytes : List ℕ) → IsFound (next_var_int_size bytes)
unfolding next_var_int_size
next_var_int_size-IsFound [] = tt
next_var_int_size-IsFound (b ∷ bytes) = elim (Bool-cases (nat_eq (bit_and b 128) 0)) [
  | inl last ↦ rw last (omega arith)
  | inr more ↦ rw more (one_more (next_var_int_size bytes) (next_var_int_size-IsFound bytes))
]
  where
    one_more : (found : Result ℕ) → IsFound found → IsFound (found >>= λ n. ok (suc n))
    one_more (ok n) h = omega arith
    one_more (throw err) h = tt
    one_more out_of_fuel h = absurd h

abbrev LeavesList : ℕ → Result (List ℕ × List ℕ) → Type 0
LeavesList bound (ok p) = length p.1 ≤ bound
LeavesList bound (throw err) = Unit
LeavesList bound out_of_fuel = ⊥

read_number_array-LeavesList :
    (n : ℕ) (bytes : List ℕ) → LeavesList (length bytes) (read_number_array n bytes)
unfolding read_number_array
read_number_array-LeavesList zero bytes = omega arith
read_number_array-LeavesList (suc n) [] = tt
read_number_array-LeavesList (suc n) (b ∷ bytes) =
    one_more (read_number_array n bytes) (read_number_array-LeavesList n bytes)
  where
    one_more :
        (read : Result (List ℕ × List ℕ))
        → LeavesList (length bytes) read
        → LeavesList (suc (length bytes)) (read >>= λ p. ok (b ∷ p.0, p.1))
    one_more (ok p) h = omega arith
    one_more (throw err) h = tt
    one_more out_of_fuel h = absurd h

read_bytes-Leaves : (z : ℤ) (r : BytesReader) → Leaves (length r.unread) (read_bytes z r)
unfolding read_bytes
read_bytes-Leaves z r =
    resized (read_number_array (rounds z) r.unread)
      (read_number_array-LeavesList (rounds z) r.unread)
  where
    resized :
        (read : Result (List ℕ × List ℕ))
        → LeavesList (length r.unread) read
        → Leaves (length r.unread) (read >>= λ p. ok (p.0, record r { unread = p.1 }))
    resized (ok p) h = h
    resized (throw err) h = tt
    resized out_of_fuel h = absurd h

length-drop-lt :
    (n : ℕ) (bytes : List ℕ) (m : ℕ) → 1 ≤ n → length bytes ≤ suc m → length (drop n bytes) ≤ m
length-drop-lt zero bytes m h short = let no : ⊥ = omega arith in absurd no
length-drop-lt (suc n) [] m h short = omega arith
length-drop-lt (suc n) (b ∷ bytes) m h short = omega (arith, length-drop-le n bytes)

module _ (longs : Longs) where
  read_var_int-Leaves :
      (r : BytesReader) (m : ℕ) → length r.unread ≤ suc m → Leaves m (read_var_int longs r)
  unfolding read_var_int
  read_var_int-Leaves r m short =
      sized (next_var_int_size r.unread) (next_var_int_size-IsFound r.unread)
    where
      sized :
          (found : Result ℕ)
          → IsFound found
          → Leaves m (
              found >>= λ size.
              ok (
                var_int_value longs (take size r.unread),
                record r { unread = drop size r.unread },
              ))
      sized (ok size) h = length-drop-lt size r.unread m h short
      sized (throw err) h = tt
      sized out_of_fuel h = absurd h

  weaker {ℓ} :
      {A : Type ℓ} (a b : ℕ) (m : Result (A × BytesReader)) → a ≤ b → Leaves a m → Leaves b m
  weaker a b (ok p) le h = omega arith
  weaker a b (throw err) le h = tt
  weaker a b out_of_fuel le h = absurd h

  read_payload-Leaves :
      (wire : ℕ) (r : BytesReader) (m : ℕ)
      → length r.unread ≤ m
      → Leaves m (read_payload longs wire r)
  unfolding read_payload
  read_payload-Leaves wire r m short = elim (Bool-cases (nat_eq wire 0)) [
    | inl e ↦ rw e (sized (next_var_int_size r.unread) (next_var_int_size-IsFound r.unread))
    | inr no_varint ↦ elim (Bool-cases (nat_eq wire 1)) [
      | inl e ↦
          rw (no_varint, e) (weaker _ m (read_bytes (pos 8) r) short (read_bytes-Leaves (pos 8) r))
      | inr no_sixty_four ↦ elim (Bool-cases (nat_eq wire 2)) [
        | inl e ↦
            rw (no_varint, no_sixty_four, e)
              (Leaves-bind m m (read_var_int longs r) (λ p. read_bytes (longs.to_number p.0) p.1)
                (read_var_int-Leaves r m (omega arith))
                (λ p le.
                  weaker _ m (read_bytes (longs.to_number p.0) p.1) le
                    (read_bytes-Leaves (longs.to_number p.0) p.1)))
        | inr no_length ↦ elim (Bool-cases (nat_eq wire 5)) [
          | inl e ↦
              rw (no_varint, no_sixty_four, no_length, e)
                (weaker _ m (read_bytes (pos 4) r) short (read_bytes-Leaves (pos 4) r))
          | inr no_thirty_two ↦ rw (no_varint, no_sixty_four, no_length, no_thirty_two) tt
        ]
      ]
    ]
  ]
    where
      sized :
          (found : Result ℕ) → IsFound found → Leaves m (found >>= λ size. read_bytes (pos size) r)
      sized (ok size) h =
          weaker _ m (read_bytes (pos size) r) short (read_bytes-Leaves (pos size) r)
      sized (throw err) h = tt
      sized out_of_fuel h = absurd h

  pub deserialize_round :
      (fuel : ℕ) (r : BytesReader)
      → done r ≡ false
      → deserialize_within longs (suc fuel) r ≡ (
          read_var_int longs r >>= λ p.
          read_payload longs (wire_type_of (longs.to_number p.0)) p.1 >>= λ q.
          deserialize_within longs fuel q.1 >>= λ fields.
          ok (record { number = field_number_of (longs.to_number p.0); bytes = q.0 } ∷ fields))
  unfolding deserialize_within
  deserialize_round fuel r h = rw (h, deserialize_within) refl

  -- A loop that goes on after a reader.
  continues {ℓ} :
      {A : Type ℓ} {B : Type 0} (bound : ℕ) (m : Result (A × BytesReader))
      (next : A × BytesReader → Result B)
      → Leaves bound m
      → ((p : A × BytesReader) → length p.1.unread ≤ bound → next p ≢ out_of_fuel)
      → (m >>= next) ≢ out_of_fuel
  continues bound (ok p) next h step = step p h
  continues bound (throw err) next h step = λ e. let no : ⊥ = cc in absurd no
  continues bound out_of_fuel next h step = absurd h

  then_ok :
      {B : Type 0} {C : Type 0} (m : Result B) (f : B → C)
      → m ≢ out_of_fuel
      → (m >>= λ b. ok (f b)) ≢ out_of_fuel
  then_ok (ok b) f h = λ e. let no : ⊥ = cc in absurd no
  then_ok (throw err) f h = λ e. let no : ⊥ = cc in absurd no
  then_ok out_of_fuel f h = λ e. absurd (h refl)

  -- The fuel of the model is enough: no message is so long or so malformed that reading it does not end
  -- with its fields or with an error.
  pub deserialize_ends : (bytes : List ℕ) → deserialize longs bytes ≢ out_of_fuel
  unfolding deserialize deserialize_within
  deserialize_ends bytes = ends (length bytes) (reader_of bytes) (omega arith)
    where
      ends :
          (fuel : ℕ) (r : BytesReader)
          → length r.unread ≤ fuel
          → deserialize_within longs fuel r ≢ out_of_fuel
      ends zero r h =
          let empty : done r ≡ true = ground arith in rw empty (λ e. let no : ⊥ = cc in absurd no)
      ends (suc fuel) r h = elim (Bool-cases (done r)) [
        | inl empty ↦ rw (empty, deserialize_within) (λ e. let no : ⊥ = cc in absurd no)
        | inr more ↦ rw (deserialize_round fuel r more) (
            continues fuel (read_var_int longs r) _ (read_var_int-Leaves r fuel h) (λ p le.
              continues fuel (read_payload longs (wire_type_of (longs.to_number p.0)) p.1) _
                (read_payload-Leaves (wire_type_of (longs.to_number p.0)) p.1 fuel le)
                (λ q left. then_ok (deserialize_within longs fuel q.1) _ (ends fuel q.1 left))))
      ]
