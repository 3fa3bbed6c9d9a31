-- ===== src/Wire/Fields/Tags.antt =====
-- protoc-gen-ts/runtime/serialize.ts: the tags of fields, and for which numbers they are read back.
use Prim.Native.Nat.{bit_and, bit_or}
use dataform.Prelude.{ℕ, ◌+◌, ◌-◌, ◌*◌, ◌%◌, ◌^◌, ◌<◌, ◌≡◌, ap, ◌∙◌, if◌then◌else◌, ltb, arith}
use dataform.Prelude.Bits.{bit_and_seven, bit_or_fields}
use dataform.Prelude.Int.{pos, negsuc, wrap32, signed32, wrap32-signed32, IsSafe}
use dataform.Wire.Fields.{
  WireType, varint, sixty_four_bit, length_delimited, thirty_two_bit, wire_number, tag_of,
  field_number_of, wire_type_of,
}

pub wire_number-lt : (w : WireType) → wire_number w < 8
wire_number-lt varint = omega arith
wire_number-lt sixty_four_bit = omega arith
wire_number-lt length_delimited = omega arith
wire_number-lt thirty_two_bit = omega arith

tag_pattern :
    (n : ℕ) (w : WireType)
    → n < 2 ^ 29
    → bit_or (n * 8 % 2 ^ 32) (wire_number w) ≡ n * 8 + wire_number w
tag_pattern n w h =
    let fits : n * 8 % 2 ^ 32 ≡ n * 2 ^ 3 = omega arith in
    rw fits (bit_or_fields 3 n (wire_number w) (wire_number-lt w))

-- The tag of a field number below 2 ^ 28.
pub tag_of_lem : (n : ℕ) (w : WireType) → n < 2 ^ 28 → tag_of n w ≡ pos (n * 8 + wire_number w)
unfolding tag_of
tag_of_lem n w h = rw (tag_pattern n w (omega arith)) (ground (arith, wire_number-lt w))

pub tag-IsSafe : (n : ℕ) (w : WireType) → n < 2 ^ 28 → IsSafe (tag_of n w)
tag-IsSafe n w h = rw (tag_of_lem n w h) (omega (arith, wire_number-lt w))

-- A tag is read back as its wire type and its field number, if this is below 2 ^ 28. Of the field numbers
-- from there to the greatest that protocol buffers allow, 2 ^ 29 - 1, the number read back is negative.
pub tag_of_cases :
    (n : ℕ) (w : WireType)
    → n < 2 ^ 29
    → (wire_type_of (tag_of n w) ≡ wire_number w)
      × (field_number_of (tag_of n w) ≡ (if ltb n (2 ^ 28) then pos n else negsuc (2 ^ 29 - 1 - n)))
unfolding tag_of field_number_of wire_type_of
tag_of_cases n w h =
    let small = wire_number-lt w in
    let pattern_read : wrap32 (signed32 (bit_or (n * 8 % 2 ^ 32) (wire_number w)))
        ≡ n * 8 + wire_number w =
      rw (tag_pattern n w h) (wrap32-signed32 (n * 8 + wire_number w) (omega arith)) in
    (
      ap (λ (p : ℕ). bit_and p 7) pattern_read
          ∙ bit_and_seven (n * 8 + wire_number w)
          ∙ omega arith,
      rw pattern_read (ground arith),
    )
