-- ===== src/Thrift/Decoder/Room.antt =====
-- No read lengthens the input; one that gives a count, a type or a field has taken a byte.
use carquet.Prelude.{ℕ, zero, suc, ◌+◌, ◌<◌, ◌≤◌, ◌≡◌, refl, arith, false, List, [], ◌∷◌, length}
use carquet.Prelude.{
  Bool-cases, inl, inr, ◌⊎◌, ◌==◌, length-drop, bit_and, bit_or, ◌^◌, ◌%◌, ◌*◌, ◌/◌,
}
use carquet.Prelude.{bit_and_mask, ==-false→ne}
use carquet.Core.Status.{Status, is_ok, error_thrift_decode, error_thrift_truncated}
use carquet.Thrift.Decoder.{
  ThriftDecoder, set_error, reader_skip, read_varint, read_binary, read_list_begin, read_map_begin,
}
use carquet.Thrift.Decoder.{
  read_struct_begin, read_struct_end, read_field_begin, varint_loop, field_of, read_byte_raw,
}
use carquet.Thrift.Decoder.{
  advance, has_bytes, set_last_id, pend_bool, check_count, read_i16, read_zigzag,
}

abbrev pub room : ThriftDecoder → ℕ
room dec = length dec.input

-- At most as much is left, and less if the result is not 0.
abbrev pub Takes : ThriftDecoder → ℕ × ThriftDecoder → Type 0
Takes dec out = (room out.1 ≤ room dec) × ((out.0 ≡ 0) ⊎ (room out.1 < room dec))

pub room-set_error : (s : Status) (dec : ThriftDecoder) → room (set_error s dec) ≡ room dec
unfolding set_error
room-set_error s dec = ground arith

pub room-reader_skip : (n : ℕ) (dec : ThriftDecoder) → room (reader_skip n dec) ≤ room dec
unfolding reader_skip has_bytes advance
room-reader_skip n dec = ground (arith, length-drop n dec.input)

pub read_byte_raw-Takes : (dec : ThriftDecoder) → Takes dec (read_byte_raw dec)
unfolding read_byte_raw has_bytes advance set_error
read_byte_raw-Takes dec = ground (arith, length-drop 1 dec.input)

varint_loop_takes :
    (n s r : ℕ) (input : List ℕ)
    → (length (varint_loop n s r input).1 ≤ length input)
      × (((varint_loop n s r input).0 ≡ 0) ⊎ (length (varint_loop n s r input).1 < length input))
unfolding varint_loop
varint_loop_takes zero s r input = ground arith
varint_loop_takes (suc n) s r [] = ground arith
varint_loop_takes (suc n) s r (b ∷ input) =
    ground (arith, varint_loop_takes n (s + 7) (bit_or r ((bit_and b 0x7f * 2 ^ s) % 2 ^ 64)) input)

pub read_varint-Takes : (dec : ThriftDecoder) → Takes dec (read_varint dec)
unfolding read_varint
read_varint-Takes dec = elim (Bool-cases (is_ok (varint_loop 10 0 0 dec.input).2)) [
  | inl good ↦ rw good (varint_loop_takes 10 0 0 dec.input)
  | inr bad ↦
      let taken = (varint_loop_takes 10 0 0 dec.input).0 in
      rw (bad, room-set_error) (taken, inl refl)
]

check_count-Takes :
    (n : ℕ) (dec : ThriftDecoder)
    → (room (check_count n dec).1 ≡ room dec)
      × ((check_count n dec).0 ≤ n)
      × ((check_count n dec).0 ≤ room dec)
unfolding check_count set_error
check_count-Takes n dec = ground arith

pub read_binary_room : (dec : ThriftDecoder) → room (read_binary dec).1 ≤ room dec
unfolding read_binary advance
read_binary_room dec = ground (
  arith,
  read_varint-Takes dec,
  length-drop ((read_varint dec).0 % 2 ^ 32) (read_varint dec).1.input,
  room-set_error error_thrift_decode (read_varint dec).1,
  room-set_error error_thrift_truncated (read_varint dec).1,
)

pub read_struct_begin_room : (dec : ThriftDecoder) → room (read_struct_begin dec) ≡ room dec
unfolding read_struct_begin set_error
read_struct_begin_room dec = ground arith

pub read_struct_end_room : (dec : ThriftDecoder) → room (read_struct_end dec) ≡ room dec
unfolding read_struct_end
read_struct_end_room dec = ground arith

room-set_last_id : (i : ℕ) (dec : ThriftDecoder) → room (set_last_id i dec) ≡ room dec
unfolding set_last_id
room-set_last_id i dec = ground arith

room-pend_bool : (t : ℕ) (dec : ThriftDecoder) → room (pend_bool t dec) ≡ room dec
unfolding pend_bool
room-pend_bool t dec = ground arith

read_i16_room : (dec : ThriftDecoder) → room (read_i16 dec).1 ≤ room dec
unfolding read_i16 read_zigzag
read_i16_room dec = (read_varint-Takes dec).0

field_of_room : (h : ℕ) (dec : ThriftDecoder) → room (field_of h dec).2 ≤ room dec
unfolding field_of
field_of_room h dec = elim (Bool-cases (bit_and (h / 2 ^ 4) 0x0f == 0)) [
  | inl long ↦ rw (long, room-pend_bool, room-set_last_id) (read_i16_room dec)
  | inr short ↦ rw (short, room-pend_bool, room-set_last_id) (omega arith)
]

-- A field takes a byte.
pub read_field_begin_room :
    (dec : ThriftDecoder)
    → (room (read_field_begin dec).3 ≤ room dec)
      × (((read_field_begin dec).0 ≡ false) ⊎ (room (read_field_begin dec).3 < room dec))
unfolding read_field_begin
read_field_begin_room dec =
    ground
      (arith, read_byte_raw-Takes dec, field_of_room (read_byte_raw dec).0 (read_byte_raw dec).1)

-- A list or a map with an element has taken a byte, and has no more elements than bytes are left.
pub read_list_begin_room :
    (dec : ThriftDecoder)
    → (room (read_list_begin dec).2 ≤ room dec)
      × (((read_list_begin dec).1 ≡ 0) ⊎ (room (read_list_begin dec).2 < room dec))
unfolding read_list_begin
read_list_begin_room dec =
    let byte = read_byte_raw dec in
    let size = bit_and (byte.0 / 2 ^ 4) 0x0f in
    let sized = read_varint byte.1 in
    elim (Bool-cases (size == 0x0f)) [
      | inl long ↦ rw long (
          omega (
            arith,
            read_byte_raw-Takes dec,
            read_varint-Takes byte.1,
            check_count-Takes (sized.0 % 2 ^ 32) sized.1,
          ))
      | inr short ↦ rw short (nibble byte.0 byte.1 (read_byte_raw-Takes dec))
    ]
  where
    nibble :
        (header : ℕ) (behind : ThriftDecoder)
        → Takes dec (header, behind)
        → (room (check_count (bit_and (header / 2 ^ 4) 0x0f) behind).1 ≤ room dec)
          × (((check_count (bit_and (header / 2 ^ 4) 0x0f) behind).0 ≡ 0)
              ⊎ (room (check_count (bit_and (header / 2 ^ 4) 0x0f) behind).1 < room dec))
    nibble header behind takes = omega (
      arith,
      bit_and_mask 4 (header / 2 ^ 4),
      check_count-Takes (bit_and (header / 2 ^ 4) 0x0f) behind,
    )

pub read_map_begin_room :
    (dec : ThriftDecoder)
    → (room (read_map_begin dec).3 ≤ room dec)
      × (((read_map_begin dec).2 ≡ 0) ⊎ (room (read_map_begin dec).3 < room dec))
unfolding read_map_begin
read_map_begin_room dec =
    let sized = read_varint dec in
    let checked = check_count (sized.0 % 2 ^ 32) sized.1 in
    elim (Bool-cases (checked.0 == 0)) [
      | inl empty ↦ rw empty (
        omega (arith, read_varint-Takes dec, check_count-Takes (sized.0 % 2 ^ 32) sized.1),
        inl refl,
      )
      | inr some ↦ rw some (
          omega (
            arith,
            read_varint-Takes dec,
            check_count-Takes (sized.0 % 2 ^ 32) sized.1,
            read_byte_raw-Takes checked.1,
            ==-false→ne checked.0 0 some,
          ))
    ]
