-- ===== src/Core/Endian.antt =====
-- src/core/endian.h: little-endian words, variable-length integers and zigzag.
-- A pointer that is read from is the list of the bytes behind it; a function that stores through a
-- pointer returns the bytes that it stores, first byte first.
pub mod Words
pub mod Varint
pub mod Zigzag
mod Examples
use carquet.Prelude.{ℕ, zero, suc, ◌+◌, ◌-◌, ◌*◌, ◌/◌, ◌%◌, ◌^◌, bit_and, bit_or, bit_xor}
use carquet.Prelude.{Bool, true, false, Option, none, some, List, [], ◌∷◌, get_or}
use carquet.Prelude.{ltb, ◌==◌, if◌then◌else◌, u8, u16, u32, u64, ◌<<◌, ◌>>◌}

-- `carquet_read_u16_le` and its wider versions, as bytes shifted into place.
pub read_u16_le : List ℕ → ℕ
read_u16_le p = bit_or (get_or p 0 0) (get_or p 1 0 << 8)

unfoldable pub read_u32_le : List ℕ → ℕ
read_u32_le p =
    bit_or (bit_or (bit_or (get_or p 0 0) (get_or p 1 0 << 8)) (get_or p 2 0 << 16))
      (get_or p 3 0 << 24)

pub read_u64_le : List ℕ → ℕ
read_u64_le p =
    bit_or
      (bit_or
        (bit_or
          (bit_or
            (bit_or (bit_or (bit_or (get_or p 0 0) (get_or p 1 0 << 8)) (get_or p 2 0 << 16))
              (get_or p 3 0 << 24))
            (get_or p 4 0 << 32))
          (get_or p 5 0 << 40))
        (get_or p 6 0 << 48))
      (get_or p 7 0 << 56)

pub write_u16_le : ℕ → List ℕ
write_u16_le v = u8 v ∷ u8 (v >> 8) ∷ []

unfoldable pub write_u32_le : ℕ → List ℕ
write_u32_le v = u8 v ∷ u8 (v >> 8) ∷ u8 (v >> 16) ∷ u8 (v >> 24) ∷ []

pub write_u64_le : ℕ → List ℕ
write_u64_le v =
    u8 v
    ∷ u8 (v >> 8)
    ∷ u8 (v >> 16)
    ∷ u8 (v >> 24)
    ∷ u8 (v >> 32)
    ∷ u8 (v >> 40)
    ∷ u8 (v >> 48)
    ∷ u8 (v >> 56)
    ∷ []

-- The `while (v >= 0x80)` loop of every varint writer. `v` rounds are enough, since each round
-- makes `v` smaller; at no round left `v` is 0.
encode_varint_loop : ℕ → ℕ → List ℕ
encode_varint_loop zero v = u8 v ∷ []
encode_varint_loop (suc fuel) v =
    let rest = encode_varint_loop fuel (v >> 7) in
    if ltb v 0x80 then u8 v ∷ [] else u8 (bit_or (bit_and v 0x7f) 0x80) ∷ rest

unfoldable pub encode_varint64 : ℕ → List ℕ
unfolding encode_varint_loop
encode_varint64 v = encode_varint_loop v v

-- The loop is that of `encode_varint64`, on a narrower word.
unfoldable pub encode_varint32 : ℕ → List ℕ
unfolding encode_varint64
encode_varint32 v = encode_varint64 v

-- `width` is that of the result, and `rounds` the bound on the bytes read. `none` is -1.
unfoldable pub decode_varint_loop : ℕ → ℕ → ℕ → ℕ → List ℕ → Option (ℕ × List ℕ)
decode_varint_loop width zero shift result p = none
decode_varint_loop width (suc rounds) shift result [] = none
decode_varint_loop width (suc rounds) shift result (byte ∷ p) =
    let result' = bit_or result ((bit_and byte 0x7f << shift) % 2 ^ width) in
    let more = decode_varint_loop width rounds (shift + 7) result' p in
    if bit_and byte 0x80 == 0 then some (result', p) else more

-- The source returns the number of bytes; here the bytes that are left.
unfoldable pub decode_varint32 : List ℕ → Option (ℕ × List ℕ)
decode_varint32 p = decode_varint_loop 32 5 0 0 p

unfoldable pub decode_varint64 : List ℕ → Option (ℕ × List ℕ)
decode_varint64 p = decode_varint_loop 64 10 0 0 p

-- `v >> (w - 1)` of a signed word: all ones or all zeros.
sign_fill : ℕ → ℕ → ℕ
sign_fill w v = if ltb v (2 ^ (w - 1)) then 0 else 2 ^ w - 1

unfoldable pub zigzag_encode32 : ℕ → ℕ
unfolding sign_fill
zigzag_encode32 v = bit_xor (u32 (v << 1)) (sign_fill 32 v)

unfoldable pub zigzag_encode64 : ℕ → ℕ
unfolding sign_fill
zigzag_encode64 v = bit_xor (u64 (v << 1)) (sign_fill 64 v)

-- `-(v & 1)` as a pattern is `2 ^ w - (v & 1)`, cut to the width.
unfoldable pub zigzag_decode32 : ℕ → ℕ
zigzag_decode32 v = bit_xor (v >> 1) (u32 (2 ^ 32 - bit_and v 1))

unfoldable pub zigzag_decode64 : ℕ → ℕ
zigzag_decode64 v = bit_xor (v >> 1) (u64 (2 ^ 64 - bit_and v 1))
