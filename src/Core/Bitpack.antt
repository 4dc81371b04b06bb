-- ===== src/Core/Bitpack.antt =====
-- src/core/bitpack.c: packing of groups of eight values, and the bit reader and writer.
-- The scalar code is modelled: it runs where the dispatcher of src/simd has no kernel for a width.
-- A pointer that is read from is the list of the bytes behind it, and a function that fills an
-- array returns it.
pub mod Pack
pub mod Kernels
pub mod Unpack
pub mod RoundTrip
pub mod Groups
pub mod Sizes
mod Examples
use carquet.Prelude.{ℕ, zero, suc, ◌+◌, ◌-◌, ◌*◌, ◌/◌, ◌%◌, ◌^◌, bit_and, bit_or}
use carquet.Prelude.{Bool, true, false, List, [], ◌∷◌, ◌++◌, map, length, get_or, set, take, drop}
use carquet.Prelude.{replicate, ltb, leb, ◌==◌, ◌||◌, if◌then◌else◌, u8, u16, u32, u64, ◌<<◌, ◌>>◌}

pub read_le16 : List ℕ → ℕ
read_le16 p = bit_or (get_or p 0 0) (get_or p 1 0 << 8)

pub read_le24 : List ℕ → ℕ
read_le24 p = bit_or (bit_or (get_or p 0 0) (get_or p 1 0 << 8)) (get_or p 2 0 << 16)

pub read_le32 : List ℕ → ℕ
read_le32 p =
    bit_or (bit_or (bit_or (get_or p 0 0) (get_or p 1 0 << 8)) (get_or p 2 0 << 16))
      (get_or p 3 0 << 24)

pub read_le40 : List ℕ → ℕ
read_le40 p =
    bit_or
      (bit_or (bit_or (bit_or (get_or p 0 0) (get_or p 1 0 << 8)) (get_or p 2 0 << 16))
        (get_or p 3 0 << 24))
      (get_or p 4 0 << 32)

pub read_le48 : List ℕ → ℕ
read_le48 p =
    bit_or
      (bit_or
        (bit_or (bit_or (bit_or (get_or p 0 0) (get_or p 1 0 << 8)) (get_or p 2 0 << 16))
          (get_or p 3 0 << 24))
        (get_or p 4 0 << 32))
      (get_or p 5 0 << 40)

pub read_le56 : List ℕ → ℕ
read_le56 p =
    bit_or
      (bit_or
        (bit_or
          (bit_or (bit_or (bit_or (get_or p 0 0) (get_or p 1 0 << 8)) (get_or p 2 0 << 16))
            (get_or p 3 0 << 24))
          (get_or p 4 0 << 32))
        (get_or p 5 0 << 40))
      (get_or p 6 0 << 48)

-- The eight values of a group are the fields of one little-endian word.
pub bitunpack8_1bit : List ℕ → List ℕ
bitunpack8_1bit input =
    let byte = get_or input 0 0 in
    bit_and (byte >> 0) 0x1
    ∷ bit_and (byte >> 1) 0x1
    ∷ bit_and (byte >> 2) 0x1
    ∷ bit_and (byte >> 3) 0x1
    ∷ bit_and (byte >> 4) 0x1
    ∷ bit_and (byte >> 5) 0x1
    ∷ bit_and (byte >> 6) 0x1
    ∷ bit_and (byte >> 7) 0x1
    ∷ []

pub bitunpack8_2bit : List ℕ → List ℕ
bitunpack8_2bit input =
    let v = read_le16 input in
    bit_and (v >> 0) 0x3
    ∷ bit_and (v >> 2) 0x3
    ∷ bit_and (v >> 4) 0x3
    ∷ bit_and (v >> 6) 0x3
    ∷ bit_and (v >> 8) 0x3
    ∷ bit_and (v >> 10) 0x3
    ∷ bit_and (v >> 12) 0x3
    ∷ bit_and (v >> 14) 0x3
    ∷ []

pub bitunpack8_3bit : List ℕ → List ℕ
bitunpack8_3bit input =
    let v = read_le24 input in
    bit_and (v >> 0) 0x7
    ∷ bit_and (v >> 3) 0x7
    ∷ bit_and (v >> 6) 0x7
    ∷ bit_and (v >> 9) 0x7
    ∷ bit_and (v >> 12) 0x7
    ∷ bit_and (v >> 15) 0x7
    ∷ bit_and (v >> 18) 0x7
    ∷ bit_and (v >> 21) 0x7
    ∷ []

pub bitunpack8_4bit : List ℕ → List ℕ
bitunpack8_4bit input =
    let v = read_le32 input in
    bit_and (v >> 0) 0xf
    ∷ bit_and (v >> 4) 0xf
    ∷ bit_and (v >> 8) 0xf
    ∷ bit_and (v >> 12) 0xf
    ∷ bit_and (v >> 16) 0xf
    ∷ bit_and (v >> 20) 0xf
    ∷ bit_and (v >> 24) 0xf
    ∷ bit_and (v >> 28) 0xf
    ∷ []

pub bitunpack8_5bit : List ℕ → List ℕ
bitunpack8_5bit input =
    let v = read_le40 input in
    bit_and (v >> 0) 0x1f
    ∷ bit_and (v >> 5) 0x1f
    ∷ bit_and (v >> 10) 0x1f
    ∷ bit_and (v >> 15) 0x1f
    ∷ bit_and (v >> 20) 0x1f
    ∷ bit_and (v >> 25) 0x1f
    ∷ bit_and (v >> 30) 0x1f
    ∷ bit_and (v >> 35) 0x1f
    ∷ []

pub bitunpack8_6bit : List ℕ → List ℕ
bitunpack8_6bit input =
    let v = read_le48 input in
    bit_and (v >> 0) 0x3f
    ∷ bit_and (v >> 6) 0x3f
    ∷ bit_and (v >> 12) 0x3f
    ∷ bit_and (v >> 18) 0x3f
    ∷ bit_and (v >> 24) 0x3f
    ∷ bit_and (v >> 30) 0x3f
    ∷ bit_and (v >> 36) 0x3f
    ∷ bit_and (v >> 42) 0x3f
    ∷ []

pub bitunpack8_7bit : List ℕ → List ℕ
bitunpack8_7bit input =
    let v = read_le56 input in
    bit_and (v >> 0) 0x7f
    ∷ bit_and (v >> 7) 0x7f
    ∷ bit_and (v >> 14) 0x7f
    ∷ bit_and (v >> 21) 0x7f
    ∷ bit_and (v >> 28) 0x7f
    ∷ bit_and (v >> 35) 0x7f
    ∷ bit_and (v >> 42) 0x7f
    ∷ bit_and (v >> 49) 0x7f
    ∷ []

pub bitunpack8_8bit : List ℕ → List ℕ
bitunpack8_8bit input =
    get_or input 0 0
    ∷ get_or input 1 0
    ∷ get_or input 2 0
    ∷ get_or input 3 0
    ∷ get_or input 4 0
    ∷ get_or input 5 0
    ∷ get_or input 6 0
    ∷ get_or input 7 0
    ∷ []

-- How many of the needed bits the byte at `bit_pos` gives.
pub bits_from_byte : ℕ → ℕ → ℕ
bits_from_byte bits_needed bit_pos =
    if ltb bits_needed (8 - bit_pos % 8) then bits_needed else 8 - bit_pos % 8

-- `byte_pos` moves on when the new `bit_pos` stands at a byte's first bit.
pub next_byte_pos : ℕ → ℕ → ℕ
next_byte_pos bit_pos byte_pos = if bit_pos % 8 == 0 then byte_pos + 1 else byte_pos

-- The `while (bits_needed > 0)` loop: the bits of one value, a byte at a time. Each round takes at
-- least one bit, so `bits_needed` rounds are enough. The result is `bits`, `bit_pos`, `byte_pos`.
pub gather_bits : ℕ → List ℕ → ℕ → ℕ → ℕ → ℕ → ℕ → ℕ × ℕ × ℕ
gather_bits zero input bits bits_needed bits_in_buffer bit_pos byte_pos = (bits, bit_pos, byte_pos)
gather_bits (suc rounds) input bits bits_needed bits_in_buffer bit_pos byte_pos =
    let k = bits_from_byte bits_needed bit_pos in
    let byte_val = get_or input byte_pos 0 in
    let extracted = bit_and (byte_val >> (bit_pos % 8)) (2 ^ k - 1) in
    let more =
      gather_bits rounds input (bit_or bits (extracted << bits_in_buffer)) (bits_needed - k)
        (bits_in_buffer + k) (bit_pos + k) (next_byte_pos (bit_pos + k) byte_pos) in
    if bits_needed == 0 then (bits, bit_pos, byte_pos) else more

-- The loop over the values that are left of the eight.
pub unpack_loop : ℕ → List ℕ → ℕ → ℕ → ℕ → List ℕ
unpack_loop zero input bit_width bit_pos byte_pos = []
unpack_loop (suc left) input bit_width bit_pos byte_pos =
    let (bits, bit_pos', byte_pos') = gather_bits bit_width input 0 bit_width 0 bit_pos byte_pos in
    u32 (bit_and bits (u32 (2 ^ bit_width - 1)))
    ∷ unpack_loop left input bit_width bit_pos' byte_pos'

pub bitunpack8_32 : List ℕ → ℕ → List ℕ
bitunpack8_32 input bit_width =
    if bit_width == 0
    then replicate 8 0
    else if bit_width == 1
    then bitunpack8_1bit input
    else if bit_width == 2
    then bitunpack8_2bit input
    else if bit_width == 3
    then bitunpack8_3bit input
    else if bit_width == 4
    then bitunpack8_4bit input
    else if bit_width == 5
    then bitunpack8_5bit input
    else if bit_width == 6
    then bitunpack8_6bit input
    else if bit_width == 7
    then bitunpack8_7bit input
    else if bit_width == 8
    then bitunpack8_8bit input
    else unpack_loop 8 input bit_width 0 0

unfoldable pub packed_size : ℕ → ℕ → ℕ
packed_size count bit_width = (count * bit_width + 7) / 8

-- `output[byte_pos] |= x`.
pub or_byte : List ℕ → ℕ → ℕ → List ℕ
or_byte output byte_pos x = set output byte_pos (bit_or (get_or output byte_pos 0) (u8 x))

-- The inner `while (bits_written < bit_width)` loop. A round writes 8 bits, so `bit_width` rounds
-- are enough.
pub spill : ℕ → ℕ → ℕ → ℕ → ℕ → List ℕ → List ℕ
spill zero bit_width val byte_pos bits_written output = output
spill (suc rounds) bit_width val byte_pos bits_written output =
    let more =
      spill rounds bit_width (val >> 8) (byte_pos + 1) (bits_written + 8)
        (or_byte output byte_pos val) in
    if ltb bits_written bit_width then more else output

-- One value, written from bit `bit_pos` on.
pub pack_value : ℕ → ℕ → ℕ → List ℕ → List ℕ
pack_value bit_width bit_pos value output =
    let val = bit_and value (u32 (2 ^ bit_width - 1)) in
    let byte_pos = bit_pos / 8 in
    let bit_offset = bit_pos % 8 in
    let output' = or_byte output byte_pos (u32 (val << bit_offset)) in
    let bits_written = 8 - bit_offset in
    if ltb bits_written bit_width
    then spill bit_width bit_width (val >> bits_written) (byte_pos + 1) bits_written output'
    else output'

pub pack_loop : ℕ → ℕ → List ℕ → List ℕ → List ℕ
pack_loop bit_width bit_pos [] output = output
pack_loop bit_width bit_pos (value ∷ values) output =
    pack_loop bit_width (bit_pos + bit_width) values (pack_value bit_width bit_pos value output)

-- `values` holds the eight values of the group.
pub bitpack8_32 : List ℕ → ℕ → List ℕ
bitpack8_32 values bit_width =
    if bit_width == 0
    then []
    else if bit_width == 8
    then map u8 values
    else pack_loop bit_width 0 values (replicate bit_width 0)

-- Groups of eight values, one after the other.
pub unpack_groups : ℕ → List ℕ → ℕ → List ℕ
unpack_groups zero input bit_width = []
unpack_groups (suc groups) input bit_width =
    bitunpack8_32 input bit_width ++ unpack_groups groups (drop bit_width input) bit_width

-- The values, and the number of bytes consumed. The last group is read from a zero-padded copy.
pub bitunpack_32 : List ℕ → ℕ → ℕ → List ℕ × ℕ
unfolding packed_size
bitunpack_32 input count bit_width =
    let consumed = count / 8 * bit_width in
    let values = unpack_groups (count / 8) input bit_width in
    let left = count % 8 in
    let tail_bytes = packed_size left bit_width in
    let padded = take tail_bytes (drop consumed input) ++ replicate (32 - tail_bytes) 0 in
    if bit_width == 0
    then (replicate count 0, 0)
    else if left == 0
    then (values, consumed)
    else (values ++ take left (bitunpack8_32 padded bit_width), consumed + tail_bytes)

unfoldable pub pack_groups : ℕ → List ℕ → ℕ → List ℕ
pack_groups zero values bit_width = []
pack_groups (suc groups) values bit_width =
    bitpack8_32 (take 8 values) bit_width ++ pack_groups groups (drop 8 values) bit_width

-- The bytes that count as written. The last group is packed from a zero-padded copy.
pub bitpack_32 : List ℕ → ℕ → ℕ → List ℕ
unfolding packed_size
bitpack_32 values count bit_width =
    let left = count % 8 in
    let temp = take left (drop (count / 8 * 8) values) ++ replicate (8 - left) 0 in
    let packed = pack_groups (count / 8) values bit_width in
    if bit_width == 0 || count == 0
    then []
    else if left == 0
    then packed
    else packed ++ take (packed_size left bit_width) (bitpack8_32 temp bit_width)
