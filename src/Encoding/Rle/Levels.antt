-- ===== src/Encoding/Rle/Levels.antt =====
-- The level functions of src/encoding/rle.c: definition and repetition levels, decoded without the
-- state of a decoder. A level is a word of 16 bits. What the source reads beyond the end of its
-- input, where a length prefix close to 2^32 wraps, is not modelled.
pub mod Headers
pub mod Runs
use carquet.Prelude.{
  ℕ, zero, suc, ◌+◌, ◌-◌, ◌*◌, ◌/◌, ◌%◌, ◌^◌, ◌≡◌, arith, bit_or, bit_and, ◌&&◌, ◌||◌,
}
use carquet.Prelude.{
  List, [], ◌∷◌, ◌++◌, length, take, drop, replicate, get_or, set, min, Option, none, some,
}
use carquet.Prelude.{ltb, leb, ◌==◌, if◌then◌else◌, u8, u16, u32, ◌<<◌, ◌>>◌}
use carquet.Core.Status.{Status}
use carquet.Core.Endian.{read_u32_le, decode_varint_loop}
use carquet.Core.Buffer.{Allocator, Buffer}
use carquet.Core.Bitpack.{bitunpack8_32, bitunpack_32}
use carquet.Encoding.Rle.Decoder.{read_value}
use carquet.Encoding.Rle.Encoder.{encode_all}

-- The header read inline, a byte in each round from the bit `shift` on: a number that is cut off or
-- too long gives what was read of it.
pub level_header_loop : ℕ → ℕ → ℕ → List ℕ → ℕ × List ℕ
level_header_loop zero shift header input = (header, input)
level_header_loop (suc rounds) shift header [] = (header, [])
level_header_loop (suc rounds) shift header (byte ∷ input) =
    let header' = bit_or header (u32 (bit_and byte 0x7f << shift)) in
    let more = level_header_loop rounds (shift + 7) header' input in
    if bit_and byte 0x80 == 0 then (header', input) else more

-- `shift` is below 32 in five rounds.
pub level_header : List ℕ → ℕ × List ℕ
unfolding level_header_loop
level_header input = level_header_loop 5 0 0 input

pub to_levels : List ℕ → List ℕ
to_levels [] = []
to_levels (x ∷ values) = u16 x ∷ to_levels values

-- A run that is whole and wanted whole, in chunks of 256 values at most.
pub bulk_loop : ℕ → ℕ → ℕ → List ℕ → List ℕ × List ℕ
unfolding to_levels
bulk_loop zero left bit_width input = ([], input)
bulk_loop (suc rounds) left bit_width input =
    let chunk = if ltb 256 left then 256 else left in
    let (tmp, used) = bitunpack_32 input chunk bit_width in
    let rest = bulk_loop rounds (left - chunk) bit_width (drop used input) in
    if left == 0 then ([], input) else (to_levels tmp ++ rest.0, rest.1)

-- A run group by group: it ends where enough is read or a group is cut off.
pub group_loop : ℕ → ℕ → ℕ → List ℕ → List ℕ × List ℕ
unfolding to_levels
group_loop zero left bit_width input = ([], input)
group_loop (suc groups) left bit_width input =
    let to_store = min 8 left in
    let rest = group_loop groups (left - to_store) bit_width (drop bit_width input) in
    if left == 0 || ltb (length input) bit_width
    then ([], input)
    else (to_levels (take to_store (bitunpack8_32 input bit_width)) ++ rest.0, rest.1)

-- The outer loop; a round takes a byte of the header at least. Behind a group that is cut off the
-- source goes on with a header at the same place.
pub level_loop : ℕ → ℕ → ℕ → List ℕ → List ℕ
unfolding level_header bulk_loop group_loop
level_loop zero left bit_width input = []
level_loop (suc rounds) left bit_width input =
    let (header, rest) = level_header input in
    let value_bytes = (bit_width + 7) / 8 in
    let run_length = header >> 1 in
    let to_fill = min run_length left in
    let value = bit_and (read_value value_bytes 0 0 rest) (u32 (2 ^ bit_width - 1)) in
    let bulk = bulk_loop (run_length * 8) (run_length * 8) bit_width rest in
    let groups = group_loop run_length left bit_width rest in
    let behind = level_loop rounds left bit_width rest in
    let behind_value = level_loop rounds (left - to_fill) bit_width (drop value_bytes rest) in
    let behind_bulk = level_loop rounds (left - length bulk.0) bit_width bulk.1 in
    let behind_groups = level_loop rounds (left - length groups.0) bit_width groups.1 in
    if left == 0 || length input == 0
    then []
    else if run_length == 0
    then behind
    else if bit_and header 1 == 0
    then (if ltb (length rest) value_bytes
        then []
        else replicate to_fill (u16 value) ++ behind_value)
    else if leb 1 bit_width
        && (leb run_length (length rest / bit_width) && leb (run_length * 8) left)
    then bulk.0 ++ behind_bulk
    else groups.0 ++ behind_groups

pub decode_levels : List ℕ → ℕ → ℕ → List ℕ
unfolding level_loop
decode_levels input bit_width max_values =
    if max_values == 0 || (length input == 0 || ltb 32 bit_width)
    then []
    else level_loop (length input) max_values bit_width input

-- A level as the encoder takes it: the sign of 16 bits is extended to 32.
pub level_value : ℕ → ℕ
level_value level = if ltb level (2 ^ 15) then level else level + (2 ^ 32 - 2 ^ 16)

pub level_values : List ℕ → List ℕ
unfolding level_value
level_values [] = []
level_values (level ∷ levels) = level_value level ∷ level_values levels

pub encode_levels : Allocator → List ℕ → ℕ → Buffer → Status × Buffer
unfolding level_values
encode_levels a input bit_width output = encode_all a (level_values input) bit_width output

-- The levels and the bytes consumed; `none` is the count -1, with no bytes consumed. The sum is one
-- of 32 bits, as in the source.
pub decode_levels_prefixed : List ℕ → ℕ → ℕ → Option (List ℕ × ℕ)
unfolding decode_levels
decode_levels_prefixed input bit_width max_values =
    let rle_length = read_u32_le input in
    let whole = u32 (4 + rle_length) in
    if ltb (length input) 4
    then none
    else if ltb (length input) whole
    then none
    else some (decode_levels (take rle_length (drop 4 input)) bit_width max_values, whole)

-- `bitmap[idx / 8] |= 1 << (idx % 8)`.
pub set_bit : List ℕ → ℕ → List ℕ
set_bit bitmap idx = set bitmap (idx / 8) (bit_or (get_or bitmap (idx / 8) 0) (u8 (1 << (idx % 8))))

pub set_run : ℕ → ℕ → List ℕ → List ℕ
unfolding set_bit
set_run zero idx bitmap = bitmap
set_run (suc left) idx bitmap = set_run left (idx + 1) (set_bit bitmap idx)

-- The bits `i` and following of a packed byte; it counts those that are set.
pub set_byte : ℕ → ℕ → ℕ → ℕ → List ℕ × ℕ → List ℕ × ℕ
unfolding set_bit
set_byte zero i packed_byte count state = state
set_byte (suc left) i packed_byte count (bitmap, present) =
    let bit = bit_and (packed_byte >> i) 1 in
    set_byte left (i + 1) packed_byte count
      (if bit == 1 then (set_bit bitmap (count + i), present + 1) else (bitmap, present))

-- The groups of a run, a byte each: the bytes left, the values counted, and the bitmap.
pub bitmap_groups : ℕ → ℕ → ℕ → List ℕ → List ℕ × ℕ → List ℕ × ℕ × (List ℕ × ℕ)
unfolding set_byte
bitmap_groups zero left count input state = (input, count, state)
bitmap_groups (suc groups) left count [] state = ([], count, state)
bitmap_groups (suc groups) left count (packed_byte ∷ input) state =
    let to_store = min 8 left in
    let rest =
      bitmap_groups groups (left - to_store) (count + to_store) input
        (set_byte to_store 0 packed_byte count state) in
    if left == 0 then (packed_byte ∷ input, count, state) else rest

pub bitmap_loop : ℕ → ℕ → ℕ → List ℕ → List ℕ × ℕ → ℕ × (List ℕ × ℕ)
unfolding level_header set_run bitmap_groups
bitmap_loop zero left count input state = (count, state)
bitmap_loop (suc rounds) left count input state =
    let (header, rest) = level_header input in
    let (bitmap, present) = state in
    let run_length = header >> 1 in
    let to_fill = min run_length left in
    let filled =
      if bit_and (get_or rest 0 0) 1 == 1
      then (set_run to_fill count bitmap, present + to_fill)
      else (bitmap, present) in
    let (groups_rest, groups_count, groups_state) =
      bitmap_groups run_length left count rest state in
    let behind = bitmap_loop rounds left count rest state in
    let behind_value = bitmap_loop rounds (left - to_fill) (count + to_fill) (drop 1 rest) filled in
    let behind_groups =
      bitmap_loop rounds (left - (groups_count - count)) groups_count groups_rest groups_state in
    if left == 0 || length input == 0
    then (count, state)
    else if run_length == 0
    then behind
    else if bit_and header 1 == 0
    then (if length rest == 0 then (count, state) else behind_value)
    else behind_groups

-- The number of values, the bitmap, and how many values are not null.
pub decode_to_bitmap : List ℕ → List ℕ → ℕ → ℕ × (List ℕ × ℕ)
unfolding bitmap_loop
decode_to_bitmap input bitmap max_values =
    let bitmap_bytes = (max_values + 7) / 8 in
    let cleared = replicate bitmap_bytes 0 ++ drop bitmap_bytes bitmap in
    if max_values == 0 || length input == 0
    then (0, (bitmap, 0))
    else bitmap_loop (length input) max_values 0 input (cleared, 0)
