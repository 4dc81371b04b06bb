-- ===== src/Encoding/Delta/Decoder.antt =====
-- The decoder of src/encoding/delta.c: `input` is what stands from `pos` on.
pub mod Sums
pub mod Header
mod Examples
use carquet.Prelude.{
  ℕ, zero, suc, ◌+◌, ◌-◌, ◌*◌, ◌/◌, ◌%◌, ◌^◌, Bool, ◌&&◌, ◌||◌, Option, none, some, ◌>>=◌,
}
use carquet.Prelude.{
  List, [], ◌∷◌, ◌++◌, map, length, take, drop, replicate, get_or, ltb, leb, ◌==◌, if◌then◌else◌,
  u32, u64, bit_or, ◌<<◌,
}
use carquet.Core.Status.{Status, ok, is_ok, error_decode, error_end_of_data}
use carquet.Core.Endian.{decode_varint_loop, zigzag_decode64}
use carquet.Core.Bitpack.{bitunpack_32}
use carquet.Encoding.Delta.Encoder.{mini_block_size, block_size, mini_blocks}

-- `delta_decoder_t`. `unread` holds the values of the mini block from `mini_block_pos` on.
pub record DeltaDecoder : Type 0 where
  pub input : List ℕ
  pub block_size : ℕ
  pub mini_blocks_per_block : ℕ
  pub first_value : ℕ
  pub min_delta : ℕ
  pub bit_widths : List ℕ
  pub current_mini_block : ℕ
  pub unread : List ℕ

-- The loop is that of the other readers of varints; `none` is 0 bytes.
pub read_uleb128 : List ℕ → Option (ℕ × List ℕ)
read_uleb128 input = decode_varint_loop 64 10 0 0 input

-- A count, an `int32_t`, is refused where it is not positive or above a limit.
pub check_range : ℕ → ℕ → Option ℕ
check_range limit count = if count == 0 || ltb limit count then none else some count

pub check_mini : ℕ → ℕ → Option ℕ
check_mini size minis = if ltb mini_block_size (size / minis) then none else some size

-- `none` is CARQUET_ERROR_DECODE. The number of values, which nothing uses, is passed.
pub init : List ℕ → Option DeltaDecoder
init input = do
  (size, input1) ← read_uleb128 input
  (minis, input2) ← read_uleb128 input1
  minis' ← check_range mini_blocks (u32 minis)
  size' ← check_range block_size (u32 size)
  size'' ← check_mini size' minis'
  (total, input3) ← read_uleb128 input2
  (first, input4) ← read_uleb128 input3
  some (record {
    input = input4;
    block_size = size'';
    mini_blocks_per_block = minis';
    first_value = zigzag_decode64 first;
    min_delta = 0;
    bit_widths = replicate mini_blocks 0;
    current_mini_block = minis';
    unread = [];
  })

pub block_of : DeltaDecoder → Option (ℕ × List ℕ) → Status × DeltaDecoder
block_of dec none = (error_decode, dec)
block_of dec (some (code, rest)) =
    let minis = dec.mini_blocks_per_block in
    let behind : DeltaDecoder = record dec { input = rest; min_delta = zigzag_decode64 code } in
    if ltb (length rest) minis then (error_decode, behind) else (
      ok,
      record behind {
        input = drop minis rest;
        bit_widths = take minis rest;
        current_mini_block = 0;
      },
    )

pub read_block : DeltaDecoder → Status × DeltaDecoder
read_block dec =
    if length dec.input == 0
    then (error_end_of_data, dec)
    else block_of dec (read_uleb128 dec.input)

-- `bytes_per_value` bytes, the lowest first.
pub wide_value : ℕ → ℕ → ℕ → List ℕ → ℕ
wide_value zero shift val input = val
wide_value (suc left) shift val input =
    wide_value left (shift + 8) (bit_or val ((get_or input 0 0 << shift) % 2 ^ 64)) (drop 1 input)

pub wide_values : ℕ → ℕ → List ℕ → List ℕ
wide_values zero bytes_per_value input = []
wide_values (suc count) bytes_per_value input =
    wide_value bytes_per_value 0 0 input
    ∷ wide_values count bytes_per_value (drop bytes_per_value input)

-- The deltas of a mini block are above the least one, on words that wrap around.
pub above_min : ℕ → ℕ → ℕ
above_min smallest val = u64 (smallest + val)

-- The mini block that is next in the block.
pub unpack_mini_block : DeltaDecoder → Status × DeltaDecoder
unpack_mini_block dec =
    let bit_width = get_or dec.bit_widths dec.current_mini_block 0 in
    let size = dec.block_size / dec.mini_blocks_per_block in
    let packed = (size * bit_width + 7) / 8 in
    let bytes_per_value = (bit_width + 7) / 8 in
    let taken : List ℕ → ℕ → Status × DeltaDecoder = λ values used. (
      ok,
      record dec {
        input = drop used dec.input;
        current_mini_block = dec.current_mini_block + 1;
        unread = map (above_min dec.min_delta) values;
      },
    ) in
    if bit_width == 0
    then taken (replicate size 0) 0
    else if leb bit_width 32
    then (if ltb (length dec.input) packed
        then (error_decode, dec)
        else taken (bitunpack_32 dec.input size bit_width).0 packed)
    else if leb bit_width 64
    then (if ltb (length dec.input) (size * bytes_per_value)
        then (error_decode, dec)
        else taken (wide_values size bytes_per_value dec.input) (size * bytes_per_value))
    else (error_decode, dec)

pub read_mini_block : DeltaDecoder → Status × DeltaDecoder
read_mini_block dec =
    let (status, dec') = read_block dec in
    if leb dec.mini_blocks_per_block dec.current_mini_block
    then (if is_ok status then unpack_mini_block dec' else (status, dec'))
    else unpack_mini_block dec

pub next_delta : DeltaDecoder → Status × DeltaDecoder
next_delta dec = if length dec.unread == 0 then read_mini_block dec else (ok, dec)

-- The deltas. A mini block of no values, which a block of fewer values than mini blocks has, leaves
-- the buffer as it was, with zeros.
pub decode_loop : ℕ → DeltaDecoder → Status × List ℕ × DeltaDecoder
decode_loop zero dec = (ok, [], dec)
decode_loop (suc left) dec =
    let (status, dec') = next_delta dec in
    let (status', deltas, dec'') = decode_loop left (record dec' { unread = drop 1 dec'.unread }) in
    if is_ok status then (status', get_or dec'.unread 0 0 ∷ deltas, dec'') else (status, [], dec')

-- `scalar_prefix_sum_i32` and `scalar_prefix_sum_i64`, on words of `w` bits.
pub prefix_sums : ℕ → ℕ → List ℕ → List ℕ
prefix_sums w sum [] = []
prefix_sums w sum (delta ∷ deltas) =
    let sum' = (sum + delta) % 2 ^ w in sum' ∷ prefix_sums w sum' deltas

-- The status; the values, which count only if it is ok; and the bytes behind those consumed.
pub decode_from : ℕ → ℕ → Option DeltaDecoder → Status × List ℕ × List ℕ
decode_from w num_values none = (error_decode, [], [])
decode_from w zero (some dec) = (ok, [], dec.input)
decode_from w (suc left) (some dec) =
    let first = dec.first_value % 2 ^ w in
    let (status, deltas, dec') = decode_loop left dec in
    if is_ok status
    then (ok, first ∷ prefix_sums w first (map (λ delta. delta % 2 ^ w) deltas), dec'.input)
    else (status, [], [])

pub decode_int32 : List ℕ → ℕ → Status × List ℕ × List ℕ
decode_int32 input num_values = decode_from 32 num_values (init input)

pub decode_int64 : List ℕ → ℕ → Status × List ℕ × List ℕ
decode_int64 input num_values = decode_from 64 num_values (init input)
