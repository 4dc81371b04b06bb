-- ===== src/Encoding/ByteStreamSplit.antt =====
-- src/encoding/byte_stream_split.c and the scalar kernels it reaches through src/simd/dispatch.c.
-- A buffer is a function from an offset to the byte there, so that what a loop writes and what it
-- leaves alone can both be stated. A count is not negative. The kernels of the vector units are
-- not modelled: the dispatch is the scalar one.
pub mod Places
pub mod Scalar
pub mod Tiles
pub mod RoundTrip
mod Examples
use carquet.Prelude.{
  ℕ, zero, suc, ◌+◌, ◌-◌, ◌*◌, ◌%◌, ◌^◌, ◌==◌, ltb, leb, min, ◌&&◌, if◌then◌else◌,
}
use carquet.Core.Status.{Status, ok, error_encode, error_decode, error_invalid_argument}

pub store : ℕ → ℕ → (ℕ → ℕ) → ℕ → ℕ
store at byte memory i = if i == at then byte else memory i

-- `output[b * count + i] = values[i * type_length + b]` for the `left` values from `i` on.
pub split_row : (left i b count width : ℕ) → (ℕ → ℕ) → (ℕ → ℕ) → ℕ → ℕ
split_row zero i b count width values output = output
split_row (suc left) i b count width values output =
    split_row left (i + 1) b count width values
      (store (b * count + i) (values (i * width + b)) output)

-- The loops of `carquet_byte_stream_split_encode`: the streams one behind the other.
pub split_rows : (left b count width : ℕ) → (ℕ → ℕ) → (ℕ → ℕ) → ℕ → ℕ
split_rows zero b count width values output = output
split_rows (suc left) b count width values output =
    split_rows left (b + 1) count width values (split_row count 0 b count width values output)

-- `output[b * count + i] = src[i * width + b]` for the `left` bytes from `b` on.
pub split_value : (left b i count width : ℕ) → (ℕ → ℕ) → (ℕ → ℕ) → ℕ → ℕ
split_value zero b i count width values output = output
split_value (suc left) b i count width values output =
    split_value left (b + 1) i count width values
      (store (b * count + i) (values (i * width + b)) output)

pub split_values : (left i count width : ℕ) → (ℕ → ℕ) → (ℕ → ℕ) → ℕ → ℕ
split_values zero i count width values output = output
split_values (suc left) i count width values output =
    split_values left (i + 1) count width values (split_value width 0 i count width values output)

pub scalar_byte_split_encode : (width count : ℕ) → (ℕ → ℕ) → (ℕ → ℕ) → ℕ → ℕ
scalar_byte_split_encode width count values output = split_values count 0 count width values output

-- `values[i * width + b] = data[b * count + i]` for the `left` bytes from `b` on.
pub join_value : (left b i count width : ℕ) → (ℕ → ℕ) → (ℕ → ℕ) → ℕ → ℕ
join_value zero b i count width input values = values
join_value (suc left) b i count width input values =
    join_value left (b + 1) i count width input
      (store (i * width + b) (input (b * count + i)) values)

pub join_values : (left i count width : ℕ) → (ℕ → ℕ) → (ℕ → ℕ) → ℕ → ℕ
join_values zero i count width input values = values
join_values (suc left) i count width input values =
    join_values left (i + 1) count width input (join_value width 0 i count width input values)

pub scalar_byte_split_decode : (width count : ℕ) → (ℕ → ℕ) → (ℕ → ℕ) → ℕ → ℕ
scalar_byte_split_decode width count input values = join_values count 0 count width input values

pub required_size : (count type_length : ℕ) → ℕ
required_size count type_length = count * type_length % 2 ^ 64

-- The status, the number of bytes written and the output.
pub encode_float : (count output_capacity : ℕ) → (ℕ → ℕ) → (ℕ → ℕ) → Status × ℕ × (ℕ → ℕ)
encode_float count output_capacity values output =
    let required = required_size count 4 in
    if ltb output_capacity required
    then (error_encode, 0, output)
    else (ok, required, scalar_byte_split_encode 4 count values output)

pub encode_double : (count output_capacity : ℕ) → (ℕ → ℕ) → (ℕ → ℕ) → Status × ℕ × (ℕ → ℕ)
encode_double count output_capacity values output =
    let required = required_size count 8 in
    if ltb output_capacity required
    then (error_encode, 0, output)
    else (ok, required, scalar_byte_split_encode 8 count values output)

-- What the generic encoder leaves in the output once the checks have passed.
pub split : (type_length count : ℕ) → (ℕ → ℕ) → (ℕ → ℕ) → ℕ → ℕ
split type_length count values output =
    if type_length == 4
    then scalar_byte_split_encode 4 count values output
    else if type_length == 8
    then scalar_byte_split_encode 8 count values output
    else split_rows type_length 0 count type_length values output

pub encode : (type_length count output_capacity : ℕ) → (ℕ → ℕ) → (ℕ → ℕ) → Status × ℕ × (ℕ → ℕ)
encode type_length count output_capacity values output =
    let required = required_size count type_length in
    if type_length == 0
    then (error_invalid_argument, 0, output)
    else if ltb output_capacity required
    then (error_encode, 0, output)
    else (ok, required, split type_length count values output)

-- `memcpy(memory + to, source + from, size)`.
pub copy : (size to from : ℕ) → (ℕ → ℕ) → (ℕ → ℕ) → ℕ → ℕ
copy size to from source memory i =
    if leb to i && ltb i (to + size) then source (from + (i - to)) else memory i

-- The `left` streams from `s` on are copied into the tile.
pub gather : (left s n count offset : ℕ) → (ℕ → ℕ) → (ℕ → ℕ) → ℕ → ℕ
gather zero s n count offset input tile = tile
gather (suc left) s n count offset input tile =
    gather left (s + 1) n count offset input (copy n (s * n) (s * count + offset) input tile)

-- The kernel run on a pointer into the output.
pub decode_at : (at width n : ℕ) → (ℕ → ℕ) → (ℕ → ℕ) → ℕ → ℕ
decode_at at width n tile values i =
    if leb at i
    then scalar_byte_split_decode width n tile (λ j. values (at + j)) (i - at)
    else values i

-- The loop over the tiles. A tile has a value at least, so that `count` rounds are enough fuel.
pub tile_loop : (fuel size width count offset : ℕ) → (ℕ → ℕ) → (ℕ → ℕ) → (ℕ → ℕ) → ℕ → ℕ
tile_loop zero size width count offset input tile values = values
tile_loop (suc fuel) size width count offset input tile values =
    let n = min (count - offset) size in
    let gathered = gather width 0 n count offset input tile in
    let rest =
      tile_loop fuel size width count (offset + n) input gathered
        (decode_at (offset * width) width n gathered values) in
    if ltb offset count then rest else values

-- `tile` is what the array on the stack holds before.
pub tiled_float : (count : ℕ) → (ℕ → ℕ) → (ℕ → ℕ) → (ℕ → ℕ) → ℕ → ℕ
tiled_float count input tile values =
    if leb count 65536
    then scalar_byte_split_decode 4 count input values
    else tile_loop count 65536 4 count 0 input tile values

pub tiled_double : (count : ℕ) → (ℕ → ℕ) → (ℕ → ℕ) → (ℕ → ℕ) → ℕ → ℕ
tiled_double count input tile values =
    if leb count 32768
    then scalar_byte_split_decode 8 count input values
    else tile_loop count 32768 8 count 0 input tile values

pub decode_float : (count input_size : ℕ) → (ℕ → ℕ) → (ℕ → ℕ) → (ℕ → ℕ) → Status × (ℕ → ℕ)
decode_float count input_size input tile values =
    if ltb input_size (required_size count 4)
    then (error_decode, values)
    else (ok, tiled_float count input tile values)

pub decode_double : (count input_size : ℕ) → (ℕ → ℕ) → (ℕ → ℕ) → (ℕ → ℕ) → Status × (ℕ → ℕ)
decode_double count input_size input tile values =
    if ltb input_size (required_size count 8)
    then (error_decode, values)
    else (ok, tiled_double count input tile values)

-- What the generic decoder leaves in the values once the checks have passed.
pub join : (type_length count : ℕ) → (ℕ → ℕ) → (ℕ → ℕ) → (ℕ → ℕ) → ℕ → ℕ
join type_length count input tile values =
    if type_length == 4
    then tiled_float count input tile values
    else if type_length == 8
    then tiled_double count input tile values
    else join_values count 0 count type_length input values

pub decode : (type_length count input_size : ℕ) → (ℕ → ℕ) → (ℕ → ℕ) → (ℕ → ℕ) → Status × (ℕ → ℕ)
decode type_length count input_size input tile values =
    if type_length == 0
    then (error_invalid_argument, values)
    else if ltb input_size (required_size count type_length)
    then (error_decode, values)
    else (ok, join type_length count input tile values)
