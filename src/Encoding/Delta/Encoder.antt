-- ===== src/Encoding/Delta/Encoder.antt =====
-- The encoder of src/encoding/delta.c. What it has stored is a list of bytes.
pub mod Bounds
pub mod Width
mod Examples
use carquet.Prelude.{append_assoc, ◌≡◌, refl}
use carquet.Prelude.{
  ℕ, zero, suc, ◌+◌, ◌-◌, ◌*◌, ◌/◌, ◌%◌, ◌^◌, min, Bool, ◌&&◌, Option, none, some, ◌>>=◌,
}
use carquet.Prelude.{
  List, [], ◌∷◌, ◌++◌, map, length, take, drop, replicate, ltb, leb, ◌==◌, if◌then◌else◌, u32, u64,
  ◌>>◌, digits,
}
use carquet.Core.Endian.{encode_varint64, zigzag_encode64}
use carquet.Core.Bitpack.{bitpack_32}

abbrev pub block_size : ℕ
block_size = 128

abbrev pub mini_blocks : ℕ
mini_blocks = 4

abbrev pub mini_block_size : ℕ
mini_block_size = block_size / mini_blocks

-- `delta_encoder_t`; `out` is what stands before `pos`, `deltas` the first `delta_count` of the block.
pub record DeltaEncoder : Type 0 where
  pub out : List ℕ
  pub capacity : ℕ
  pub last_value : ℕ
  pub deltas : List ℕ

-- `while (value > 0)`: a number below 2^64 has 64 bits at most.
pub bit_width_loop : ℕ → ℕ → ℕ
bit_width_loop zero value = 0
bit_width_loop (suc rounds) value =
    let more = bit_width_loop rounds (value >> 1) in if ltb 0 value then suc more else 0

pub bit_width_required : ℕ → ℕ
bit_width_required value = bit_width_loop 64 value

-- `a < b` of signed words.
pub signed_ltb : ℕ → ℕ → Bool
signed_ltb a b = ltb (u64 (a + 2 ^ 63)) (u64 (b + 2 ^ 63))

pub min_delta_loop : ℕ → List ℕ → ℕ
min_delta_loop best [] = best
min_delta_loop best (delta ∷ deltas) =
    min_delta_loop (if signed_ltb delta best then delta else best) deltas

pub min_delta : List ℕ → ℕ
min_delta [] = 0
min_delta (delta ∷ deltas) = min_delta_loop delta deltas

pub adjusted : ℕ → ℕ → ℕ
adjusted smallest delta = u64 (delta + 2 ^ 64 - smallest)

pub max_adjusted : ℕ → List ℕ → ℕ → ℕ
max_adjusted smallest [] best = best
max_adjusted smallest (delta ∷ deltas) best =
    let value = adjusted smallest delta in
    max_adjusted smallest deltas (if ltb best value then value else best)

-- The deltas from `start` to `end`.
pub mini_block : List ℕ → ℕ → List ℕ
mini_block deltas mb = take mini_block_size (drop (mb * mini_block_size) deltas)

pub mini_block_width : List ℕ → ℕ → ℕ
mini_block_width deltas mb =
    bit_width_required (max_adjusted (min_delta deltas) (mini_block deltas mb) 0)

-- The bytes that the check of the capacity counts for a mini block.
pub packed_bytes : ℕ → ℕ
packed_bytes bit_width =
    if ltb 0 bit_width
    then (if leb bit_width 32
        then mini_block_size * bit_width / 8
        else mini_block_size * ((bit_width + 7) / 8))
    else 0

pub wide_bytes : ℕ → List ℕ → List ℕ
wide_bytes bytes_per_value [] = []
wide_bytes bytes_per_value (value ∷ values) =
    digits 256 bytes_per_value value ++ wide_bytes bytes_per_value values

-- Up to 32 bits the values are packed, and beyond that each stands in whole bytes.
pub mini_block_bytes : ℕ → List ℕ → ℕ → List ℕ
mini_block_bytes smallest deltas bit_width =
    let values = map (adjusted smallest) deltas in
    let padding = replicate (mini_block_size - length deltas) 0 in
    if bit_width == 0
    then []
    else if leb bit_width 32
    then bitpack_32 (map u32 values ++ padding) mini_block_size bit_width
    else wide_bytes ((bit_width + 7) / 8) (values ++ padding)

pub mini_blocks_bytes : List ℕ → ℕ → ℕ → List ℕ
mini_blocks_bytes deltas zero mb = []
mini_blocks_bytes deltas (suc rounds) mb =
    mini_block_bytes (min_delta deltas) (mini_block deltas mb) (mini_block_width deltas mb)
    ++ mini_blocks_bytes deltas rounds (mb + 1)

pub widths : List ℕ → ℕ → ℕ → List ℕ
widths deltas zero mb = []
widths deltas (suc rounds) mb = mini_block_width deltas mb ∷ widths deltas rounds (mb + 1)

pub packed_total : List ℕ → ℕ
packed_total [] = 0
packed_total (bit_width ∷ bit_widths) = packed_bytes bit_width + packed_total bit_widths

pub block_bytes : List ℕ → List ℕ
block_bytes deltas =
    encode_varint64 (zigzag_encode64 (min_delta deltas))
    ++ (widths deltas mini_blocks 0 ++ mini_blocks_bytes deltas mini_blocks 0)

-- `none` is CARQUET_ERROR_ENCODE.
pub flush_block : DeltaEncoder → Option DeltaEncoder
flush_block enc =
    let needed = 10 + mini_blocks + packed_total (widths enc.deltas mini_blocks 0) in
    if length enc.deltas == 0
    then some enc
    else if ltb enc.capacity (length enc.out + needed)
    then none
    else some (record enc { out = enc.out ++ block_bytes enc.deltas; deltas = [] })

pub flushed : Bool → DeltaEncoder → Option DeltaEncoder
flushed full enc = if full then flush_block enc else some enc

-- `values` are words of 64 bits; of `int32_t` they are extended with their sign.
pub encode_loop : List ℕ → DeltaEncoder → Option DeltaEncoder
encode_loop [] enc = some enc
encode_loop (value ∷ values) enc = do
  enc' ← flushed (length enc.deltas + 1 == block_size) (record enc {
    deltas = enc.deltas ++ (u64 (value + 2 ^ 64 - enc.last_value) ∷ []);
    last_value = value;
  })
  encode_loop values enc'

pub header : ℕ → ℕ → List ℕ
header num_values first =
    encode_varint64 block_size
    ++ (encode_varint64 mini_blocks
        ++ (encode_varint64 num_values ++ encode_varint64 (zigzag_encode64 first)))

-- The bytes, or `none` for CARQUET_ERROR_ENCODE.
pub encode : List ℕ → ℕ → Option (List ℕ)
encode [] capacity = if ltb capacity 40 then none else some (header 0 0)
encode (first ∷ values) capacity = if ltb capacity 40 then none else do
  enc ← encode_loop values (record {
    out = header (suc (length values)) first;
    capacity = capacity;
    last_value = first;
    deltas = [];
  })
  enc' ← flush_block enc
  some enc'.out

-- The header and what follows it, regrouped.
pub header_lem :
    (n first : ℕ) (rest : List ℕ)
    → header n first ++ rest
      ≡ encode_varint64 block_size
        ++ (encode_varint64 mini_blocks
            ++ (encode_varint64 n ++ (encode_varint64 (zigzag_encode64 first) ++ rest)))
unfolding header
header_lem n first rest = simp append_assoc refl

-- `(int64_t)value` of an `int32_t`.
pub widen : ℕ → ℕ
widen value = if ltb value (2 ^ 31) then value else value + (2 ^ 64 - 2 ^ 32)

pub encode_int32 : List ℕ → ℕ → Option (List ℕ)
encode_int32 values capacity = encode (map widen values) capacity
