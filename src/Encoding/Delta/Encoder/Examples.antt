-- ===== src/Encoding/Delta/Encoder/Examples.antt =====
-- The encoder of src/encoding/delta.c on small inputs.
use carquet.Prelude.{◌^◌, ◌≡◌, ◌≤◌, refl, arith, some, none, [], ◌∷◌, All}
use carquet.Prelude.{◌<◌}
use carquet.Encoding.Delta.Encoder.Bounds.{encode_within}
use carquet.Encoding.Delta.Encoder.Width.{mini_block_width_lem, IsLeast, rank}
use carquet.Prelude.{Any, take, drop, ◌⊎◌, ◌-◌, ◌*◌}
use carquet.Core.Endian.{encode_varint64, zigzag_encode64}
use carquet.Encoding.Delta.Encoder.{
  header, bit_width_required, bit_width_loop, encode, encode_loop, flushed, flush_block,
  block_bytes, widths, mini_block_width, mini_block, max_adjusted, adjusted, min_delta,
  min_delta_loop, signed_ltb, packed_total, packed_bytes, mini_blocks_bytes, mini_block_bytes,
}

width_of_300 : bit_width_required 300 ≡ 9
unfolding bit_width_required bit_width_loop
width_of_300 = refl

-- Two values a step of 7 apart: a block whose mini blocks have no bits.
two_values :
    encode (100 ∷ 107 ∷ []) 64 ≡ some (0x80 ∷ 0x01 ∷ 4 ∷ 2 ∷ 0xc8 ∷ 0x01 ∷ 14 ∷ 0 ∷ 0 ∷ 0 ∷ 0 ∷ [])
unfolding header bit_width_required bit_width_loop encode encode_loop flushed flush_block
    block_bytes widths mini_block_width mini_block max_adjusted adjusted min_delta min_delta_loop
    signed_ltb packed_total packed_bytes mini_blocks_bytes mini_block_bytes encode_varint64
    zigzag_encode64
two_values = refl

too_small : encode (100 ∷ 107 ∷ []) 39 ≡ none
unfolding encode
too_small = refl

encode_within_example : 11 ≤ 64
encode_within_example =
    encode_within (100 ∷ 107 ∷ []) (0x80 ∷ 0x01 ∷ 4 ∷ 2 ∷ 0xc8 ∷ 0x01 ∷ 14 ∷ 0 ∷ 0 ∷ 0 ∷ 0 ∷ []) 64
      (omega arith, (omega arith, tt)) (omega arith) two_values

-- The deltas -1 and 9: ten apart, which takes four bits.
mini_block_width_lem_example :
    IsLeast (min_delta (0xffffffffffffffff ∷ 9 ∷ [])) (0xffffffffffffffff ∷ 9 ∷ [])
    × (mini_block_width (0xffffffffffffffff ∷ 9 ∷ []) 0 ≤ 64)
    × All
        (λ d.
          rank d - rank (min_delta (0xffffffffffffffff ∷ 9 ∷ []))
          < 2 ^ mini_block_width (0xffffffffffffffff ∷ 9 ∷ []) 0)
        (take 32 (drop (0 * 32) (0xffffffffffffffff ∷ 9 ∷ [])))
    × ((mini_block_width (0xffffffffffffffff ∷ 9 ∷ []) 0 ≡ 0)
        ⊎ Any
            (λ d.
              2 ^ (mini_block_width (0xffffffffffffffff ∷ 9 ∷ []) 0 - 1)
              ≤ rank d - rank (min_delta (0xffffffffffffffff ∷ 9 ∷ [])))
            (take 32 (drop (0 * 32) (0xffffffffffffffff ∷ 9 ∷ []))))
mini_block_width_lem_example =
    mini_block_width_lem 0xffffffffffffffff (9 ∷ []) 0 (omega arith, (omega arith, tt))
