-- ===== src/Encoding/Delta/Decoder/Examples.antt =====
-- The decoder of src/encoding/delta.c on small inputs.
use carquet.Prelude.{ℕ, ◌++◌, ◌≡◌, refl, arith, some, List, [], ◌∷◌}
use carquet.Core.Status.{ok, error_end_of_data}
use carquet.Core.Endian.{zigzag_decode64, decode_varint_loop}
use carquet.Encoding.Delta.Decoder.{
  init, read_uleb128, check_range, check_mini, decode_int64, decode_from, decode_loop, next_delta,
  read_mini_block, read_block, block_of, unpack_mini_block, above_min, prefix_sums,
}
use carquet.Encoding.Delta.Encoder.{header}
use carquet.Encoding.Delta.Decoder.Header.{started, init-header}
use carquet.Encoding.Delta.Decoder.Sums.{differences, prefix_sums-differences}

abbrev page : List ℕ
page = 0x80 ∷ 0x01 ∷ 4 ∷ 2 ∷ 0xc8 ∷ 0x01 ∷ 14 ∷ 0 ∷ 0 ∷ 0 ∷ 0 ∷ 9 ∷ []

two_values : decode_int64 page 2 ≡ (ok, 100 ∷ 107 ∷ [], 9 ∷ [])
unfolding init read_uleb128 check_range check_mini decode_int64 decode_from decode_loop next_delta
    read_mini_block read_block block_of unpack_mini_block above_min prefix_sums zigzag_decode64
    decode_varint_loop
two_values = refl

no_block : decode_int64 (0x80 ∷ 0x01 ∷ 4 ∷ 2 ∷ 0xc8 ∷ 0x01 ∷ []) 2 ≡ (error_end_of_data, [], [])
unfolding init read_uleb128 check_range check_mini decode_int64 decode_from decode_loop next_delta
    read_mini_block read_block block_of unpack_mini_block above_min prefix_sums zigzag_decode64
    decode_varint_loop
no_block = refl

prefix_sums-differences_example : prefix_sums 64 100 (differences 100 (107 ∷ 3 ∷ [])) ≡ 107 ∷ 3 ∷ []
prefix_sums-differences_example =
    prefix_sums-differences 100 (107 ∷ 3 ∷ []) (omega arith) (omega arith, (omega arith, tt))

init-header_example : init (header 2 100 ++ (9 ∷ [])) ≡ some (started 100 (9 ∷ []))
init-header_example = init-header 2 100 (9 ∷ []) (omega arith) (omega arith)
