-- ===== src/Core/Bitpack/Examples.antt =====
-- The packing of src/core/bitpack.c on small inputs.
use carquet.Prelude.{ℕ, ◌≡◌, ◌^◌, refl, arith, List, [], ◌∷◌, ◌++◌, value, digits, below-All}
use carquet.Core.Bitpack.{
  bitunpack8_32, bitpack8_32, pack_loop, pack_value, or_byte, spill, bitunpack8_3bit, read_le24,
}
use carquet.Core.Bitpack.Pack.{fields}
use carquet.Core.Bitpack.Unpack.{bitunpack8_32_lem}
use carquet.Core.Bitpack.RoundTrip.{bitpack8_32_lem, bitunpack8-bitpack8}

abbrev zero_to_seven : List ℕ
zero_to_seven = 0 ∷ 1 ∷ 2 ∷ 3 ∷ 4 ∷ 5 ∷ 6 ∷ 7 ∷ []

abbrev packed_bytes : List ℕ
packed_bytes = 0x88 ∷ 0xc6 ∷ 0xfa ∷ []

-- The example of the Parquet specification.
pack_three_bits : bitpack8_32 zero_to_seven 3 ≡ packed_bytes
unfolding bitpack8_32 pack_loop pack_value or_byte spill
pack_three_bits = refl

unpack_three_bits : bitunpack8_32 packed_bytes 3 ≡ zero_to_seven
unfolding bitunpack8_32 bitunpack8_3bit read_le24
unpack_three_bits = refl

bitunpack8_32_lem_example : bitunpack8_32 packed_bytes 3 ≡ digits (2 ^ 3) 8 (value 256 packed_bytes)
bitunpack8_32_lem_example =
    bitunpack8_32_lem packed_bytes 3 (below-All 256 packed_bytes refl) (omega arith)

bitpack8_32_lem_example :
    bitpack8_32 zero_to_seven 3 ≡ digits 256 3 (value (2 ^ 3) (fields 3 zero_to_seven))
bitpack8_32_lem_example = bitpack8_32_lem zero_to_seven 3 refl (omega arith)

bitunpack8-bitpack8_example :
    bitunpack8_32 (bitpack8_32 zero_to_seven 3 ++ (9 ∷ [])) 3 ≡ fields 3 zero_to_seven
bitunpack8-bitpack8_example =
    bitunpack8-bitpack8 zero_to_seven (9 ∷ []) 3 refl (omega arith) (below-All 256 (9 ∷ []) refl)
