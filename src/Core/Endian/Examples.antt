-- ===== src/Core/Endian/Examples.antt =====
-- The functions of src/core/endian.h on small inputs.
use carquet.Prelude.{
  none, ◌^◌, ◌-◌, ◌+◌, ◌≤◌, ◌≡◌, refl, arith, [], ◌∷◌, ◌++◌, length, All, IsByte, some, signed,
}
use carquet.Core.Endian.{encode_varint64, decode_varint64, decode_varint_loop}
use carquet.Core.Endian.{zigzag_encode64}
use carquet.Core.Endian.Varint.{encode_varint64_shape, decode_varint64-encode64}
use carquet.Core.Endian.Zigzag.{zigzag, zigzag_encode64-signed}

encode_300 : encode_varint64 300 ≡ 0xac ∷ 0x02 ∷ []
unfolding encode_varint64
encode_300 = refl

decode_truncated : decode_varint64 (0xac ∷ []) ≡ none
unfolding decode_varint64 decode_varint_loop
decode_truncated = refl

zigzag_minus_two : zigzag_encode64 (2 ^ 64 - 2) ≡ 3
unfolding zigzag_encode64
zigzag_minus_two = refl

encode_varint64_shape_example :
    All IsByte (encode_varint64 300)
    × (1 ≤ length (encode_varint64 300))
    × (length (encode_varint64 300) ≤ 1 + 1)
encode_varint64_shape_example = encode_varint64_shape 1 300 (omega arith)

decode_varint64-encode64_example :
    decode_varint64 (encode_varint64 300 ++ (7 ∷ [])) ≡ some (300, 7 ∷ [])
decode_varint64-encode64_example = decode_varint64-encode64 300 (7 ∷ []) (omega arith)

zigzag_encode64-signed_example : zigzag_encode64 (2 ^ 64 - 2) ≡ zigzag (signed 64 (2 ^ 64 - 2))
zigzag_encode64-signed_example = zigzag_encode64-signed (2 ^ 64 - 2) (omega arith)
