-- ===== src/Encoding/Rle/Levels/Headers.antt =====
-- The headers that the level functions of src/encoding/rle.c read inline.
use carquet.Prelude.{
  ℕ, zero, suc, ◌+◌, ◌*◌, ◌%◌, ◌^◌, ◌<◌, ◌≡◌, arith, sym, ap, ◌∙◌, bit_or, bit_and, List, [], ◌∷◌,
  ◌++◌, some,
}
use carquet.Core.Endian.{decode_varint_loop, decode_varint32}
use carquet.Core.Endian.Varint.{decode_varint32-encode32}
use carquet.Encoding.Rle.Format.{header_bytes, encode_varint32-header}
use carquet.Encoding.Rle.Levels.{level_header, level_header_loop}

accepted :
    (rounds shift header v : ℕ) (input rest : List ℕ)
    → decode_varint_loop 32 rounds shift header input ≡ some (v, rest)
    → level_header_loop rounds shift header input ≡ (v, rest)
unfolding level_header_loop decode_varint_loop
accepted zero shift header v input rest e = cc
accepted (suc rounds) shift header v [] rest e = cc
accepted (suc rounds) shift header v (byte ∷ input) rest e = ground (
  arith,
  accepted rounds (shift + 7) (bit_or header (bit_and byte 0x7f * 2 ^ shift % 2 ^ 32)) v input rest,
)

-- The inline reader of the level functions reads back every header of the format, a number below
-- 2^32, and leaves what follows it.
pub level_header-header_bytes :
    (v : ℕ) (rest : List ℕ) → v < 2 ^ 32 → level_header (header_bytes v ++ rest) ≡ (v, rest)
unfolding level_header decode_varint32
level_header-header_bytes v rest small = accepted 5 0 0 v (header_bytes v ++ rest) rest (
    ap (λ h. decode_varint_loop 32 5 0 0 (h ++ rest)) (sym (encode_varint32-header v small))
    ∙ decode_varint32-encode32 v rest small)
