-- ===== src/Encoding/Delta/Decoder/Header.antt =====
-- The header that the encoder writes is the one that the decoder reads.
use carquet.Prelude.{ℕ, ◌≡◌, arith, ap, some, List, [], ◌++◌, IsU64, replicate}
use carquet.Core.Endian.{encode_varint64, zigzag_encode64}
use carquet.Core.Endian.Varint.{decode_varint_loop-encode}
use carquet.Core.Endian.Zigzag.{zigzag_decode64-encode64, zigzag_encode64-lt}
use carquet.Encoding.Delta.Encoder.{header, header_lem, mini_blocks, block_size}
use carquet.Encoding.Delta.Decoder.{DeltaDecoder, init, read_uleb128, check_range, check_mini}

read_uleb128-encode :
    (v : ℕ) (rest : List ℕ) → IsU64 v → read_uleb128 (encode_varint64 v ++ rest) ≡ some (v, rest)
unfolding read_uleb128
read_uleb128-encode v rest h = decode_varint_loop-encode 9 64 v rest (omega arith) h

-- A decoder that stands behind a header, before the first block.
abbrev pub started : ℕ → List ℕ → DeltaDecoder
started first rest = record {
  input = rest;
  block_size = block_size;
  mini_blocks_per_block = mini_blocks;
  first_value = first;
  min_delta = 0;
  bit_widths = replicate mini_blocks 0;
  current_mini_block = mini_blocks;
  unread = [];
}

-- On the header that the encoder writes for a count and a first value that are words of 64 bits,
-- with any bytes behind it, the decoder accepts, holds the first value, and stands before the
-- first block with exactly those bytes left.
pub init-header :
    (n first : ℕ) (rest : List ℕ)
    → IsU64 n
    → IsU64 first
    → init (header n first ++ rest) ≡ some (started first rest)
unfolding init check_range check_mini
init-header n first rest hn hf =
    let code = zigzag_encode64 first in
    let last = encode_varint64 code ++ rest in
    let split : header n first ++ rest
        ≡ encode_varint64 128 ++ (encode_varint64 4 ++ (encode_varint64 n ++ last)) =
      header_lem n first rest in
    rw
      (
        split,
        read_uleb128-encode 128 (encode_varint64 4 ++ (encode_varint64 n ++ last)) (omega arith),
        read_uleb128-encode 4 (encode_varint64 n ++ last) (omega arith),
        read_uleb128-encode n last hn,
        read_uleb128-encode code rest (zigzag_encode64-lt first hf),
      )
      (ap (λ (t : ℕ). some (started t rest)) (zigzag_decode64-encode64 first hf))
