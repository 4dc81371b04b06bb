-- ===== src/Encoding/Rle/RoundTrip.antt =====
-- The encoder and the decoder of src/encoding/rle.c together.
use carquet.Prelude.{ℕ, ◌+◌, ◌*◌, ◌^◌, ◌<◌, ◌≤◌, ◌≡◌, ◌∙◌, ap, List, length, All, IsDigit, drop}
use carquet.Prelude.{drop-append_self}
use carquet.Core.Status.{ok}
use carquet.Core.Buffer.{Allocator, Buffer, contents}
use carquet.Core.Buffer.Growth.{IsValid}
use carquet.Core.Buffer.Append.{HasRoom}
use carquet.Encoding.Rle.Encoder.{encode_all}
use carquet.Encoding.Rle.Encoder.All.{encode_all-Encoded}
use carquet.Encoding.Rle.Decoder.{decode_all}
use carquet.Encoding.Rle.Decoder.Batch.{decode_all-Encodes}

-- For a width of at most 32 bits, fewer than 2^31 values that fit it, and a valid buffer that
-- can come to hold nine bytes a value more, `encode_all` reports success, and `decode_all` on
-- the bytes that it put behind the buffer's contents gives the same values.
pub decode_all-encode_all :
    (a : Allocator) (output : Buffer) (w : ℕ) (input : List ℕ)
    → w ≤ 32
    → All (IsDigit (2 ^ w)) input
    → length input < 2 ^ 31
    → IsValid output
    → HasRoom a output (output.size + 9 * length input)
    → ((encode_all a input w output).0 ≡ ok)
      × (decode_all
            (drop (length (contents output)) (contents (encode_all a input w output).1))
            w
            (length input)
          ≡ input)
decode_all-encode_all a output w input hw fits small v room =
    let (done, e) = encode_all-Encoded a output w input hw fits small v room in
    (
      done,
      ap (λ t. decode_all (drop (length (contents output)) t) w (length input)) e.behind
          ∙ ap (λ t. decode_all t w (length input)) (drop-append_self (contents output) e.bytes)
          ∙ decode_all-Encodes w e.bytes input hw e.encodes,
    )
