-- ===== src/Encoding/Rle/Examples.antt =====
-- The hybrid encoding of src/encoding/rle.c on small inputs.
use carquet.Prelude.{ℕ, ◌≡◌, refl, arith, List, [], ◌∷◌, ◌++◌, length}
use carquet.Prelude.{take, drop, min, replicate, below-All}
use carquet.Core.Status.{ok}
use carquet.Core.Buffer.{contents}
use carquet.Core.Buffer.Append.{Wrote-start}
use carquet.Core.Buffer.Samples.{zero_filled, empty_buffer, empty_buffer-IsValid, empty_buffer_room}
use carquet.Encoding.Rle.Format.{Encodes, repeated, packed, finished, header_bytes}
use carquet.Encoding.Rle.Encoder.{put, put_repeat, flush, encode_all, Encoder}
use carquet.Encoding.Rle.Encoder.Writes.{Emitted}
use carquet.Encoding.Rle.Encoder.Puts.{
  Progress, init-Progress, put-Progress, put_repeat-Progress, flush-Emitted,
}
use carquet.Encoding.Rle.Encoder.All.{Encoded, encode_all-Encoded}
use carquet.Encoding.Rle.Decoder.{Decoder, get, get_batch, skip, decode_all, init}
use carquet.Encoding.Rle.Decoder.Start.{Pending}
use carquet.Encoding.Rle.Decoder.Batch.{init-Pending, get_batch-Pending, decode_all-Encodes}
use carquet.Encoding.Rle.Decoder.Get.{get-Pending}
use carquet.Encoding.Rle.Decoder.Skip.{skip-get_batch}
use carquet.Encoding.Rle.Levels.{level_header, decode_levels}
use carquet.Encoding.Rle.Levels.Runs.{decode_levels-Encodes}
use carquet.Encoding.Rle.Levels.Headers.{level_header-header_bytes}
use carquet.Encoding.Rle.RoundTrip.{decode_all-encode_all}
use carquet.Encoding.Rle.Encoder

abbrev values : List ℕ
values = 5 ∷ 5 ∷ 5 ∷ 5 ∷ 5 ∷ 5 ∷ 5 ∷ 5 ∷ 5 ∷ 1 ∷ 2 ∷ 3 ∷ []

-- Nine fives, then a group of eight.
abbrev stream : List ℕ
stream = 18 ∷ 5 ∷ 3 ∷ 0x88 ∷ 0xc6 ∷ 0xfa ∷ []

abbrev streamed : List ℕ
streamed = replicate 9 5 ++ ((0 ∷ 1 ∷ 2 ∷ 3 ∷ 4 ∷ 5 ∷ 6 ∷ 7 ∷ []) ++ [])

stream-Encodes : Encodes 3 stream streamed
stream-Encodes = repeated 9 5 (omega arith) (omega arith) (omega arith) (
    packed 1 (0 ∷ 1 ∷ 2 ∷ 3 ∷ 4 ∷ 5 ∷ 6 ∷ 7 ∷ []) (omega arith) (omega arith) refl
      (below-All 8 (0 ∷ 1 ∷ 2 ∷ 3 ∷ 4 ∷ 5 ∷ 6 ∷ 7 ∷ []) refl) finished)

abbrev decoder : Decoder
decoder = init stream 3

decoder-Pending : Pending 3 decoder streamed
decoder-Pending = init-Pending 3 stream streamed (omega arith) stream-Encodes

decode_all-Encodes_example : decode_all stream 3 (length streamed) ≡ streamed
decode_all-Encodes_example = decode_all-Encodes 3 stream streamed (omega arith) stream-Encodes

get_batch-Pending_example :
    ((get_batch decoder 11).0 ≡ take (min 11 (length streamed)) streamed)
    × Pending 3 (get_batch decoder 11).1 (drop (min 11 (length streamed)) streamed)
get_batch-Pending_example = get_batch-Pending 3 decoder streamed 11 (omega arith) decoder-Pending

get-Pending_example : ((get decoder).0 ≡ 5) × Pending 3 (get decoder).1 (drop 1 streamed)
get-Pending_example = get-Pending 3 decoder 5 (drop 1 streamed) (omega arith) decoder-Pending

skip-get_batch_example :
    skip decoder 11 ≡ (length (get_batch decoder 11).0, (get_batch decoder 11).1)
skip-get_batch_example = skip-get_batch decoder 11

encode_all-Encoded_example :
    ((encode_all zero_filled values 3 empty_buffer).0 ≡ ok)
    × Encoded empty_buffer (encode_all zero_filled values 3 empty_buffer).1 3 values
encode_all-Encoded_example =
    encode_all-Encoded zero_filled empty_buffer 3 values (omega arith) (below-All 8 values refl)
      (omega arith) empty_buffer-IsValid (empty_buffer_room 108 (omega arith))

decode_all-encode_all_example :
    ((encode_all zero_filled values 3 empty_buffer).0 ≡ ok)
    × (decode_all
          (drop
            (length (contents empty_buffer))
            (contents (encode_all zero_filled values 3 empty_buffer).1))
          3
          (length values)
        ≡ values)
decode_all-encode_all_example =
    decode_all-encode_all zero_filled empty_buffer 3 values (omega arith) (below-All 8 values refl)
      (omega arith) empty_buffer-IsValid (empty_buffer_room 108 (omega arith))

abbrev encoder : Encoder
encoder = Encoder.init empty_buffer 3

encoder-Progress : Progress zero_filled empty_buffer 100 3 (omega arith) encoder []
encoder-Progress = init-Progress zero_filled empty_buffer 100 3 (omega arith) (
    Wrote-start zero_filled empty_buffer 100 empty_buffer-IsValid
      (empty_buffer_room 100 (omega arith)))

put-Progress_example :
    ((put zero_filled encoder 5).0 ≡ ok)
    × Progress zero_filled empty_buffer 100 3
        (omega arith)
        (put zero_filled encoder 5).1
        ([] ++ (5 ∷ []))
put-Progress_example =
    put-Progress zero_filled empty_buffer 100 3 (omega arith) encoder [] 5 encoder-Progress
      (omega arith) (omega arith)

put_repeat-Progress_example :
    ((put_repeat zero_filled encoder 5 9).0 ≡ ok)
    × Progress zero_filled empty_buffer 100 3
        (omega arith)
        (put_repeat zero_filled encoder 5 9).1
        ([] ++ replicate 9 5)
put_repeat-Progress_example =
    put_repeat-Progress zero_filled empty_buffer 100 3 (omega arith) encoder [] 5 9 encoder-Progress
      (omega arith) (omega arith) (omega arith)

flush-Emitted_example :
    ((flush zero_filled (put_repeat zero_filled encoder 5 9).1).0 ≡ ok)
    × Emitted zero_filled empty_buffer 100 3
        (flush zero_filled (put_repeat zero_filled encoder 5 9).1).1.buffer
        ([] ++ replicate 9 5)
flush-Emitted_example =
    flush-Emitted zero_filled empty_buffer 100 3 (omega arith)
      (put_repeat zero_filled encoder 5 9).1 ([] ++ replicate 9 5)
      (put_repeat-Progress zero_filled empty_buffer 100 3 (omega arith) encoder [] 5 9
        encoder-Progress (omega arith) (omega arith) (omega arith)).1
      (omega arith)

level_header-header_bytes_example :
    level_header (header_bytes 0xfffffffe ++ (7 ∷ [])) ≡ (0xfffffffe, 7 ∷ [])
level_header-header_bytes_example = level_header-header_bytes 0xfffffffe (7 ∷ []) (omega arith)

decode_levels-Encodes_example : decode_levels stream 3 20 ≡ streamed
decode_levels-Encodes_example =
    decode_levels-Encodes 3 20 (omega arith) (omega arith) stream-Encodes (omega arith)
