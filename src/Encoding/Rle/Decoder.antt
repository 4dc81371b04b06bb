-- ===== src/Encoding/Rle/Decoder.antt =====
-- The decoder of src/encoding/rle.c. Its input is the list of the bytes from `pos` on.
pub mod Start
pub mod Packed
pub mod Runs
pub mod Batch
pub mod Get
pub mod Skip
use carquet.Prelude.{
  ℕ, zero, suc, ◌+◌, ◌-◌, ◌*◌, ◌/◌, ◌^◌, bit_or, bit_and, Bool, true, false, not, ◌&&◌, ◌||◌,
}
use carquet.Prelude.{List, [], ◌∷◌, ◌++◌, length, take, drop, replicate, Option, none, some, min}
use carquet.Prelude.{ltb, leb, ◌==◌, if◌then◌else◌, u32, ◌<<◌, ◌>>◌}
use carquet.Core.Status.{Status, ok, error_invalid_rle, is_ok}
use carquet.Core.Endian.{decode_varint_loop}
use carquet.Core.Bitpack.{bitunpack8_32}

-- `carquet_rle_decoder_t`: `input` is the data from `pos` up to `size`, and `unread` the entries
-- of `bitpack_buffer` from `bitpack_pos` up to `bitpack_count`.
pub record Decoder : Type 0 where
  pub input : List ℕ
  pub bit_width : ℕ
  pub value_mask : ℕ
  pub in_rle_run : Bool
  pub run_remaining : ℕ
  pub rle_value : ℕ
  pub unread : List ℕ
  pub status : Status

-- At most five bytes, on a word of 32 bits; nothing is taken from a number that does not end.
unfoldable pub read_varint : List ℕ → Option (ℕ × List ℕ)
read_varint input = decode_varint_loop 32 5 0 0 input

-- The bytes of a repeated value, from byte `i` on.
pub read_value : ℕ → ℕ → ℕ → List ℕ → ℕ
read_value zero i acc bytes = acc
read_value (suc left) i acc [] = acc
read_value (suc left) i acc (byte ∷ bytes) =
    read_value left (i + 1) (bit_or acc (u32 (byte << (i * 8)))) bytes

-- A run of `run_remaining` values whose header has been read.
pub begin_repeated : Decoder → Bool × Decoder
begin_repeated dec =
    let value_bytes = (dec.bit_width + 7) / 8 in
    if ltb (length dec.input) value_bytes
    then (false, record dec { status = error_invalid_rle })
    else (
      true,
      record dec {
        input = drop value_bytes dec.input;
        rle_value = bit_and (read_value value_bytes 0 0 dec.input) dec.value_mask;
      },
    )

-- What the header says; `rest` is the data behind it.
pub read_header : Decoder → ℕ → List ℕ → Decoder
read_header dec header rest =
    if bit_and header 1 == 0
    then record dec { input = rest; in_rle_run = true; run_remaining = header >> 1 }
    else record dec { input = rest; in_rle_run = false; run_remaining = (header >> 1) * 8 }

-- The source calls itself behind an empty run, which has taken a byte.
pub start_run_loop : ℕ → Decoder → Bool × Decoder
start_run_loop zero dec = (false, dec)
start_run_loop (suc rounds) dec =
    if length dec.input == 0 then (false, dec) else elim (read_varint dec.input) [
      | none ↦ (false, record dec { status = error_invalid_rle })
      | some (header, rest) ↦
          let dec' = read_header dec header rest in
          let next = start_run_loop rounds dec' in
          if dec'.run_remaining == 0
          then next
          else if dec'.in_rle_run
          then begin_repeated dec'
          else (true, record dec' { unread = [] })
    ]

pub start_new_run : Decoder → Bool × Decoder
start_new_run dec = start_run_loop (length dec.input) dec

pub fill_bitpack_buffer : Decoder → Bool × Decoder
fill_bitpack_buffer dec =
    if dec.run_remaining == 0
    then (false, dec)
    else if ltb (length dec.input) dec.bit_width
    then (false, record dec { status = error_invalid_rle })
    else (
      true,
      record dec {
        input = drop dec.bit_width dec.input;
        unread = bitunpack8_32 dec.input dec.bit_width;
      },
    )

pub init : List ℕ → ℕ → Decoder
init input bit_width =
    let dec : Decoder = record {
      input = input;
      bit_width = bit_width;
      value_mask = u32 (2 ^ bit_width - 1);
      in_rle_run = false;
      run_remaining = 0;
      rle_value = 0;
      unread = [];
      status = ok;
    } in
    if ltb 32 bit_width
    then record dec { bit_width = 0; value_mask = 0; status = error_invalid_rle }
    else dec

pub has_next : Decoder → Bool
has_next dec =
    if not (is_ok dec.status)
    then false
    else if ltb 0 dec.run_remaining
    then true
    else ltb 0 (length dec.input)

-- A run, begun where the last one is used up.
unfoldable pub need_run : Decoder → Bool × Decoder
need_run dec = if dec.run_remaining == 0 then start_new_run dec else (true, dec)

-- A buffer with an unread value, filled where it is used up.
unfoldable pub need_values : Decoder → Bool × Decoder
need_values dec = if length dec.unread == 0 then fill_bitpack_buffer dec else (true, dec)

pub next_value : List ℕ → ℕ × List ℕ
next_value [] = (0, [])
next_value (x ∷ unread) = (x, unread)

pub get : Decoder → ℕ × Decoder
get dec =
    let (started, run) = need_run dec in
    let (filled, ready) = need_values run in
    let (x, unread) = next_value ready.unread in
    if not (is_ok dec.status)
    then (0, dec)
    else if not started
    then (0, run)
    else if run.in_rle_run
    then (run.rle_value, record run { run_remaining = run.run_remaining - 1 })
    else if not filled
    then (0, ready)
    else (x, record ready { unread = unread; run_remaining = ready.run_remaining - 1 })

-- The values that the inner loop of `get_batch` copies: `left` are wanted.
pub copied : ℕ → ℕ → List ℕ → List ℕ
copied zero run_remaining unread = []
copied (suc left) zero unread = []
copied (suc left) (suc run_remaining) [] = []
copied (suc left) (suc run_remaining) (x ∷ unread) = x ∷ copied left run_remaining unread

-- The decoder behind `n` values of its buffer.
unfoldable pub advance : ℕ → Decoder → Decoder
advance n dec = record dec { unread = drop n dec.unread; run_remaining = dec.run_remaining - n }

-- The values of a packed run, `left` of them at most. A round ends the loop or copies one value at
-- least, so that `left` rounds are enough.
pub get_packed : ℕ → Decoder → ℕ → List ℕ × Decoder
get_packed zero dec left = ([], dec)
get_packed (suc rounds) dec left =
    let (filled, ready) = need_values dec in
    let part = copied left ready.run_remaining ready.unread in
    let rest = get_packed rounds (advance (length part) ready) (left - length part) in
    if not (ltb 0 left && ltb 0 dec.run_remaining)
    then ([], dec)
    else if not filled
    then ([], ready)
    else (part ++ rest.0, rest.1)

pub get_run : Decoder → ℕ → List ℕ × Decoder
get_run dec left =
    let to_fill = min left dec.run_remaining in
    if dec.in_rle_run
    then (
      replicate to_fill dec.rle_value,
      record dec { run_remaining = dec.run_remaining - to_fill },
    )
    else get_packed left dec left

-- A round ends the loop or reads one value at least, except for a round that meets an error; the
-- next one ends the loop then.
pub get_loop : ℕ → Decoder → ℕ → List ℕ × Decoder
get_loop zero dec left = ([], dec)
get_loop (suc rounds) dec left =
    let (started, run) = need_run dec in
    let part = get_run run left in
    let rest = get_loop rounds part.1 (left - length part.0) in
    if not (ltb 0 left && has_next dec)
    then ([], dec)
    else if not started
    then ([], run)
    else (part.0 ++ rest.0, rest.1)

pub get_batch : Decoder → ℕ → List ℕ × Decoder
get_batch dec count = get_loop (count + 1) dec count

-- The loop of `skip` in a packed run; it gives the number of values passed.
pub skip_packed : ℕ → Decoder → ℕ → ℕ × Decoder
skip_packed zero dec to_skip = (0, dec)
skip_packed (suc rounds) dec to_skip =
    let (filled, ready) = need_values dec in
    let can_skip = min (min (length ready.unread) to_skip) ready.run_remaining in
    let rest = skip_packed rounds (advance can_skip ready) (to_skip - can_skip) in
    if not (ltb 0 to_skip && ltb 0 dec.run_remaining)
    then (0, dec)
    else if not filled
    then (0, ready)
    else (can_skip + rest.0, rest.1)

pub skip_run : Decoder → ℕ → ℕ × Decoder
skip_run dec left =
    let to_skip = min left dec.run_remaining in
    if dec.in_rle_run
    then (to_skip, record dec { run_remaining = dec.run_remaining - to_skip })
    else skip_packed to_skip dec to_skip

pub skip_loop : ℕ → Decoder → ℕ → ℕ × Decoder
skip_loop zero dec left = (0, dec)
skip_loop (suc rounds) dec left =
    let (started, run) = need_run dec in
    let part = skip_run run left in
    let rest = skip_loop rounds part.1 (left - part.0) in
    if not (ltb 0 left && has_next dec)
    then (0, dec)
    else if not started
    then (0, run)
    else (part.0 + rest.0, rest.1)

pub skip : Decoder → ℕ → ℕ × Decoder
skip dec count = skip_loop (count + 1) dec count

-- The values read; the source returns their number.
pub decode_all : List ℕ → ℕ → ℕ → List ℕ
decode_all input bit_width max_values = (get_batch (init input bit_width) max_values).0
