-- ===== src/Encoding/Rle/Encoder.antt =====
-- The encoder of src/encoding/rle.c. What carquet_buffer_append reports is ignored, as there.
pub mod Writes
pub mod Groups
pub mod Ends
pub mod Puts
pub mod All
use carquet.Prelude.{ℕ, zero, suc, ◌+◌, ◌-◌, ◌*◌, ◌/◌, ◌%◌, ◌^◌, bit_or}
use carquet.Prelude.{Bool, true, false, List, [], ◌∷◌, ◌++◌, length, take, drop}
use carquet.Prelude.{ltb, leb, ◌==◌, if◌then◌else◌, u8, u32, u64, ◌<<◌, ◌>>◌, ◌&&◌, not}
use carquet.Core.Status.{Status, ok, is_ok}
use carquet.Core.Buffer.{Allocator, Buffer, append}
use carquet.Core.Endian.{encode_varint32}
use carquet.Core.Bitpack.{bitpack8_32}

-- `carquet_rle_encoder_t`. `bitpack_buffer` is the list of its first `bitpack_count` entries.
pub record Encoder : Type 0 where
  pub buffer : Buffer
  pub bit_width : ℕ
  pub prev_value : ℕ
  pub repeat_count : ℕ
  pub has_prev : Bool
  pub bitpack_buffer : List ℕ
  pub bitpack_total : ℕ
  pub status : Status

unfoldable pub rle_value_bytes : ℕ → ℕ
rle_value_bytes bit_width = (bit_width + 7) / 8

-- The bytes that count of those stored: the first one is stored even if none counts.
unfoldable pub write_value_bytes : ℕ → ℕ → List ℕ
write_value_bytes value value_bytes =
    take value_bytes (u8 value ∷ u8 (value >> 8) ∷ u8 (value >> 16) ∷ u8 (value >> 24) ∷ [])

-- Header and value of a run, as one append.
unfoldable pub run_bytes : ℕ → ℕ → ℕ → List ℕ
run_bytes bit_width count value =
    encode_varint32 (u32 (count << 1)) ++ write_value_bytes value (rle_value_bytes bit_width)

-- The length of the run that begins a list of buffered values: those behind the first that equal it.
pub run_behind : ℕ → List ℕ → ℕ
run_behind val [] = 0
run_behind val (x ∷ xs) = if x == val then suc (run_behind val xs) else 0

pub init : Buffer → ℕ → Encoder
init buffer bit_width = record {
  buffer = buffer;
  bit_width = bit_width;
  prev_value = 0;
  repeat_count = 0;
  has_prev = false;
  bitpack_buffer = [];
  bitpack_total = 0;
  status = ok;
}

module _ (a : Allocator) where
  -- An append whose status is ignored.
  pub emit : Buffer → List ℕ → Buffer
  emit buffer bytes = (append a buffer bytes).1

  pub flush_rle : Encoder → Encoder
  flush_rle enc = if enc.repeat_count == 0 then enc else record enc {
    buffer = emit enc.buffer (run_bytes enc.bit_width enc.repeat_count enc.prev_value);
    repeat_count = 0;
  }

  -- The runs among the buffered values that are left; a round takes one value at least, so their
  -- number of rounds is enough.
  pub emit_runs : ℕ → ℕ → List ℕ → Buffer → Buffer
  emit_runs zero bit_width values buffer = buffer
  emit_runs (suc rounds) bit_width [] buffer = buffer
  emit_runs (suc rounds) bit_width (val ∷ values) buffer =
      emit_runs rounds bit_width (drop (run_behind val values) values)
        (emit buffer (run_bytes bit_width (1 + run_behind val values) val))

  pub flush_bitpack_as_rle : Encoder → Encoder
  unfolding emit_runs
  flush_bitpack_as_rle enc = record enc {
    buffer = emit_runs (length enc.bitpack_buffer) enc.bit_width enc.bitpack_buffer enc.buffer;
    bitpack_buffer = [];
    bitpack_total = 0;
  }

  -- `for (g = 0; g < num_groups; g++)`: the buffered group, once for each round.
  pub emit_groups : ℕ → ℕ → List ℕ → Buffer → Buffer
  emit_groups zero bit_width values buffer = buffer
  emit_groups (suc groups) bit_width values buffer =
      emit_groups groups bit_width values (emit buffer (bitpack8_32 values bit_width))

  pub flush_bitpack : Encoder → Encoder
  unfolding flush_bitpack_as_rle
  flush_bitpack enc =
      let num_groups = (enc.bitpack_total + 7) / 8 in
      let header = encode_varint32 (u32 (bit_or (num_groups << 1) 1)) in
      if length enc.bitpack_buffer == 0
      then enc
      else if ltb (length enc.bitpack_buffer) 8
      then flush_bitpack_as_rle enc
      else record enc {
        buffer = emit_groups num_groups enc.bit_width enc.bitpack_buffer (emit enc.buffer header);
        bitpack_buffer = [];
        bitpack_total = 0;
      }

  -- One value put behind the buffered ones; a full buffer is flushed.
  pub push : Encoder → Encoder
  push enc =
      let enc' = record enc {
        bitpack_buffer = enc.bitpack_buffer ++ (enc.prev_value ∷ []);
        bitpack_total = enc.bitpack_total + 1;
      } in
      if length enc'.bitpack_buffer == 8 then flush_bitpack enc' else enc'

  -- `for (i = 0; i < repeat_count; i++)`.
  pub push_repeats : ℕ → Encoder → Encoder
  push_repeats zero enc = enc
  push_repeats (suc left) enc = push_repeats left (push enc)

  -- What `put` does with the run that a new value ends.
  pub end_run : Encoder → Encoder
  end_run enc =
      if leb 8 enc.repeat_count
      then flush_rle (flush_bitpack enc)
      else record (push_repeats enc.repeat_count enc) { repeat_count = 0 }

  pub put : Encoder → ℕ → Status × Encoder
  put enc value =
      if not (is_ok enc.status)
      then (enc.status, enc)
      else if not enc.has_prev
      then (ok, record enc { prev_value = value; repeat_count = 1; has_prev = true })
      else if value == enc.prev_value
      then (ok, record enc { repeat_count = enc.repeat_count + 1 })
      else (ok, record (end_run enc) { prev_value = value; repeat_count = 1 })

  -- `repeat_count` is an `int64_t`: a sum is kept in its 64 bits, and is a count only below 2^63.
  pub put_repeat : Encoder → ℕ → ℕ → Status × Encoder
  put_repeat enc value count =
      let after = put enc value in
      let (status, enc') = after in
      if count == 0
      then (enc.status, enc)
      else if not (is_ok enc.status)
      then (enc.status, enc)
      else if enc.has_prev && (value == enc.prev_value)
      then (ok, record enc { repeat_count = u64 (enc.repeat_count + count) })
      else if not enc.has_prev
      then (ok, record enc { prev_value = value; repeat_count = count; has_prev = true })
      else if not (is_ok status)
      then (status, enc')
      else (ok, record enc' { repeat_count = u64 (enc'.repeat_count + (count - 1)) })

  pub flush : Encoder → Status × Encoder
  flush enc =
      let pushed = record (push_repeats enc.repeat_count enc) { repeat_count = 0 } in
      if not (is_ok enc.status)
      then (enc.status, enc)
      else if leb 8 enc.repeat_count
      then (ok, flush_rle (flush_bitpack enc))
      else if ltb 0 enc.repeat_count
      then (ok, if ltb 0 (length pushed.bitpack_buffer) then flush_bitpack pushed else pushed)
      else (ok, enc)

  -- The loop of `encode_all` over the values that are left, and the flush behind it.
  pub encode_loop : List ℕ → Encoder → Status × Encoder
  encode_loop [] enc = flush enc
  encode_loop (value ∷ values) enc =
      let result = put enc value in
      let rest = encode_loop values result.1 in if not (is_ok result.0) then result else rest

  pub encode_all : List ℕ → ℕ → Buffer → Status × Buffer
  encode_all input bit_width output =
      let result = encode_loop input (init output bit_width) in (result.0, result.1.buffer)
