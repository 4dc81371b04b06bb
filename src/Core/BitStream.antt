-- ===== src/Core/BitStream.antt =====
-- The bit reader and the bit writer of src/core/bitpack.c. A count of bits that an argument gives is
-- not negative. What the writer has stored is a list of bytes, and what the reader has still to
-- load is one. `bit_pos`, which nothing uses, is left out.
pub mod Reader
pub mod Writer
pub mod RoundTrip
mod Examples
use carquet.Prelude.{
  ℕ, zero, suc, ◌+◌, ◌-◌, ◌*◌, ◌/◌, ◌%◌, ◌^◌, bit_or, bit_and, Bool, ◌&&◌, ◌||◌, Option, none, some,
}
use carquet.Prelude.{
  List, [], ◌∷◌, ◌++◌, length, ltb, leb, ◌==◌, if◌then◌else◌, u8, u32, ◌<<◌, ◌>>◌,
}

-- `carquet_bit_reader_t`. `buffer_bits` of the source is negative once more bits were taken than
-- there were: it is the difference of the two counts, of which one is 0.
pub record BitReader : Type 0 where
  pub input : List ℕ
  pub buffer : ℕ
  pub buffer_bits : ℕ
  pub overdrawn : ℕ

pub reader_init : List ℕ → BitReader
reader_init input = record { input = input; buffer = 0; buffer_bits = 0; overdrawn = 0 }

-- The loop gives the buffer, the count of its bits, and what is still to load. It is reached with a
-- negative count only where nothing is left to load.
pub refill_loop : List ℕ → ℕ → ℕ → ℕ × ℕ × List ℕ
refill_loop [] buffer buffer_bits = (buffer, buffer_bits, [])
refill_loop (byte ∷ input) buffer buffer_bits =
    let more =
      refill_loop input (bit_or buffer ((byte << buffer_bits) % 2 ^ 64)) (buffer_bits + 8) in
    if leb buffer_bits 56 then more else (buffer, buffer_bits, byte ∷ input)

pub refill_buffer : BitReader → BitReader
refill_buffer reader =
    let (buffer, buffer_bits, input) = refill_loop reader.input reader.buffer reader.buffer_bits in
    record reader { input = input; buffer = buffer; buffer_bits = buffer_bits }

-- `none` is -1.
pub read_bit : BitReader → Option ℕ × BitReader
read_bit reader =
    let refilled : BitReader =
      if reader.buffer_bits == 0 && reader.overdrawn == 0 then refill_buffer reader else reader in
    if refilled.buffer_bits == 0 && refilled.overdrawn == 0 then (none, refilled) else (
      some (bit_and refilled.buffer 1),
      record refilled {
        buffer = refilled.buffer >> 1;
        buffer_bits = refilled.buffer_bits - 1;
        overdrawn = refilled.overdrawn + (1 - refilled.buffer_bits);
      },
    )

-- `num_bits` bits that the buffer holds, as far as there are bits.
pub take_bits : BitReader → ℕ → ℕ × BitReader
take_bits reader num_bits = (
  u32 (bit_and reader.buffer (2 ^ num_bits - 1)),
  record reader {
    buffer = reader.buffer >> num_bits;
    buffer_bits = reader.buffer_bits - num_bits;
    overdrawn = reader.overdrawn + (num_bits - reader.buffer_bits);
  },
)

pub read_bits : BitReader → ℕ → ℕ × BitReader
read_bits reader num_bits =
    let n = if ltb 32 num_bits then 32 else num_bits in
    let refilled : BitReader = if ltb reader.buffer_bits n then refill_buffer reader else reader in
    if num_bits == 0 then (0, reader) else take_bits refilled n

pub read_bits64 : BitReader → ℕ → ℕ × BitReader
read_bits64 reader num_bits =
    let n = if ltb 64 num_bits then 64 else num_bits in
    let (low, reader') = read_bits reader 32 in
    let (high, reader'') = read_bits reader' (n - 32) in
    if num_bits == 0
    then (0, reader)
    else if leb n 32
    then read_bits reader n
    else (bit_or low ((high << 32) % 2 ^ 64), reader'')

pub has_more : BitReader → Bool
has_more reader = ltb 0 reader.buffer_bits || ltb 0 (length reader.input)

pub remaining_bits : BitReader → ℕ
remaining_bits reader =
    (reader.buffer_bits + 2 ^ 64 - reader.overdrawn + length reader.input * 8) % 2 ^ 64

-- `carquet_bit_writer_t`; `written` is what stands in `data` before `byte_pos`.
pub record BitWriter : Type 0 where
  pub written : List ℕ
  pub capacity : ℕ
  pub buffer : ℕ
  pub buffer_bits : ℕ

pub writer_init : ℕ → BitWriter
writer_init capacity = record { written = []; capacity = capacity; buffer = 0; buffer_bits = 0 }

-- The low byte of the buffer is stored.
pub store_byte : BitWriter → BitWriter
store_byte writer = record writer {
  written = writer.written ++ (u8 writer.buffer ∷ []);
  buffer = writer.buffer >> 8;
  buffer_bits = writer.buffer_bits - 8;
}

-- A round takes eight bits, so that as many rounds as there are bits are enough.
pub flush_loop : ℕ → BitWriter → BitWriter
flush_loop zero writer = writer
flush_loop (suc rounds) writer =
    let rest = flush_loop rounds (store_byte writer) in
    if leb 8 writer.buffer_bits && ltb (length writer.written) writer.capacity then rest else writer

pub flush_buffer : BitWriter → BitWriter
flush_buffer writer = flush_loop writer.buffer_bits writer

-- `value` put above the bits of the buffer, as far as the 64 bits of the buffer go.
pub put_bits : BitWriter → ℕ → ℕ → BitWriter
put_bits writer value num_bits =
    let filled : BitWriter = record writer {
      buffer = bit_or writer.buffer ((value << writer.buffer_bits) % 2 ^ 64);
      buffer_bits = writer.buffer_bits + num_bits;
    } in
    if leb 56 filled.buffer_bits then flush_buffer filled else filled

pub write_bit : BitWriter → ℕ → BitWriter
write_bit writer bit = put_bits writer (bit_and bit 1) 1

pub write_bits : BitWriter → ℕ → ℕ → BitWriter
write_bits writer value num_bits =
    let n = if ltb 32 num_bits then 32 else num_bits in
    if num_bits == 0 then writer else put_bits writer (bit_and value (2 ^ n - 1)) n

pub write_bits64 : BitWriter → ℕ → ℕ → BitWriter
write_bits64 writer value num_bits =
    let n = if ltb 64 num_bits then 64 else num_bits in
    if num_bits == 0
    then writer
    else if leb n 32
    then write_bits writer (u32 value) n
    else write_bits (write_bits writer (u32 value) 32) (u32 (value >> 32)) (n - 32)

pub flush : BitWriter → BitWriter
flush writer =
    let flushed = flush_buffer writer in
    if ltb 0 flushed.buffer_bits && ltb (length flushed.written) flushed.capacity
    then record flushed {
      written = flushed.written ++ (u8 flushed.buffer ∷ []);
      buffer = 0;
      buffer_bits = 0;
    }
    else flushed

pub bytes_written : BitWriter → ℕ
bytes_written writer = length writer.written
