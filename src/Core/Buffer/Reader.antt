-- ===== src/Core/Buffer/Reader.antt =====
-- The reader of src/core/buffer.c, over bytes that it does not own.
use carquet.Prelude.{
  ℕ, ◌+◌, ◌%◌, ◌<◌, ◌≤◌, ◌≡◌, ◌^◌, refl, arith, List, [], ◌++◌, length, take, drop, get_or,
}
use carquet.Prelude.{Bool, not, leb, if◌then◌else◌, drop-append_self, le→leb, true}
use carquet.Core.Status.{Status, ok, error_file_truncated}
use carquet.Core.Buffer.{Buffer}
use carquet.Core.Endian.{read_u16_le, read_u32_le, read_u64_le, write_u32_le}
use carquet.Core.Endian.Words.{read-write_u32}

-- `carquet_buffer_reader_t`.
pub record Reader : Type 0 where
  pub data_bytes : List ℕ
  pub size : ℕ
  pub pos : ℕ

pub reader_init : Buffer → Reader
reader_init buf = record { data_bytes = buf.block; size = buf.size; pos = 0 }

pub reader_init_data : List ℕ → Reader
reader_init_data bytes = record { data_bytes = bytes; size = length bytes; pos = 0 }

-- The sum is one of 64 bits.
pub reader_has : Reader → ℕ → Bool
reader_has reader n = leb ((reader.pos + n) % 2 ^ 64) reader.size

-- The value read is that of the out parameter; it is of no use where the status is an error.
pub reader_take : {A : Type 0} → Reader → ℕ → (List ℕ → A) → A → Status × A × Reader
unfolding reader_has
reader_take reader n convert unset =
    if not (reader_has reader n)
    then (error_file_truncated, unset, reader)
    else (ok, convert (drop reader.pos reader.data_bytes), record reader { pos = reader.pos + n })

pub reader_read : Reader → ℕ → Status × List ℕ × Reader
unfolding reader_take
reader_read reader n = reader_take reader n (take n) []

pub reader_skip : Reader → ℕ → Status × Reader
unfolding reader_has
reader_skip reader n =
    if not (reader_has reader n)
    then (error_file_truncated, reader)
    else (ok, record reader { pos = reader.pos + n })

pub reader_read_byte : Reader → Status × ℕ × Reader
unfolding reader_take
reader_read_byte reader = reader_take reader 1 (λ bytes. get_or bytes 0 0) 0

pub reader_read_u16_le : Reader → Status × ℕ × Reader
unfolding reader_take
reader_read_u16_le reader = reader_take reader 2 read_u16_le 0

pub reader_read_u32_le : Reader → Status × ℕ × Reader
unfolding reader_take
reader_read_u32_le reader = reader_take reader 4 read_u32_le 0

pub reader_read_u64_le : Reader → Status × ℕ × Reader
unfolding reader_take
reader_read_u64_le reader = reader_take reader 8 read_u64_le 0

-- A reader that stands at a stored word below 2^32, with its four bytes within the size, reads
-- the word with success and moves behind it.
pub reader_read_u32-write :
    (reader : Reader) (front rest : List ℕ) (v : ℕ)
    → reader.data_bytes ≡ front ++ (write_u32_le v ++ rest)
    → reader.pos ≡ length front
    → reader.pos + 4 ≤ reader.size
    → v < 2 ^ 32
    → reader_read_u32_le reader ≡ (ok, v, record reader { pos = reader.pos + 4 })
unfolding reader_read_u32_le
reader_read_u32-write reader front rest v bytes at fits h =
    let room : leb ((reader.pos + 4) % 2 ^ 64) reader.size ≡ true = le→leb _ _ (omega arith) in
    let here : drop reader.pos reader.data_bytes ≡ write_u32_le v ++ rest =
      rw (at, bytes) (drop-append_self front (write_u32_le v ++ rest)) in
    let word : read_u32_le (drop reader.pos reader.data_bytes) ≡ v =
      rw here (read-write_u32 v rest h) in
    rw (room, word) refl
