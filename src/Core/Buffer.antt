-- ===== src/Core/Buffer.antt =====
-- src/core/buffer.c: the growable byte buffer.
-- The allocator is that of src/core/allocator.c, whose functions are chosen by the application: it
-- is a parameter, with what realloc promises.
pub mod Growth
pub mod Append
pub mod Resize
pub mod Reader
pub mod Samples
mod Examples
use carquet.Prelude.{ℕ, zero, suc, ◌+◌, ◌-◌, ◌*◌, ◌/◌, ◌%◌, ◌^◌, ◌<◌, ◌≤◌, ◌≡◌, bit_or}
use carquet.Prelude.{
  Bool, true, false, not, ◌&&◌, ◌||◌, List, [], ◌∷◌, ◌++◌, length, take, drop, replicate,
}
use carquet.Prelude.{ltb, leb, ◌==◌, if◌then◌else◌, ◌>>◌, Option, none, some}
use carquet.Core.Status.{Status, ok, error_out_of_memory, is_ok}
use carquet.Core.Endian.{write_u16_le, write_u32_le, write_u64_le}

-- `grants n` says whether a request for `n` bytes is met; `realloc` is the new block if it is.
-- A new block has the size asked for and begins with the bytes of the old that fit it.
pub record Allocator : Type 0 where
  pub grants : ℕ → Bool
  pub realloc : List ℕ → ℕ → List ℕ
  pub length_realloc : (block : List ℕ) (n : ℕ) → length (realloc block n) ≡ n
  pub realloc_keeps :
      (block : List ℕ) (n k : ℕ)
      → k ≤ length block
      → k ≤ n
      → take k (realloc block n) ≡ take k block

-- `carquet_buffer_t`. The block is `[]` where `data` is NULL, which `is_null` tells.
pub record Buffer : Type 0 where
  pub block : List ℕ
  pub is_null : Bool
  pub size : ℕ
  pub capacity : ℕ
  pub owns_data : Bool

abbrev pub size_max : ℕ
size_max = 2 ^ 64 - 1

abbrev pub default_capacity : ℕ
default_capacity = 4096

-- `n |= n >> k`.
smear : ℕ → ℕ → ℕ
smear k n = bit_or n (n >> k)

pub next_power_of_two : ℕ → ℕ
unfolding smear
next_power_of_two n =
    if n == 0
    then 1
    else (smear 32 (smear 16 (smear 8 (smear 4 (smear 2 (smear 1 (n - 1)))))) + 1) % 2 ^ 64

-- `none` is the return value 1, an overflow.
pub add_overflows_size : ℕ → ℕ → Option ℕ
add_overflows_size a b = if ltb (size_max - b) a then none else some (a + b)

-- The capacity asked for when `needed` bytes do not fit.
pub new_capacity : ℕ → ℕ
new_capacity needed =
    let rounded = next_power_of_two needed in
    let enough = if ltb rounded needed then needed else rounded in
    if ltb enough default_capacity then default_capacity else enough

-- A buffer that does not own its data cannot grow, unless it has none.
abbrev pub can_grow : Buffer → Bool
can_grow buf = buf.owns_data || buf.is_null

-- `memcpy(data + at, bytes, n)` within the block.
abbrev pub store : List ℕ → ℕ → List ℕ → List ℕ
store block at bytes = take at block ++ (bytes ++ drop (at + length bytes) block)

unfoldable pub init : Buffer
init = record { block = []; is_null = true; size = 0; capacity = 0; owns_data = true }

pub init_wrap : List ℕ → Buffer
init_wrap bytes = record {
  block = bytes;
  is_null = false;
  size = length bytes;
  capacity = length bytes;
  owns_data = false;
}

pub clear : Buffer → Buffer
clear buf = record buf { size = 0 }

-- `carquet_buffer_destroy` frees what the buffer owns and resets it.
pub destroy : Buffer → Buffer
unfolding init
destroy buf = init

-- The block and its size go to the caller.
pub detach : Buffer → (List ℕ × ℕ) × Buffer
unfolding init
detach buf = ((buf.block, buf.size), init)

pub swap : Buffer → Buffer → Buffer × Buffer
swap a b = (b, a)

-- What the buffer holds, for its readers.
unfoldable pub contents : Buffer → List ℕ
contents buf = take buf.size buf.block

module _ (a : Allocator) where
  pub ensure_capacity : Buffer → ℕ → Status × Buffer
  ensure_capacity buf needed =
      if leb needed buf.capacity
      then (ok, buf)
      else if not (can_grow buf)
      then (error_out_of_memory, buf)
      else if not (a.grants (new_capacity needed))
      then (error_out_of_memory, buf)
      else (
        ok,
        record buf {
          block = a.realloc buf.block (new_capacity needed);
          is_null = false;
          capacity = new_capacity needed;
          owns_data = true;
        },
      )

  pub reserve : Buffer → ℕ → Status × Buffer
  unfolding ensure_capacity
  reserve buf capacity = ensure_capacity buf capacity

  pub init_capacity : ℕ → Status × Buffer
  unfolding init reserve
  init_capacity capacity = if ltb 0 capacity then reserve init capacity else (ok, init)

  pub init_copy : List ℕ → Status × Buffer
  unfolding init_capacity
  init_copy bytes =
      let (status, buf) = init_capacity (length bytes) in
      if not (is_ok status)
      then (status, buf)
      else if ltb 0 (length bytes)
      then (ok, record buf { block = store buf.block 0 bytes; size = length bytes })
      else (ok, buf)

  -- Bytes that a growing buffer gains are zero.
  pub resize : Buffer → ℕ → Status × Buffer
  unfolding ensure_capacity
  resize buf size =
      let (status, grown) = ensure_capacity buf size in
      if not (is_ok status) then (status, grown) else (
        ok,
        record grown {
          block =
              if ltb grown.size size
              then store grown.block grown.size (replicate (size - grown.size) 0)
              else grown.block;
          size = size;
        },
      )

  -- If realloc fails the larger block is kept. `none` is the end of the program at the assertion
  -- that the buffer owns its data.
  pub shrink_to_fit : Buffer → Option (Status × Buffer)
  shrink_to_fit buf =
      if not buf.owns_data
      then none
      else if buf.size == 0
      then some (ok, record buf { block = []; is_null = true; capacity = 0 })
      else if ltb buf.size buf.capacity && a.grants buf.size
      then some (
        ok,
        record buf { block = a.realloc buf.block buf.size; is_null = false; capacity = buf.size },
      )
      else some (ok, buf)

  -- `carquet_buffer_append` and the functions that append one word.
  unfoldable pub append : Buffer → List ℕ → Status × Buffer
  append buf bytes =
      if length bytes == 0 then (ok, buf) else elim (add_overflows_size buf.size (length bytes)) [
        | none ↦ (error_out_of_memory, buf)
        | some needed ↦
            let (status, grown) = ensure_capacity buf needed in
            if not (is_ok status) then (status, grown) else (
              ok,
              record grown {
                block = store grown.block grown.size bytes;
                size = grown.size + length bytes;
              },
            )
      ]

  unfoldable pub append_byte : Buffer → ℕ → Status × Buffer
  unfolding append
  append_byte buf byte = append buf (byte ∷ [])

  pub append_fill : Buffer → ℕ → ℕ → Status × Buffer
  unfolding append
  append_fill buf value count = append buf (replicate count value)

  pub append_u16_le : Buffer → ℕ → Status × Buffer
  unfolding append
  append_u16_le buf value = append buf (write_u16_le value)

  pub append_u32_le : Buffer → ℕ → Status × Buffer
  unfolding append
  append_u32_le buf value = append buf (write_u32_le value)

  unfoldable pub append_u64_le : Buffer → ℕ → Status × Buffer
  unfolding append
  append_u64_le buf value = append buf (write_u64_le value)
