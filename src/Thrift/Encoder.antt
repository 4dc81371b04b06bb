-- ===== src/Thrift/Encoder.antt =====
-- The encoder of src/thrift/thrift_encode.c. Signed integers are words; a double is its 64 bits.
pub mod Emits
pub mod Values
use carquet.Prelude.{
  ℕ, zero, suc, ◌+◌, ◌-◌, ◌*◌, ◌%◌, ◌^◌, bit_or, bit_and, Bool, true, false, not, ◌&&◌, ◌||◌,
}
use carquet.Prelude.{
  List, [], ◌∷◌, ◌++◌, length, replicate, get_or, set, ltb, leb, ◌==◌, if◌then◌else◌, u8, u16, u32,
  ◌<<◌,
}
use carquet.Core.Status.{Status, ok, error_out_of_memory, error_thrift_encode, is_ok}
use carquet.Core.Buffer.{Allocator, Buffer, append}
use carquet.Core.Endian.{encode_varint64, zigzag_encode64, write_u64_le}
use carquet.Thrift.Types.{max_nesting, sign_extend}

-- `thrift_encoder_t`.
pub record ThriftEncoder : Type 0 where
  pub buffer : Buffer
  pub last_field_id : List ℕ
  pub nesting_level : ℕ
  pub status : Status

pub init : Buffer → ThriftEncoder
init buffer = record {
  buffer = buffer;
  last_field_id = replicate max_nesting 0;
  nesting_level = 0;
  status = ok;
}

-- The first error stays.
pub set_error : Status → ThriftEncoder → ThriftEncoder
set_error status enc = if is_ok enc.status then record enc { status = status } else enc

-- The id of the last field of the struct that is open, 0 outside any.
pub last_id : ThriftEncoder → ℕ
last_id enc =
    if ltb 0 enc.nesting_level then get_or enc.last_field_id (enc.nesting_level - 1) 0 else 0

pub set_last_id : ℕ → ThriftEncoder → ThriftEncoder
set_last_id field_id enc =
    if ltb 0 enc.nesting_level
    then record enc { last_field_id = set enc.last_field_id (enc.nesting_level - 1) field_id }
    else enc

pub write_struct_begin : ThriftEncoder → ThriftEncoder
write_struct_begin enc =
    if leb max_nesting enc.nesting_level then set_error error_thrift_encode enc else record enc {
      last_field_id = set enc.last_field_id enc.nesting_level 0;
      nesting_level = enc.nesting_level + 1;
    }

module _ (a : Allocator) where
  -- An append, with its failure noted.
  pub emit : ThriftEncoder → List ℕ → ThriftEncoder
  emit enc bytes =
      let (status, buffer) = append a enc.buffer bytes in
      if is_ok status
      then record enc { buffer = buffer }
      else set_error error_out_of_memory (record enc { buffer = buffer })

  pub write_varint : ThriftEncoder → ℕ → ThriftEncoder
  write_varint enc value = emit enc (encode_varint64 value)

  pub write_zigzag : ThriftEncoder → ℕ → ThriftEncoder
  write_zigzag enc value = write_varint enc (zigzag_encode64 value)

  pub write_byte : ThriftEncoder → ℕ → ThriftEncoder
  write_byte enc value = emit enc (u8 value ∷ [])

  pub write_i16 : ThriftEncoder → ℕ → ThriftEncoder
  write_i16 enc value = write_zigzag enc (sign_extend 16 value)

  pub write_i32 : ThriftEncoder → ℕ → ThriftEncoder
  write_i32 enc value = write_zigzag enc (sign_extend 32 value)

  pub write_i64 : ThriftEncoder → ℕ → ThriftEncoder
  write_i64 enc value = write_zigzag enc value

  pub write_double : ThriftEncoder → ℕ → ThriftEncoder
  write_double enc value = emit enc (write_u64_le value)

  pub write_bool : ThriftEncoder → Bool → ThriftEncoder
  write_bool enc value = write_byte enc (if value then 1 else 0)

  -- `bytes` holds the data, whose length is the argument `length`.
  pub write_binary : ThriftEncoder → List ℕ → ThriftEncoder
  write_binary enc bytes =
      let enc' = write_varint enc (length bytes) in
      if ltb 0 (length bytes) then emit enc' bytes else enc'

  -- `str` holds the characters before the terminating zero; a null pointer is an empty string.
  pub write_string : ThriftEncoder → List ℕ → ThriftEncoder
  write_string enc str = write_binary enc str

  pub write_uuid : ThriftEncoder → List ℕ → ThriftEncoder
  write_uuid enc uuid = emit enc uuid

  pub write_field_stop : ThriftEncoder → ThriftEncoder
  write_field_stop enc = write_byte enc 0

  pub write_struct_end : ThriftEncoder → ThriftEncoder
  write_struct_end enc =
      let enc' = write_field_stop enc in
      if ltb 0 enc'.nesting_level
      then record enc' { nesting_level = enc'.nesting_level - 1 }
      else enc'

  -- The delta is a difference of 16-bit words.
  pub write_field_header : ThriftEncoder → ℕ → ℕ → ThriftEncoder
  write_field_header enc type field_id =
      let delta = u16 (field_id + 2 ^ 16 - last_id enc) in
      let compact = write_byte enc (bit_or (bit_and delta 0x0f << 4) (bit_and type 0x0f)) in
      let extended = write_i16 (write_byte enc (bit_and type 0x0f)) field_id in
      set_last_id field_id (if ltb 0 delta && leb delta 15 then compact else extended)

  -- A count is a signed word: one with its top bit set is below 15.
  pub write_list_begin : ThriftEncoder → ℕ → ℕ → ThriftEncoder
  write_list_begin enc elem_type count =
      let compact = write_byte enc (bit_or (bit_and count 0x0f << 4) (bit_and elem_type 0x0f)) in
      let extended =
        write_varint (write_byte enc (bit_or (0x0f << 4) (bit_and elem_type 0x0f))) count in
      if ltb count 15 || leb (2 ^ 31) count then compact else extended

  pub write_set_begin : ThriftEncoder → ℕ → ℕ → ThriftEncoder
  write_set_begin enc elem_type count = write_list_begin enc elem_type count

  pub write_map_begin : ThriftEncoder → ℕ → ℕ → ℕ → ThriftEncoder
  write_map_begin enc key_type value_type count =
      let sized = write_varint enc (sign_extend 32 count) in
      if count == 0
      then write_byte enc 0
      else write_byte sized (bit_or (bit_and key_type 0x0f << 4) (bit_and value_type 0x0f))
