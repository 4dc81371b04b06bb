-- ===== src/Thrift/Decoder.antt =====
-- The decoder of src/thrift/thrift_decode.c. Its reader is the list of the bytes that it has still
-- to read, and the text of an error is left out. A double is its 64 bits.
pub mod Room
pub mod Safety
pub mod Reads
pub mod Headers
pub mod Ready
use carquet.Prelude.{
  ℕ, zero, suc, ◌+◌, ◌-◌, ◌*◌, ◌/◌, ◌%◌, ◌^◌, bit_or, bit_and, Bool, true, false, not, ◌&&◌, ◌||◌,
}
use carquet.Prelude.{
  List, [], ◌∷◌, ◌++◌, length, take, drop, replicate, get_or, set, Option, none, some,
}
use carquet.Prelude.{ltb, leb, ◌==◌, if◌then◌else◌, u16, u32, ◌<<◌, ◌>>◌}
use carquet.Core.Status.{
  Status, ok, error_thrift_truncated, error_thrift_decode, error_thrift_invalid_type, is_ok,
}
use carquet.Core.Status.{error_out_of_memory}
use carquet.Core.Buffer.Reader.{Reader}
use carquet.Core.Endian.{zigzag_decode64, read_u64_le}
use carquet.Thrift.Types.{
  max_nesting, type_stop, type_true, type_false, type_byte, type_i16, type_i32, type_i64,
}
use carquet.Thrift.Types.{
  type_double, type_binary, type_list, type_set, type_map, type_struct, type_uuid,
}

-- `thrift_decoder_t`.
pub record ThriftDecoder : Type 0 where
  pub input : List ℕ
  pub last_field_id : List ℕ
  pub nesting_level : ℕ
  pub bool_pending : Bool
  pub bool_value : Bool
  pub status : Status

unfoldable pub init : List ℕ → ThriftDecoder
init input = record {
  input = input;
  last_field_id = replicate max_nesting 0;
  nesting_level = 0;
  bool_pending = false;
  bool_value = false;
  status = ok;
}

pub init_reader : Reader → ThriftDecoder
unfolding init
init_reader reader = init (drop reader.pos (take reader.size reader.data_bytes))

-- The first error stays.
pub set_error : Status → ThriftDecoder → ThriftDecoder
set_error status dec = if is_ok dec.status then record dec { status = status } else dec

pub has_bytes : ThriftDecoder → ℕ → Bool
has_bytes dec n = leb n (length dec.input)

pub advance : ℕ → ThriftDecoder → ThriftDecoder
advance n dec = record dec { input = drop n dec.input }

-- `carquet_buffer_reader_skip`, whose status is ignored.
pub reader_skip : ℕ → ThriftDecoder → ThriftDecoder
reader_skip n dec = if has_bytes dec n then advance n dec else dec

pub read_byte_raw : ThriftDecoder → ℕ × ThriftDecoder
read_byte_raw dec =
    if has_bytes dec 1
    then (get_or dec.input 0 0, advance 1 dec)
    else (0, set_error error_thrift_truncated dec)

-- The loop over the shifts below 64; with the value comes what is left, and the error if any.
pub varint_loop : ℕ → ℕ → ℕ → List ℕ → ℕ × List ℕ × Status
varint_loop zero shift result input = (0, input, error_thrift_decode)
varint_loop (suc rounds) shift result [] = (0, [], error_thrift_truncated)
varint_loop (suc rounds) shift result (byte ∷ input) =
    let result' = bit_or result ((bit_and byte 0x7f << shift) % 2 ^ 64) in
    let more = varint_loop rounds (shift + 7) result' input in
    if bit_and byte 0x80 == 0 then (result', input, ok) else more

pub read_varint : ThriftDecoder → ℕ × ThriftDecoder
read_varint dec =
    let (value, rest, status) = varint_loop 10 0 0 dec.input in
    let dec' = record dec { input = rest } in
    if is_ok status then (value, dec') else (0, set_error status dec')

pub read_zigzag : ThriftDecoder → ℕ × ThriftDecoder
read_zigzag dec = let (n, dec') = read_varint dec in (zigzag_decode64 n, dec')

pub read_byte : ThriftDecoder → ℕ × ThriftDecoder
read_byte dec = read_byte_raw dec

pub read_i16 : ThriftDecoder → ℕ × ThriftDecoder
read_i16 dec = let (n, dec') = read_zigzag dec in (n % 2 ^ 16, dec')

pub read_i32 : ThriftDecoder → ℕ × ThriftDecoder
read_i32 dec = let (n, dec') = read_zigzag dec in (n % 2 ^ 32, dec')

pub read_i64 : ThriftDecoder → ℕ × ThriftDecoder
read_i64 dec = read_zigzag dec

pub read_double : ThriftDecoder → ℕ × ThriftDecoder
read_double dec =
    if has_bytes dec 8
    then (read_u64_le dec.input, advance 8 dec)
    else (0, set_error error_thrift_truncated dec)

pub read_bool : ThriftDecoder → Bool × ThriftDecoder
read_bool dec =
    let (byte, dec') = read_byte_raw dec in
    if dec.bool_pending
    then (dec.bool_value, record dec { bool_pending = false })
    else (byte == 1, dec')

-- `none` is the null pointer. A length is a signed word of 32 bits.
pub read_binary : ThriftDecoder → Option (List ℕ) × ThriftDecoder
read_binary dec =
    let (value, dec') = read_varint dec in
    let len = value % 2 ^ 32 in
    if leb (2 ^ 31) len
    then (none, set_error error_thrift_decode dec')
    else if not (has_bytes dec' len)
    then (none, set_error error_thrift_truncated dec')
    else (some (take len dec'.input), advance len dec')

-- `grants` tells whether a request for memory is met. The string is that before the zero written.
pub string_of : (ℕ → Bool) → Option (List ℕ) → ThriftDecoder → Option (List ℕ) × ThriftDecoder
string_of grants none dec = (none, dec)
string_of grants (some str) dec =
    if grants (length str + 1) then (some str, dec) else (none, set_error error_out_of_memory dec)

pub read_string_alloc : (ℕ → Bool) → ThriftDecoder → Option (List ℕ) × ThriftDecoder
read_string_alloc grants dec = let (bytes, dec') = read_binary dec in string_of grants bytes dec'

pub read_uuid : ThriftDecoder → List ℕ × ThriftDecoder
read_uuid dec =
    if has_bytes dec 16
    then (take 16 dec.input, advance 16 dec)
    else (replicate 16 0, set_error error_thrift_truncated dec)

pub read_struct_begin : ThriftDecoder → ThriftDecoder
read_struct_begin dec =
    if leb max_nesting dec.nesting_level then set_error error_thrift_decode dec else record dec {
      last_field_id = set dec.last_field_id dec.nesting_level 0;
      nesting_level = dec.nesting_level + 1;
    }

pub read_struct_end : ThriftDecoder → ThriftDecoder
read_struct_end dec =
    if ltb 0 dec.nesting_level then record dec { nesting_level = dec.nesting_level - 1 } else dec

-- The id of the last field of the struct that is open, 0 outside any.
pub last_id : ThriftDecoder → ℕ
last_id dec =
    if ltb 0 dec.nesting_level then get_or dec.last_field_id (dec.nesting_level - 1) 0 else 0

pub set_last_id : ℕ → ThriftDecoder → ThriftDecoder
set_last_id field_id dec =
    if ltb 0 dec.nesting_level
    then record dec { last_field_id = set dec.last_field_id (dec.nesting_level - 1) field_id }
    else dec

-- A field of type true or false holds its value in the type.
pub pend_bool : ℕ → ThriftDecoder → ThriftDecoder
pend_bool type dec =
    if type == type_true
    then record dec { bool_pending = true; bool_value = true }
    else if type == type_false
    then record dec { bool_pending = true; bool_value = false }
    else dec

-- The field that a header begins; `dec` stands behind the header.
pub field_of : ℕ → ThriftDecoder → ℕ × ℕ × ThriftDecoder
field_of header dec =
    let type = bit_and header 0x0f in
    let delta = bit_and (header >> 4) 0x0f in
    let (long_id, behind) = read_i16 dec in
    let short_id = u16 (last_id dec + delta) in
    if delta == 0
    then (type, long_id, pend_bool type (set_last_id long_id behind))
    else (type, short_id, pend_bool type (set_last_id short_id dec))

-- Whether there is a field, its type and its id.
pub read_field_begin : ThriftDecoder → Bool × ℕ × ℕ × ThriftDecoder
read_field_begin dec =
    let (header, dec') = read_byte_raw dec in
    let (type, field_id, dec'') = field_of header dec' in
    if not (is_ok dec.status)
    then (false, type_stop, 0, dec)
    else if header == 0
    then (false, type_stop, 0, dec')
    else (true, type, field_id, dec'')

-- A count is refused if it is negative, or more than the bytes that are left.
pub check_count : ℕ → ThriftDecoder → ℕ × ThriftDecoder
check_count count dec =
    if leb (2 ^ 31) count
    then (0, set_error error_thrift_decode dec)
    else if ltb (length dec.input) count
    then (0, set_error error_thrift_decode dec)
    else (count, dec)

pub read_list_begin : ThriftDecoder → ℕ × ℕ × ThriftDecoder
read_list_begin dec =
    let (header, dec') = read_byte_raw dec in
    let elem_type = bit_and header 0x0f in
    let size = bit_and (header >> 4) 0x0f in
    let (value, dec'') = read_varint dec' in
    let (short_count, short_dec) = check_count size dec' in
    let (long_count, long_dec) = check_count (value % 2 ^ 32) dec'' in
    if size == 0x0f then (elem_type, long_count, long_dec) else (elem_type, short_count, short_dec)

pub read_set_begin : ThriftDecoder → ℕ × ℕ × ThriftDecoder
read_set_begin dec = read_list_begin dec

pub read_map_begin : ThriftDecoder → ℕ × ℕ × ℕ × ThriftDecoder
read_map_begin dec =
    let (value, dec') = read_varint dec in
    let (count, dec'') = check_count (value % 2 ^ 32) dec' in
    let (types, dec''') = read_byte_raw dec'' in
    if count == 0
    then (type_stop, type_stop, 0, dec'')
    else (bit_and (types >> 4) 0x0f, bit_and types 0x0f, count, dec''')
