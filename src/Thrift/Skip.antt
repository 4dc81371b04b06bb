-- ===== src/Thrift/Skip.antt =====
-- `thrift_skip` of src/thrift/thrift_decode.c.
pub mod Shrinks
pub mod Safety
pub mod Passes
use carquet.Prelude.{ℕ, zero, suc, ◌+◌, Bool, List, length, ◌==◌, ◌||◌, not, if◌then◌else◌, false}
use carquet.Core.Status.{ok, error_thrift_decode, error_thrift_invalid_type, is_ok}
use carquet.Thrift.Types.{
  max_nesting, type_stop, type_true, type_false, type_byte, type_i16, type_i32, type_i64,
}
use carquet.Thrift.Types.{
  type_double, type_binary, type_list, type_set, type_map, type_struct, type_uuid,
}
use carquet.Thrift.Decoder.{
  ThriftDecoder, set_error, reader_skip, read_varint, read_binary, read_list_begin, read_map_begin,
}
use carquet.Thrift.Decoder.{read_struct_begin, read_struct_end, read_field_begin}

-- `for (i = 0; i < count && status == OK; i++)`.
pub repeat : ℕ → (ThriftDecoder → ThriftDecoder) → ThriftDecoder → ThriftDecoder
repeat zero step dec = dec
repeat (suc left) step dec =
    let rest = repeat left step (step dec) in if is_ok dec.status then rest else dec

-- `while (thrift_read_field_begin(...))`: a round that goes on takes a byte at least.
pub skip_fields : ℕ → (ℕ → ThriftDecoder → ThriftDecoder) → ThriftDecoder → ThriftDecoder
skip_fields zero again dec = dec
skip_fields (suc rounds) again dec =
    let (more, type, _, dec') = read_field_begin dec in
    let rest = skip_fields rounds again (again type dec') in if more then rest else dec'

-- The cases of the switch that call `thrift_skip` again, which is `again`.
pub skip_list : (ℕ → ThriftDecoder → ThriftDecoder) → ThriftDecoder → ThriftDecoder
skip_list again dec =
    let (elem_type, count, dec') = read_list_begin dec in repeat count (again elem_type) dec'

pub skip_map : (ℕ → ThriftDecoder → ThriftDecoder) → ThriftDecoder → ThriftDecoder
skip_map again dec =
    let (key_type, value_type, count, dec') = read_map_begin dec in
    repeat count (λ d. again value_type (again key_type d)) dec'

pub skip_struct : (ℕ → ThriftDecoder → ThriftDecoder) → ThriftDecoder → ThriftDecoder
skip_struct again dec =
    read_struct_end (skip_fields (suc (length dec.input)) again (read_struct_begin dec))

-- The switch.
pub skip_case : (ℕ → ThriftDecoder → ThriftDecoder) → ℕ → ThriftDecoder → ThriftDecoder
skip_case again type dec =
    if type == type_stop
    then set_error error_thrift_decode dec
    else if type == type_true || type == type_false
    then record dec { bool_pending = false }
    else if type == type_byte
    then reader_skip 1 dec
    else if type == type_i16 || (type == type_i32 || type == type_i64)
    then (read_varint dec).1
    else if type == type_double
    then reader_skip 8 dec
    else if type == type_binary
    then (read_binary dec).1
    else if type == type_list || type == type_set
    then skip_list again dec
    else if type == type_map
    then skip_map again dec
    else if type == type_struct
    then skip_struct again dec
    else if type == type_uuid
    then reader_skip 16 dec
    else set_error error_thrift_invalid_type dec

-- The calls of a call get less fuel; they stand behind a byte that was read.
pub skip_fuel : ℕ → ℕ → ThriftDecoder → ThriftDecoder
skip_fuel zero type dec = dec
skip_fuel (suc fuel) type dec =
    let done = skip_case (skip_fuel fuel) type dec in if is_ok dec.status then done else dec

pub skip : ThriftDecoder → ℕ → ThriftDecoder
skip dec type = skip_fuel (suc (length dec.input)) type dec

pub skip_field : ThriftDecoder → ℕ → ThriftDecoder
skip_field dec type = skip dec type
