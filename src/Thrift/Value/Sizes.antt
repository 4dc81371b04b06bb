-- ===== src/Thrift/Value/Sizes.antt =====
-- Every value has a byte at least, so that a container has no more elements than bytes.
use carquet.Prelude.{ℕ, ◌+◌, ◌*◌, ◌≤◌, arith, [], ◌∷◌, length, length-append}
use carquet.Core.Endian.{zigzag_encode64, encode_varint64}
use carquet.Core.Endian.Varint.{encode_varint64_takes}
use carquet.Core.Endian.Words.{length-write_u64}
use carquet.Thrift.Types.{sign_extend}
use carquet.Thrift.Wire.{field_bytes, list_bytes, map_bytes}
use carquet.Thrift.Value.{
  Value, Values, Pairs, Fields, byte, i16, i32, i64, double, binary, uuid, list, bag, entries,
  struct, no_values, value, no_pairs, pair, stop, field, bool_field, type_of, bool_type,
  count_values, count_pairs, value_bytes, values_bytes, pairs_bytes, fields_bytes, IsValue,
  AreValues, ArePairs,
}

pub list_bytes_there : (type count : ℕ) → 1 ≤ length (list_bytes type count)
list_bytes_there type count = ground arith

pub map_bytes_there : (key v count : ℕ) → 1 ≤ length (map_bytes key v count)
map_bytes_there key v count = ground (
  arith,
  encode_varint64_takes count,
  length-append (encode_varint64 count) ((key * 16 + v) ∷ []),
)

pub field_bytes_there : (last type id : ℕ) → 1 ≤ length (field_bytes last type id)
field_bytes_there last type id = ground arith

fields_there : (last : ℕ) (fields : Fields) → 1 ≤ length (fields_bytes last fields)
unfolding fields_bytes
fields_there last stop = omega arith
fields_there last (field id v fields) = omega (
  arith,
  field_bytes_there last (type_of v) id,
  length-append (field_bytes last (type_of v) id) _,
)
fields_there last (bool_field id b fields) = omega (
  arith,
  field_bytes_there last (bool_type b) id,
  length-append (field_bytes last (bool_type b) id) _,
)

pub value_there : (depth : ℕ) (v : Value) → IsValue depth v → 1 ≤ length (value_bytes v)
unfolding IsValue value_bytes
value_there depth (byte n) h = omega arith
value_there depth (i16 n) h = encode_varint64_takes (zigzag_encode64 (sign_extend 16 n))
value_there depth (i32 n) h = encode_varint64_takes (zigzag_encode64 (sign_extend 32 n))
value_there depth (i64 n) h = encode_varint64_takes (zigzag_encode64 n)
value_there depth (double n) h = omega (arith, length-write_u64 n)
value_there depth (binary bytes) h = omega (
  arith,
  encode_varint64_takes (length bytes),
  length-append (encode_varint64 (length bytes)) bytes,
)
value_there depth (uuid bytes) h = omega (arith, h)
value_there depth (list type items) h = omega (
  arith,
  list_bytes_there type (count_values items),
  length-append (list_bytes type (count_values items)) _,
)
value_there depth (bag type items) h = omega (
  arith,
  list_bytes_there type (count_values items),
  length-append (list_bytes type (count_values items)) _,
)
value_there depth (entries key v pairs) h = omega (
  arith,
  map_bytes_there key v (count_pairs pairs),
  length-append (map_bytes key v (count_pairs pairs)) _,
)
value_there depth (struct fields) h = fields_there 0 fields

pub values_there :
    (depth type : ℕ) (items : Values)
    → AreValues depth type items
    → count_values items ≤ length (values_bytes items)
unfolding AreValues values_bytes
values_there depth type no_values h = omega arith
values_there depth type (value v items) h = omega (
  arith,
  value_there depth v h.1,
  values_there depth type items h.2,
  length-append (value_bytes v) (values_bytes items),
)

pub pairs_there :
    (depth key_type value_type : ℕ) (pairs : Pairs)
    → ArePairs depth key_type value_type pairs
    → count_pairs pairs ≤ length (pairs_bytes pairs)
unfolding ArePairs pairs_bytes
pairs_there depth key_type value_type no_pairs h = omega arith
pairs_there depth key_type value_type (pair key v pairs) (same, same_value, hk, hv, more) = omega (
  arith,
  value_there depth key hk,
  pairs_there depth key_type value_type pairs more,
  length-append (value_bytes key) _,
  length-append (value_bytes v) (pairs_bytes pairs),
)
