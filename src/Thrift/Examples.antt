-- ===== src/Thrift/Examples.antt =====
-- The Thrift code of src/thrift on small inputs.
use carquet.Prelude.{
  ℕ, suc, ◌+◌, ◌^◌, ◌<◌, ◌≤◌, ◌≡◌, refl, ap, subst, sym, arith, true, some, List, [], ◌∷◌, ◌++◌,
  length, drop,
}
use carquet.Core.Status.{ok, is_ok, error_thrift_truncated}
use carquet.Core.Buffer.{contents}
use carquet.Core.Buffer.Append.{HasRoom}
use carquet.Core.Buffer.Samples.{zero_filled, empty_buffer, empty_buffer-IsValid, empty_buffer_room}
use carquet.Core.Endian.{encode_varint64, zigzag_encode64}
use carquet.Thrift.Types.{max_nesting, sign_extend}
use carquet.Thrift.Encoder
use carquet.Thrift.Decoder
use carquet.Thrift.Decoder.{ThriftDecoder, read_byte, read_byte_raw, has_bytes, advance, set_error}
use carquet.Thrift.Decoder.Reads.{read_byte_starved}
use carquet.Thrift.Decoder.Ready.{Ready, Ready-init}
use carquet.Thrift.Script
use carquet.Thrift.Script.{Item, write_all, read_all, kinds_of, script_bytes, moved_all}
use carquet.Thrift.Script.RoundTrip.{write_all_lem, read_all-write_all}
use carquet.Thrift.Value.{
  Value, Values, Fields, value_bytes, type_of, IsValue, AreValues, AreFields,
}
use carquet.Thrift.Skip.{skip, skip_fuel}
use carquet.Thrift.Skip.Shrinks.{skip_fuel_enough}
use carquet.Thrift.Skip.Passes.{skip_passes_value}
use carquet.Thrift.Reach.{here, next, byte, Reach-keeps_error, Reach-in_bounds}

-- A struct with an integer, a Boolean, a list of two integers, and a string of a far id.
abbrev script : List Item
script =
    Item.struct_begin
    ∷ Item.field 5 1
    ∷ Item.i32 7
    ∷ Item.bool_field true 2
    ∷ Item.field 9 3
    ∷ Item.list 5 2
    ∷ Item.i32 300
    ∷ Item.i32 0xffffffff
    ∷ Item.field 8 40
    ∷ Item.binary (some (104 ∷ 105 ∷ []))
    ∷ Item.struct_end
    ∷ []

script-IsValid : Script.IsValid [] script
script-IsValid = (
  omega arith,
  tt,
  (
    (omega arith, omega arith, omega arith),
    tt,
    (
      omega arith,
      tt,
      (
        omega arith,
        tt,
        (
          (omega arith, omega arith, omega arith),
          tt,
          (
            (omega arith, omega arith),
            omega arith,
            (
              omega arith,
              tt,
              (
                omega arith,
                tt,
                ((omega arith, omega arith, omega arith), tt, (omega arith, tt, (tt, tt, tt))),
              ),
            ),
          ),
        ),
      ),
    ),
  ),
)

script-bytes :
    script_bytes [] script
    ≡ 0x15 ∷ 0x0e ∷ 0x11 ∷ 0x19 ∷ 0x25 ∷ 0xd8 ∷ 0x04 ∷ 0x01 ∷ 0x08 ∷ 0x50 ∷ 0x02 ∷ 104 ∷ 105 ∷ 0
      ∷ []
unfolding encode_varint64 zigzag_encode64 sign_extend
script-bytes = refl

script_small : length (script_bytes [] script) < 2 ^ 64
script_small = subst (λ (i : List ℕ). length i < 2 ^ 64) (sym script-bytes) (omega arith)

script_room : HasRoom zero_filled empty_buffer (empty_buffer.size + length (script_bytes [] script))
script_room = empty_buffer_room (length (script_bytes [] script)) script_small

abbrev written : Encoder.ThriftEncoder
written = write_all zero_filled (Encoder.init empty_buffer) script

write_all_lem_example :
    (written.status ≡ ok)
    × (contents written.buffer ≡ contents empty_buffer ++ script_bytes [] script)
    × (written.nesting_level ≡ 0)
write_all_lem_example =
    write_all_lem zero_filled empty_buffer script empty_buffer-IsValid script-IsValid script_room

abbrev left : List ℕ
left = 255 ∷ []

read_all-write_all_example :
    let input = drop (length (contents empty_buffer)) (contents written.buffer) ++ left in
    let (read, dec) = read_all (kinds_of script) (Decoder.init input) in
    (read ≡ script)
    × (dec.input ≡ left)
    × (is_ok dec.status ≡ true)
    × (dec.nesting_level ≡ written.nesting_level)
read_all-write_all_example =
    read_all-write_all zero_filled empty_buffer script empty_buffer-IsValid script-IsValid
      script_room left

-- A struct in a list in a struct.
abbrev tree : Value
tree = Value.struct (
    Fields.bool_field 1 true (
      Fields.field 2
        (Value.list 12 (
          Values.value (Value.struct (Fields.field 20 (Value.i16 5) Fields.stop)) Values.no_values))
        Fields.stop))

tree-IsValue : IsValue max_nesting tree
unfolding IsValue AreValues AreFields
tree-IsValue = (
  omega arith,
  (
    omega arith,
    (
      omega arith,
      (omega arith, omega arith, (refl, (omega arith, (omega arith, omega arith, tt)), tt)),
      tt,
    ),
  ),
)

abbrev over_tree : ThriftDecoder
over_tree = Decoder.init (value_bytes tree ++ left)

skip_passes_value_example : Ready [] left (skip over_tree (type_of tree))
skip_passes_value_example =
    skip_passes_value tree [] left over_tree (omega arith) tree-IsValue
      (Ready-init (value_bytes tree ++ left))

skip_fuel_enough_example :
    skip_fuel (suc (length over_tree.input)) 12 over_tree
    ≡ skip_fuel (suc (suc (length over_tree.input))) 12 over_tree
skip_fuel_enough_example =
    skip_fuel_enough (suc (length over_tree.input)) (suc (suc (length over_tree.input))) 12
      over_tree (omega arith) (omega arith)

-- A decoder without input that has failed to read a byte.
abbrev starved : ThriftDecoder
starved = (read_byte (Decoder.init [])).1

starved_status : starved.status ≡ error_thrift_truncated
unfolding Decoder.init
starved_status = read_byte_starved (Decoder.init []) refl refl

Reach-keeps_error_example : (read_byte starved).1.status ≡ starved.status
Reach-keeps_error_example = Reach-keeps_error (next here (byte starved)) (ap is_ok starved_status)

Reach-in_bounds_example :
    (length (read_byte over_tree).1.last_field_id ≡ max_nesting)
    × ((read_byte over_tree).1.nesting_level ≤ max_nesting)
Reach-in_bounds_example = Reach-in_bounds (value_bytes tree ++ left) (next here (byte over_tree))
