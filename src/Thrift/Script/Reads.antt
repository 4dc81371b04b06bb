-- ===== src/Thrift/Script/Reads.antt =====
-- A row of reads gives back the items whose bytes it is run on.
use carquet.Prelude.{
  ℕ, ◌+◌, ◌*◌, ◌≤◌, ◌≡◌, refl, true, false, none, some, ap, ◌∙◌, subst, arith, List, [], ◌∷◌, ◌++◌,
  append_assoc, length, length-append,
}
use carquet.Core.Endian.{encode_varint64}
use carquet.Core.Endian.{zigzag_encode64}
use carquet.Core.Endian.Varint.{encode_varint64_takes}
use carquet.Core.Endian.Words.{length-write_u64}
use carquet.Thrift.Types.{sign_extend}
use carquet.Thrift.Place.{top}
use carquet.Thrift.Decoder.{ThriftDecoder}
use carquet.Thrift.Decoder.Reads.{
  read_i16_lem, read_i32_lem, read_i64_lem, read_double_lem, read_binary_lem, read_uuid_lem,
  read_byte_lem, read_bool_lem,
}
use carquet.Thrift.Decoder.Headers.{read_field_stop}
use carquet.Thrift.Decoder.Ready.{
  Ready, Ready-behind, Ready-named, Ready-struct_begin, Ready-struct_end, read_pending,
  read_field_lem, read_list_lem, read_map_lem, pend_nothing,
}
use carquet.Thrift.Script.{
  Item, kind_of, kinds_of, read_item, read_all, item_bytes, script_bytes, moved, moved_all, IsSound,
  IsRoomy, IsValid, weight, cost,
}
use carquet.Thrift.Script.Item.{
  byte, i16, i32, i64, double, boolean, binary, uuid, struct_begin, struct_end, field, bool_field,
  list, entries,
}

-- The item was read, and the decoder stands behind it.
abbrev Read : Item → List ℕ → List ℕ → Item × ThriftDecoder → Type 0
Read item stack rest r = (r.0 ≡ item) × Ready stack rest r.1

read_item_lem :
    (item : Item) (stack rest : List ℕ) (d : ThriftDecoder)
    → IsSound stack item
    → IsRoomy (length rest) item
    → Ready stack (item_bytes (top stack) item ++ rest) d
    → Read item (moved item stack) rest (read_item (kind_of item) d)
read_item_lem (byte n) stack rest d h room r =
    rw (read_byte_lem d rest n r.left) (refl, Ready-behind rest r)
read_item_lem (i16 n) stack rest d h room r =
    rw (read_i16_lem d rest n h r.left) (refl, Ready-behind rest r)
read_item_lem (i32 n) stack rest d h room r =
    rw (read_i32_lem d rest n h r.left) (refl, Ready-behind rest r)
read_item_lem (i64 n) stack rest d h room r =
    rw (read_i64_lem d rest n h r.left) (refl, Ready-behind rest r)
read_item_lem (double n) stack rest d h room r =
    rw (read_double_lem d rest n h r.left) (refl, Ready-behind rest r)
read_item_lem (boolean b) stack rest d h room r =
    rw (read_bool_lem d rest b r.idle r.left) (refl, Ready-behind rest r)
read_item_lem (binary none) stack rest d h room r = absurd h
read_item_lem (binary (some bytes)) stack rest d h room r =
    rw
      (read_binary_lem d rest bytes h
        (r.left ∙ append_assoc (encode_varint64 (length bytes)) bytes rest))
      (refl, Ready-behind rest r)
read_item_lem (uuid bytes) stack rest d h room r =
    rw (read_uuid_lem d rest bytes h r.left) (refl, Ready-behind rest r)
read_item_lem struct_begin stack rest d h room r = (refl, Ready-struct_begin r h)
read_item_lem struct_end stack rest d h room r =
    rw (read_field_stop d rest r.good r.left) (refl, Ready-struct_end (Ready-behind rest r))
read_item_lem (field type id) stack rest d (h3, h16, hi) room r =
    let next = Ready-named (Ready-behind rest r) id hi in
    rw (read_field_lem rest type id (omega (arith, h3)) h16 hi r, pend_nothing next type h3)
      (refl, next)
read_item_lem (bool_field true id) stack rest d h room r =
    let (value, next) = read_pending (Ready-named (Ready-behind rest r) id h) true in
    rw (read_field_lem rest 1 id (omega arith) (omega arith) h r)
      (ap (λ b. bool_field b id) value, next)
read_item_lem (bool_field false id) stack rest d h room r =
    let (value, next) = read_pending (Ready-named (Ready-behind rest r) id h) false in
    rw (read_field_lem rest 2 id (omega arith) (omega arith) h r)
      (ap (λ b. bool_field b id) value, next)
read_item_lem (list type count) stack rest d h room r =
    rw (read_list_lem d rest type count h.0 h.1 room r.left) (refl, Ready-behind rest r)
read_item_lem (entries key value count) stack rest d (hk, hv, hc, types) room r =
    rw (read_map_lem d rest key value count hk hv types hc room r.left) (refl, Ready-behind rest r)

-- Every item takes what it costs.
cost_there :
    (item : Item) (stack : List ℕ)
    → IsSound stack item
    → cost item ≤ length (item_bytes (top stack) item)
cost_there (byte n) stack h = omega arith
cost_there (i16 n) stack h = encode_varint64_takes (zigzag_encode64 (sign_extend 16 n))
cost_there (i32 n) stack h = encode_varint64_takes (zigzag_encode64 (sign_extend 32 n))
cost_there (i64 n) stack h = encode_varint64_takes (zigzag_encode64 n)
cost_there (double n) stack h = omega (arith, length-write_u64 n)
cost_there (boolean b) stack h = omega arith
cost_there (binary none) stack h = absurd h
cost_there (binary (some bytes)) stack h = omega (
  arith,
  encode_varint64_takes (length bytes),
  length-append (encode_varint64 (length bytes)) bytes,
)
cost_there (uuid bytes) stack h = omega (arith, h)
cost_there struct_begin stack h = omega arith
cost_there struct_end stack h = omega arith
cost_there (field type id) stack h = ground arith
cost_there (bool_field b id) stack h = ground arith
cost_there (list type count) stack h = ground arith
cost_there (entries key value count) stack h = ground (
  arith,
  encode_varint64_takes count,
  length-append (encode_varint64 count) ((key * 16 + value) ∷ []),
)

weight_there :
    (items : List Item) (stack : List ℕ)
    → IsValid stack items
    → weight items ≤ length (script_bytes stack items)
weight_there [] stack v = omega arith
weight_there (item ∷ items) stack v = omega (
  arith,
  cost_there item stack v.0,
  weight_there items (moved item stack) v.2,
  length-append (item_bytes (top stack) item) (script_bytes (moved item stack) items),
)

IsRoomy-mono : (item : Item) (m n : ℕ) → m ≤ n → IsRoomy m item → IsRoomy n item
IsRoomy-mono (list type count) m n h r = omega arith
IsRoomy-mono (entries key value count) m n h r = omega arith
IsRoomy-mono item m n h r = r

pub read_all_lem :
    (items : List Item) (stack rest : List ℕ) (d : ThriftDecoder)
    → IsValid stack items
    → Ready stack (script_bytes stack items ++ rest) d
    → ((read_all (kinds_of items) d).0 ≡ items)
      × Ready (moved_all items stack) rest (read_all (kinds_of items) d).1
read_all_lem [] stack rest d v r = (refl, r)
read_all_lem (item ∷ items) stack rest d (sound, roomy, valid) r =
    let bytes = item_bytes (top stack) item in
    let later = script_bytes (moved item stack) items in
    let room =
      IsRoomy-mono item (weight items) (length (later ++ rest))
        (omega (arith, weight_there items (moved item stack) valid, length-append later rest))
        roomy in
    let (same, next) =
      read_item_lem item stack (later ++ rest) d sound room
        (subst (λ i. Ready stack i d) (append_assoc bytes later rest) r) in
    let (same_rest, done) =
      read_all_lem items (moved item stack) rest (read_item (kind_of item) d).1 valid next in
    (
      ap (λ i. i ∷ (read_all (kinds_of items) (read_item (kind_of item) d).1).0) same
          ∙ ap (λ i. item ∷ i) same_rest,
      done,
    )
