-- ===== src/Thrift/Script/Writes.antt =====
-- A row of writes appends the bytes of its items.
use carquet.Prelude.{
  ℕ, true, false, none, some, sym, subst, arith, List, [], ◌∷◌, ◌++◌, append_assoc, append-nil,
}
use carquet.Core.Buffer.{Allocator, Buffer}
use carquet.Thrift.Place.{top}
use carquet.Thrift.Encoder.{ThriftEncoder}
use carquet.Thrift.Encoder.Emits.{
  Written, Written-binary, Written-field, Written-list, Written-map, Written-struct_begin,
  Written-struct_end,
}
use carquet.Thrift.Encoder.Values.{
  write_byte-Written, write_i16-Written, write_i32-Written, write_i64-Written, write_double-Written,
  write_bool-Written, write_uuid-Written,
}
use carquet.Thrift.Script.{
  Item, write_item, write_all, item_bytes, script_bytes, moved, moved_all, IsSound, IsValid,
}
use carquet.Thrift.Script.Item.{
  byte, i16, i32, i64, double, boolean, binary, uuid, struct_begin, struct_end, field, bool_field,
  list, entries,
}

module _ (a : Allocator) (start : Buffer) (budget : ℕ) where
  write_item-Written :
      (item : Item) {out stack : List ℕ} {enc : ThriftEncoder}
      → IsSound stack item
      → Written a start budget out stack enc
      → Written a start budget
          (out ++ item_bytes (top stack) item)
          (moved item stack)
          (write_item a enc item)
  write_item-Written (byte n) h w = write_byte-Written w n h
  write_item-Written (i16 n) h w = write_i16-Written w n
  write_item-Written (i32 n) h w = write_i32-Written w n
  write_item-Written (i64 n) h w = write_i64-Written w n
  write_item-Written (double n) h w = write_double-Written w n
  write_item-Written (boolean b) h w = write_bool-Written w b
  write_item-Written (binary none) h w = absurd h
  write_item-Written (binary (some bytes)) h w = Written-binary a start budget w bytes
  write_item-Written (uuid bytes) h w = write_uuid-Written w bytes
  write_item-Written struct_begin {out} {stack} {enc} h w =
      subst (λ o. Written a start budget o (0 ∷ stack) (write_item a enc struct_begin))
        (sym (append-nil out)) (Written-struct_begin a start budget w h)
  write_item-Written struct_end h w = Written-struct_end a start budget w
  write_item-Written (field type id) h w = Written-field a start budget w type id h.1 h.2
  write_item-Written (bool_field true id) h w = Written-field a start budget w 1 id (omega arith) h
  write_item-Written (bool_field false id) h w = Written-field a start budget w 2 id (omega arith) h
  write_item-Written (list type count) h w = Written-list a start budget w type count h.0 h.1
  write_item-Written (entries key value count) h w =
      Written-map a start budget w key value count h.0 h.1 h.2

  pub write_all-Written :
      (items : List Item) {out stack : List ℕ} {enc : ThriftEncoder}
      → IsValid stack items
      → Written a start budget out stack enc
      → Written a start budget
          (out ++ script_bytes stack items)
          (moved_all items stack)
          (write_all a enc items)
  write_all-Written [] {out} {stack} {enc} v w =
      subst (λ o. Written a start budget o stack enc) (sym (append-nil out)) w
  write_all-Written (item ∷ items) {out} {stack} {enc} v w =
      subst
        (λ o.
          Written a start budget o (moved_all (item ∷ items) stack)
            (write_all a enc (item ∷ items)))
        (append_assoc out (item_bytes (top stack) item) (script_bytes (moved item stack) items))
        (write_all-Written items v.2 (write_item-Written item v.0 w))
