-- ===== src/Thrift/Reach.antt =====
-- A decoder in use: any of its operations, in any order.
use carquet.Prelude.{ℕ, ◌≡◌, ◌≤◌, arith, Bool, false, List, length, length-replicate, ◌∙◌}
use carquet.Core.Status.{is_ok}
use carquet.Thrift.Types.{max_nesting}
use carquet.Thrift.Decoder.{
  ThriftDecoder, init, read_byte, read_varint, read_i16, read_i32, read_i64, read_zigzag,
  read_double, read_bool, read_binary, read_string_alloc, read_uuid, read_struct_begin,
  read_struct_end, read_field_begin, read_list_begin, read_set_begin, read_map_begin,
}
use carquet.Thrift.Decoder.Safety.{
  Keeps, Keeps-refl, Keeps-trans, read_varint-Keeps, read_byte-Keeps, read_double-Keeps,
  read_bool-Keeps, read_i16-Keeps, read_i32-Keeps, read_i64-Keeps, read_zigzag-Keeps,
  read_set_begin-Keeps, read_binary-Keeps, read_string_alloc-Keeps, read_uuid-Keeps,
  read_struct_begin-Keeps, read_struct_end-Keeps, read_field_begin-Keeps, read_list_begin-Keeps,
  read_map_begin-Keeps,
}
use carquet.Thrift.Skip.{skip}
use carquet.Thrift.Skip.Safety.{skip-Keeps}

-- One call of the interface.
pub data Step : ThriftDecoder → ThriftDecoder → Type 0 where
  byte : (d : ThriftDecoder) → Step d (read_byte d).1
  varint : (d : ThriftDecoder) → Step d (read_varint d).1
  zigzag : (d : ThriftDecoder) → Step d (read_zigzag d).1
  i16 : (d : ThriftDecoder) → Step d (read_i16 d).1
  i32 : (d : ThriftDecoder) → Step d (read_i32 d).1
  i64 : (d : ThriftDecoder) → Step d (read_i64 d).1
  double : (d : ThriftDecoder) → Step d (read_double d).1
  boolean : (d : ThriftDecoder) → Step d (read_bool d).1
  binary : (d : ThriftDecoder) → Step d (read_binary d).1
  string : (d : ThriftDecoder) (grants : ℕ → Bool) → Step d (read_string_alloc grants d).1
  uuid : (d : ThriftDecoder) → Step d (read_uuid d).1
  struct_begin : (d : ThriftDecoder) → Step d (read_struct_begin d)
  struct_end : (d : ThriftDecoder) → Step d (read_struct_end d)
  field_begin : (d : ThriftDecoder) → Step d (read_field_begin d).3
  list_begin : (d : ThriftDecoder) → Step d (read_list_begin d).2
  set_begin : (d : ThriftDecoder) → Step d (read_set_begin d).2
  map_begin : (d : ThriftDecoder) → Step d (read_map_begin d).3
  skipped : (d : ThriftDecoder) (type : ℕ) → Step d (skip d type)

-- Any number of calls, one behind the other.
pub data Reach (start : ThriftDecoder) : ThriftDecoder → Type 0 where
  here : Reach start start
  next : {d d' : ThriftDecoder} → Reach start d → Step d d' → Reach start d'

Step-Keeps : {d d' : ThriftDecoder} → Step d d' → Keeps d d'
Step-Keeps (byte d) = read_byte-Keeps d
Step-Keeps (varint d) = read_varint-Keeps d
Step-Keeps (zigzag d) = read_zigzag-Keeps d
Step-Keeps (i16 d) = read_i16-Keeps d
Step-Keeps (i32 d) = read_i32-Keeps d
Step-Keeps (i64 d) = read_i64-Keeps d
Step-Keeps (double d) = read_double-Keeps d
Step-Keeps (boolean d) = read_bool-Keeps d
Step-Keeps (binary d) = read_binary-Keeps d
Step-Keeps (string d grants) = read_string_alloc-Keeps d grants
Step-Keeps (uuid d) = read_uuid-Keeps d
Step-Keeps (struct_begin d) = read_struct_begin-Keeps d
Step-Keeps (struct_end d) = read_struct_end-Keeps d
Step-Keeps (field_begin d) = read_field_begin-Keeps d
Step-Keeps (list_begin d) = read_list_begin-Keeps d
Step-Keeps (set_begin d) = read_set_begin-Keeps d
Step-Keeps (map_begin d) = read_map_begin-Keeps d
Step-Keeps (skipped d type) = skip-Keeps d type

Reach-Keeps : {start d : ThriftDecoder} → Reach start d → Keeps start d
Reach-Keeps {start} here = Keeps-refl start
Reach-Keeps (next r s) = Keeps-trans (Reach-Keeps r) (Step-Keeps s)

-- Once a decoder has failed, no sequence of calls changes its status: the first error is the one
-- that is reported.
pub Reach-keeps_error :
    {start d : ThriftDecoder} → Reach start d → is_ok start.status ≡ false → d.status ≡ start.status
Reach-keeps_error r failed = (Reach-Keeps r).sticky failed

-- On any input, whatever calls were made on a decoder and in whatever order, the array of field
-- ids has its 32 entries and the nesting level is at most 32.
pub Reach-in_bounds :
    (input : List ℕ) {d : ThriftDecoder}
    → Reach (init input) d
    → (length d.last_field_id ≡ max_nesting) × (d.nesting_level ≤ max_nesting)
unfolding init
Reach-in_bounds input r =
    let k = Reach-Keeps r in
    (k.stack ∙ length-replicate {A = ℕ} max_nesting 0, k.level (omega arith))
