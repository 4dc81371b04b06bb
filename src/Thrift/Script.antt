-- ===== src/Thrift/Script.antt =====
-- A row of calls to the encoder of src/thrift/thrift_encode.c, the bytes of the compact protocol
-- that it stands for, and the row of calls to the decoder of src/thrift/thrift_decode.c that fits.
mod Writes
mod Reads
pub mod RoundTrip
use carquet.Prelude.{ℕ, zero, suc, ◌+◌, ◌^◌, ◌<◌, ◌≤◌, ◌≡◌, Bool, if◌then◌else◌, Option, none, some}
use carquet.Prelude.{List, [], ◌∷◌, ◌++◌, length, IsByte}
use carquet.Core.Endian.{write_u64_le}
use carquet.Core.Buffer.{Allocator}
use carquet.Thrift.Types.{max_nesting, type_true, type_false}
use carquet.Thrift.Place.{top, named, pop, IsU16}
use carquet.Thrift.Wire.{int_bytes, i64_bytes, field_bytes, list_bytes, map_bytes, binary_bytes}
use carquet.Thrift.Encoder.{
  ThriftEncoder, write_byte, write_i16, write_i32, write_i64, write_double, write_bool,
  write_binary, write_uuid, write_struct_begin, write_struct_end, write_field_header,
  write_list_begin, write_map_begin,
}
use carquet.Thrift.Decoder.{
  ThriftDecoder, read_byte, read_i16, read_i32, read_i64, read_double, read_bool, read_binary,
  read_uuid, read_struct_begin, read_struct_end, read_field_begin, read_list_begin, read_map_begin,
}

-- A call with its arguments. `bool_field` is a field that holds its value in its type.
pub data Item : Type 0 where
  byte : ℕ → Item
  i16 : ℕ → Item
  i32 : ℕ → Item
  i64 : ℕ → Item
  double : ℕ → Item
  boolean : Bool → Item
  binary : Option (List ℕ) → Item
  uuid : List ℕ → Item
  struct_begin : Item
  struct_end : Item
  field : ℕ → ℕ → Item
  bool_field : Bool → ℕ → Item
  list : ℕ → ℕ → Item
  entries : ℕ → ℕ → ℕ → Item

-- What a reader knows of an item beforehand.
pub data Kind : Type 0 where
  byte : Kind
  i16 : Kind
  i32 : Kind
  i64 : Kind
  double : Kind
  boolean : Kind
  binary : Kind
  uuid : Kind
  struct_begin : Kind
  struct_end : Kind
  field : Kind
  bool_field : Kind
  list : Kind
  entries : Kind

abbrev pub kind_of : Item → Kind
kind_of (byte n) = Kind.byte
kind_of (i16 n) = Kind.i16
kind_of (i32 n) = Kind.i32
kind_of (i64 n) = Kind.i64
kind_of (double n) = Kind.double
kind_of (boolean b) = Kind.boolean
kind_of (binary bytes) = Kind.binary
kind_of (uuid bytes) = Kind.uuid
kind_of struct_begin = Kind.struct_begin
kind_of struct_end = Kind.struct_end
kind_of (field type id) = Kind.field
kind_of (bool_field b id) = Kind.bool_field
kind_of (list type count) = Kind.list
kind_of (entries key value count) = Kind.entries

abbrev pub kinds_of : List Item → List Kind
kinds_of [] = []
kinds_of (item ∷ items) = kind_of item ∷ kinds_of items

abbrev pub bool_type : Bool → ℕ
bool_type b = if b then type_true else type_false

-- A null pointer is written as no bytes.
abbrev pub bytes_of : Option (List ℕ) → List ℕ
bytes_of none = []
bytes_of (some bytes) = bytes

-- The bytes of an item behind a field of id `last`.
abbrev pub item_bytes : ℕ → Item → List ℕ
item_bytes last (byte n) = n ∷ []
item_bytes last (i16 n) = int_bytes 16 n
item_bytes last (i32 n) = int_bytes 32 n
item_bytes last (i64 n) = i64_bytes n
item_bytes last (double n) = write_u64_le n
item_bytes last (boolean b) = (if b then 1 else 0) ∷ []
item_bytes last (binary bytes) = binary_bytes (bytes_of bytes)
item_bytes last (uuid bytes) = bytes
item_bytes last struct_begin = []
item_bytes last struct_end = 0 ∷ []
item_bytes last (field type id) = field_bytes last type id
item_bytes last (bool_field b id) = field_bytes last (bool_type b) id
item_bytes last (list type count) = list_bytes type count
item_bytes last (entries key value count) = map_bytes key value count

-- The stack of ids behind an item.
abbrev pub moved : Item → List ℕ → List ℕ
moved struct_begin stack = 0 ∷ stack
moved struct_end stack = pop stack
moved (field type id) stack = named id stack
moved (bool_field b id) stack = named id stack
moved (byte n) stack = stack
moved (i16 n) stack = stack
moved (i32 n) stack = stack
moved (i64 n) stack = stack
moved (double n) stack = stack
moved (boolean b) stack = stack
moved (binary bytes) stack = stack
moved (uuid bytes) stack = stack
moved (list type count) stack = stack
moved (entries key value count) stack = stack

abbrev pub moved_all : List Item → List ℕ → List ℕ
moved_all [] stack = stack
moved_all (item ∷ items) stack = moved_all items (moved item stack)

abbrev pub script_bytes : List ℕ → List Item → List ℕ
script_bytes stack [] = []
script_bytes stack (item ∷ items) =
    item_bytes (top stack) item ++ script_bytes (moved item stack) items

abbrev pub write_item : Allocator → ThriftEncoder → Item → ThriftEncoder
write_item a enc (byte n) = write_byte a enc n
write_item a enc (i16 n) = write_i16 a enc n
write_item a enc (i32 n) = write_i32 a enc n
write_item a enc (i64 n) = write_i64 a enc n
write_item a enc (double n) = write_double a enc n
write_item a enc (boolean b) = write_bool a enc b
write_item a enc (binary bytes) = write_binary a enc (bytes_of bytes)
write_item a enc (uuid bytes) = write_uuid a enc bytes
write_item a enc struct_begin = write_struct_begin enc
write_item a enc struct_end = write_struct_end a enc
write_item a enc (field type id) = write_field_header a enc type id
write_item a enc (bool_field b id) = write_field_header a enc (bool_type b) id
write_item a enc (list type count) = write_list_begin a enc type count
write_item a enc (entries key value count) = write_map_begin a enc key value count

abbrev pub write_all : Allocator → ThriftEncoder → List Item → ThriftEncoder
write_all a enc [] = enc
write_all a enc (item ∷ items) = write_all a (write_item a enc item) items

-- A struct has ended where there is no field more.
abbrev pub field_item : Bool → ℕ → ℕ → Item
field_item more type id = if more then field type id else struct_end

abbrev pub read_item : Kind → ThriftDecoder → Item × ThriftDecoder
read_item Kind.byte dec = let (n, dec') = read_byte dec in (byte n, dec')
read_item Kind.i16 dec = let (n, dec') = read_i16 dec in (i16 n, dec')
read_item Kind.i32 dec = let (n, dec') = read_i32 dec in (i32 n, dec')
read_item Kind.i64 dec = let (n, dec') = read_i64 dec in (i64 n, dec')
read_item Kind.double dec = let (n, dec') = read_double dec in (double n, dec')
read_item Kind.boolean dec = let (b, dec') = read_bool dec in (boolean b, dec')
read_item Kind.binary dec = let (bytes, dec') = read_binary dec in (binary bytes, dec')
read_item Kind.uuid dec = let (bytes, dec') = read_uuid dec in (uuid bytes, dec')
read_item Kind.struct_begin dec = (struct_begin, read_struct_begin dec)
read_item Kind.struct_end dec =
    let (more, type, id, dec') = read_field_begin dec in
    (field_item more type id, read_struct_end dec')
read_item Kind.field dec =
    let (more, type, id, dec') = read_field_begin dec in (field_item more type id, dec')
read_item Kind.bool_field dec =
    let (more, type, id, dec') = read_field_begin dec in
    let (b, dec'') = read_bool dec' in (if more then bool_field b id else struct_end, dec'')
read_item Kind.list dec = let (type, count, dec') = read_list_begin dec in (list type count, dec')
read_item Kind.entries dec =
    let (key, value, count, dec') = read_map_begin dec in (entries key value count, dec')

abbrev pub read_all : List Kind → ThriftDecoder → List Item × ThriftDecoder
read_all [] dec = ([], dec)
read_all (kind ∷ kinds) dec =
    let (item, dec') = read_item kind dec in
    let (items, dec'') = read_all kinds dec' in (item ∷ items, dec'')

-- Numbers are words of their width, types are those of the protocol, and structs are not nested
-- deeper than the limit.
abbrev pub IsSound : List ℕ → Item → Type 0
IsSound stack (byte n) = IsByte n
IsSound stack (i16 n) = n < 2 ^ 16
IsSound stack (i32 n) = n < 2 ^ 32
IsSound stack (i64 n) = n < 2 ^ 64
IsSound stack (double n) = n < 2 ^ 64
IsSound stack (boolean b) = Unit {0}
IsSound stack (binary none) = ⊥
IsSound stack (binary (some bytes)) = length bytes < 2 ^ 31
IsSound stack (uuid bytes) = length bytes ≡ 16
IsSound stack struct_begin = length stack < max_nesting
IsSound stack struct_end = Unit {0}
IsSound stack (field type id) = (3 ≤ type) × (type < 16) × IsU16 id
IsSound stack (bool_field b id) = IsU16 id
IsSound stack (list type count) = (type < 16) × (count < 2 ^ 31)
IsSound stack (entries key value count) =
    (key < 16) × (value < 16) × (count < 2 ^ 31) × (count ≡ 0 → (key ≡ 0) × (value ≡ 0))

-- A container announces no more elements than what can follow.
abbrev pub IsRoomy : ℕ → Item → Type 0
IsRoomy room (list type count) = count ≤ room
IsRoomy room (entries key value count) = count ≤ room
IsRoomy room item = Unit {0}

-- The bytes that an item takes at least.
abbrev pub cost : Item → ℕ
cost struct_begin = 0
cost item = 1

abbrev pub weight : List Item → ℕ
weight [] = 0
weight (item ∷ items) = cost item + weight items

abbrev pub IsValid : List ℕ → List Item → Type 0
IsValid stack [] = Unit {0}
IsValid stack (item ∷ items) =
    IsSound stack item × IsRoomy (weight items) item × IsValid (moved item stack) items
