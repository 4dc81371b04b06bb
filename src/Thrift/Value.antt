-- ===== src/Thrift/Value.antt =====
-- The values of the compact protocol as trees, and their bytes, less one kind: lists, sets and maps
-- have no Booleans as elements. There each takes a byte, which src/thrift/thrift_decode.c does not
-- pass in `thrift_skip`. A Boolean field stands in the type of the field and has no bytes.
pub mod Sizes
use carquet.Prelude.{
  ℕ, zero, suc, ◌+◌, ◌-◌, ◌^◌, ◌<◌, ◌≤◌, ◌≡◌, Bool, if◌then◌else◌, List, [], ◌∷◌, ◌++◌, length,
}
use carquet.Core.Endian.{write_u64_le}
use carquet.Thrift.Types.{
  type_true, type_false, type_byte, type_i16, type_i32, type_i64, type_double, type_binary,
  type_list, type_set, type_map, type_struct, type_uuid,
}
use carquet.Thrift.Place.{IsU16}
use carquet.Thrift.Wire.{int_bytes, i64_bytes, field_bytes, list_bytes, map_bytes, binary_bytes}

mutual
  pub data Value : Type 0 where
    byte : ℕ → Value
    i16 : ℕ → Value
    i32 : ℕ → Value
    i64 : ℕ → Value
    double : ℕ → Value
    binary : List ℕ → Value
    uuid : List ℕ → Value
    list : ℕ → Values → Value
    bag : ℕ → Values → Value
    entries : ℕ → ℕ → Pairs → Value
    struct : Fields → Value

  pub data Values : Type 0 where
    no_values : Values
    value : Value → Values → Values

  pub data Pairs : Type 0 where
    no_pairs : Pairs
    pair : Value → Value → Pairs → Pairs

  pub data Fields : Type 0 where
    stop : Fields
    field : ℕ → Value → Fields → Fields
    bool_field : ℕ → Bool → Fields → Fields

abbrev pub type_of : Value → ℕ
type_of (byte n) = type_byte
type_of (i16 n) = type_i16
type_of (i32 n) = type_i32
type_of (i64 n) = type_i64
type_of (double n) = type_double
type_of (binary bytes) = type_binary
type_of (uuid bytes) = type_uuid
type_of (list type items) = type_list
type_of (bag type items) = type_set
type_of (entries key_type value_type pairs) = type_map
type_of (struct fields) = type_struct

abbrev pub count_values : Values → ℕ
count_values no_values = 0
count_values (value v items) = suc (count_values items)

abbrev pub count_pairs : Pairs → ℕ
count_pairs no_pairs = 0
count_pairs (pair key v pairs) = suc (count_pairs pairs)

abbrev pub bool_type : Bool → ℕ
bool_type b = if b then type_true else type_false

unfoldable mutual
  pub value_bytes : Value → List ℕ
  value_bytes (byte n) = n ∷ []
  value_bytes (i16 n) = int_bytes 16 n
  value_bytes (i32 n) = int_bytes 32 n
  value_bytes (i64 n) = i64_bytes n
  value_bytes (double n) = write_u64_le n
  value_bytes (binary bytes) = binary_bytes bytes
  value_bytes (uuid bytes) = bytes
  value_bytes (list type items) = list_bytes type (count_values items) ++ values_bytes items
  value_bytes (bag type items) = list_bytes type (count_values items) ++ values_bytes items
  value_bytes (entries key_type value_type pairs) =
      map_bytes key_type value_type (count_pairs pairs) ++ pairs_bytes pairs
  value_bytes (struct fields) = fields_bytes 0 fields

  pub values_bytes : Values → List ℕ
  values_bytes no_values = []
  values_bytes (value v items) = value_bytes v ++ values_bytes items

  pub pairs_bytes : Pairs → List ℕ
  pairs_bytes no_pairs = []
  pairs_bytes (pair key v pairs) = value_bytes key ++ (value_bytes v ++ pairs_bytes pairs)

  -- Behind a field of id `last`.
  pub fields_bytes : ℕ → Fields → List ℕ
  fields_bytes last stop = 0 ∷ []
  fields_bytes last (field id v fields) =
      field_bytes last (type_of v) id ++ (value_bytes v ++ fields_bytes id fields)
  fields_bytes last (bool_field id b fields) =
      field_bytes last (bool_type b) id ++ fields_bytes id fields

-- What a value of the protocol keeps to, with structs nested at most `depth` deep.
unfoldable mutual
  pub IsValue : ℕ → Value → Type 0
  IsValue depth (byte n) = n < 2 ^ 8
  IsValue depth (i16 n) = n < 2 ^ 16
  IsValue depth (i32 n) = n < 2 ^ 32
  IsValue depth (i64 n) = n < 2 ^ 64
  IsValue depth (double n) = n < 2 ^ 64
  IsValue depth (binary bytes) = length bytes < 2 ^ 31
  IsValue depth (uuid bytes) = length bytes ≡ 16
  IsValue depth (list type items) =
      (type < 16) × (count_values items < 2 ^ 31) × AreValues depth type items
  IsValue depth (bag type items) =
      (type < 16) × (count_values items < 2 ^ 31) × AreValues depth type items
  IsValue depth (entries key_type value_type pairs) =
      (key_type < 16)
      × (value_type < 16)
      × (count_pairs pairs < 2 ^ 31)
      × ArePairs depth key_type value_type pairs
  IsValue depth (struct fields) = (1 ≤ depth) × AreFields (depth - 1) fields

  pub AreValues : ℕ → ℕ → Values → Type 0
  AreValues depth type no_values = Unit {0}
  AreValues depth type (value v items) =
      (type_of v ≡ type) × IsValue depth v × AreValues depth type items

  pub ArePairs : ℕ → ℕ → ℕ → Pairs → Type 0
  ArePairs depth key_type value_type no_pairs = Unit {0}
  ArePairs depth key_type value_type (pair key v pairs) =
      (type_of key ≡ key_type)
      × (type_of v ≡ value_type)
      × IsValue depth key
      × IsValue depth v
      × ArePairs depth key_type value_type pairs

  pub AreFields : ℕ → Fields → Type 0
  AreFields depth stop = Unit {0}
  AreFields depth (field id v fields) = IsU16 id × IsValue depth v × AreFields depth fields
  AreFields depth (bool_field id b fields) = IsU16 id × AreFields depth fields
