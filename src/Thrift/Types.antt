-- ===== src/Thrift/Types.antt =====
-- The wire types of src/thrift/thrift_decode.h, and words of C extended with their sign.
use carquet.Prelude.{ℕ, ◌+◌, ◌-◌, ◌^◌, ltb, if◌then◌else◌}

-- `thrift_type_t`, as it stands on the wire: four bits, of which 14 and 15 name no type.
abbrev pub type_stop : ℕ
type_stop = 0

abbrev pub type_true : ℕ
type_true = 1

abbrev pub type_false : ℕ
type_false = 2

abbrev pub type_byte : ℕ
type_byte = 3

abbrev pub type_i16 : ℕ
type_i16 = 4

abbrev pub type_i32 : ℕ
type_i32 = 5

abbrev pub type_i64 : ℕ
type_i64 = 6

abbrev pub type_double : ℕ
type_double = 7

abbrev pub type_binary : ℕ
type_binary = 8

abbrev pub type_list : ℕ
type_list = 9

abbrev pub type_set : ℕ
type_set = 10

abbrev pub type_map : ℕ
type_map = 11

abbrev pub type_struct : ℕ
type_struct = 12

abbrev pub type_uuid : ℕ
type_uuid = 13

-- `THRIFT_MAX_NESTING` and `THRIFT_ENCODER_MAX_NESTING`.
abbrev pub max_nesting : ℕ
max_nesting = 32

-- `(int64_t)v` of a signed word of `w` bits.
unfoldable pub sign_extend : ℕ → ℕ → ℕ
sign_extend w v = if ltb v (2 ^ (w - 1)) then v else v + (2 ^ 64 - 2 ^ w)
