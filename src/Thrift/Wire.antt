-- ===== src/Thrift/Wire.antt =====
-- The compact protocol as bytes, the description that the code of src/thrift is held against.
use carquet.Prelude.{
  ℕ, ◌+◌, ◌-◌, ◌*◌, ◌%◌, ◌^◌, ◌&&◌, List, [], ◌∷◌, ◌++◌, length, ltb, leb, ◌==◌, if◌then◌else◌,
}
use carquet.Core.Endian.{encode_varint64, zigzag_encode64}
use carquet.Thrift.Types.{sign_extend}

-- A signed word of `w` bits.
abbrev pub int_bytes : ℕ → ℕ → List ℕ
int_bytes w n = encode_varint64 (zigzag_encode64 (sign_extend w n))

abbrev pub i64_bytes : ℕ → List ℕ
i64_bytes n = encode_varint64 (zigzag_encode64 n)

-- How far, in words of 16 bits, an id is from the last one.
abbrev pub distance : ℕ → ℕ → ℕ
distance last id = (id + 2 ^ 16 - last) % 2 ^ 16

abbrev pub field_bytes : ℕ → ℕ → ℕ → List ℕ
field_bytes last type id =
    if ltb 0 (distance last id) && leb (distance last id) 15
    then (distance last id * 16 + type) ∷ []
    else type ∷ int_bytes 16 id

abbrev pub list_bytes : ℕ → ℕ → List ℕ
list_bytes type count =
    if ltb count 15 then (count * 16 + type) ∷ [] else (15 * 16 + type) ∷ encode_varint64 count

abbrev pub map_bytes : ℕ → ℕ → ℕ → List ℕ
map_bytes key value count =
    if count == 0 then 0 ∷ [] else encode_varint64 count ++ ((key * 16 + value) ∷ [])

abbrev pub binary_bytes : List ℕ → List ℕ
binary_bytes bytes = encode_varint64 (length bytes) ++ bytes
