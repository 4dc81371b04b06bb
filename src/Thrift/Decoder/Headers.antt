-- ===== src/Thrift/Decoder/Headers.antt =====
-- What the reads of headers give: those of fields, lists and maps.
use carquet.Prelude.{ℕ, ◌+◌, ◌*◌, ◌/◌, ◌%◌, ◌^◌, ◌<◌, ◌≤◌, ◌≡◌, refl, arith, ◌∙◌}
use carquet.Prelude.{true, false, ltb, leb, if-false}
use carquet.Prelude.{List, ◌∷◌, ◌++◌, length}
use carquet.Prelude.{bit_and, bit_and_mask, u16, lt→leb-false, le→ltb-false}
use carquet.Prelude.{ne→==-false}
use native.Mathlib.Nat.{mod-eq_of_lt}
use carquet.Core.Status.{is_ok}
use carquet.Core.Endian.{encode_varint64, zigzag_encode64}
use carquet.Thrift.Types.{sign_extend}
use carquet.Thrift.Decoder.{ThriftDecoder}
use carquet.Thrift.Decoder.{read_field_begin, field_of, last_id}
use carquet.Thrift.Decoder.{set_last_id, pend_bool, check_count, read_list_begin, read_map_begin}
use carquet.Thrift.Decoder.Reads.{behind, read_varint_lem, read_byte_raw_lem, read_i16_lem}

-- The two halves of a byte.
pub low_half : (q t : ℕ) → t < 16 → bit_and (q * 16 + t) 0x0f ≡ t
low_half q t h = bit_and_mask 4 (q * 16 + t) ∙ omega arith

pub high_half : (q t : ℕ) → q < 16 → t < 16 → bit_and ((q * 16 + t) / 2 ^ 4) 0x0f ≡ q
high_half q t hq ht = bit_and_mask 4 ((q * 16 + t) / 2 ^ 4) ∙ omega arith

-- A field whose header holds how far its id is from the last one.
pub read_field_short :
    (d : ThriftDecoder) (rest : List ℕ) (delta type : ℕ)
    → is_ok d.status ≡ true
    → 1 ≤ delta
    → delta < 16
    → type < 16
    → d.input ≡ (delta * 16 + type) ∷ rest
    → read_field_begin d ≡ (
      true,
      type,
      u16 (last_id d + delta),
      pend_bool type (set_last_id (u16 (last_id d + delta)) (behind d rest)),
    )
unfolding read_field_begin field_of last_id
read_field_short d rest delta type good hp hd ht e =
    rw
      (
        read_byte_raw_lem d rest (delta * 16 + type) e,
        good,
        ne→==-false (delta * 16 + type) 0 (λ z. omega (arith, z)),
        low_half delta type ht,
        high_half delta type hd ht,
        ne→==-false delta 0 (λ z. omega (arith, z)),
      )
      refl

-- A field whose id stands behind its header.
pub read_field_long :
    (d : ThriftDecoder) (rest : List ℕ) (type id : ℕ)
    → is_ok d.status ≡ true
    → 1 ≤ type
    → type < 16
    → id < 2 ^ 16
    → d.input ≡ type ∷ (encode_varint64 (zigzag_encode64 (sign_extend 16 id)) ++ rest)
    → read_field_begin d ≡ (true, type, id, pend_bool type (set_last_id id (behind d rest)))
unfolding read_field_begin field_of
read_field_long d rest type id good hp ht hi e =
    let code = encode_varint64 (zigzag_encode64 (sign_extend 16 id)) ++ rest in
    let low : bit_and type 0x0f ≡ type = bit_and_mask 4 type ∙ omega arith in
    let high : bit_and (type / 2 ^ 4) 0x0f ≡ 0 = bit_and_mask 4 (type / 2 ^ 4) ∙ omega arith in
    rw
      (
        read_byte_raw_lem d code type e,
        good,
        ne→==-false type 0 (λ z. omega (arith, z)),
        low,
        high,
        read_i16_lem (behind d code) rest id hi refl,
      )
      refl

pub read_field_stop :
    (d : ThriftDecoder) (rest : List ℕ)
    → is_ok d.status ≡ true
    → d.input ≡ 0 ∷ rest
    → read_field_begin d ≡ (false, 0, 0, behind d rest)
unfolding read_field_begin
read_field_stop d rest good e = rw (read_byte_raw_lem d rest 0 e, good) refl

check_count_lem :
    (d : ThriftDecoder) (n : ℕ) → n < 2 ^ 31 → n ≤ length d.input → check_count n d ≡ (n, d)
unfolding check_count
check_count_lem d n h there =
    if-false (leb (2 ^ 31) n) _ _ (lt→leb-false (2 ^ 31) n h)
    ∙ if-false (ltb (length d.input) n) _ _ (le→ltb-false (length d.input) n there)

pub read_list_short :
    (d : ThriftDecoder) (rest : List ℕ) (type n : ℕ)
    → type < 16
    → n < 15
    → n ≤ length rest
    → d.input ≡ (n * 16 + type) ∷ rest
    → read_list_begin d ≡ (type, n, behind d rest)
unfolding read_list_begin
read_list_short d rest type n ht hn there e =
    rw
      (
        read_byte_raw_lem d rest (n * 16 + type) e,
        low_half n type ht,
        high_half n type (omega arith) ht,
        ne→==-false n 15 (λ z. omega (arith, z)),
        check_count_lem (behind d rest) n (omega arith) there,
      )
      refl

pub read_list_long :
    (d : ThriftDecoder) (rest : List ℕ) (type n : ℕ)
    → type < 16
    → n < 2 ^ 31
    → n ≤ length rest
    → d.input ≡ (15 * 16 + type) ∷ (encode_varint64 n ++ rest)
    → read_list_begin d ≡ (type, n, behind d rest)
unfolding read_list_begin
read_list_long d rest type n ht hn there e =
    let code = encode_varint64 n ++ rest in
    let small : n % 2 ^ 32 ≡ n = mod-eq_of_lt (omega arith) in
    rw
      (
        read_byte_raw_lem d code (15 * 16 + type) e,
        low_half 15 type ht,
        high_half 15 type (omega arith) ht,
        read_varint_lem (behind d code) rest n (omega arith) refl,
        small,
        check_count_lem (behind d rest) n hn there,
      )
      refl

pub read_map_none :
    (d : ThriftDecoder) (rest : List ℕ)
    → d.input ≡ encode_varint64 0 ++ rest
    → read_map_begin d ≡ (0, 0, 0, behind d rest)
unfolding read_map_begin
read_map_none d rest e =
    rw
      (
        read_varint_lem d rest 0 (omega arith) e,
        check_count_lem (behind d rest) 0 (omega arith) (omega arith),
      )
      refl

pub read_map_some :
    (d : ThriftDecoder) (rest : List ℕ) (key value n : ℕ)
    → key < 16
    → value < 16
    → 1 ≤ n
    → n < 2 ^ 31
    → n ≤ length rest
    → d.input ≡ encode_varint64 n ++ ((key * 16 + value) ∷ rest)
    → read_map_begin d ≡ (key, value, n, behind d rest)
unfolding read_map_begin
read_map_some d rest key value n hk hv hp hn there e =
    let types = (key * 16 + value) ∷ rest in
    let small : n % 2 ^ 32 ≡ n = mod-eq_of_lt (omega arith) in
    rw
      (
        read_varint_lem d types n (omega arith) e,
        small,
        check_count_lem (behind d types) n hn (omega arith),
        read_byte_raw_lem (behind d types) rest (key * 16 + value) refl,
        ne→==-false n 0 (λ z. omega (arith, z)),
        low_half key value hv,
        high_half key value hk hv,
      )
      refl
