-- ===== src/Thrift/Skip/Passes.antt =====
-- On the bytes of a value `thrift_skip` stops behind them.
use carquet.Prelude.{
  ℕ, zero, suc, ◌+◌, ◌-◌, ◌^◌, ◌<◌, ◌≤◌, ◌≡◌, refl, sym, ap, ◌∙◌, subst, arith, Bool, true, false,
  if-true,
}
use carquet.Prelude.{List, [], ◌∷◌, ◌++◌, length, length-append, append_assoc}
use carquet.Core.Status.{is_ok}
use carquet.Core.Endian.{zigzag_encode64, encode_varint64, write_u64_le}
use carquet.Core.Endian.Zigzag.{zigzag_encode64-lt}
use carquet.Core.Endian.Words.{length-write_u64}
use carquet.Thrift.Types.{sign_extend, max_nesting}
use carquet.Thrift.Wire.{field_bytes, list_bytes, map_bytes}
use carquet.Thrift.Value.{
  Value, Values, Pairs, Fields, byte, i16, i32, i64, double, binary, uuid, list, bag, entries,
  struct, no_values, value, no_pairs, pair, stop, field, bool_field, type_of, bool_type,
  count_values, count_pairs, value_bytes, values_bytes, pairs_bytes, fields_bytes, IsValue,
  AreValues, ArePairs, AreFields,
}
use carquet.Thrift.Value.Sizes.{
  values_there, pairs_there, list_bytes_there, map_bytes_there, field_bytes_there,
}
use carquet.Thrift.Decoder.{
  ThriftDecoder, read_struct_begin, set_last_id, pend_bool, reader_skip, read_varint, read_binary,
}
use carquet.Thrift.Decoder.Reads.{
  behind, read_varint_lem, read_binary_lem, reader_skip_lem, sign_extend_16_lem, sign_extend_32_lem,
}
use carquet.Thrift.Decoder.Headers.{read_field_stop, read_map_none}
use carquet.Thrift.Decoder.Ready.{
  Ready, Ready-behind, Ready-named, Ready-struct_begin, Ready-struct_end, read_field_lem,
  read_list_lem, read_map_lem, pend_nothing, pend_bool_lem,
}
use carquet.Thrift.Skip.{
  repeat, skip_fields, skip_list, skip_map, skip_struct, skip_case, skip_fuel, skip,
}

-- A step passes some bytes: it leaves what follows them.
abbrev pub Passes :
    List ℕ → List ℕ → List ℕ → ThriftDecoder → (ThriftDecoder → ThriftDecoder) → Type 0
Passes stack bytes rest d step = Ready stack (bytes ++ rest) d → Ready stack rest (step d)

module _ (stack rest : List ℕ) (d : ThriftDecoder) where
  varint-Passes :
      (n : ℕ) → n < 2 ^ 64 → Passes stack (encode_varint64 n) rest d (λ e. (read_varint e).1)
  varint-Passes n h r = rw (read_varint_lem d rest n h r.left) (Ready-behind rest r)

  binary-Passes :
      (bytes : List ℕ)
      → length bytes < 2 ^ 31
      → Passes stack (encode_varint64 (length bytes) ++ bytes) rest d (λ e. (read_binary e).1)
  binary-Passes bytes h r =
      rw
        (read_binary_lem d rest bytes h
          (r.left ∙ append_assoc (encode_varint64 (length bytes)) bytes rest))
        (Ready-behind rest r)

  skip-Passes :
      (bytes : List ℕ) (n : ℕ) → length bytes ≡ n → Passes stack bytes rest d (reader_skip n)
  skip-Passes bytes n h r =
      subst (Ready stack rest) (sym (reader_skip_lem d rest bytes n h r.left)) (Ready-behind rest r)

-- Where the decoder has not failed, a call does its case.
skip_fuel-suc :
    (f t : ℕ) (d : ThriftDecoder)
    → is_ok d.status ≡ true
    → skip_fuel (suc f) t d ≡ skip_case (skip_fuel f) t d
unfolding skip_fuel
skip_fuel-suc f t d good = if-true (is_ok d.status) _ _ good

repeat-suc :
    (n : ℕ) (step : ThriftDecoder → ThriftDecoder) (d : ThriftDecoder)
    → is_ok d.status ≡ true
    → repeat (suc n) step d ≡ repeat n step (step d)
unfolding repeat
repeat-suc n step d good = if-true (is_ok d.status) _ _ good

repeat-zero : (step : ThriftDecoder → ThriftDecoder) (d : ThriftDecoder) → repeat 0 step d ≡ d
unfolding repeat
repeat-zero step d = refl

-- Fuel above a number pays for a call.
called :
    (f t n : ℕ) (d : ThriftDecoder) {stack rest : List ℕ}
    → n < f
    → is_ok d.status ≡ true
    → ((g : ℕ) → n < suc g → Ready stack rest (skip_case (skip_fuel g) t d))
    → Ready stack rest (skip_fuel f t d)
called zero t n d h good case = absurd (omega arith)
called (suc f) t n d {stack} {rest} h good case =
    subst (Ready stack rest) (sym (skip_fuel-suc f t d good)) (case f h)

-- A call on a Boolean field clears the flag.
bool_passes :
    (f n : ℕ) (b : Bool) {stack rest : List ℕ} {d : ThriftDecoder}
    → n < f
    → Ready stack rest d
    → Ready stack rest (skip_fuel f (bool_type b) (pend_bool (bool_type b) d))
unfolding skip_case
bool_passes f n true {stack} {rest} {d} h r =
    let pended : ThriftDecoder = record d { bool_pending = true; bool_value = true } in
    subst (λ e. Ready stack rest (skip_fuel f 1 e)) (sym (pend_bool_lem true d))
      (called f 1 n pended h r.good
        (λ g hg. record { place = r.place; left = r.left; good = r.good; idle = refl }))
bool_passes f n false {stack} {rest} {d} h r =
    let pended : ThriftDecoder = record d { bool_pending = true; bool_value = false } in
    subst (λ e. Ready stack rest (skip_fuel f 2 e)) (sym (pend_bool_lem false d))
      (called f 2 n pended h r.good
        (λ g hg. record { place = r.place; left = r.left; good = r.good; idle = refl }))

module _ (again : ℕ → ThriftDecoder → ThriftDecoder) (stack bytes rest : List ℕ)
    (d : ThriftDecoder) where
  -- A list whose elements are passed is passed.
  list-Passes :
      (type count : ℕ)
      → type < 16
      → count < 2 ^ 31
      → count ≤ length (bytes ++ rest)
      → Passes stack bytes rest (behind d (bytes ++ rest)) (repeat count (again type))
      → Passes stack (list_bytes type count ++ bytes) rest d (skip_list again)
  unfolding skip_list
  list-Passes type count ht hc there inner r =
      rw
        (read_list_lem d (bytes ++ rest) type count ht hc there
          (r.left ∙ append_assoc (list_bytes type count) bytes rest))
        (inner (Ready-behind (bytes ++ rest) r))

  map-Passes :
      (key_type value_type count : ℕ)
      → key_type < 16
      → value_type < 16
      → count < 2 ^ 31
      → count ≤ length (bytes ++ rest)
      → Passes stack bytes rest
          (behind d (bytes ++ rest))
          (repeat count (λ e. again value_type (again key_type e)))
      → Passes stack (map_bytes key_type value_type count ++ bytes) rest d (skip_map again)
  unfolding skip_map repeat encode_varint64
  map-Passes key_type value_type zero hk hv hc there inner r =
      rw (read_map_none d (bytes ++ rest) r.left) (inner (Ready-behind (bytes ++ rest) r))
  map-Passes key_type value_type (suc count) hk hv hc there inner r =
      rw
        (read_map_lem d (bytes ++ rest) key_type value_type (suc count) hk hv
          (λ z. absurd (omega (arith, z))) hc there
          (r.left ∙ append_assoc (map_bytes key_type value_type (suc count)) bytes rest))
        (inner (Ready-behind (bytes ++ rest) r))

-- What is left behind the first part of a row of bytes is shorter by that part.
shorter :
    (first later rest : List ℕ) (n : ℕ)
    → 1 ≤ length first
    → length ((first ++ later) ++ rest) < suc n
    → length (later ++ rest) < n
shorter first later rest n h there =
    omega (arith, ap length (append_assoc first later rest), length-append first (later ++ rest))

no_longer :
    (first later rest : List ℕ) (n : ℕ)
    → length ((first ++ later) ++ rest) < n
    → (length (first ++ (later ++ rest)) < n) × (length (later ++ rest) < n)
no_longer first later rest n there =
    let same = ap length (append_assoc first later rest) in
    (omega (arith, same), omega (arith, same, length-append first (later ++ rest)))

type_of_bounds : (v : Value) → (3 ≤ type_of v) × (type_of v < 16)
type_of_bounds (byte n) = (omega arith, omega arith)
type_of_bounds (i16 n) = (omega arith, omega arith)
type_of_bounds (i32 n) = (omega arith, omega arith)
type_of_bounds (i64 n) = (omega arith, omega arith)
type_of_bounds (double n) = (omega arith, omega arith)
type_of_bounds (binary bytes) = (omega arith, omega arith)
type_of_bounds (uuid bytes) = (omega arith, omega arith)
type_of_bounds (list type items) = (omega arith, omega arith)
type_of_bounds (bag type items) = (omega arith, omega arith)
type_of_bounds (entries key_type value_type pairs) = (omega arith, omega arith)
type_of_bounds (struct fields) = (omega arith, omega arith)

bool_type_bounds : (b : Bool) → (1 ≤ bool_type b) × (bool_type b < 16)
bool_type_bounds true = (omega arith, omega arith)
bool_type_bounds false = (omega arith, omega arith)

mutual
  unfolding value_bytes values_bytes pairs_bytes fields_bytes IsValue AreValues ArePairs AreFields
      skip_case skip_struct skip_fields

  value-Passes :
      (v : Value) (f depth : ℕ) (stack rest : List ℕ) (d : ThriftDecoder)
      → IsValue depth v
      → depth + length stack ≤ max_nesting
      → length (value_bytes v ++ rest) < f
      → Passes stack (value_bytes v) rest d (skip_fuel f (type_of v))
  value-Passes (byte n) f depth stack rest d h hd hf r =
      called f 3 _ d hf r.good (λ g hg. skip-Passes stack rest d (n ∷ []) 1 refl r)
  value-Passes (i16 n) f depth stack rest d h hd hf r = called f 4 _ d hf r.good (λ g hg.
      varint-Passes stack rest d (zigzag_encode64 (sign_extend 16 n))
        (zigzag_encode64-lt _ (sign_extend_16_lem n h).0) r)
  value-Passes (i32 n) f depth stack rest d h hd hf r = called f 5 _ d hf r.good (λ g hg.
      varint-Passes stack rest d (zigzag_encode64 (sign_extend 32 n))
        (zigzag_encode64-lt _ (sign_extend_32_lem n h).0) r)
  value-Passes (i64 n) f depth stack rest d h hd hf r =
      called f 6 _ d hf r.good
        (λ g hg. varint-Passes stack rest d (zigzag_encode64 n) (zigzag_encode64-lt n h) r)
  value-Passes (double n) f depth stack rest d h hd hf r =
      called f 7 _ d hf r.good
        (λ g hg. skip-Passes stack rest d (write_u64_le n) 8 (length-write_u64 n) r)
  value-Passes (binary bytes) f depth stack rest d h hd hf r =
      called f 8 _ d hf r.good (λ g hg. binary-Passes stack rest d bytes h r)
  value-Passes (uuid bytes) f depth stack rest d h hd hf r =
      called f 13 _ d hf r.good (λ g hg. skip-Passes stack rest d bytes 16 h r)
  value-Passes (list type items) f depth stack rest d (ht, hc, hs) hd hf r =
      called f 9 _ d hf r.good (λ g hg.
        list-Passes (skip_fuel g) stack (values_bytes items) rest d type (count_values items) ht hc
          (omega (arith, values_there depth type items hs, length-append (values_bytes items) rest))
          (values-Passes items g depth type stack rest (behind d (values_bytes items ++ rest)) hs hd
            (shorter (list_bytes type (count_values items)) (values_bytes items) rest g
              (list_bytes_there type (count_values items)) hg))
          r)
  value-Passes (bag type items) f depth stack rest d (ht, hc, hs) hd hf r =
      called f 10 _ d hf r.good (λ g hg.
        list-Passes (skip_fuel g) stack (values_bytes items) rest d type (count_values items) ht hc
          (omega (arith, values_there depth type items hs, length-append (values_bytes items) rest))
          (values-Passes items g depth type stack rest (behind d (values_bytes items ++ rest)) hs hd
            (shorter (list_bytes type (count_values items)) (values_bytes items) rest g
              (list_bytes_there type (count_values items)) hg))
          r)
  value-Passes (entries key_type value_type pairs) f depth stack rest d (hk, hv, hc, hs) hd hf r =
      called f 11 _ d hf r.good (λ g hg.
        map-Passes (skip_fuel g) stack (pairs_bytes pairs) rest d key_type value_type
          (count_pairs pairs) hk hv hc
          (omega (
            arith,
            pairs_there depth key_type value_type pairs hs,
            length-append (pairs_bytes pairs) rest,
          ))
          (pairs-Passes pairs g depth key_type value_type stack rest
            (behind d (pairs_bytes pairs ++ rest)) hs hd
            (shorter (map_bytes key_type value_type (count_pairs pairs)) (pairs_bytes pairs) rest g
              (map_bytes_there key_type value_type (count_pairs pairs)) hg))
          r)
  value-Passes (struct fields) f depth stack rest d (hp, hs) hd hf r =
      called f 12 _ d hf r.good (λ g hg.
        Ready-struct_end
          (fields_passes fields (suc (length d.input)) g (depth - 1) 0 stack rest
            (read_struct_begin d) hs (omega arith) (omega (arith, ap length r.left)) hg
            (Ready-struct_begin r (omega arith))).1)

  values-Passes :
      (items : Values) (f depth type : ℕ) (stack rest : List ℕ) (d : ThriftDecoder)
      → AreValues depth type items
      → depth + length stack ≤ max_nesting
      → length (values_bytes items ++ rest) < f
      → Passes stack (values_bytes items) rest d (repeat (count_values items) (skip_fuel f type))
  values-Passes no_values f depth type stack rest d h hd hf r =
      subst (Ready stack rest) (sym (repeat-zero (skip_fuel f type) d)) r
  values-Passes (value v items) f depth type stack rest d (same, hv, hs) hd hf r =
      let more = values_bytes items in
      let first : Ready stack (more ++ rest) (skip_fuel f type d) =
        subst (λ (t : ℕ). Ready stack (more ++ rest) (skip_fuel f t d)) same
          (value-Passes v f depth stack (more ++ rest) d hv hd
            (no_longer (value_bytes v) more rest f hf).0
            (subst (λ i. Ready stack i d) (append_assoc (value_bytes v) more rest) r)) in
      subst (Ready stack rest) (sym (repeat-suc (count_values items) (skip_fuel f type) d r.good)) (
        values-Passes items f depth type stack rest (skip_fuel f type d) hs hd
          (no_longer (value_bytes v) more rest f hf).1 first)

  pairs-Passes :
      (pairs : Pairs) (f depth key_type value_type : ℕ) (stack rest : List ℕ) (d : ThriftDecoder)
      → ArePairs depth key_type value_type pairs
      → depth + length stack ≤ max_nesting
      → length (pairs_bytes pairs ++ rest) < f
      → Passes stack
          (pairs_bytes pairs)
          rest
          d
          (repeat (count_pairs pairs) (λ e. skip_fuel f value_type (skip_fuel f key_type e)))
  pairs-Passes no_pairs f depth key_type value_type stack rest d h hd hf r =
      subst (Ready stack rest) (sym (repeat-zero _ d)) r
  pairs-Passes (pair key v pairs) f depth key_type value_type stack rest d
        (same, same_value, hk, hv, hs) hd hf r =
      let more = pairs_bytes pairs in
      let (whole, without_key) = no_longer (value_bytes key) (value_bytes v ++ more) rest f hf in
      let (from_value, without_both) = no_longer (value_bytes v) more rest f without_key in
      let step : ThriftDecoder → ThriftDecoder =
        λ e. skip_fuel f value_type (skip_fuel f key_type e) in
      let first : Ready stack ((value_bytes v ++ more) ++ rest) (skip_fuel f key_type d) =
        subst (λ (t : ℕ). Ready stack ((value_bytes v ++ more) ++ rest) (skip_fuel f t d)) same
          (value-Passes key f depth stack ((value_bytes v ++ more) ++ rest) d hk hd whole (
            subst (λ i. Ready stack i d)
              (append_assoc (value_bytes key) (value_bytes v ++ more) rest) r)) in
      let second : Ready stack (more ++ rest) (step d) =
        subst (λ (t : ℕ). Ready stack (more ++ rest) (skip_fuel f t (skip_fuel f key_type d)))
          same_value
          (value-Passes v f depth stack (more ++ rest) (skip_fuel f key_type d) hv hd from_value (
            subst (λ i. Ready stack i (skip_fuel f key_type d))
              (append_assoc (value_bytes v) more rest) first)) in
      subst (Ready stack rest) (sym (repeat-suc (count_pairs pairs) step d r.good)) (
        pairs-Passes pairs f depth key_type value_type stack rest (step d) hs hd without_both
          second)

  fields_passes :
      (fields : Fields) (rounds f depth last : ℕ) (stack rest : List ℕ) (d : ThriftDecoder)
      → AreFields depth fields
      → depth + suc (length stack) ≤ max_nesting
      → length (fields_bytes last fields ++ rest) < rounds
      → length (fields_bytes last fields ++ rest) < suc f
      → Ready (last ∷ stack) (fields_bytes last fields ++ rest) d
      → (id : ℕ) × Ready (id ∷ stack) rest (skip_fields rounds (skip_fuel f) d)
  fields_passes fields zero f depth last stack rest d h hd hr hf r = absurd (omega arith)
  fields_passes stop (suc rounds) f depth last stack rest d h hd hr hf r =
      rw (read_field_stop d rest r.good r.left) (last, Ready-behind rest r)
  fields_passes (field id v fields) (suc rounds) f depth last stack rest d (hi, hv, hs) hd hr hf r =
      let header = field_bytes last (type_of v) id in
      let later = fields_bytes id fields in
      let tail = value_bytes v ++ later in
      let d1 : ThriftDecoder = set_last_id id (behind d (tail ++ rest)) in
      let (low, high) = type_of_bounds v in
      let begun : Ready (last ∷ stack) (header ++ (tail ++ rest)) d =
        subst (λ i. Ready (last ∷ stack) i d) (append_assoc header tail rest) r in
      let next : Ready (id ∷ stack) (tail ++ rest) d1 =
        Ready-named (Ready-behind (tail ++ rest) begun) id hi in
      let there = field_bytes_there last (type_of v) id in
      let short = shorter header tail rest f there hf in
      let passed : Ready (id ∷ stack) (later ++ rest) (skip_fuel f (type_of v) d1) =
        value-Passes v f depth (id ∷ stack) (later ++ rest) d1 hv hd
          (no_longer (value_bytes v) later rest f short).0
          (subst (λ i. Ready (id ∷ stack) i d1) (append_assoc (value_bytes v) later rest) next) in
      rw
        (
          read_field_lem (tail ++ rest) (type_of v) id (omega (arith, low)) high hi begun,
          pend_nothing next (type_of v) low,
        )
        (fields_passes fields rounds f depth id stack rest (skip_fuel f (type_of v) d1) hs hd
          (no_longer (value_bytes v) later rest rounds (shorter header tail rest rounds there hr)).1
          (omega (arith, (no_longer (value_bytes v) later rest f short).1)) passed)
  fields_passes (bool_field id b fields) (suc rounds) f depth last stack rest d (hi, hs) hd hr hf
        r =
      let header = field_bytes last (bool_type b) id in
      let later = fields_bytes id fields in
      let d1 : ThriftDecoder = set_last_id id (behind d (later ++ rest)) in
      let begun : Ready (last ∷ stack) (header ++ (later ++ rest)) d =
        subst (λ i. Ready (last ∷ stack) i d) (append_assoc header later rest) r in
      let next : Ready (id ∷ stack) (later ++ rest) d1 =
        Ready-named (Ready-behind (later ++ rest) begun) id hi in
      let there = field_bytes_there last (bool_type b) id in
      let short = shorter header later rest f there hf in
      let passed = bool_passes f (length (later ++ rest)) b short next in
      rw
        (read_field_lem (later ++ rest) (bool_type b) id (bool_type_bounds b).0
          (bool_type_bounds b).1 hi begun)
        (fields_passes fields rounds f depth id stack rest
          (skip_fuel f (bool_type b) (pend_bool (bool_type b) d1)) hs hd
          (shorter header later rest rounds there hr) (omega (arith, short)) passed)

-- On a decoder that has not failed, with no Boolean pending and any number of structs open up to
-- the limit, whose input begins with the bytes of a value that has no Booleans in its lists,
-- sets and maps and that nests structs no deeper than the limit leaves, skipping that value
-- leaves exactly the bytes behind it, no error, and the open structs with the ids of their last
-- fields.
pub skip_passes_value :
    (v : Value) (stack rest : List ℕ) (d : ThriftDecoder)
    → length stack ≤ max_nesting
    → IsValue (max_nesting - length stack) v
    → Ready stack (value_bytes v ++ rest) d
    → Ready stack rest (skip d (type_of v))
unfolding skip
skip_passes_value v stack rest d hs h r =
    value-Passes v (suc (length d.input)) (max_nesting - length stack) stack rest d h (omega arith)
      (omega (arith, ap length r.left)) r
