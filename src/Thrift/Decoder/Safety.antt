-- ===== src/Thrift/Decoder/Safety.antt =====
-- What every operation of the decoder keeps: the first error, and the bounds of the stack of ids.
use carquet.Prelude.{
  ℕ, ◌+◌, ◌-◌, ◌≤◌, ◌≡◌, refl, arith, Bool, true, false, not, List, length, length-set, ap, ◌∙◌,
}
use carquet.Prelude.{leb-false→lt}
use carquet.Prelude.{
  Bool-cases, inl, inr, ltb, leb, ◌==◌, if◌then◌else◌, bit_and, ◌%◌, ◌^◌, ◌/◌, Option, none, some,
}
use carquet.Core.Status.{
  Status, is_ok, error_thrift_decode, error_thrift_truncated, error_out_of_memory,
}
use carquet.Thrift.Types.{max_nesting}
use carquet.Thrift.Decoder.{
  ThriftDecoder, set_error, reader_skip, read_varint, read_binary, read_list_begin, read_map_begin,
  read_set_begin,
}
use carquet.Thrift.Decoder.{
  read_struct_begin, read_struct_end, read_field_begin, varint_loop, field_of, read_byte_raw,
}
use carquet.Thrift.Decoder.{
  advance, set_last_id, pend_bool, check_count, read_i16, read_zigzag, read_double, read_bool,
}
use carquet.Thrift.Decoder.{
  read_uuid, read_string_alloc, string_of, has_bytes, read_byte, read_i32, read_i64,
}

-- A failed decoder keeps its error; the stack keeps its size, and the level stays within it.
pub record Keeps (dec dec' : ThriftDecoder) : Type 0 where
  pub sticky : is_ok dec.status ≡ false → dec'.status ≡ dec.status
  pub stack : length dec'.last_field_id ≡ length dec.last_field_id
  pub level : dec.nesting_level ≤ max_nesting → dec'.nesting_level ≤ max_nesting

pub Keeps-refl : (dec : ThriftDecoder) → Keeps dec dec
Keeps-refl dec = record { sticky = λ e. refl; stack = refl; level = λ h. h }

pub Keeps-trans : {d1 d2 d3 : ThriftDecoder} → Keeps d1 d2 → Keeps d2 d3 → Keeps d1 d3
Keeps-trans p q = record {
  sticky = λ e. q.sticky (ap is_ok (p.sticky e) ∙ e) ∙ p.sticky e;
  stack = q.stack ∙ p.stack;
  level = λ h. q.level (p.level h);
}

pub set_error-Keeps : (s : Status) (dec : ThriftDecoder) → Keeps dec (set_error s dec)
unfolding set_error
set_error-Keeps s dec = elim (Bool-cases (is_ok dec.status)) [
  | inl good ↦ rw good (record { sticky = λ e. cc; stack = refl; level = λ h. h })
  | inr bad ↦ rw bad (Keeps-refl dec)
]

advance-Keeps : (n : ℕ) (dec : ThriftDecoder) → Keeps dec (advance n dec)
unfolding advance
advance-Keeps n dec = record { sticky = λ e. refl; stack = refl; level = λ h. h }

-- A test between two results, whose decoders `f` picks.
pub Keeps-if :
    {A : Type 0} (f : A → ThriftDecoder) (b : Bool) {x y : A} {dec : ThriftDecoder}
    → Keeps dec (f x)
    → Keeps dec (f y)
    → Keeps dec (f (if b then x else y))
Keeps-if f true p q = p
Keeps-if f false p q = q

Keeps-if_pair :
    {A : Type 0} (x y : A × ThriftDecoder) (b : Bool) {dec : ThriftDecoder}
    → Keeps dec x.1
    → Keeps dec y.1
    → Keeps dec (if b then x else y).1
Keeps-if_pair {A} x y b = Keeps-if {A = A × ThriftDecoder} (λ r. r.1) b

Keeps-if_triple :
    {A B : Type 0} (x y : A × B × ThriftDecoder) (b : Bool) {dec : ThriftDecoder}
    → Keeps dec x.2
    → Keeps dec y.2
    → Keeps dec (if b then x else y).2
Keeps-if_triple {A} {B} x y b = Keeps-if {A = A × B × ThriftDecoder} (λ r. r.2) b

Keeps-if_quadruple :
    {A B C : Type 0} (x y : A × B × C × ThriftDecoder) (b : Bool) {dec : ThriftDecoder}
    → Keeps dec x.3
    → Keeps dec y.3
    → Keeps dec (if b then x else y).3
Keeps-if_quadruple {A} {B} {C} x y b = Keeps-if {A = A × B × C × ThriftDecoder} (λ r. r.3) b

module _ (dec : ThriftDecoder) where
  pub reader_skip-Keeps : (n : ℕ) → Keeps dec (reader_skip n dec)
  unfolding reader_skip
  reader_skip-Keeps n = Keeps-if (λ d. d) (has_bytes dec n) (advance-Keeps n dec) (Keeps-refl dec)

  pub read_byte_raw-Keeps : Keeps dec (read_byte_raw dec).1
  unfolding read_byte_raw
  read_byte_raw-Keeps =
      Keeps-if_pair _ _ (has_bytes dec 1) (advance-Keeps 1 dec)
        (set_error-Keeps error_thrift_truncated dec)

  pub read_varint-Keeps : Keeps dec (read_varint dec).1
  unfolding read_varint
  read_varint-Keeps =
      let (_, rest, status) = varint_loop 10 0 0 dec.input in
      let behind : ThriftDecoder = record dec { input = rest } in
      let moved : Keeps dec behind = record { sticky = λ e. refl; stack = refl; level = λ h. h } in
      Keeps-if_pair _ _ (is_ok status) moved (Keeps-trans moved (set_error-Keeps status behind))

  pub read_double-Keeps : Keeps dec (read_double dec).1
  unfolding read_double
  read_double-Keeps =
      Keeps-if_pair _ _ (has_bytes dec 8) (advance-Keeps 8 dec)
        (set_error-Keeps error_thrift_truncated dec)

  pub read_uuid-Keeps : Keeps dec (read_uuid dec).1
  unfolding read_uuid
  read_uuid-Keeps =
      Keeps-if_pair _ _ (has_bytes dec 16) (advance-Keeps 16 dec)
        (set_error-Keeps error_thrift_truncated dec)

  pub read_bool-Keeps : Keeps dec (read_bool dec).1
  unfolding read_bool
  read_bool-Keeps =
      Keeps-if_pair _ _ dec.bool_pending
        (record { sticky = λ e. refl; stack = refl; level = λ h. h }) read_byte_raw-Keeps

  pub read_binary-Keeps : Keeps dec (read_binary dec).1
  unfolding read_binary
  read_binary-Keeps =
      let (value, behind) = read_varint dec in
      let len = value % 2 ^ 32 in
      Keeps-trans read_varint-Keeps (
        Keeps-if_pair _ _ (leb (2 ^ 31) len) (set_error-Keeps error_thrift_decode behind) (
          Keeps-if_pair _ _ (not (has_bytes behind len))
            (set_error-Keeps error_thrift_truncated behind) (advance-Keeps len behind)))

  pub read_string_alloc-Keeps : (grants : ℕ → Bool) → Keeps dec (read_string_alloc grants dec).1
  unfolding read_string_alloc string_of
  read_string_alloc-Keeps grants = allocated_string (read_binary dec).0
    where
      allocated_string :
          (bytes : Option (List ℕ)) → Keeps dec (string_of grants bytes (read_binary dec).1).1
      allocated_string none = read_binary-Keeps
      allocated_string (some str) =
          Keeps-if_pair _ _ (grants (length str + 1)) read_binary-Keeps (
            Keeps-trans read_binary-Keeps (set_error-Keeps error_out_of_memory (read_binary dec).1))

  pub read_struct_begin-Keeps : Keeps dec (read_struct_begin dec)
  unfolding read_struct_begin
  read_struct_begin-Keeps = elim (Bool-cases (leb max_nesting dec.nesting_level)) [
    | inl deep ↦ rw deep (set_error-Keeps error_thrift_decode dec)
    | inr fits ↦ rw fits (record {
      sticky = λ e. refl;
      stack = length-set dec.last_field_id dec.nesting_level 0;
      level = λ h. omega (arith, leb-false→lt _ _ fits);
    })
  ]

  pub read_struct_end-Keeps : Keeps dec (read_struct_end dec)
  unfolding read_struct_end
  read_struct_end-Keeps =
      Keeps-if (λ d. d) (ltb 0 dec.nesting_level)
        (record { sticky = λ e. refl; stack = refl; level = λ h. omega arith }) (Keeps-refl dec)

  set_last_id-Keeps : (i : ℕ) → Keeps dec (set_last_id i dec)
  unfolding set_last_id
  set_last_id-Keeps i =
      Keeps-if (λ d. d) (ltb 0 dec.nesting_level)
        (record {
          sticky = λ e. refl;
          stack = length-set dec.last_field_id (dec.nesting_level - 1) i;
          level = λ h. h;
        })
        (Keeps-refl dec)

  pend_bool-Keeps : (t : ℕ) → Keeps dec (pend_bool t dec)
  unfolding pend_bool
  pend_bool-Keeps t =
      Keeps-if (λ d. d) (t == 1) (record { sticky = λ e. refl; stack = refl; level = λ h. h })
        (Keeps-if (λ d. d) (t == 2) (record { sticky = λ e. refl; stack = refl; level = λ h. h })
          (Keeps-refl dec))

  pub read_byte-Keeps : Keeps dec (read_byte dec).1
  unfolding read_byte
  read_byte-Keeps = read_byte_raw-Keeps

  pub read_zigzag-Keeps : Keeps dec (read_zigzag dec).1
  unfolding read_zigzag
  read_zigzag-Keeps = read_varint-Keeps

  pub read_i32-Keeps : Keeps dec (read_i32 dec).1
  unfolding read_i32 read_zigzag
  read_i32-Keeps = read_varint-Keeps

  pub read_i64-Keeps : Keeps dec (read_i64 dec).1
  unfolding read_i64 read_zigzag
  read_i64-Keeps = read_varint-Keeps

  pub read_i16-Keeps : Keeps dec (read_i16 dec).1
  unfolding read_i16 read_zigzag
  read_i16-Keeps = read_varint-Keeps

  check_count-Keeps : (n : ℕ) → Keeps dec (check_count n dec).1
  unfolding check_count
  check_count-Keeps n =
      Keeps-if_pair _ _ (leb (2 ^ 31) n) (set_error-Keeps error_thrift_decode dec) (
        Keeps-if_pair _ _ (ltb (length dec.input) n) (set_error-Keeps error_thrift_decode dec)
          (Keeps-refl dec))

field_of-Keeps : (h : ℕ) (dec : ThriftDecoder) → Keeps dec (field_of h dec).2
unfolding field_of
field_of-Keeps h dec =
    let (long_id, behind) = read_i16 dec in
    Keeps-if_triple _ _ (bit_and (h / 2 ^ 4) 0x0f == 0)
      (Keeps-trans (read_i16-Keeps dec) (
        Keeps-trans (set_last_id-Keeps behind long_id)
          (pend_bool-Keeps (set_last_id long_id behind) _)))
      (Keeps-trans (set_last_id-Keeps dec _) (pend_bool-Keeps (set_last_id _ dec) _))

pub read_field_begin-Keeps : (dec : ThriftDecoder) → Keeps dec (read_field_begin dec).3
unfolding read_field_begin
read_field_begin-Keeps dec =
    let (header, behind) = read_byte_raw dec in
    Keeps-if_quadruple _ _ (not (is_ok dec.status)) (Keeps-refl dec) (
      Keeps-if_quadruple _ _ (header == 0) (read_byte_raw-Keeps dec)
        (Keeps-trans (read_byte_raw-Keeps dec) (field_of-Keeps header behind)))

pub read_list_begin-Keeps : (dec : ThriftDecoder) → Keeps dec (read_list_begin dec).2
unfolding read_list_begin
read_list_begin-Keeps dec =
    let (header, behind) = read_byte_raw dec in
    let size = bit_and (header / 2 ^ 4) 0x0f in
    let (value, sized) = read_varint behind in
    Keeps-trans (read_byte_raw-Keeps dec) (
      Keeps-if_triple _ _ (size == 0x0f)
        (Keeps-trans (read_varint-Keeps behind) (check_count-Keeps sized (value % 2 ^ 32)))
        (check_count-Keeps behind size))

pub read_map_begin-Keeps : (dec : ThriftDecoder) → Keeps dec (read_map_begin dec).3
unfolding read_map_begin
read_map_begin-Keeps dec =
    let (value, sized) = read_varint dec in
    let (count, checked) = check_count (value % 2 ^ 32) sized in
    Keeps-trans (read_varint-Keeps dec) (
      Keeps-trans (check_count-Keeps sized (value % 2 ^ 32))
        (Keeps-if_quadruple _ _ (count == 0) (Keeps-refl checked) (read_byte_raw-Keeps checked)))

pub read_set_begin-Keeps : (dec : ThriftDecoder) → Keeps dec (read_set_begin dec).2
unfolding read_set_begin
read_set_begin-Keeps dec = read_list_begin-Keeps dec
