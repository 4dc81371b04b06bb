-- ===== src/Thrift/Decoder/Reads.antt =====
-- What each read gives on the bytes of its value, whatever bytes follow them.
use carquet.Prelude.{
  ℕ, zero, suc, ◌+◌, ◌*◌, ◌%◌, ◌^◌, ◌<◌, ◌≤◌, ◌≡◌, refl, arith, sym, ap, ◌∙◌, subst,
}
use carquet.Prelude.{Bool, true, false, ◌==◌, if◌then◌else◌, if-true, if-false}
use carquet.Prelude.{
  List, [], ◌∷◌, ◌++◌, length, take, drop, take-append_self, drop-append_self, length-append,
  get_or,
}
use carquet.Prelude.{some, bit_and, bit_or, lt→leb-false, le→leb}
use native.Mathlib.Nat.{mod-eq_of_lt}
use carquet.Core.Status.{ok, is_ok, error_thrift_truncated}
use carquet.Core.Endian.{
  decode_varint_loop, encode_varint64, zigzag_encode64, write_u64_le, read_u64_le,
}
use carquet.Core.Endian.Varint.{decode_varint_loop-encode}
use carquet.Core.Endian.Zigzag.{zigzag_decode64-encode64, zigzag_encode64-lt}
use carquet.Core.Endian.Words.{read-write_u64, length-write_u64}
use carquet.Thrift.Types.{sign_extend}
use carquet.Thrift.Wire.{i64_bytes}
use carquet.Thrift.Decoder.{
  ThriftDecoder, set_error, read_byte, reader_skip, read_varint, read_byte_raw, read_zigzag,
  read_i16, read_i32, read_i64, read_double,
}
use carquet.Thrift.Decoder.{varint_loop, advance, has_bytes, read_binary, read_uuid, read_bool}

-- The loop of the decoder gives what the reader of varints accepts.
varint_loop_lem :
    (n s r v : ℕ) (input rest : List ℕ)
    → decode_varint_loop 64 n s r input ≡ some (v, rest)
    → varint_loop n s r input ≡ (v, rest, ok)
unfolding varint_loop decode_varint_loop
varint_loop_lem zero s r v input rest e = cc
varint_loop_lem (suc n) s r v [] rest e = cc
varint_loop_lem (suc n) s r v (b ∷ input) rest e =
    ground
      (arith, varint_loop_lem n (s + 7) (bit_or r ((bit_and b 127 * 2 ^ s) % 2 ^ 64)) v input rest)

-- A signed word that is extended to 64 bits and cut again.
pub sign_extend_16_lem :
    (n : ℕ) → n < 2 ^ 16 → (sign_extend 16 n < 2 ^ 64) × (sign_extend 16 n % 2 ^ 16 ≡ n)
unfolding sign_extend
sign_extend_16_lem n h = ground arith

pub sign_extend_32_lem :
    (n : ℕ) → n < 2 ^ 32 → (sign_extend 32 n < 2 ^ 64) × (sign_extend 32 n % 2 ^ 32 ≡ n)
unfolding sign_extend
sign_extend_32_lem n h = ground arith

module _ (d : ThriftDecoder) (rest : List ℕ) where
  -- The decoder with `rest` still to read.
  abbrev pub behind : ThriftDecoder
  behind = record d { input = rest }

  -- What a prefix of the input allows.
  prefix_there : (bytes : List ℕ) → d.input ≡ bytes ++ rest → has_bytes d (length bytes) ≡ true
  unfolding has_bytes
  prefix_there bytes e =
      le→leb (length bytes) (length d.input)
        (subst (λ i. length bytes ≤ length i) (sym e) (omega (arith, length-append bytes rest)))

  prefix_taken : (bytes : List ℕ) → d.input ≡ bytes ++ rest → take (length bytes) d.input ≡ bytes
  prefix_taken bytes e = ap (λ i. take (length bytes) i) e ∙ take-append_self bytes rest

  prefix_passed : (bytes : List ℕ) → d.input ≡ bytes ++ rest → advance (length bytes) d ≡ behind
  unfolding advance
  prefix_passed bytes e =
      ap (λ i. record d { input = i })
        (ap (λ i. drop (length bytes) i) e ∙ drop-append_self bytes rest)

  pub read_varint_lem :
      (v : ℕ) → v < 2 ^ 64 → d.input ≡ encode_varint64 v ++ rest → read_varint d ≡ (v, behind)
  unfolding read_varint
  read_varint_lem v h e =
      let loop : varint_loop 10 0 0 d.input ≡ (v, rest, ok) =
        ap (λ p. varint_loop 10 0 0 p) e
        ∙ varint_loop_lem 10 0 0 v (encode_varint64 v ++ rest) rest
            (decode_varint_loop-encode 9 64 v rest (omega arith) h) in
      rw loop refl

  pub read_byte_raw_lem : (b : ℕ) → d.input ≡ b ∷ rest → read_byte_raw d ≡ (b, behind)
  unfolding read_byte_raw
  read_byte_raw_lem b e =
      if-true (has_bytes d 1) _ _ (prefix_there (b ∷ []) e)
      ∙ ap (λ i. (get_or i 0 0, advance 1 d)) e
      ∙ ap (λ (t : ThriftDecoder). (b, t)) (prefix_passed (b ∷ []) e)

  pub read_zigzag_lem :
      (v : ℕ)
      → v < 2 ^ 64
      → d.input ≡ encode_varint64 (zigzag_encode64 v) ++ rest
      → read_zigzag d ≡ (v, behind)
  unfolding read_zigzag
  read_zigzag_lem v h e =
      rw (read_varint_lem (zigzag_encode64 v) (zigzag_encode64-lt v h) e)
        (ap (λ (t : ℕ). (t, behind)) (zigzag_decode64-encode64 v h))

  pub read_double_lem :
      (v : ℕ) → v < 2 ^ 64 → d.input ≡ write_u64_le v ++ rest → read_double d ≡ (v, behind)
  unfolding read_double
  read_double_lem v h e =
      let size = length-write_u64 v in
      if-true (has_bytes d 8) _ _ (ap (has_bytes d) (sym size) ∙ prefix_there (write_u64_le v) e)
      ∙ ap (λ i. (read_u64_le i, advance 8 d)) e
      ∙ ap (λ (t : ℕ). (t, advance 8 d)) (read-write_u64 v rest h)
      ∙ ap (λ (n : ℕ). (v, advance n d)) (sym size)
      ∙ ap (λ (t : ThriftDecoder). (v, t)) (prefix_passed (write_u64_le v) e)

  pub read_uuid_lem :
      (bytes : List ℕ) → length bytes ≡ 16 → d.input ≡ bytes ++ rest → read_uuid d ≡ (bytes, behind)
  unfolding read_uuid
  read_uuid_lem bytes h e =
      if-true (has_bytes d 16) _ _ (ap (has_bytes d) (sym h) ∙ prefix_there bytes e)
      ∙ ap (λ (n : ℕ). (take n d.input, advance n d)) (sym h)
      ∙ ap (λ (t : List ℕ). (t, advance (length bytes) d)) (prefix_taken bytes e)
      ∙ ap (λ (t : ThriftDecoder). (bytes, t)) (prefix_passed bytes e)

pub read_binary_lem :
    (d : ThriftDecoder) (rest bytes : List ℕ)
    → length bytes < 2 ^ 31
    → d.input ≡ encode_varint64 (length bytes) ++ (bytes ++ rest)
    → read_binary d ≡ (some bytes, behind d rest)
unfolding read_binary
read_binary_lem d rest bytes h e =
    let sized : ThriftDecoder = behind d (bytes ++ rest) in
    let small : length bytes % 2 ^ 32 ≡ length bytes = mod-eq_of_lt (omega arith) in
    rw
      (
        read_varint_lem d (bytes ++ rest) (length bytes) (omega arith) e,
        small,
        lt→leb-false (2 ^ 31) (length bytes) h,
        prefix_there sized rest bytes refl,
        prefix_taken sized rest bytes refl,
        prefix_passed sized rest bytes refl,
      )
      refl

pub read_i16_lem :
    (d : ThriftDecoder) (rest : List ℕ) (n : ℕ)
    → n < 2 ^ 16
    → d.input ≡ encode_varint64 (zigzag_encode64 (sign_extend 16 n)) ++ rest
    → read_i16 d ≡ (n, behind d rest)
unfolding read_i16
read_i16_lem d rest n h e =
    let (small, whole) = sign_extend_16_lem n h in
    rw (read_zigzag_lem d rest (sign_extend 16 n) small e)
      (ap (λ (t : ℕ). (t, behind d rest)) whole)

pub read_i32_lem :
    (d : ThriftDecoder) (rest : List ℕ) (n : ℕ)
    → n < 2 ^ 32
    → d.input ≡ encode_varint64 (zigzag_encode64 (sign_extend 32 n)) ++ rest
    → read_i32 d ≡ (n, behind d rest)
unfolding read_i32
read_i32_lem d rest n h e =
    let (small, whole) = sign_extend_32_lem n h in
    rw (read_zigzag_lem d rest (sign_extend 32 n) small e)
      (ap (λ (t : ℕ). (t, behind d rest)) whole)

pub read_byte_lem :
    (d : ThriftDecoder) (rest : List ℕ) (b : ℕ)
    → d.input ≡ b ∷ rest
    → read_byte d ≡ (b, behind d rest)
unfolding read_byte
read_byte_lem d rest b e = read_byte_raw_lem d rest b e

pub read_i64_lem :
    (d : ThriftDecoder) (rest : List ℕ) (n : ℕ)
    → n < 2 ^ 64
    → d.input ≡ i64_bytes n ++ rest
    → read_i64 d ≡ (n, behind d rest)
unfolding read_i64
read_i64_lem d rest n h e = read_zigzag_lem d rest n h e

-- A Boolean of its own, which is a byte.
pub read_bool_lem :
    (d : ThriftDecoder) (rest : List ℕ) (b : Bool)
    → d.bool_pending ≡ false
    → d.input ≡ (if b then 1 else 0) ∷ rest
    → read_bool d ≡ (b, behind d rest)
unfolding read_bool
read_bool_lem d rest true idle e =
    if-false d.bool_pending _ _ idle
    ∙ ap (λ (r : ℕ × ThriftDecoder). (r.0 == 1, r.1)) (read_byte_raw_lem d rest 1 e)
read_bool_lem d rest false idle e =
    if-false d.bool_pending _ _ idle
    ∙ ap (λ (r : ℕ × ThriftDecoder). (r.0 == 1, r.1)) (read_byte_raw_lem d rest 0 e)

pub reader_skip_lem :
    (d : ThriftDecoder) (rest bytes : List ℕ) (n : ℕ)
    → length bytes ≡ n
    → d.input ≡ bytes ++ rest
    → reader_skip n d ≡ behind d rest
unfolding reader_skip
reader_skip_lem d rest bytes n h e =
    ap (λ (m : ℕ). if has_bytes d m then advance m d else d) (sym h)
    ∙ if-true _ _ _ (prefix_there d rest bytes e)
    ∙ prefix_passed d rest bytes e

-- A read at the end of the input fails, and the decoder says so.
pub read_byte_starved :
    (d : ThriftDecoder)
    → d.input ≡ []
    → is_ok d.status ≡ true
    → (read_byte d).1.status ≡ error_thrift_truncated
unfolding read_byte read_byte_raw has_bytes set_error
read_byte_starved d e good = rw (e, good) refl
