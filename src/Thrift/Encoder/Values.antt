-- ===== src/Thrift/Encoder/Values.antt =====
-- The writes of single values.
use carquet.Prelude.{ℕ, ◌%◌, Bool, true, false, if◌then◌else◌, List, [], ◌∷◌, ◌++◌, IsByte, subst}
use native.Mathlib.Nat.{mod-eq_of_lt}
use carquet.Core.Endian.{write_u64_le}
use carquet.Core.Buffer.{Allocator, Buffer}
use carquet.Thrift.Wire.{int_bytes, i64_bytes}
use carquet.Thrift.Encoder.{
  ThriftEncoder, write_byte, write_i16, write_i32, write_i64, write_double, write_bool, write_uuid,
  emit,
}
use carquet.Thrift.Encoder.{write_zigzag, write_varint}
use carquet.Thrift.Encoder.Emits.{Written, Written-emit}

module _ {a : Allocator} {start : Buffer} {budget : ℕ} {out stack : List ℕ} {enc : ThriftEncoder}
    (w : Written a start budget out stack enc) where
  abbrev Adds : List ℕ → ThriftEncoder → Type 0
  Adds bytes = Written a start budget (out ++ bytes) stack

  pub write_byte-Written : (n : ℕ) → IsByte n → Adds (n ∷ []) (write_byte a enc n)
  unfolding write_byte
  write_byte-Written n h =
      subst (λ (t : ℕ). Adds (t ∷ []) (emit a enc (n % 256 ∷ []))) (mod-eq_of_lt h)
        (Written-emit a start budget w (n % 256 ∷ []))

  pub write_i16-Written : (n : ℕ) → Adds (int_bytes 16 n) (write_i16 a enc n)
  unfolding write_i16 write_zigzag write_varint
  write_i16-Written n = Written-emit a start budget w (int_bytes 16 n)

  pub write_i32-Written : (n : ℕ) → Adds (int_bytes 32 n) (write_i32 a enc n)
  unfolding write_i32 write_zigzag write_varint
  write_i32-Written n = Written-emit a start budget w (int_bytes 32 n)

  pub write_i64-Written : (n : ℕ) → Adds (i64_bytes n) (write_i64 a enc n)
  unfolding write_i64 write_zigzag write_varint
  write_i64-Written n = Written-emit a start budget w (i64_bytes n)

  pub write_double-Written : (n : ℕ) → Adds (write_u64_le n) (write_double a enc n)
  unfolding write_double
  write_double-Written n = Written-emit a start budget w (write_u64_le n)

  pub write_bool-Written : (b : Bool) → Adds ((if b then 1 else 0) ∷ []) (write_bool a enc b)
  unfolding write_bool write_byte
  write_bool-Written true = Written-emit a start budget w (1 ∷ [])
  write_bool-Written false = Written-emit a start budget w (0 ∷ [])

  pub write_uuid-Written : (bytes : List ℕ) → Adds bytes (write_uuid a enc bytes)
  unfolding write_uuid
  write_uuid-Written bytes = Written-emit a start budget w bytes
