-- ===== src/Core/Endian/Words.antt =====
-- Little-endian words read back.
use carquet.Prelude.{ℕ, ◌+◌, ◌*◌, ◌/◌, ◌%◌, ◌^◌, ◌<◌, ◌≡◌, arith, bit_or_low}
use carquet.Prelude.{List, ◌∷◌, ◌++◌, IsByte, length, refl}
use carquet.Core.Endian.{read_u16_le, read_u32_le, read_u64_le}
use carquet.Core.Endian.{write_u16_le, write_u32_le, write_u64_le}

-- Reading back a stored word below 2^16 gives it, whatever bytes follow.
pub read-write_u16 : (v : ℕ) (rest : List ℕ) → v < 2 ^ 16 → read_u16_le (write_u16_le v ++ rest) ≡ v
unfolding read_u16_le write_u16_le
read-write_u16 v rest h = omega (arith, bit_or_low 8 (v / 2 ^ 8 % 256) (v % 256) (omega arith))

bytes_u32 :
    (a b c d : ℕ) (rest : List ℕ)
    → IsByte a
    → IsByte b
    → IsByte c
    → read_u32_le (a ∷ b ∷ c ∷ d ∷ rest) ≡ a + b * 2 ^ 8 + c * 2 ^ 16 + d * 2 ^ 24
unfolding read_u32_le
bytes_u32 a b c d rest ha hb hc = rw (
  bit_or_low 8 b a ha,
  bit_or_low 16 c (a + b * 2 ^ 8) (omega arith),
  bit_or_low 24 d (a + b * 2 ^ 8 + c * 2 ^ 16) (omega arith),
)

-- Reading back a stored word below 2^32 gives it, whatever bytes follow.
pub read-write_u32 : (v : ℕ) (rest : List ℕ) → v < 2 ^ 32 → read_u32_le (write_u32_le v ++ rest) ≡ v
unfolding write_u32_le
read-write_u32 v rest h =
    rw
      (bytes_u32 (v % 256) (v / 2 ^ 8 % 256) (v / 2 ^ 16 % 256) (v / 2 ^ 24 % 256) rest
        (omega arith) (omega arith) (omega arith))
      (omega arith)

bytes_u64 :
    (a b c d e f g h : ℕ) (rest : List ℕ)
    → IsByte a × IsByte b × IsByte c × IsByte d × IsByte e × IsByte f × IsByte g
    → read_u64_le (a ∷ b ∷ c ∷ d ∷ e ∷ f ∷ g ∷ h ∷ rest)
      ≡ a + b * 2 ^ 8 + c * 2 ^ 16 + d * 2 ^ 24 + e * 2 ^ 32 + f * 2 ^ 40 + g * 2 ^ 48 + h * 2 ^ 56
unfolding read_u64_le
bytes_u64 a b c d e f g h rest bytes =
    let v1 : ℕ = a + b * 2 ^ 8 in
    let v2 : ℕ = v1 + c * 2 ^ 16 in
    let v3 : ℕ = v2 + d * 2 ^ 24 in
    let v4 : ℕ = v3 + e * 2 ^ 32 in
    let v5 : ℕ = v4 + f * 2 ^ 40 in
    let v6 : ℕ = v5 + g * 2 ^ 48 in
    rw (
      bit_or_low 8 b a (omega arith),
      bit_or_low 16 c v1 (omega arith),
      bit_or_low 24 d v2 (omega arith),
      bit_or_low 32 e v3 (omega arith),
      bit_or_low 40 f v4 (omega arith),
      bit_or_low 48 g v5 (omega arith),
      bit_or_low 56 h v6 (omega arith),
    )

-- Reading back a stored word below 2^64 gives it, whatever bytes follow.
pub read-write_u64 : (v : ℕ) (rest : List ℕ) → v < 2 ^ 64 → read_u64_le (write_u64_le v ++ rest) ≡ v
unfolding write_u64_le
read-write_u64 v rest h =
    rw
      (bytes_u64 (v % 256) (v / 2 ^ 8 % 256) (v / 2 ^ 16 % 256) (v / 2 ^ 24 % 256)
        (v / 2 ^ 32 % 256) (v / 2 ^ 40 % 256) (v / 2 ^ 48 % 256) (v / 2 ^ 56 % 256) rest
        (omega arith))
      (omega arith)

pub length-write_u64 : (v : ℕ) → length (write_u64_le v) ≡ 8
unfolding write_u64_le
length-write_u64 v = refl
