-- ===== src/Core/Endian/Zigzag.antt =====
-- Zigzag: small magnitudes become small numbers, and nothing is lost.
use carquet.Prelude.{ℕ, ◌+◌, ◌-◌, ◌*◌, ◌/◌, ◌%◌, ◌^◌, ◌<◌, ◌≡◌, arith}
use carquet.Prelude.{bit_xor-zero, bit_xor_ones, bit_and_mask, signed, ℤ, pos, negsuc}
use carquet.Prelude.{==→eq, ==-false→ne, ◌≤◌, ◌⊎◌, ◌==◌}
use carquet.Prelude.{ltb, Bool-cases, inl, inr, tests}
use carquet.Core.Endian.{zigzag_encode32, zigzag_encode64, zigzag_decode32, zigzag_decode64}

-- What zigzag means: 0, -1, 1, -2, ... are numbered 0, 1, 2, 3, ...
unfoldable pub zigzag : ℤ → ℕ
zigzag (pos n) = 2 * n
zigzag (negsuc n) = 2 * n + 1

-- On a 64-bit word the shifts and the exclusive or compute the zigzag code of the signed integer
-- that the word stands for: 2n for n, and 2n - 1 for -n.
pub zigzag_encode64-signed : (v : ℕ) → v < 2 ^ 64 → zigzag_encode64 v ≡ zigzag (signed 64 v)
unfolding zigzag_encode64 zigzag
zigzag_encode64-signed v h = elim (Bool-cases (ltb v (2 ^ 63))) [
  | inl small ↦ rw (small, bit_xor-zero) (omega (tests, small))
  | inr large ↦ rw (large, bit_xor_ones 64 (v * 2 % 2 ^ 64) (omega arith)) (omega (tests, large))
]

-- The two words in arithmetic.
encode32_lem :
    (v : ℕ)
    → v < 2 ^ 32
    → ((v < 2 ^ 31) × (zigzag_encode32 v ≡ 2 * v))
      ⊎ ((2 ^ 31 ≤ v) × (zigzag_encode32 v ≡ 2 * (2 ^ 32 - 1 - v) + 1))
unfolding zigzag_encode32
encode32_lem v h = elim (Bool-cases (ltb v (2 ^ 31))) [
  | inl small ↦ inl (omega (tests, small), rw (small, bit_xor-zero) (omega (tests, small)))
  | inr large ↦ inr (
    omega (tests, large),
    rw (large, bit_xor_ones 32 (v * 2 % 2 ^ 32) (omega arith)) (omega (tests, large)),
  )
]

decode32_lem :
    (n : ℕ)
    → n < 2 ^ 32
    → ((n % 2 ≡ 0) × (zigzag_decode32 n ≡ n / 2))
      ⊎ ((n % 2 ≡ 1) × (zigzag_decode32 n ≡ 2 ^ 32 - 1 - n / 2))
unfolding zigzag_decode32
decode32_lem n h = elim (Bool-cases (n % 2 == 0)) [
  | inl even ↦ let e : n % 2 ≡ 0 = ==→eq _ _ even in inl (e, rw (bit_and_mask 1 n, e, bit_xor-zero))
  | inr odd ↦
      let e : n % 2 ≡ 1 = omega (arith, ==-false→ne _ _ odd) in
      inr (e, rw (bit_and_mask 1 n, e) (bit_xor_ones 32 (n / 2) (omega arith)))
]

pub zigzag_encode32-lt : (v : ℕ) → v < 2 ^ 32 → zigzag_encode32 v < 2 ^ 32
zigzag_encode32-lt v h = omega (arith, encode32_lem v h)

pub zigzag_decode32-lt : (n : ℕ) → n < 2 ^ 32 → zigzag_decode32 n < 2 ^ 32
zigzag_decode32-lt n h = omega (arith, decode32_lem n h)

-- Decoding the zigzag code of a 32-bit word gives the word.
pub zigzag_decode32-encode32 : (v : ℕ) → v < 2 ^ 32 → zigzag_decode32 (zigzag_encode32 v) ≡ v
zigzag_decode32-encode32 v h =
    omega (arith, encode32_lem v h, decode32_lem (zigzag_encode32 v) (zigzag_encode32-lt v h))

-- The zigzag code of what a 32-bit word decodes to is the word.
pub zigzag_encode32-decode32 : (n : ℕ) → n < 2 ^ 32 → zigzag_encode32 (zigzag_decode32 n) ≡ n
zigzag_encode32-decode32 n h =
    omega (arith, decode32_lem n h, encode32_lem (zigzag_decode32 n) (zigzag_decode32-lt n h))

-- The two words in arithmetic.
encode64_lem :
    (v : ℕ)
    → v < 2 ^ 64
    → ((v < 2 ^ 63) × (zigzag_encode64 v ≡ 2 * v))
      ⊎ ((2 ^ 63 ≤ v) × (zigzag_encode64 v ≡ 2 * (2 ^ 64 - 1 - v) + 1))
unfolding zigzag_encode64
encode64_lem v h = elim (Bool-cases (ltb v (2 ^ 63))) [
  | inl small ↦ inl (omega (tests, small), rw (small, bit_xor-zero) (omega (tests, small)))
  | inr large ↦ inr (
    omega (tests, large),
    rw (large, bit_xor_ones 64 (v * 2 % 2 ^ 64) (omega arith)) (omega (tests, large)),
  )
]

decode64_lem :
    (n : ℕ)
    → n < 2 ^ 64
    → ((n % 2 ≡ 0) × (zigzag_decode64 n ≡ n / 2))
      ⊎ ((n % 2 ≡ 1) × (zigzag_decode64 n ≡ 2 ^ 64 - 1 - n / 2))
unfolding zigzag_decode64
decode64_lem n h = elim (Bool-cases (n % 2 == 0)) [
  | inl even ↦ let e : n % 2 ≡ 0 = ==→eq _ _ even in inl (e, rw (bit_and_mask 1 n, e, bit_xor-zero))
  | inr odd ↦
      let e : n % 2 ≡ 1 = omega (arith, ==-false→ne _ _ odd) in
      inr (e, rw (bit_and_mask 1 n, e) (bit_xor_ones 64 (n / 2) (omega arith)))
]

pub zigzag_encode64-lt : (v : ℕ) → v < 2 ^ 64 → zigzag_encode64 v < 2 ^ 64
zigzag_encode64-lt v h = omega (arith, encode64_lem v h)

pub zigzag_decode64-lt : (n : ℕ) → n < 2 ^ 64 → zigzag_decode64 n < 2 ^ 64
zigzag_decode64-lt n h = omega (arith, decode64_lem n h)

-- Decoding the zigzag code of a 64-bit word gives the word.
pub zigzag_decode64-encode64 : (v : ℕ) → v < 2 ^ 64 → zigzag_decode64 (zigzag_encode64 v) ≡ v
zigzag_decode64-encode64 v h =
    omega (arith, encode64_lem v h, decode64_lem (zigzag_encode64 v) (zigzag_encode64-lt v h))

-- The zigzag code of what a 64-bit word decodes to is the word.
pub zigzag_encode64-decode64 : (n : ℕ) → n < 2 ^ 64 → zigzag_encode64 (zigzag_decode64 n) ≡ n
zigzag_encode64-decode64 n h =
    omega (arith, decode64_lem n h, encode64_lem (zigzag_decode64 n) (zigzag_decode64-lt n h))
