-- ===== src/Prelude/Bits.antt =====
-- The bit operations of C on unsigned words as arithmetic on numbers, at every width.
use Prim.Native.Nat.{digits, differ, bit_and-bitwise, bit_or-bitwise, bit_xor-bitwise}
use Prim.Native.Nat.{ℕ, zero, suc, ◌+◌, ◌-◌, ◌*◌, ◌/◌, ◌%◌, ◌^◌, ◌≤◌, ◌<◌, min, max}
use Prim.Native.Nat.{bit_and, bit_or, bit_xor}
use mathlib.Core.Path.{◌≡◌, refl, ap, ◌∙◌, sym}
use native.Mathlib.Nat.{pow-suc, one-le-pow, div-div-eq-div-mul}
use native.Mathlib.Omega.{arith}

-- The native operations recur on a count of digits; any count from the first number on will do.
module _ (z : ℕ → ℕ) (f : ℕ → ℕ → ℕ) where
  digits-zero : (n b : ℕ) → digits z f n 0 b ≡ z b
  digits-zero zero b = refl
  digits-zero (suc n) b = refl

  spare_digits : (n m a b : ℕ) → a ≤ n → a ≤ m → digits z f n a b ≡ digits z f m a b
  spare_digits n m zero b p q = digits-zero n b ∙ sym (digits-zero m b)
  spare_digits zero m (suc a) b p q = absurd (omega arith)
  spare_digits (suc n) zero (suc a) b p q = absurd (omega arith)
  spare_digits (suc n) (suc m) (suc a) b p q =
      ap (λ (t : ℕ). t * 2 + f (suc a % 2) (b % 2))
        (spare_digits n m (suc a / 2) (b / 2) (omega arith) (omega arith))

  lowest_digit :
      (a b : ℕ)
      → digits z f (suc a) (suc a) b
        ≡ digits z f (suc a / 2) (suc a / 2) (b / 2) * 2 + f (suc a % 2) (b % 2)
  lowest_digit a b =
      ap (λ (t : ℕ). t * 2 + f (suc a % 2) (b % 2))
        (spare_digits a (suc a / 2) (suc a / 2) (b / 2) (omega arith) (omega arith))

bit_or-digit : (a b : ℕ) → bit_or a b ≡ bit_or (a / 2) (b / 2) * 2 + max (a % 2) (b % 2)
bit_or-digit zero b = simp bit_or-bitwise (omega arith)
bit_or-digit (suc a) b = simp bit_or-bitwise (lowest_digit (λ y. y) max a b)

bit_and-digit : (a b : ℕ) → bit_and a b ≡ bit_and (a / 2) (b / 2) * 2 + min (a % 2) (b % 2)
bit_and-digit zero b = simp bit_and-bitwise (omega arith)
bit_and-digit (suc a) b = simp bit_and-bitwise (lowest_digit (λ y. 0) min a b)

differ_zero : (x : ℕ) → differ x 0 ≡ x
differ_zero zero = refl
differ_zero (suc x) = refl

differ_one : (x : ℕ) → x < 2 → differ x 1 ≡ 1 - x
differ_one zero h = refl
differ_one (suc zero) h = refl
differ_one (suc (suc x)) h = absurd (omega arith)

differ_left_zero : (y : ℕ) → differ 0 y ≡ y
differ_left_zero y = refl

bit_xor-digit : (a b : ℕ) → bit_xor a b ≡ bit_xor (a / 2) (b / 2) * 2 + differ (a % 2) (b % 2)
bit_xor-digit zero b = simp bit_xor-bitwise (omega arith)
bit_xor-digit (suc a) b = simp bit_xor-bitwise (lowest_digit (λ y. y) differ a b)

-- Halving takes any number below `2 ^ k` to zero in `k` rounds, which the inductions are on.
half-lt : (k a : ℕ) → a < 2 ^ suc k → a / 2 < 2 ^ k
half-lt k a h = omega (arith, pow-suc 2 k)

bit_or-zero_below : (k a : ℕ) → a < 2 ^ k → bit_or a 0 ≡ a
bit_or-zero_below zero zero h = refl
bit_or-zero_below zero (suc a) h = absurd (omega arith)
bit_or-zero_below (suc k) a h =
    omega (arith, bit_or-digit a 0, bit_or-zero_below k (a / 2) (half-lt k a h))

bit_and-zero_below : (k a : ℕ) → a < 2 ^ k → bit_and a 0 ≡ 0
bit_and-zero_below zero zero h = refl
bit_and-zero_below zero (suc a) h = absurd (omega arith)
bit_and-zero_below (suc k) a h =
    omega (arith, bit_and-digit a 0, bit_and-zero_below k (a / 2) (half-lt k a h))

bit_xor-zero_below : (k a : ℕ) → a < 2 ^ k → bit_xor a 0 ≡ a
bit_xor-zero_below zero zero h = refl
bit_xor-zero_below zero (suc a) h = absurd (omega arith)
bit_xor-zero_below (suc k) a h =
    omega
      (arith, bit_xor-digit a 0, differ_zero (a % 2), bit_xor-zero_below k (a / 2) (half-lt k a h))

pub lt-two-pow : (a : ℕ) → a < 2 ^ a
lt-two-pow zero = omega arith
lt-two-pow (suc a) = omega (arith, pow-suc 2 a, lt-two-pow a)

pub bit_or-zero : (a : ℕ) → bit_or a 0 ≡ a
bit_or-zero a = bit_or-zero_below a a (lt-two-pow a)

pub zero-bit_or : (a : ℕ) → bit_or 0 a ≡ a
zero-bit_or a = bit_or-bitwise 0 a

bit_and-zero : (a : ℕ) → bit_and a 0 ≡ 0
bit_and-zero a = bit_and-zero_below a a (lt-two-pow a)

pub bit_xor-zero : (a : ℕ) → bit_xor a 0 ≡ a
bit_xor-zero a = bit_xor-zero_below a a (lt-two-pow a)

-- `a ^ (2^k - 1)` flips the `k` bits of `a`.
pub bit_xor_ones : (k a : ℕ) → a < 2 ^ k → bit_xor a (2 ^ k - 1) ≡ 2 ^ k - 1 - a
bit_xor_ones zero zero h = refl
bit_xor_ones zero (suc a) h = absurd (omega arith)
bit_xor_ones (suc k) a h = ground (
  arith,
  bit_xor-digit a (2 ^ suc k - 1),
  pow-suc 2 k,
  one-le-pow k 2 (omega arith),
  differ_one (a % 2) (omega arith),
  bit_xor_ones k (a / 2) (half-lt k a h),
)

-- `2 ^ (a + b)` splits.
pub two-pow-add : (a b : ℕ) → 2 ^ (a + b) ≡ 2 ^ a * 2 ^ b
two-pow-add a zero = let e : a + 0 ≡ a = omega arith in rw e (omega arith)
two-pow-add a (suc b) =
    let e : a + suc b ≡ suc (a + b) = omega arith in
    rw e
      (omega (arith, pow-suc 2 (a + b), two-pow-add a b, ap (λ (t : ℕ). 2 ^ a * t) (pow-suc 2 b)))

pub two-pow-pos : (k : ℕ) → 1 ≤ 2 ^ k
two-pow-pos k = one-le-pow k 2 (omega arith)

shifted_suc : (q k : ℕ) → q * 2 ^ suc k ≡ q * 2 ^ k * 2
shifted_suc q k = omega (arith, ap (λ (t : ℕ). q * t) (pow-suc 2 k))

-- `(q << k) | r` is a sum when `r` fits `k` bits.
pub bit_or_shifted : (k q r : ℕ) → r < 2 ^ k → bit_or (q * 2 ^ k) r ≡ q * 2 ^ k + r
bit_or_shifted zero q zero h = bit_or-zero (q * 1) ∙ omega arith
bit_or_shifted zero q (suc r) h = absurd (omega arith)
bit_or_shifted (suc k) q r h = ground (
  arith,
  bit_or-digit (q * 2 ^ suc k) r,
  shifted_suc q k,
  bit_or_shifted k q (r / 2) (half-lt k r h),
)

-- The same with the operands the other way round.
pub bit_or_low : (k q r : ℕ) → r < 2 ^ k → bit_or r (q * 2 ^ k) ≡ r + q * 2 ^ k
bit_or_low zero q zero h = zero-bit_or (q * 1) ∙ omega arith
bit_or_low zero q (suc r) h = absurd (omega arith)
bit_or_low (suc k) q r h =
    ground (
      arith,
      bit_or-digit r (q * 2 ^ suc k),
      shifted_suc q k,
      bit_or_low k q (r / 2) (half-lt k r h),
    )

masked : (k q r : ℕ) → r < 2 ^ k → bit_and (q * 2 ^ k + r) (2 ^ k - 1) ≡ r
masked zero q zero h = bit_and-zero (q * 1 + 0)
masked zero q (suc r) h = absurd (omega arith)
masked (suc k) q r h = ground (
  arith,
  bit_and-digit (q * 2 ^ suc k + r) (2 ^ suc k - 1),
  shifted_suc q k,
  pow-suc 2 k,
  two-pow-pos k,
  masked k q (r / 2) (half-lt k r h),
)

-- `a & (2^k - 1)` is the remainder by `2 ^ k`.
pub bit_and_mask : (k a : ℕ) → bit_and a (2 ^ k - 1) ≡ a % 2 ^ k
bit_and_mask k a = ground (arith, two-pow-pos k, masked k (a / 2 ^ k) (a % 2 ^ k))

-- Masking with a shifted number is masking the shifted number.
bit_and_shifted : (k a m : ℕ) → bit_and a (m * 2 ^ k) ≡ bit_and (a / 2 ^ k) m * 2 ^ k
bit_and_shifted zero a m =
    let mask : m * 2 ^ 0 ≡ m = omega arith in
    let whole : a / 2 ^ 0 ≡ a = omega arith in rw (mask, whole) (omega arith)
bit_and_shifted (suc k) a m =
    let even : m * 2 ^ suc k % 2 ≡ 0 = omega (arith, shifted_suc m k) in
    let half : m * 2 ^ suc k / 2 ≡ m * 2 ^ k = omega (arith, shifted_suc m k) in
    let lower : a / 2 / 2 ^ k ≡ a / 2 ^ suc k =
      div-div-eq-div-mul a 2 (2 ^ k) ∙ ap (λ (t : ℕ). a / t) (omega (arith, pow-suc 2 k)) in
    bit_and-digit a (m * 2 ^ suc k)
    ∙ ap (λ (t : ℕ). bit_and (a / 2) t * 2 + min (a % 2) (m * 2 ^ suc k % 2)) half
    ∙ ap (λ (t : ℕ). bit_and (a / 2) (m * 2 ^ k) * 2 + min (a % 2) t) even
    ∙ ap (λ (t : ℕ). t * 2 + min (a % 2) 0) (bit_and_shifted k (a / 2) m)
    ∙ ap (λ (t : ℕ). bit_and t m * 2 ^ k * 2 + min (a % 2) 0) lower
    ∙ omega (arith, shifted_suc (bit_and (a / 2 ^ suc k) m) k)

-- `b & 0x80` is the top bit of a byte.
pub top_bit : (b : ℕ) → b < 256 → bit_and b 0x80 ≡ b / 128 * 128
top_bit b h =
    bit_and_shifted 7 b 1 ∙ ap (λ (t : ℕ). t * 128) (bit_and_mask 1 (b / 128) ∙ omega arith)

-- The bits of either number that fit `k` places fit them together.
pub bit_or-lt : (k a b : ℕ) → a < 2 ^ k → b < 2 ^ k → bit_or a b < 2 ^ k
bit_or-lt zero zero b ha hb = omega (arith, zero-bit_or b)
bit_or-lt zero (suc a) b ha hb = absurd (omega arith)
bit_or-lt (suc k) a b ha hb = omega (
  arith,
  bit_or-digit a b,
  pow-suc 2 k,
  bit_or-lt k (a / 2) (b / 2) (half-lt k a ha) (half-lt k b hb),
)
