-- ===== src/Prelude/Powers.antt =====
-- Cutting a number at a bit position.
use carquet.Prelude.Bits.{two-pow-add, two-pow-pos}
use Prim.Native.Nat.{ℕ, zero, suc, ◌+◌, ◌-◌, ◌*◌, ◌/◌, ◌%◌, ◌^◌, ◌≤◌, ◌<◌}
use mathlib.Core.Path.{◌≡◌, refl, ap, sym, ◌∙◌}
use native.Mathlib.Nat.{mod-lt, div-add-mod, div-div-eq-div-mul, mod-eq_of_lt, mul-le-mul_left}
use native.Mathlib.Nat.{div-eq_of_lt, mul-add-div, mul-add-mod_self_left, pow-suc, pow-zero}
use native.Mathlib.Omega.{arith}

pub div-two-pow-add : (x a b : ℕ) → x / 2 ^ (a + b) ≡ x / 2 ^ a / 2 ^ b
div-two-pow-add x a b =
    ap (λ (t : ℕ). x / t) (two-pow-add a b) ∙ sym (div-div-eq-div-mul x (2 ^ a) (2 ^ b))

-- `m` times a quotient, and the rest of it, stays below `m * n`.
below_product : (m n s r : ℕ) → s < n → r < m → m * s + r < m * n
below_product m n s r hs hr = let h : m * suc s ≤ m * n = mul-le-mul_left m hs in omega (arith, h)

-- The low `a + b` bits are the low `a` bits and the `b` bits above them.
pub mod-two-pow-add : (x a b : ℕ) → x % 2 ^ (a + b) ≡ 2 ^ a * (x / 2 ^ a % 2 ^ b) + x % 2 ^ a
mod-two-pow-add x a b =
    ap (λ (t : ℕ). x % t) (two-pow-add a b)
    ∙ ap (λ (t : ℕ). t % (2 ^ a * 2 ^ b)) whole
    ∙ mul-add-mod_self_left (2 ^ a * 2 ^ b) (x / 2 ^ a / 2 ^ b) _
    ∙ mod-eq_of_lt (
        below_product (2 ^ a) (2 ^ b) (x / 2 ^ a % 2 ^ b) (x % 2 ^ a) (mod-lt _ (two-pow-pos b))
          (mod-lt _ (two-pow-pos a)))
  where
    whole : x ≡ 2 ^ a * 2 ^ b * (x / 2 ^ a / 2 ^ b) + (2 ^ a * (x / 2 ^ a % 2 ^ b) + x % 2 ^ a)
    whole =
        omega (
          arith,
          div-add-mod x (2 ^ a),
          ap (λ (t : ℕ). 2 ^ a * t) (div-add-mod (x / 2 ^ a) (2 ^ b)),
        )

pub mod-two-pow_low : (x a b : ℕ) → x % 2 ^ (a + b) % 2 ^ a ≡ x % 2 ^ a
mod-two-pow_low x a b =
    ap (λ (t : ℕ). t % 2 ^ a) (mod-two-pow-add x a b)
    ∙ mul-add-mod_self_left (2 ^ a) _ (x % 2 ^ a)
    ∙ mod-eq_of_lt (mod-lt x (two-pow-pos a))

pub mod-two-pow_high : (x a b : ℕ) → x % 2 ^ (a + b) / 2 ^ a ≡ x / 2 ^ a % 2 ^ b
mod-two-pow_high x a b =
    ap (λ (t : ℕ). t / 2 ^ a) (mod-two-pow-add x a b)
    ∙ mul-add-div {m = 2 ^ a} (two-pow-pos a) (x / 2 ^ a % 2 ^ b) (x % 2 ^ a)
    ∙ omega (arith, div-eq_of_lt {n = x % 2 ^ a} {m = 2 ^ a} (mod-lt x (two-pow-pos a)))

-- `k` bits of a byte from bit `s` on, where the byte holds them all.
pub field_of_byte : (x s k : ℕ) → s + k ≤ 8 → x % 256 / 2 ^ s % 2 ^ k ≡ x / 2 ^ s % 2 ^ k
field_of_byte x s k h =
    let e : s + (k + (8 - (s + k))) ≡ 8 = omega arith in
    ap (λ (t : ℕ). x % 2 ^ t / 2 ^ s % 2 ^ k) (sym e)
    ∙ ap (λ (t : ℕ). t % 2 ^ k) (mod-two-pow_high x s (k + (8 - (s + k))))
    ∙ mod-two-pow_low (x / 2 ^ s) k (8 - (s + k))

pub byte_pow : (p : ℕ) → 256 ^ p ≡ 2 ^ (8 * p)
byte_pow zero = refl
byte_pow (suc p) =
    let e : 8 * suc p ≡ 8 * p + 8 = omega arith in
    rw e (omega (arith, pow-suc 256 p, byte_pow p, two-pow-add (8 * p) 8))

-- A field of `k` bits put above `s` bits.
pub add_shifted-lt : (a b s k : ℕ) → a < 2 ^ s → b < 2 ^ k → a + b * 2 ^ s < 2 ^ (s + k)
add_shifted-lt a b s k ha hb =
    rw two-pow-add (omega (arith, below_product (2 ^ s) (2 ^ k) b a hb ha))

-- Two adjacent fields, shifted by `s`, are one.
pub join_fields :
    (x s k m : ℕ) → x % 2 ^ k * 2 ^ s + x / 2 ^ k % 2 ^ m * 2 ^ (s + k) ≡ x % 2 ^ (k + m) * 2 ^ s
join_fields x s k m = omega (
  arith,
  ap (λ (t : ℕ). t * 2 ^ s) (mod-two-pow-add x k m),
  ap (λ (t : ℕ). x / 2 ^ k % 2 ^ m * t) (two-pow-add s k),
)

pub pow-two-pow : (w n : ℕ) → (2 ^ w) ^ n ≡ 2 ^ (w * n)
pow-two-pow w zero = let e : w * 0 ≡ 0 = omega arith in rw (e, pow-zero (2 ^ w))
pow-two-pow w (suc n) =
    let e : w * suc n ≡ w * n + w = omega arith in
    rw e (
      pow-suc (2 ^ w) n ∙ ap (λ (t : ℕ). t * 2 ^ w) (pow-two-pow w n) ∙ sym (two-pow-add (w * n) w))
