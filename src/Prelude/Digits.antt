-- ===== src/Prelude/Digits.antt =====
-- Numbers in base `b`, lowest digit first: the bytes of a word, and the fields of a packed group.
use carquet.Prelude.Lists.{length, get_or, set, All}
use carquet.Prelude.Tests.{ltb}
use mathlib.Core.Bool.{Bool, true, ◌&&◌}
use Prim.Native.Nat.{ℕ, zero, suc, ◌+◌, ◌*◌, ◌/◌, ◌%◌, ◌^◌, ◌≤◌, ◌<◌}
use mathlib.Core.Path.{◌≡◌, refl, ap, ap₂, sym, ◌∙◌}
use mathlib.Core.List.{List, [], ◌∷◌, ◌++◌}
use native.Mathlib.Nat.{pow-suc, mod-lt, div-add-mod, div-div-eq-div-mul, mod-eq_of_lt}
use native.Mathlib.Nat.{
  div-eq_of_lt, mul-add-div, mul-add-mod_self_left, div-one, pow-zero, pow-succ', zero-div,
  zero-mod, mul-le-mul_left,
}
use native.Mathlib.Nat.{div-lt_iff_lt-mul}
use native.Mathlib.Omega.{arith}

-- The number that a list of digits stands for.
abbrev pub value : ℕ → List ℕ → ℕ
value b [] = 0
value b (d ∷ ds) = b * value b ds + d

-- The lowest `n` digits of a number.
abbrev pub digits : ℕ → ℕ → ℕ → List ℕ
digits b zero v = []
digits b (suc n) v = v % b ∷ digits b n (v / b)

module _ (b : ℕ) where
  abbrev pub IsDigit : ℕ → Type 0
  IsDigit d = d < b

  pub length-digits : (n v : ℕ) → length (digits b n v) ≡ n
  length-digits zero v = refl
  length-digits (suc n) v = ap suc (length-digits n (v / b))

  pub digits-IsDigit : (n v : ℕ) → 0 < b → All IsDigit (digits b n v)
  digits-IsDigit zero v h = tt
  digits-IsDigit (suc n) v h = (mod-lt v h, digits-IsDigit n (v / b) h)

  quotient_of_value : (v d : ℕ) → d < b → (b * v + d) / b ≡ v
  quotient_of_value v d h =
      mul-add-div {m = b} (omega arith) v d ∙ omega (arith, div-eq_of_lt {n = d} {m = b} h)

  quotient-lt : (n v : ℕ) → 0 < b → v < b ^ suc n → v / b < b ^ n
  quotient-lt n v pos h = (div-lt_iff_lt-mul {k = b} {x = v} {y = b ^ n} pos).1 (rw pow-suc at h)

  pub value-digits : (n v : ℕ) → 0 < b → v < b ^ n → value b (digits b n v) ≡ v
  value-digits zero zero pos h = refl
  value-digits zero (suc v) pos h = absurd (omega (arith, pow-zero b))
  value-digits (suc n) v pos h =
      rw (value-digits n (v / b) pos (quotient-lt n v pos h)) (div-add-mod v b)

  pub digits-value : (ds : List ℕ) → All IsDigit ds → digits b (length ds) (value b ds) ≡ ds
  digits-value [] h = refl
  digits-value (d ∷ ds) (hd, hds) =
      ap₂ ◌∷◌ (mul-add-mod_self_left b (value b ds) d ∙ mod-eq_of_lt hd)
        (ap (digits b (length ds)) (quotient_of_value (value b ds) d hd) ∙ digits-value ds hds)

  pub value-lt : (ds : List ℕ) → All IsDigit ds → value b ds < b ^ length ds
  value-lt [] h = omega (arith, pow-zero b)
  value-lt (d ∷ ds) (hd, hds) =
      let below : b * suc (value b ds) ≤ b * b ^ length ds = mul-le-mul_left b (value-lt ds hds) in
      omega (arith, below, pow-suc b (length ds))

  pub value-set :
      (ds : List ℕ) (p x : ℕ)
      → p < length ds
      → value b (set ds p x) + get_or ds p 0 * b ^ p ≡ value b ds + x * b ^ p
  value-set [] p x h = absurd (omega arith)
  value-set (d ∷ ds) zero x h = rw (pow-zero b) (omega arith)
  value-set (d ∷ ds) (suc p) x h = omega (
    arith,
    ap (λ (t : ℕ). b * t) (value-set ds p x (omega arith)),
    ap (λ (t : ℕ). get_or ds p 0 * t) (pow-suc b p),
    ap (λ (t : ℕ). x * t) (pow-suc b p),
  )

  pub get_or-value : (ds : List ℕ) (p : ℕ) → All IsDigit ds → get_or ds p 0 ≡ value b ds / b ^ p % b
  get_or-value [] p h = rw (zero-div, zero-mod)
  get_or-value (d ∷ ds) zero h =
      rw (pow-zero b, div-one, mul-add-mod_self_left) (sym (mod-eq_of_lt (h.0)))
  get_or-value (d ∷ ds) (suc p) h =
      get_or-value ds p h.1 ∙ ap (λ (t : ℕ). t % b) (sym (quotient_of_value_pow))
    where
      quotient_of_value_pow : (b * value b ds + d) / b ^ suc p ≡ value b ds / b ^ p
      quotient_of_value_pow =
          ap (λ (t : ℕ). (b * value b ds + d) / t) (pow-succ' b p)
          ∙ sym (div-div-eq-div-mul (b * value b ds + d) b (b ^ p))
          ∙ ap (λ (t : ℕ). t / b ^ p) (quotient_of_value (value b ds) d h.0)

  pub value-append : (xs ys : List ℕ) → value b (xs ++ ys) ≡ value b xs + b ^ length xs * value b ys
  value-append [] ys = rw (pow-zero b) (omega arith)
  value-append (x ∷ xs) ys = omega (
    arith,
    ap (λ (t : ℕ). b * t) (value-append xs ys),
    ap (λ (t : ℕ). t * value b ys) (pow-suc b (length xs)),
  )

  -- The digits of a list's number, whatever stands above them.
  pub digits-value_above :
      (ds : List ℕ) (y : ℕ)
      → All IsDigit ds
      → digits b (length ds) (value b ds + b ^ length ds * y) ≡ ds
  digits-value_above [] y h = refl
  digits-value_above (d ∷ ds) y (hd, hds) = rw (regrouped) (
      ap₂ ◌∷◌ (mul-add-mod_self_left b _ d ∙ mod-eq_of_lt hd)
        (ap (digits b (length ds)) (quotient_of_value _ d hd) ∙ digits-value_above ds y hds))
    where
      regrouped :
          b * value b ds + d + b ^ suc (length ds) * y ≡ b * (value b ds + b ^ length ds * y) + d
      regrouped = omega (arith, ap (λ (t : ℕ). t * y) (pow-suc b (length ds)))

-- Digits that a test finds small enough.
abbrev pub below : ℕ → List ℕ → Bool
below b [] = true
below b (x ∷ xs) = ltb x b && below b xs

pub below-All : (b : ℕ) (xs : List ℕ) → below b xs ≡ true → All (IsDigit b) xs
below-All b [] h = tt
below-All b (x ∷ xs) h = ground (arith, below-All b xs)
