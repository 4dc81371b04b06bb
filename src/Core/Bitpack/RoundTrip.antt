-- ===== src/Core/Bitpack/RoundTrip.antt =====
-- Packing and unpacking are inverse on groups of eight, and on arrays of any length.
use carquet.Prelude.{ℕ, zero, suc, ◌+◌, ◌*◌, ◌^◌, ◌<◌, ◌≤◌, ◌≡◌, refl, arith, ap, ◌∙◌, sym}
use carquet.Prelude.{two-pow-pos, byte_pow, pow-two-pow, All-append}
use carquet.Prelude.{List, [], ◌∷◌, ◌++◌, ◌==◌, length, All, replicate}
use carquet.Prelude.{
  value, digits, IsDigit, digits-value, digits-value_above, value-append, value-lt,
}
use carquet.Prelude.{subst, length-digits, digits-IsDigit, value-digits, length-replicate}
use carquet.Prelude.{Bool-cases, inl, inr, ==→eq, ==-false→ne}
use mathlib.Core.Path.{ap₂}
use native.Mathlib.Nat.{mod-lt}
use carquet.Core.Bitpack.{pack_loop, bitpack8_32, bitunpack8_32}
use carquet.Core.Bitpack.Pack.{Holds, fields, pack_loop-Holds}
use carquet.Core.Bitpack.Unpack.{bitunpack8_32_lem}

pub length-fields : (w : ℕ) (values : List ℕ) → length (fields w values) ≡ length values
length-fields w [] = refl
length-fields w (x ∷ values) = ap suc (length-fields w values)

pub fields-IsDigit : (w : ℕ) (values : List ℕ) → All (IsDigit (2 ^ w)) (fields w values)
fields-IsDigit w [] = tt
fields-IsDigit w (x ∷ values) = (mod-lt x (two-pow-pos w), fields-IsDigit w values)

zeros-Holds : (n : ℕ) → Holds n 0 (replicate n 0)
zeros-Holds n = record { size = length-replicate n 0; bytes = all_bytes n; word = no_value n }
  where
    all_bytes : (n : ℕ) → All (IsDigit 256) (replicate n 0)
    all_bytes zero = tt
    all_bytes (suc n) = (omega arith, all_bytes n)

    no_value : (n : ℕ) → value 256 (replicate n 0) ≡ 0
    no_value zero = refl
    no_value (suc n) = omega (arith, no_value n)

-- An array that holds the word of its fields is the bytes of that word.
Holds-digits : (n v : ℕ) (output : List ℕ) → Holds n v output → output ≡ digits 256 n v
Holds-digits n v output h =
    sym (digits-value 256 output h.bytes)
    ∙ ap (λ (t : ℕ). digits 256 t (value 256 output)) h.size
    ∙ ap (digits 256 n) h.word

packed_general :
    (values : List ℕ) (w : ℕ)
    → length values ≡ 8
    → 1 ≤ w
    → w ≤ 32
    → pack_loop w 0 values (replicate w 0) ≡ digits 256 w (value (2 ^ w) (fields w values))
packed_general values w h8 h1 h32 =
    Holds-digits w _ _ (
      pack_loop-Holds values w 0 w 0 (replicate w 0) (zeros-Holds w) (omega arith) h1 h32
        (rw h8 (omega arith)))
    ∙ ap (digits 256 w) (omega arith)

-- At a width of at most 32 bits, packing eight values gives the `w` little-endian bytes of the
-- number whose base-2^w digits are the low `w` bits of the values.
pub bitpack8_32_lem :
    (values : List ℕ) (w : ℕ)
    → length values ≡ 8
    → w ≤ 32
    → bitpack8_32 values w ≡ digits 256 w (value (2 ^ w) (fields w values))
unfolding bitpack8_32
bitpack8_32_lem values w h8 h32 = elim (Bool-cases (w == 0)) [
  | inl none ↦ let e : w ≡ 0 = ==→eq _ _ none in rw e
  | inr some ↦ rw some (elim (Bool-cases (w == 8)) [
    | inl bytes ↦
        let e : w ≡ 8 = ==→eq _ _ bytes in
        rw e (
          sym (digits-value 256 (fields 8 values) (fields-IsDigit 8 values))
          ∙ ap (λ (t : ℕ). digits 256 t (value 256 (fields 8 values)))
              (length-fields 8 values ∙ h8))
    | inr other ↦ rw other (packed_general values w h8 (omega (arith, ==-false→ne _ _ some)) h32)
  ])
]

group_size : (w : ℕ) → 256 ^ w ≡ (2 ^ w) ^ 8
group_size w = byte_pow w ∙ ap (λ (t : ℕ). 2 ^ t) (omega arith) ∙ sym (pow-two-pow w 8)

word-lt : (values : List ℕ) (w : ℕ) → length values ≡ 8 → value (2 ^ w) (fields w values) < 256 ^ w
word-lt values w h8 = rw (group_size w) (
    subst (λ n. value (2 ^ w) (fields w values) < (2 ^ w) ^ n) (length-fields w values ∙ h8)
      (value-lt (2 ^ w) (fields w values) (fields-IsDigit w values)))

-- A packed group takes `w` bytes.
pub length-bitpack8_32 :
    (values : List ℕ) (w : ℕ) → length values ≡ 8 → w ≤ 32 → length (bitpack8_32 values w) ≡ w
length-bitpack8_32 values w h8 h32 = rw (bitpack8_32_lem values w h8 h32) (length-digits 256 w _)

pub bitpack8_32-bytes :
    (values : List ℕ) (w : ℕ)
    → length values ≡ 8
    → w ≤ 32
    → All (IsDigit 256) (bitpack8_32 values w)
bitpack8_32-bytes values w h8 h32 =
    rw (bitpack8_32_lem values w h8 h32) (digits-IsDigit 256 w _ (omega arith))

-- Unpacking a packed group of eight values, at a width of at most 32 bits, gives their low `w`
-- bits, whatever bytes follow the group.
pub bitunpack8-bitpack8 :
    (values rest : List ℕ) (w : ℕ)
    → length values ≡ 8
    → w ≤ 32
    → All (IsDigit 256) rest
    → bitunpack8_32 (bitpack8_32 values w ++ rest) w ≡ fields w values
bitunpack8-bitpack8 values rest w h8 h32 hrest =
    let fs = fields w values in
    let v = value (2 ^ w) fs in
    let packed = bitpack8_32 values w in
    let packed_value : value 256 packed ≡ v =
      ap (value 256) (bitpack8_32_lem values w h8 h32)
      ∙ value-digits 256 w v (omega arith) (word-lt values w h8) in
    let eight : 8 ≡ length fs = sym (length-fields w values ∙ h8) in
    bitunpack8_32_lem (packed ++ rest) w
      (All-append (IsDigit 256) packed rest (bitpack8_32-bytes values w h8 h32) hrest) h32
    ∙ ap (digits (2 ^ w) 8) (
        value-append 256 packed rest
        ∙ ap₂ (λ (s t : ℕ). s + t * value 256 rest) packed_value
            (ap (λ (t : ℕ). 256 ^ t) (length-bitpack8_32 values w h8 h32)
              ∙ group_size w
              ∙ ap (λ (t : ℕ). (2 ^ w) ^ t) eight))
    ∙ ap (λ (t : ℕ). digits (2 ^ w) t (v + (2 ^ w) ^ length fs * value 256 rest)) eight
    ∙ digits-value_above (2 ^ w) fs (value 256 rest) (fields-IsDigit w values)
