-- ===== src/Core/Bitpack/Unpack.antt =====
-- Unpacking reads the fields of the word that the bytes stand for.
use carquet.Prelude.{length}
use carquet.Prelude.{
  ℕ, zero, suc, ◌+◌, ◌-◌, ◌*◌, ◌/◌, ◌%◌, ◌^◌, ◌<◌, ◌≤◌, ◌≡◌, refl, arith, ap, ◌∙◌, sym,
}
use carquet.Prelude.{bit_and, bit_and_mask, bit_or_low, two-pow-pos}
use carquet.Prelude.{List, ◌∷◌, ◌==◌, replicate, All, get_or}
use carquet.Prelude.{value, digits, IsDigit, get_or-value}
use carquet.Prelude.{div-two-pow-add, field_of_byte, byte_pow, add_shifted-lt, join_fields}
use carquet.Prelude.{Bool-cases, inl, inr, ==→eq, ==-false→ne, ◌≢◌}
use native.Mathlib.Nat.{mod-lt, mod-eq_of_lt, mod-mod, pow-le-pow_right, div-one, mod-one}
use mathlib.Core.Path.{ap₂}
use carquet.Core.Bitpack.Kernels.{bitunpack8_1bit_lem, bitunpack8_2bit_lem, bitunpack8_3bit_lem}
use carquet.Core.Bitpack.Kernels.{bitunpack8_4bit_lem, bitunpack8_5bit_lem, bitunpack8_6bit_lem}
use carquet.Core.Bitpack.Kernels.{bitunpack8_7bit_lem, bitunpack8_8bit_lem}
use carquet.Core.Bitpack.{
  bitunpack8_1bit, bitunpack8_2bit, bitunpack8_3bit, bitunpack8_4bit, bitunpack8_5bit,
  bitunpack8_6bit,
}
use carquet.Core.Bitpack.{bitunpack8_7bit, bitunpack8_8bit}
use carquet.Core.Bitpack.{bits_from_byte, next_byte_pos, gather_bits, unpack_loop, bitunpack8_32}

-- What one round takes from the byte at `bit_pos / 8`.
pub bits_of_byte :
    (input : List ℕ) (bit_pos k : ℕ)
    → All (IsDigit 256) input
    → bit_pos % 8 + k ≤ 8
    → bit_and (get_or input (bit_pos / 8) 0 / 2 ^ (bit_pos % 8)) (2 ^ k - 1)
      ≡ value 256 input / 2 ^ bit_pos % 2 ^ k
bits_of_byte input bit_pos k h fits =
    let v = value 256 input in
    let p = bit_pos / 8 in
    bit_and_mask k _
    ∙ ap (λ (t : ℕ). t / 2 ^ (bit_pos % 8) % 2 ^ k) (get_or-value 256 input p h)
    ∙ field_of_byte (v / 256 ^ p) (bit_pos % 8) k fits
    ∙ ap (λ (t : ℕ). v / t / 2 ^ (bit_pos % 8) % 2 ^ k) (byte_pow p)
    ∙ ap (λ (t : ℕ). t % 2 ^ k) (sym (div-two-pow-add v (8 * p) (bit_pos % 8)))
    ∙ ap (λ (t : ℕ). v / 2 ^ t % 2 ^ k) (omega arith)

bits_from_byte_lem :
    (needed bit_pos : ℕ)
    → (bits_from_byte needed bit_pos ≤ needed)
      × (bit_pos % 8 + bits_from_byte needed bit_pos ≤ 8)
      × (needed ≢ 0 → 1 ≤ bits_from_byte needed bit_pos)
unfolding bits_from_byte
bits_from_byte_lem needed bit_pos = (ground arith, ground arith, λ h. ground arith)

next_byte_pos_lem :
    (bit_pos k : ℕ)
    → bit_pos % 8 + k ≤ 8
    → 1 ≤ k
    → next_byte_pos (bit_pos + k) (bit_pos / 8) ≡ (bit_pos + k) / 8
unfolding next_byte_pos
next_byte_pos_lem bit_pos k fits pos = ground arith

gathered :
    (v bits needed in_buffer bit_pos k : ℕ)
    → k ≤ needed
    → ◌≡◌ {A = ℕ × ℕ × ℕ}
        (
          bits
              + v / 2 ^ bit_pos % 2 ^ k * 2 ^ in_buffer
              + v / 2 ^ (bit_pos + k) % 2 ^ (needed - k) * 2 ^ (in_buffer + k),
          bit_pos + k + (needed - k),
          (bit_pos + k + (needed - k)) / 8,
        )
        (
          bits + v / 2 ^ bit_pos % 2 ^ needed * 2 ^ in_buffer,
          bit_pos + needed,
          (bit_pos + needed) / 8,
        )
gathered v bits needed in_buffer bit_pos k h =
    let position : bit_pos + k + (needed - k) ≡ bit_pos + needed = omega arith in
    let whole : k + (needed - k) ≡ needed = omega arith in
    let joined : v / 2 ^ bit_pos % 2 ^ k * 2 ^ in_buffer
          + v / 2 ^ bit_pos / 2 ^ k % 2 ^ (needed - k) * 2 ^ (in_buffer + k)
        ≡ v / 2 ^ bit_pos % 2 ^ needed * 2 ^ in_buffer =
      join_fields (v / 2 ^ bit_pos) in_buffer k (needed - k)
      ∙ ap (λ (t : ℕ). v / 2 ^ bit_pos % 2 ^ t * 2 ^ in_buffer) whole in
    rw (position, div-two-pow-add v bit_pos k)
      (ap (λ (t : ℕ). (t, bit_pos + needed, (bit_pos + needed) / 8)) (omega (arith, joined)))

-- The bits of one value: those gathered so far, and what is still needed above them.
gather_bits_lem :
    (rounds : ℕ) (input : List ℕ) (bits needed in_buffer bit_pos : ℕ)
    → All (IsDigit 256) input
    → needed ≤ rounds
    → bits < 2 ^ in_buffer
    → gather_bits rounds input bits needed in_buffer bit_pos (bit_pos / 8) ≡ (
      bits + value 256 input / 2 ^ bit_pos % 2 ^ needed * 2 ^ in_buffer,
      bit_pos + needed,
      (bit_pos + needed) / 8,
    )
unfolding gather_bits
gather_bits_lem zero input bits needed in_buffer bit_pos h hr hb =
    let e : needed ≡ 0 = omega arith in rw (e, mod-one) (ground arith)
gather_bits_lem (suc rounds) input bits needed in_buffer bit_pos h hr hb =
    elim (Bool-cases (needed == 0)) [
      | inl done ↦ let e : needed ≡ 0 = ==→eq _ _ done in rw (e, mod-one) (ground arith)
      | inr more ↦
          let v = value 256 input / 2 ^ bit_pos in
          let k = bits_from_byte needed bit_pos in
          let (k_le, fits, pos) = bits_from_byte_lem needed bit_pos in
          let k_pos : 1 ≤ k = pos (==-false→ne _ _ more) in
          rw
            (
              more,
              bits_of_byte input bit_pos k h fits,
              bit_or_low in_buffer (v % 2 ^ k) bits hb,
              next_byte_pos_lem bit_pos k fits k_pos,
            )
            (gather_bits_lem rounds input (bits + v % 2 ^ k * 2 ^ in_buffer) (needed - k)
                (in_buffer + k) (bit_pos + k) h (omega arith)
                (add_shifted-lt bits (v % 2 ^ k) in_buffer k hb (mod-lt v (two-pow-pos k)))
              ∙ gathered (value 256 input) bits needed in_buffer bit_pos k k_le)
    ]

pub mask32 : (w : ℕ) → w ≤ 32 → (2 ^ w - 1) % 2 ^ 32 ≡ 2 ^ w - 1
mask32 w h =
    let le : 2 ^ w ≤ 2 ^ 32 = pow-le-pow_right {n = 2} (omega arith) h in
    mod-eq_of_lt {n = 2 ^ w - 1} {m = 2 ^ 32} (omega (arith, two-pow-pos w))

field32 : (x w : ℕ) → w ≤ 32 → x % 2 ^ w % 2 ^ 32 ≡ x % 2 ^ w
field32 x w h =
    let le : 2 ^ w ≤ 2 ^ 32 = pow-le-pow_right {n = 2} (omega arith) h in
    mod-eq_of_lt {n = x % 2 ^ w} {m = 2 ^ 32} (omega (arith, mod-lt x (two-pow-pos w)))

unpack_loop_lem :
    (left : ℕ) (input : List ℕ) (w bit_pos : ℕ)
    → All (IsDigit 256) input
    → w ≤ 32
    → unpack_loop left input w bit_pos (bit_pos / 8)
      ≡ digits (2 ^ w) left (value 256 input / 2 ^ bit_pos)
unfolding unpack_loop
unpack_loop_lem zero input w bit_pos h hw = refl
unpack_loop_lem (suc left) input w bit_pos h hw =
    let v = value 256 input in
    rw
      (
        gather_bits_lem w input 0 w 0 bit_pos h (omega arith) (omega arith),
        mask32 w hw,
        bit_and_mask w (0 + v / 2 ^ bit_pos % 2 ^ w * 1),
      )
      (ap₂ ◌∷◌
        (field32 (0 + v / 2 ^ bit_pos % 2 ^ w * 1) w hw
          ∙ ap (λ (t : ℕ). t % 2 ^ w) (omega arith)
          ∙ mod-mod (v / 2 ^ bit_pos) (2 ^ w))
        (unpack_loop_lem left input w (bit_pos + w) h hw
          ∙ ap (digits (2 ^ w) left) (div-two-pow-add v bit_pos w)))

wide_width : (input : List ℕ) (w : ℕ) → 9 ≤ w → bitunpack8_32 input w ≡ unpack_loop 8 input w 0 0
unfolding bitunpack8_32
wide_width input w h = ground arith

zero_fields : (n v : ℕ) → digits 1 n v ≡ replicate n 0
zero_fields zero v = refl
zero_fields (suc n) v = ap₂ ◌∷◌ (mod-one v) (zero_fields n (v / 1))

-- At a width of at most 32 bits, whichever kernel is chosen for it, unpacking gives the eight
-- lowest base-2^w digits of the little-endian number that the bytes stand for.
pub bitunpack8_32_lem :
    (input : List ℕ) (w : ℕ)
    → All (IsDigit 256) input
    → w ≤ 32
    → bitunpack8_32 input w ≡ digits (2 ^ w) 8 (value 256 input)
unfolding bitunpack8_32
bitunpack8_32_lem input zero h hw = sym (zero_fields 8 (value 256 input))
bitunpack8_32_lem input (suc zero) h hw = bitunpack8_1bit_lem input h
bitunpack8_32_lem input (suc (suc zero)) h hw = bitunpack8_2bit_lem input h
bitunpack8_32_lem input (suc (suc (suc zero))) h hw = bitunpack8_3bit_lem input h
bitunpack8_32_lem input (suc (suc (suc (suc zero)))) h hw = bitunpack8_4bit_lem input h
bitunpack8_32_lem input (suc (suc (suc (suc (suc zero))))) h hw = bitunpack8_5bit_lem input h
bitunpack8_32_lem input (suc (suc (suc (suc (suc (suc zero)))))) h hw = bitunpack8_6bit_lem input h
bitunpack8_32_lem input (suc (suc (suc (suc (suc (suc (suc zero))))))) h hw =
    bitunpack8_7bit_lem input h
bitunpack8_32_lem input (suc (suc (suc (suc (suc (suc (suc (suc zero)))))))) h hw =
    bitunpack8_8bit_lem input h
bitunpack8_32_lem input (suc (suc (suc (suc (suc (suc (suc (suc (suc w))))))))) h hw =
    let wide = suc (suc (suc (suc (suc (suc (suc (suc (suc w)))))))) in
    wide_width input wide (omega arith)
    ∙ unpack_loop_lem 8 input wide 0 h hw
    ∙ ap (digits (2 ^ wide) 8) (div-one (value 256 input))

length-unpack_loop :
    (left : ℕ) (input : List ℕ) (w bit_pos byte_pos : ℕ)
    → length (unpack_loop left input w bit_pos byte_pos) ≡ left
unfolding unpack_loop
length-unpack_loop zero input w bit_pos byte_pos = refl
length-unpack_loop (suc left) input w bit_pos byte_pos =
    ap suc (length-unpack_loop left input w _ _)

-- Eight values come out, whatever the input and the width.
pub length-bitunpack8_32 : (input : List ℕ) (w : ℕ) → length (bitunpack8_32 input w) ≡ 8
unfolding bitunpack8_32 bitunpack8_1bit bitunpack8_2bit bitunpack8_3bit bitunpack8_4bit
    bitunpack8_5bit bitunpack8_6bit bitunpack8_7bit bitunpack8_8bit
length-bitunpack8_32 input w = ground (arith, length-unpack_loop 8 input w 0 0)
