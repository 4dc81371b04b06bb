-- ===== src/Encoding/Rle/Groups.antt =====
-- The groups that src/core/bitpack.c packs are those of the format.
use carquet.Prelude.{
  ℕ, zero, suc, ◌+◌, ◌*◌, ◌^◌, ◌<◌, ◌≤◌, ◌≡◌, arith, sym, ap, ap₂, ◌∙◌, List, ◌++◌, length, All,
  take, drop, value, subst, digits, IsDigit, value-digits, value-append, value-lt, digits-value,
  digits-IsDigit, length-digits, length-append, All-append, length-take, length-drop,
  take-append-drop, take-All, drop-All, byte_pow, pow-two-pow,
}
use carquet.Core.Bitpack.{pack_groups, bitpack8_32}
use carquet.Core.Bitpack.RoundTrip.{bitpack8_32_lem}
use carquet.Core.Bitpack.Groups.{fields_all}
use carquet.Encoding.Rle.Format.{group_bytes}

-- Digits of a number in two parts.
digits-append :
    (m n x y : ℕ)
    → x < 256 ^ m
    → y < 256 ^ n
    → digits 256 m x ++ digits 256 n y ≡ digits 256 (m + n) (x + 256 ^ m * y)
digits-append m n x y hx hy =
    let xs = digits 256 m x in
    let ys = digits 256 n y in
    let size : length (xs ++ ys) ≡ m + n =
      omega (arith, length-append xs ys, length-digits 256 m x, length-digits 256 n y) in
    let word : value 256 (xs ++ ys) ≡ x + 256 ^ m * y =
      value-append 256 xs ys
      ∙ ap₂ ◌+◌ (value-digits 256 m x (omega arith) hx) (
          ap₂ (λ (k t : ℕ). 256 ^ k * t) (length-digits 256 m x)
            (value-digits 256 n y (omega arith) hy)) in
    sym (
      digits-value 256 (xs ++ ys) (
        All-append (IsDigit 256) xs ys (digits-IsDigit 256 m x (omega arith))
          (digits-IsDigit 256 n y (omega arith))))
    ∙ ap₂ (digits 256) size word

-- `8 * g` values of `w` bits take `w * g` bytes.
fields_room :
    (w g : ℕ) (vs : List ℕ)
    → length vs ≡ 8 * g
    → All (IsDigit (2 ^ w)) vs
    → value (2 ^ w) vs < 256 ^ (w * g)
fields_room w g vs size fits =
    let room : (2 ^ w) ^ length vs ≡ 256 ^ (w * g) =
      pow-two-pow w (length vs)
      ∙ ap (λ (t : ℕ). 2 ^ t) (ap (λ (t : ℕ). w * t) size ∙ omega arith)
      ∙ sym (byte_pow (w * g)) in
    subst (λ t. value (2 ^ w) vs < t) room (value-lt (2 ^ w) vs fits)

-- At a width of at most 32 bits the packed groups are the bytes of one number.
pub pack_groups-group_bytes :
    (g : ℕ) (vs : List ℕ) (w : ℕ)
    → w ≤ 32
    → length vs ≡ 8 * g
    → All (IsDigit (2 ^ w)) vs
    → pack_groups g vs w ≡ group_bytes w g vs
unfolding pack_groups
pack_groups-group_bytes zero vs w hw size fits =
    let none : w * 0 ≡ 0 = omega arith in sym (ap (λ n. digits 256 n (value (2 ^ w) vs)) none)
pack_groups-group_bytes (suc g) vs w hw size fits =
    let first = take 8 vs in
    let later = drop 8 vs in
    let eight : length first ≡ 8 = omega (arith, length-take 8 vs) in
    let later_size : length later ≡ 8 * g = omega (arith, length-drop 8 vs) in
    let first_fits = take-All (IsDigit (2 ^ w)) 8 vs fits in
    let later_fits = drop-All (IsDigit (2 ^ w)) 8 vs fits in
    let one : w * 1 ≡ w = omega arith in
    let group : bitpack8_32 first w ≡ digits 256 w (value (2 ^ w) first) =
      bitpack8_32_lem first w eight hw
      ∙ ap (λ t. digits 256 w (value (2 ^ w) t)) (fields_all w first first_fits) in
    let radix : 256 ^ w ≡ (2 ^ w) ^ length first =
      byte_pow w
      ∙ ap (λ (t : ℕ). 2 ^ t) (omega arith)
      ∙ sym (pow-two-pow w 8)
      ∙ ap (λ (t : ℕ). (2 ^ w) ^ t) (sym eight) in
    ap₂ ◌++◌ group (pack_groups-group_bytes g later w hw later_size later_fits)
    ∙ digits-append w (w * g) (value (2 ^ w) first) (value (2 ^ w) later)
        (subst (λ t. value (2 ^ w) first < 256 ^ t) one (fields_room w 1 first eight first_fits))
        (fields_room w g later later_size later_fits)
    ∙ ap₂ (digits 256) (omega arith) (
        ap (λ (t : ℕ). value (2 ^ w) first + t * value (2 ^ w) later) radix
        ∙ sym (value-append (2 ^ w) first later)
        ∙ ap (value (2 ^ w)) (take-append-drop 8 vs))
