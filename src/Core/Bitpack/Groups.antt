-- ===== src/Core/Bitpack/Groups.antt =====
-- Groups of eight values one behind the other, as src/core/bitpack.c packs and unpacks them.
use carquet.Prelude.{
  ℕ, zero, suc, ◌+◌, ◌-◌, ◌*◌, ◌/◌, ◌%◌, ◌^◌, ◌≤◌, ◌≡◌, refl, arith, sym, ap, ap₂, ◌∙◌, List, [],
  ◌∷◌, ◌++◌, length, All, take, drop, IsDigit, length-take, length-drop, length-append, All-append,
  take-All, drop-All, drop-append_self, append_assoc, take-add, drop-add, ◌==◌, ne→==-false, false,
}
use native.Mathlib.Nat.{mod-eq_of_lt}
use carquet.Core.Bitpack.{pack_groups, unpack_groups, bitpack8_32, bitunpack8_32, bitunpack_32}
use carquet.Core.Bitpack.Pack.{fields}
use carquet.Core.Bitpack.RoundTrip.{length-bitpack8_32, bitpack8_32-bytes, bitunpack8-bitpack8}

pub fields_all : (w : ℕ) (vs : List ℕ) → All (IsDigit (2 ^ w)) vs → fields w vs ≡ vs
fields_all w [] fits = refl
fields_all w (v ∷ vs) fits = ap₂ ◌∷◌ (mod-eq_of_lt fits.0) (fields_all w vs fits.1)

-- Groups take `w` bytes each.
pub pack_groups_shape :
    (g : ℕ) (vs : List ℕ) (w : ℕ)
    → w ≤ 32
    → length vs ≡ 8 * g
    → All (IsDigit 256) (pack_groups g vs w) × (length (pack_groups g vs w) ≡ w * g)
unfolding pack_groups
pack_groups_shape zero vs w hw h = (tt, omega arith)
pack_groups_shape (suc g) vs w hw h =
    let first : length (take 8 vs) ≡ 8 = omega (arith, length-take 8 vs) in
    let (bytes, size) = pack_groups_shape g (drop 8 vs) w hw (omega (arith, length-drop 8 vs)) in
    (
      All-append (IsDigit 256) _ _ (bitpack8_32-bytes (take 8 vs) w first hw) bytes,
      omega (
        arith,
        length-append (bitpack8_32 (take 8 vs) w) (pack_groups g (drop 8 vs) w),
        length-bitpack8_32 (take 8 vs) w first hw,
      ),
    )

first_group :
    (g : ℕ) (vs rest : List ℕ) (w : ℕ)
    → w ≤ 32
    → length vs ≡ 8 * suc g
    → drop w (pack_groups (suc g) vs w ++ rest) ≡ pack_groups g (drop 8 vs) w ++ rest
unfolding pack_groups
first_group g vs rest w hw size =
    let eight : length (take 8 vs) ≡ 8 = omega (arith, length-take 8 vs) in
    let group = bitpack8_32 (take 8 vs) w in
    ap (drop w) (append_assoc group (pack_groups g (drop 8 vs) w) rest)
    ∙ ap (λ n. drop n (group ++ (pack_groups g (drop 8 vs) w ++ rest)))
        (sym (length-bitpack8_32 (take 8 vs) w eight hw))
    ∙ drop-append_self group (pack_groups g (drop 8 vs) w ++ rest)

-- The first `k` of the packed groups unpack to the first of the values.
pub unpack_groups-pack_groups :
    (k g : ℕ) (vs rest : List ℕ) (w : ℕ)
    → k ≤ g
    → w ≤ 32
    → length vs ≡ 8 * g
    → All (IsDigit (2 ^ w)) vs
    → All (IsDigit 256) rest
    → unpack_groups k (pack_groups g vs w ++ rest) w ≡ take (8 * k) vs
unfolding unpack_groups pack_groups
unpack_groups-pack_groups zero g vs rest w hk hw size fits bytes =
    let none : 0 ≡ 8 * 0 = omega arith in ap (λ n. take n vs) none
unpack_groups-pack_groups (suc k) zero vs rest w hk hw size fits bytes = absurd (omega arith)
unpack_groups-pack_groups (suc k) (suc g) vs rest w hk hw size fits bytes =
    let eight : length (take 8 vs) ≡ 8 = omega (arith, length-take 8 vs) in
    let later : length (drop 8 vs) ≡ 8 * g = omega (arith, length-drop 8 vs) in
    let group = bitpack8_32 (take 8 vs) w in
    let behind = pack_groups g (drop 8 vs) w in
    let first : bitunpack8_32 (pack_groups (suc g) vs w ++ rest) w ≡ take 8 vs =
      ap (λ t. bitunpack8_32 t w) (append_assoc group behind rest)
      ∙ bitunpack8-bitpack8 (take 8 vs) (behind ++ rest) w eight hw (
          All-append (IsDigit 256) behind rest (pack_groups_shape g (drop 8 vs) w hw later).0 bytes)
      ∙ fields_all w (take 8 vs) (take-All (IsDigit (2 ^ w)) 8 vs fits) in
    let next : 8 + 8 * k ≡ 8 * suc k = omega arith in
    ap₂ ◌++◌ first (
      ap (λ t. unpack_groups k t w) (first_group g vs rest w hw size)
      ∙ unpack_groups-pack_groups k g (drop 8 vs) rest w (omega arith) hw later
          (drop-All (IsDigit (2 ^ w)) 8 vs fits) bytes)
    ∙ sym (take-add 8 (8 * k) vs)
    ∙ ap (λ n. take n vs) next

-- Behind the first `k` of the packed groups are the others.
pub drop-pack_groups :
    (k g : ℕ) (vs rest : List ℕ) (w : ℕ)
    → k ≤ g
    → w ≤ 32
    → length vs ≡ 8 * g
    → drop (k * w) (pack_groups g vs w ++ rest) ≡ pack_groups (g - k) (drop (8 * k) vs) w ++ rest
drop-pack_groups zero g vs rest w hk hw size =
    let none : 0 * w ≡ 0 = omega arith in
    let whole : g ≡ g - 0 = omega arith in
    let all : 0 ≡ 8 * 0 = omega arith in
    ap (λ n. drop n (pack_groups g vs w ++ rest)) none
    ∙ ap₂ (λ n m. pack_groups n (drop m vs) w ++ rest) whole all
drop-pack_groups (suc k) zero vs rest w hk hw size = absurd (omega arith)
drop-pack_groups (suc k) (suc g) vs rest w hk hw size =
    let later : length (drop 8 vs) ≡ 8 * g = omega (arith, length-drop 8 vs) in
    let step : suc k * w ≡ w + k * w = omega arith in
    let left : g - k ≡ suc g - suc k = omega arith in
    let next : 8 + 8 * k ≡ 8 * suc k = omega arith in
    ap (λ n. drop n (pack_groups (suc g) vs w ++ rest)) step
    ∙ drop-add w (k * w) (pack_groups (suc g) vs w ++ rest)
    ∙ ap (drop (k * w)) (first_group g vs rest w hw size)
    ∙ drop-pack_groups k g (drop 8 vs) rest w (omega arith) hw later
    ∙ ap₂ (λ n t. pack_groups n t w ++ rest) left
        (sym (drop-add 8 (8 * k) vs) ∙ ap (λ n. drop n vs) next)

-- Unpacking whole groups, at a width from 1 to 32.
pub bitunpack_32-pack_groups :
    (k g : ℕ) (vs rest : List ℕ) (w : ℕ)
    → k ≤ g
    → 1 ≤ w
    → w ≤ 32
    → length vs ≡ 8 * g
    → All (IsDigit (2 ^ w)) vs
    → All (IsDigit 256) rest
    → bitunpack_32 (pack_groups g vs w ++ rest) (8 * k) w ≡ (take (8 * k) vs, k * w)
unfolding bitunpack_32
bitunpack_32-pack_groups k g vs rest w hk positive hw size fits bytes =
    let whole : 8 * k / 8 ≡ k = omega arith in
    let none_left : 8 * k % 8 ≡ 0 = omega arith in
    let some_bits : (w == 0) ≡ false = ne→==-false w 0 (λ e. omega arith) in
    rw (some_bits, none_left, whole)
      (ap (λ t. (t, k * w)) (unpack_groups-pack_groups k g vs rest w hk hw size fits bytes))
