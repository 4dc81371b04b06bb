-- ===== src/Encoding/Rle/Levels/Runs.antt =====
-- What the level functions of src/encoding/rle.c read from a stream of the format.
use carquet.Prelude.{
  ℕ, zero, suc, ◌+◌, ◌-◌, ◌*◌, ◌/◌, ◌%◌, ◌^◌, ◌<◌, ◌≤◌, ◌≡◌, refl, arith, sym, ap, ap₂, ◌∙◌, subst,
  List, [], ◌∷◌, ◌++◌, length, All, take, drop, replicate, digits, IsDigit, length-drop,
  length-append, length-digits, drop-append_self, take-append-drop, take-All, drop-All, if-true,
  if◌then◌else◌, ltb, leb, ◌==◌, Bool-cases, inl, inr, ==→eq, ==-false→ne, empty_list, bit_and,
  bit_and_mask, byte_pow, min, true, false, le→leb, length-replicate, ◌||◌, ◌&&◌,
}
use native.Mathlib.Nat.{mod-eq_of_lt, pow-le-pow_right, le-div_iff_mul-le}
use carquet.Core.Bitpack.{pack_groups}
use carquet.Core.Bitpack.Groups.{pack_groups_shape, bitunpack_32-pack_groups, drop-pack_groups}
use carquet.Encoding.Rle.Decoder.{read_value}
use carquet.Encoding.Rle.Decoder.Start.{read_value_lem}
use carquet.Encoding.Rle.Format.{
  Encodes, finished, repeated, packed, Encodes-bytes, header_bytes, group_bytes,
}
use carquet.Encoding.Rle.Groups.{pack_groups-group_bytes}
use carquet.Encoding.Rle.Levels.{level_header, level_loop, decode_levels, bulk_loop, to_levels}
use carquet.Encoding.Rle.Levels.Headers.{level_header-header_bytes}

to_levels_all :
    (w : ℕ) (values : List ℕ) → w ≤ 16 → All (IsDigit (2 ^ w)) values → to_levels values ≡ values
unfolding to_levels
to_levels_all w [] hw fits = refl
to_levels_all w (v ∷ values) hw fits =
    let word : 2 ^ w ≤ 2 ^ 16 = pow-le-pow_right {n = 2} (omega arith) {i = w} {j = 16} hw in
    ap₂ ◌∷◌ (mod-eq_of_lt {n = v} {m = 2 ^ 16} (omega (arith, fits.0)))
      (to_levels_all w values hw fits.1)

no_groups :
    (g : ℕ) (gs tail : List ℕ) (w : ℕ)
    → g ≡ 0
    → length gs ≡ 8 * g
    → ◌≡◌ {A = List ℕ × List ℕ} ([], pack_groups g gs w ++ tail) (gs, tail)
unfolding pack_groups
no_groups g gs tail w none size =
    ap₂ (λ (x t : List ℕ). (x, t)) (sym (empty_list gs (omega arith)))
      (ap (λ n. pack_groups n gs w ++ tail) none)

-- A run of groups, in chunks of 32 groups at most.
bulk_loop_lem :
    (rounds g : ℕ) (gs tail : List ℕ) (w : ℕ)
    → 1 ≤ w
    → w ≤ 16
    → length gs ≡ 8 * g
    → All (IsDigit (2 ^ w)) gs
    → All (IsDigit 256) tail
    → g ≤ rounds
    → bulk_loop rounds (8 * g) w (pack_groups g gs w ++ tail) ≡ (gs, tail)
unfolding bulk_loop
bulk_loop_lem zero g gs tail w positive hw size fits bytes enough =
    no_groups g gs tail w (omega arith) size
bulk_loop_lem (suc rounds) g gs tail w positive hw size fits bytes enough =
    elim (Bool-cases (8 * g == 0)) [
      | inl empty ↦
          if-true (8 * g == 0) _ _ empty
          ∙ no_groups g gs tail w (omega (arith, ==→eq _ _ empty)) size
      | inr some ↦
          let k = min 32 g in
          let chunk : (if ltb 256 (8 * g) then 256 else 8 * g) ≡ 8 * k = ground arith in
          let rest : 8 * g - 8 * k ≡ 8 * (g - k) = omega arith in
          let positive_g : 0 < g = omega (arith, ==-false→ne _ _ some) in
          let first_fits = take-All (IsDigit (2 ^ w)) (8 * k) gs fits in
          let later_fits = drop-All (IsDigit (2 ^ w)) (8 * k) gs fits in
          rw
            (
              some,
              chunk,
              bitunpack_32-pack_groups k g gs tail w (omega arith) positive (omega arith) size fits
                  bytes,
              drop-pack_groups k g gs tail w (omega arith) (omega arith) size,
              rest,
              bulk_loop_lem rounds (g - k) (drop (8 * k) gs) tail w positive hw
                  (omega (arith, length-drop (8 * k) gs)) later_fits bytes (omega arith),
              to_levels_all w (take (8 * k) gs) hw first_fits,
            )
            (ap (λ t. (t, tail)) (take-append-drop (8 * k) gs))
    ]

more_to_read :
    (left : ℕ) (input : List ℕ)
    → 0 < left
    → 0 < length input
    → (left == 0 || length input == 0) ≡ false
more_to_read left input some_left some_bytes = ground arith

repeated_levels :
    (rounds left w n v : ℕ) (input bytes : List ℕ)
    → w ≤ 16
    → 0 < length input
    → level_header input ≡ (2 * n, digits 256 ((w + 7) / 8) v ++ bytes)
    → 0 < n
    → v < 2 ^ w
    → n ≤ left
    → level_loop (suc rounds) left w input ≡ replicate n v ++ level_loop rounds (left - n) w bytes
unfolding level_loop
repeated_levels rounds left w n v input bytes hw some_bytes header pos fits enough =
    let k = (w + 7) / 8 in
    let rest = digits 256 k v ++ bytes in
    let more = more_to_read left input (omega arith) some_bytes in
    let half : 2 * n / 2 ^ 1 ≡ n = omega arith in
    let even : bit_and (2 * n) 1 ≡ 0 = bit_and_mask 1 (2 * n) ∙ omega arith in
    let some_left : (n == 0) ≡ false = ground arith in
    let fill : min n left ≡ n = omega arith in
    let size : length (digits 256 k v) ≡ k = length-digits 256 k v in
    let there : ltb (length rest) k ≡ false =
      ground (arith, size, length-append (digits 256 k v) bytes) in
    let after : drop k rest ≡ bytes =
      subst (λ m. drop m rest ≡ bytes) size (drop-append_self (digits 256 k v) bytes) in
    let room : 2 ^ w ≤ 256 ^ k =
      rw (byte_pow k) (pow-le-pow_right {n = 2} (omega arith) {i = w} {j = 8 * k} (omega arith)) in
    let word : 2 ^ w ≤ 2 ^ 16 = pow-le-pow_right {n = 2} (omega arith) {i = w} {j = 16} hw in
    let mask : (2 ^ w - 1) % 2 ^ 32 ≡ 2 ^ w - 1 = mod-eq_of_lt (omega arith) in
    let level : bit_and (read_value k 0 0 rest) ((2 ^ w - 1) % 2 ^ 32) % 2 ^ 16 ≡ v =
      ap₂ (λ x m. bit_and x m % 2 ^ 16)
        (read_value_lem k 0 0 v bytes (omega arith) (omega arith) (omega arith) ∙ omega arith) mask
      ∙ ap (λ (t : ℕ). t % 2 ^ 16) (bit_and_mask w v ∙ mod-eq_of_lt fits)
      ∙ mod-eq_of_lt (omega arith) in
    rw (more, header, half, some_left, even, there, fill, after, level) refl

packed_levels :
    (rounds left w g : ℕ) (input gs bytes : List ℕ)
    → 1 ≤ w
    → w ≤ 16
    → 0 < length input
    → level_header input ≡ (2 * g + 1, pack_groups g gs w ++ bytes)
    → 0 < g
    → length gs ≡ 8 * g
    → All (IsDigit (2 ^ w)) gs
    → All (IsDigit 256) bytes
    → 8 * g ≤ left
    → level_loop (suc rounds) left w input ≡ gs ++ level_loop rounds (left - 8 * g) w bytes
unfolding level_loop
packed_levels rounds left w g input gs bytes positive hw some_bytes header pos size fits all_bytes
      enough =
    let rest = pack_groups g gs w ++ bytes in
    let more = more_to_read left input (omega arith) some_bytes in
    let half : (2 * g + 1) / 2 ^ 1 ≡ g = omega arith in
    let odd : bit_and (2 * g + 1) 1 ≡ 1 = bit_and_mask 1 (2 * g + 1) ∙ omega arith in
    let some_left : (g == 0) ≡ false = ground arith in
    let turned : g * 8 ≡ 8 * g = omega arith in
    let shape = pack_groups_shape g gs w (omega arith) size in
    let room : g * w ≤ length rest =
      omega (arith, shape.1, length-append (pack_groups g gs w) bytes) in
    let whole : g ≤ length rest / w = (le-div_iff_mul-le {k = w} positive).1 room in
    let bulk_fits : (leb 1 w && (leb g (length rest / w) && leb (8 * g) left)) ≡ true =
      rw (le→leb 1 w positive, le→leb g (length rest / w) whole, le→leb (8 * g) left enough) refl in
    rw
      (
        more,
        header,
        half,
        some_left,
        odd,
        turned,
        bulk_fits,
        bulk_loop_lem (8 * g) g gs bytes w positive hw size fits all_bytes (omega arith),
        size,
      )
      refl

header_some : (v : ℕ) (rest : List ℕ) → length rest < length (header_bytes v ++ rest)
header_some v rest = ground (arith, ltb v 128)

no_input : (rounds left w : ℕ) → level_loop rounds left w [] ≡ []
unfolding level_loop
no_input zero left w = refl
no_input (suc rounds) left w = elim (Bool-cases (left == 0)) [
  | inl none ↦ rw none refl
  | inr some ↦ rw some refl
]

-- With a round for each byte the loop gives the values of a stream.
level_loop-Encodes :
    (w rounds left : ℕ) {bytes values : List ℕ}
    → 1 ≤ w
    → w ≤ 16
    → Encodes w bytes values
    → length bytes ≤ rounds
    → length values ≤ left
    → level_loop rounds left w bytes ≡ values
level_loop-Encodes w rounds left positive hw finished long enough = no_input rounds left w
level_loop-Encodes w zero left positive hw (repeated n v {bytes} {values} pos small fits rest) long
      enough =
    let behind = digits 256 ((w + 7) / 8) v ++ bytes in
    absurd (omega (arith, header_some (2 * n) behind, long))
level_loop-Encodes w zero left positive hw (packed g vs {bytes} {values} pos small size fits rest)
      long enough =
    let behind = group_bytes w g vs ++ bytes in
    absurd (omega (arith, header_some (2 * g + 1) behind, long))
level_loop-Encodes w (suc rounds) left positive hw
      (repeated n v {bytes} {values} pos small fits rest) long enough =
    let behind = digits 256 ((w + 7) / 8) v ++ bytes in
    let sizes : length (replicate n v ++ values) ≡ n + length values =
      omega (arith, length-append (replicate n v) values, length-replicate n v) in
    let header = header_some (2 * n) behind in
    let tail : length bytes ≤ length behind =
      omega (arith, length-append (digits 256 ((w + 7) / 8) v) bytes) in
    repeated_levels rounds left w n v (header_bytes (2 * n) ++ behind) bytes hw
      (omega (arith, header)) (level_header-header_bytes (2 * n) behind (omega arith)) pos fits
      (omega (arith, sizes, enough))
    ∙ ap (λ t. replicate n v ++ t)
        (level_loop-Encodes w rounds (left - n) positive hw rest (omega (arith, header, tail, long))
          (omega (arith, sizes, enough)))
level_loop-Encodes w (suc rounds) left positive hw
      (packed g vs {bytes} {values} pos small size fits rest) long enough =
    let behind = group_bytes w g vs ++ bytes in
    let groups : behind ≡ pack_groups g vs w ++ bytes =
      ap (λ t. t ++ bytes) (sym (pack_groups-group_bytes g vs w (omega arith) size fits)) in
    let sizes = length-append vs values in
    let header = header_some (2 * g + 1) behind in
    let tail : length bytes ≤ length behind =
      omega (arith, length-append (group_bytes w g vs) bytes) in
    packed_levels rounds left w g (header_bytes (2 * g + 1) ++ behind) vs bytes positive hw
      (omega (arith, header))
      (level_header-header_bytes (2 * g + 1) behind (omega arith) ∙ ap (λ t. (2 * g + 1, t)) groups)
      pos size fits (Encodes-bytes w (omega arith) rest) (omega (arith, sizes, enough, size))
    ∙ ap (λ t. vs ++ t)
        (level_loop-Encodes w rounds (left - 8 * g) positive hw rest
          (omega (arith, header, tail, long)) (omega (arith, sizes, enough, size)))

-- At a width from 1 to 16 bits `decode_levels` gives the values of any stream that the format
-- allows, when at least as many are asked for as the stream has.
pub decode_levels-Encodes :
    (w max_values : ℕ) {input values : List ℕ}
    → 1 ≤ w
    → w ≤ 16
    → Encodes w input values
    → length values ≤ max_values
    → decode_levels input w max_values ≡ values
unfolding decode_levels
decode_levels-Encodes w max_values {input} {values} positive hw stream enough =
    let read : level_loop (length input) max_values w input ≡ values =
      level_loop-Encodes w (length input) max_values positive hw stream (omega arith) enough in
    elim (Bool-cases (max_values == 0)) [
      | inl none ↦
          rw none (sym (empty_list values (omega (arith, enough, ==→eq max_values 0 none))))
      | inr some ↦ elim (Bool-cases (length input == 0)) [
        | inl empty ↦
            let nothing : input ≡ [] = empty_list input (==→eq (length input) 0 empty) in
            rw (some, empty)
              (sym (no_input (length input) max_values w)
                ∙ ap (level_loop (length input) max_values w) (sym nothing)
                ∙ read)
        | inr bytes ↦ let narrow : ltb 32 w ≡ false = ground arith in rw (some, bytes, narrow) read
      ]
    ]
