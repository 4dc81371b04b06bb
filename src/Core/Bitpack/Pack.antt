-- ===== src/Core/Bitpack/Pack.antt =====
-- Packing writes the little-endian bytes of the word whose fields are the values.
use carquet.Prelude.{
  ℕ, zero, suc, ◌+◌, ◌-◌, ◌*◌, ◌/◌, ◌%◌, ◌^◌, ◌<◌, ◌≤◌, ◌≡◌, refl, arith, ap, ◌∙◌, sym,
}
use carquet.Prelude.{bit_or, bit_and_mask, bit_or_low, two-pow-add, two-pow-pos}
use carquet.Prelude.{List, [], ◌∷◌, map, ltb, length, All, get_or, set, subst}
use carquet.Prelude.{value, IsDigit, get_or-value, value-set, length-set}
use carquet.Prelude.{mod-two-pow-add, byte_pow, add_shifted-lt}
use carquet.Prelude.{Bool-cases, inl, inr, tests, ltb→lt, ltb-false→le}
use native.Mathlib.Nat.{
  mod-lt, mod-eq_of_lt, pow-le-pow_right, div-lt_iff_lt-mul, mod-le, div-add-mod,
}
use native.Mathlib.Nat.{mul-mod_left, mul-div_left}
use carquet.Core.Bitpack.Unpack.{mask32}
use carquet.Core.Bitpack.{or_byte, spill, pack_value, pack_loop}

-- What is kept about the array while it is filled: its length, that it holds bytes, and its word.
pub record Holds (n v : ℕ) (output : List ℕ) : Type 0 where
  pub size : length output ≡ n
  pub bytes : All (IsDigit 256) output
  pub word : value 256 output ≡ v

Holds-eq : {n v u : ℕ} {output : List ℕ} → v ≡ u → Holds n v output → Holds n u output
Holds-eq {n} {output = output} e h = subst (λ t. Holds n t output) e h

-- The low `w` bits of each value.
abbrev pub fields : ℕ → List ℕ → List ℕ
fields w values = map (λ x. x % 2 ^ w) values

set-All : (ds : List ℕ) (p x : ℕ) → All (IsDigit 256) ds → x < 256 → All (IsDigit 256) (set ds p x)
set-All [] p x h hx = tt
set-All (d ∷ ds) zero x h hx = (hx, h.1)
set-All (d ∷ ds) (suc p) x h hx = (h.0, set-All ds p x h.1 hx)

-- Below `2 ^ (8 * p + off)` the byte at `p` has its bits from `off` on clear.
clear_above :
    (n v p off : ℕ) (output : List ℕ)
    → Holds n v output
    → v < 2 ^ (8 * p + off)
    → get_or output p 0 < 2 ^ off
clear_above n v p off output h hv =
    let q : v / 2 ^ (8 * p) < 2 ^ off =
      (div-lt_iff_lt-mul {k = 2 ^ (8 * p)} {x = v} {y = 2 ^ off} (two-pow-pos (8 * p))).1
        (omega (arith, two-pow-add (8 * p) off)) in
    let byte : get_or output p 0 ≡ v / 2 ^ (8 * p) % 256 =
      get_or-value 256 output p h.bytes
      ∙ ap (λ (t : ℕ). t / 256 ^ p % 256) h.word
      ∙ ap (λ (t : ℕ). v / t % 256) (byte_pow p) in
    omega (arith, byte, q, mod-le (v / 2 ^ (8 * p)) 256)

-- `q << off` put into a byte whose bits from `off` on are clear.
or_byte-Holds :
    (n v p off k q x : ℕ) (output : List ℕ)
    → Holds n v output
    → p < n
    → v < 2 ^ (8 * p + off)
    → off + k ≡ 8
    → q < 2 ^ k
    → x % 256 ≡ q * 2 ^ off
    → Holds n (v + q * 2 ^ (8 * p + off)) (or_byte output p x)
unfolding or_byte
or_byte-Holds n v p off k q x output h hp hv hk hq ex =
    let b = get_or output p 0 in
    let clear : b < 2 ^ off = clear_above n v p off output h hv in
    let joined : bit_or b (x % 256) ≡ b + q * 2 ^ off =
      ap (bit_or b) ex ∙ bit_or_low off q b clear in
    let in_byte : b + q * 2 ^ off < 256 =
      subst (λ t. b + q * 2 ^ off < 2 ^ t) hk (add_shifted-lt b q off k clear hq) in
    record {
      size = length-set output p _ ∙ h.size;
      bytes = set-All output p _ h.bytes (rw joined in_byte);
      word = rw joined (
          omega (
            arith,
            value-set 256 output p (b + q * 2 ^ off) (rw h.size hp),
            h.word,
            ap (λ (t : ℕ). q * t) (two-pow-add (8 * p) off),
            ap (λ (t : ℕ). q * 2 ^ off * t) (byte_pow p),
          ));
    }

shift_out : (m val : ℕ) → val < 2 ^ m → val / 256 < 2 ^ (m - 8)
shift_out m val h = elim (Bool-cases (ltb m 8)) [
  | inl small ↦
      let le : 2 ^ m ≤ 2 ^ 8 =
        pow-le-pow_right {n = 2} (omega arith) {i = m} {j = 8} (omega (tests, small)) in
      omega (arith, le, two-pow-pos (m - 8))
  | inr large ↦
      let e : m ≡ m - 8 + 8 = omega (tests, large) in
      let split : 2 ^ m ≡ 2 ^ (m - 8) * 256 = ap (λ (t : ℕ). 2 ^ t) e ∙ two-pow-add (m - 8) 8 in
      omega (arith, split)
]

-- The lowest byte of `val` and the rest, from byte `p` on.
low_byte :
    (v val p : ℕ)
    → v + val % 256 * 2 ^ (8 * p) + val / 256 * 2 ^ (8 * (p + 1)) ≡ v + val * 2 ^ (8 * p)
low_byte v val p =
    let e : 8 * (p + 1) ≡ 8 * p + 8 = omega arith in
    rw (e, two-pow-add (8 * p) 8)
      (omega (arith, ap (λ (t : ℕ). t * 2 ^ (8 * p)) (div-add-mod val 256)))

-- The bytes above the first one that a value touches.
spill-Holds :
    (rounds n v p w written val : ℕ) (output : List ℕ)
    → Holds n v output
    → v < 2 ^ (8 * p)
    → w ≤ written + 8 * rounds
    → 8 * p + w ≤ 8 * n + written
    → val < 2 ^ (w - written)
    → Holds n (v + val * 2 ^ (8 * p)) (spill rounds w val p written output)
unfolding spill
spill-Holds zero n v p w written val output h hv hr hn hval =
    let e : w - written ≡ 0 = omega arith in
    let z : val ≡ 0 = omega (arith, subst (λ t. val < 2 ^ t) e hval) in
    subst (λ t. Holds n t output) (rw z (omega arith)) h
spill-Holds (suc rounds) n v p w written val output h hv hr hn hval =
    elim (Bool-cases (ltb written w)) [
      | inl more ↦
          let lt : written < w = ltb→lt _ _ more in
          let zero_off : 8 * p + 0 ≡ 8 * p = omega arith in
          let next : 8 * (p + 1) ≡ 8 * p + 8 = omega arith in
          let left : w - written - 8 ≡ w - (written + 8) = omega arith in
          let written' : Holds n (v + val % 256 * 2 ^ (8 * p)) (or_byte output p val) =
            subst (λ t. Holds n (v + val % 256 * 2 ^ t) (or_byte output p val)) zero_off
              (or_byte-Holds n v p 0 8 (val % 256) val output h (omega arith) (rw zero_off hv) refl
                (omega arith) (omega arith)) in
          rw more (
            Holds-eq (low_byte v val p) (
              spill-Holds rounds n (v + val % 256 * 2 ^ (8 * p)) (p + 1) w (written + 8) (val / 256)
                (or_byte output p val) written'
                (rw next (add_shifted-lt v (val % 256) (8 * p) 8 hv (omega arith))) (omega arith)
                (omega arith)
                (subst (λ t. val / 256 < 2 ^ t) left (shift_out (w - written) val hval))))
      | inr done ↦
          let e : w - written ≡ 0 = omega (arith, ltb-false→le _ _ done) in
          let z : val ≡ 0 = omega (arith, subst (λ t. val < 2 ^ t) e hval) in
          rw done (subst (λ t. Holds n t output) (rw z (omega arith)) h)
    ]

-- What a shift by `off` leaves in a byte.
shift_in_byte : (val off k : ℕ) → off + k ≡ 8 → val * 2 ^ off % 2 ^ 32 % 256 ≡ val % 2 ^ k * 2 ^ off
shift_in_byte val off k h =
    let cut : val * 2 ^ off % 256 ≡ val * 2 ^ off % 2 ^ (off + k) =
      ap (λ (t : ℕ). val * 2 ^ off % 2 ^ t) (sym h) in
    omega (
      arith,
      cut,
      mod-two-pow-add (val * 2 ^ off) off k,
      mul-mod_left val (2 ^ off),
      ap (λ (t : ℕ). 2 ^ off * (t % 2 ^ k)) (mul-div_left val {n = 2 ^ off} (two-pow-pos off)),
    )

quotient_bits : (val k w : ℕ) → k ≤ w → val < 2 ^ w → val / 2 ^ k < 2 ^ (w - k)
quotient_bits val k w h hv =
    let e : w ≡ w - k + k = omega arith in
    let split : 2 ^ w ≡ 2 ^ (w - k) * 2 ^ k = ap (λ (t : ℕ). 2 ^ t) e ∙ two-pow-add (w - k) k in
    (div-lt_iff_lt-mul {k = 2 ^ k} {x = val} {y = 2 ^ (w - k)} (two-pow-pos k)).1
      (omega (arith, split))

-- One value adds its low `w` bits to the word, from bit `bit_pos` on.
pack_value-Holds :
    (n v w bit_pos value : ℕ) (output : List ℕ)
    → Holds n v output
    → v < 2 ^ bit_pos
    → 1 ≤ w
    → w ≤ 32
    → bit_pos + w ≤ 8 * n
    → Holds n (v + value % 2 ^ w * 2 ^ bit_pos) (pack_value w bit_pos value output)
unfolding pack_value
pack_value-Holds n v w bit_pos value output h hv h1 h32 hn =
    let p = bit_pos / 8 in
    let off = bit_pos % 8 in
    let k = 8 - off in
    let val = value % 2 ^ w in
    let val-lt : val < 2 ^ w = mod-lt value (two-pow-pos w) in
    let position : 8 * p + off ≡ bit_pos = omega arith in
    let first : Holds n (v + val % 2 ^ k * 2 ^ bit_pos)
        (or_byte output p (val * 2 ^ off % 2 ^ 32)) =
      subst (λ t. Holds n (v + val % 2 ^ k * 2 ^ t) (or_byte output p (val * 2 ^ off % 2 ^ 32)))
        position
        (or_byte-Holds n v p off k (val % 2 ^ k) (val * 2 ^ off % 2 ^ 32) output h (omega arith)
          (rw position hv) (omega arith) (mod-lt val (two-pow-pos k))
          (shift_in_byte val off k (omega arith))) in
    rw (mask32 w h32, bit_and_mask w value)
      (elim (Bool-cases (ltb k w)) [
        | inl more ↦
            let k-lt : k < w = ltb→lt _ _ more in
            let next : 8 * (p + 1) ≡ bit_pos + k = omega arith in
            let below : v + val % 2 ^ k * 2 ^ bit_pos < 2 ^ (bit_pos + k) =
              add_shifted-lt v (val % 2 ^ k) bit_pos k hv (mod-lt val (two-pow-pos k)) in
            rw more (
              Holds-eq (two_parts v val bit_pos k (8 * (p + 1)) next) (
                spill-Holds w n (v + val % 2 ^ k * 2 ^ bit_pos) (p + 1) w k (val / 2 ^ k)
                  (or_byte output p (val * 2 ^ off % 2 ^ 32)) first (rw next below) (omega arith)
                  (omega arith) (quotient_bits val k w (omega arith) val-lt)))
        | inr done ↦
            let le : 2 ^ w ≤ 2 ^ k =
              pow-le-pow_right {n = 2} (omega arith) {i = w} {j = k} (ltb-false→le _ _ done) in
            let whole : val % 2 ^ k ≡ val = mod-eq_of_lt {n = val} {m = 2 ^ k} (omega arith) in
            rw done (Holds-eq (ap (λ (t : ℕ). v + t * 2 ^ bit_pos) whole) first)
      ])
  where
    two_parts :
        (v val bit_pos k next : ℕ)
        → next ≡ bit_pos + k
        → v + val % 2 ^ k * 2 ^ bit_pos + val / 2 ^ k * 2 ^ next ≡ v + val * 2 ^ bit_pos
    two_parts v val bit_pos k next e = omega (
      arith,
      ap (λ (t : ℕ). t * 2 ^ bit_pos) (div-add-mod val (2 ^ k)),
      ap (λ (t : ℕ). val / 2 ^ k * 2 ^ t) e,
      ap (λ (t : ℕ). val / 2 ^ k * t) (two-pow-add bit_pos k),
    )

-- The values from `bit_pos` on: the word gains the word of their low bits.
pub pack_loop-Holds :
    (values : List ℕ) (n v w bit_pos : ℕ) (output : List ℕ)
    → Holds n v output
    → v < 2 ^ bit_pos
    → 1 ≤ w
    → w ≤ 32
    → bit_pos + w * length values ≤ 8 * n
    → Holds n
        (v + value (2 ^ w) (fields w values) * 2 ^ bit_pos)
        (pack_loop w bit_pos values output)
unfolding pack_loop
pack_loop-Holds [] n v w bit_pos output h hv h1 h32 hn = Holds-eq (omega arith) h
pack_loop-Holds (x ∷ values) n v w bit_pos output h hv h1 h32 hn =
    Holds-eq
      (omega (arith, ap (λ (t : ℕ). value (2 ^ w) (fields w values) * t) (two-pow-add bit_pos w)))
      (pack_loop-Holds values n (v + x % 2 ^ w * 2 ^ bit_pos) w (bit_pos + w)
        (pack_value w bit_pos x output)
        (pack_value-Holds n v w bit_pos x output h hv h1 h32 (omega arith))
        (add_shifted-lt v (x % 2 ^ w) bit_pos w hv (mod-lt x (two-pow-pos w))) h1 h32 (omega arith))
