-- ===== src/Core/Endian/Varint.antt =====
-- Variable-length integers: what the writers write, and that every reader reads it back.
use carquet.Prelude.{ℕ, zero, suc, ◌+◌, ◌*◌, ◌/◌, ◌%◌, ◌^◌, ◌<◌, ◌≤◌, ◌≡◌, refl, arith, ap, ◌∙◌}
use carquet.Prelude.{bit_and, bit_or, bit_and_mask, bit_or_low, two-pow-add}
use carquet.Prelude.{top_bit}
use carquet.Prelude.{List, [], ◌∷◌, ◌++◌, ltb, if◌then◌else◌, length, All, IsByte}
use carquet.Prelude.{some, Bool-cases, inl, inr, tests, lt→ltb}
use native.Mathlib.Nat.{div-add-mod, mod-eq_of_lt, div-eq_of_lt}
use carquet.Core.Endian.{encode_varint_loop, encode_varint64, encode_varint32, decode_varint_loop}
use carquet.Core.Endian.{decode_varint32, decode_varint64}

-- The low seven bits, and the top bit, of a byte.
low_seven : (b : ℕ) → bit_and b 0x7f ≡ b % 128
low_seven b = bit_and_mask 7 b

set_top : (g : ℕ) → g < 128 → bit_or g 0x80 ≡ g + 128
set_top g h = bit_or_low 7 1 g h

-- A number that fits any fuel is written in the same way.
encode_varint_fuel : (f g v : ℕ) → v ≤ f → v ≤ g → encode_varint_loop f v ≡ encode_varint_loop g v
unfolding encode_varint_loop
encode_varint_fuel zero zero v p q = refl
encode_varint_fuel zero (suc g) v p q = ground arith
encode_varint_fuel (suc f) zero v p q = ground arith
encode_varint_fuel (suc f) (suc g) v p q = ground (arith, encode_varint_fuel f g (v / 128))

-- The loop of the writers without its fuel: the fuel chosen is always enough.
pub encode_varint64_lem :
    (v : ℕ)
    → encode_varint64 v
      ≡ (if ltb v 128 then v ∷ [] else (v % 128 + 128) ∷ encode_varint64 (v / 128))
unfolding encode_varint64 encode_varint_loop
encode_varint64_lem zero = refl
encode_varint64_lem (suc v) = ground (
  arith,
  low_seven (suc v),
  set_top (suc v % 128),
  encode_varint_fuel v (suc v / 128) (suc v / 128),
)

-- The varint of a number below 128^(n+1) is made of bytes, one at least and n + 1 at most.
pub encode_varint64_shape :
    (n v : ℕ)
    → v < 128 ^ suc n
    → All IsByte (encode_varint64 v)
      × (1 ≤ length (encode_varint64 v))
      × (length (encode_varint64 v) ≤ n + 1)
encode_varint64_shape zero v h = rw encode_varint64_lem (ground arith)
encode_varint64_shape (suc n) v h =
    rw encode_varint64_lem (ground (arith, encode_varint64_shape n (v / 128)))

shift_seven : (s : ℕ) → 2 ^ (s + 7) ≡ 2 ^ s * 128
shift_seven s = two-pow-add s 7

-- The lowest group of `v` and the rest, both shifted by `s`.
regroup : (v s : ℕ) → v * 2 ^ s ≡ v % 128 * 2 ^ s + v / 128 * 2 ^ (s + 7)
regroup v s = omega (
  arith,
  ap (λ (t : ℕ). t * 2 ^ s) (div-add-mod v 128),
  ap (λ (t : ℕ). v / 128 * t) (shift_seven s),
)

group-lt : (g acc s : ℕ) → g < 128 → acc < 2 ^ s → acc + g * 2 ^ s < 2 ^ (s + 7)
group-lt g acc s hg ha = grind (arith, shift_seven s)

-- `acc |= g << s`, cut to `w` bits, adds where the sum fits the word.
or_group :
    (w g acc s : ℕ)
    → acc < 2 ^ s
    → acc + g * 2 ^ s < 2 ^ w
    → bit_or acc (g * 2 ^ s % 2 ^ w) ≡ acc + g * 2 ^ s
or_group w g acc s ha fits =
    rw (mod-eq_of_lt {n = g * 2 ^ s} {m = 2 ^ w} (omega arith)) (bit_or_low s g acc ha)

-- One round of a reader: on a last byte, and on a byte with the top bit set over a group.
last_byte :
    (w n g acc s : ℕ) (rest : List ℕ)
    → g < 128
    → acc < 2 ^ s
    → acc + g * 2 ^ s < 2 ^ w
    → decode_varint_loop w (suc n) s acc (g ∷ rest) ≡ some (acc + g * 2 ^ s, rest)
unfolding decode_varint_loop
last_byte w n g acc s rest hg ha fits = rw (
  low_seven g,
  mod-eq_of_lt hg,
  top_bit g (omega arith),
  div-eq_of_lt hg,
  or_group w g acc s ha fits,
)

inner_byte :
    (w n g acc s : ℕ) (rest : List ℕ)
    → g < 128
    → acc < 2 ^ s
    → acc + g * 2 ^ s < 2 ^ w
    → decode_varint_loop w (suc n) s acc ((g + 128) ∷ rest)
      ≡ decode_varint_loop w n (s + 7) (acc + g * 2 ^ s) rest
unfolding decode_varint_loop
inner_byte w n g acc s rest hg ha fits =
    let low : bit_and (g + 128) 127 ≡ g = low_seven (g + 128) ∙ omega arith in
    let top : bit_and (g + 128) 128 ≡ 128 = top_bit (g + 128) (omega arith) ∙ omega arith in
    rw (low, top, or_group w g acc s ha fits)

pub encode_varint64_takes : (v : ℕ) → 1 ≤ length (encode_varint64 v)
encode_varint64_takes v = rw (encode_varint64_lem v) (ground arith)

-- `v` is what is still to be read, and counts from bit `s` on.
decode_loop-encode :
    (n w v acc s : ℕ) (rest : List ℕ)
    → v < 128 ^ suc n
    → acc < 2 ^ s
    → acc + v * 2 ^ s < 2 ^ w
    → decode_varint_loop w (suc n) s acc (encode_varint64 v ++ rest) ≡ some (acc + v * 2 ^ s, rest)
decode_loop-encode zero w v acc s rest hv ha fits =
    rw (encode_varint64_lem v, lt→ltb v 128 hv) (last_byte w 0 v acc s rest hv ha fits)
decode_loop-encode (suc n) w v acc s rest hv ha fits = elim (Bool-cases (ltb v 128)) [
  | inl small ↦
      rw (encode_varint64_lem v, small)
        (last_byte w (suc n) v acc s rest (omega (tests, small)) ha fits)
  | inr large ↦
      rw (encode_varint64_lem v, large)
        (inner_byte w (suc n) (v % 128) acc s (encode_varint64 (v / 128) ++ rest) (omega arith) ha
            (omega (arith, regroup v s))
          ∙ decode_loop-encode n w (v / 128) (acc + v % 128 * 2 ^ s) (s + 7) rest (omega arith)
              (group-lt (v % 128) acc s (omega arith) ha) (omega (arith, regroup v s))
          ∙ ap (λ (t : ℕ). some (t, rest)) (omega (arith, regroup v s)))
]

-- A reader of `w`-bit words that takes at most `n` bytes, with `7 * n` bits or more, gives back
-- what a writer wrote, and leaves what follows it.
pub decode_varint_loop-encode :
    (n w v : ℕ) (rest : List ℕ)
    → v < 128 ^ suc n
    → v < 2 ^ w
    → decode_varint_loop w (suc n) 0 0 (encode_varint64 v ++ rest) ≡ some (v, rest)
decode_varint_loop-encode n w v rest hv hw =
    decode_loop-encode n w v 0 0 rest hv (omega arith) (omega arith)
    ∙ ap (λ (t : ℕ). some (t, rest)) (omega arith)

-- Decoding the varint of a number below 2^64 gives the number, and leaves whatever follows it.
pub decode_varint64-encode64 :
    (v : ℕ) (rest : List ℕ)
    → v < 2 ^ 64
    → decode_varint64 (encode_varint64 v ++ rest) ≡ some (v, rest)
unfolding decode_varint64
decode_varint64-encode64 v rest h = decode_varint_loop-encode 9 64 v rest (omega arith) h

-- Decoding the varint of a number below 2^32 gives the number, and leaves whatever follows it.
pub decode_varint32-encode32 :
    (v : ℕ) (rest : List ℕ)
    → v < 2 ^ 32
    → decode_varint32 (encode_varint32 v ++ rest) ≡ some (v, rest)
unfolding decode_varint32 encode_varint32
decode_varint32-encode32 v rest h = decode_varint_loop-encode 4 32 v rest (omega arith) h

-- When the reader of varints accepts, it has taken at least one byte and at most as many as its
-- bound on rounds.
pub decode_varint_loop_takes :
    (n w s acc v : ℕ) (p rest : List ℕ)
    → decode_varint_loop w n s acc p ≡ some (v, rest)
    → (length rest < length p) × (length p ≤ length rest + n)
unfolding decode_varint_loop
decode_varint_loop_takes zero w s acc v p rest e = cc
decode_varint_loop_takes (suc n) w s acc v [] rest e = cc
decode_varint_loop_takes (suc n) w s acc v (b ∷ p) rest e = ground (
  arith,
  decode_varint_loop_takes n w (s + 7) (bit_or acc ((bit_and b 127 * 2 ^ s) % 2 ^ w)) v p rest,
)

-- When the reader of varints accepts, it gives the same number with more bytes behind its input,
-- and leaves them with the rest.
pub decode_varint_loop-append :
    (n w s acc v : ℕ) (p rest more : List ℕ)
    → decode_varint_loop w n s acc p ≡ some (v, rest)
    → decode_varint_loop w n s acc (p ++ more) ≡ some (v, rest ++ more)
unfolding decode_varint_loop
decode_varint_loop-append zero w s acc v p rest more e = cc
decode_varint_loop-append (suc n) w s acc v [] rest more e = cc
decode_varint_loop-append (suc n) w s acc v (b ∷ p) rest more e = ground (
  arith,
  decode_varint_loop-append n w (s + 7) (bit_or acc ((bit_and b 127 * 2 ^ s) % 2 ^ w)) v p rest
      more,
)
