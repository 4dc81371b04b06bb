-- ===== src/Core/BitStream/Reader.antt =====
-- The bit reader as a number: the bits still to read, the next one lowest.
use carquet.Prelude.{
  ℕ, zero, suc, ◌+◌, ◌-◌, ◌*◌, ◌/◌, ◌%◌, ◌^◌, ◌<◌, ◌≤◌, ◌≡◌, ◌⊎◌, inl, inr, refl, arith, sym, ap,
  ap₂, ◌∙◌, subst, some, none, Option, false, ◌&&◌, mod-two-pow-add, div-two-pow-add,
}
use carquet.Prelude.{
  Bool-cases, tests, ltb, leb, if-true, if-false, ◌==◌, bit_or, bit_and, bit_and_mask, bit_or_low,
  two-pow-add, two-pow-pos, add_shifted-lt,
}
use carquet.Prelude.{
  List, [], ◌∷◌, length, All, IsByte, value, if◌then◌else◌, ne→==-false, le→ltb-false,
}
use native.Mathlib.Nat.{
  mod-eq_of_lt, mul-add-div, mul-add-mod_self_left, pow-le-pow_right, mod-lt, div-lt_iff_lt-mul,
  mod-one, div-one,
}
use carquet.Core.BitStream.{
  BitReader, reader_init, refill_loop, refill_buffer, take_bits, read_bits, read_bits64, read_bit,
}

-- The number that a buffer of `bits` bits and the bytes behind it stand for.
abbrev pub number : ℕ → ℕ → List ℕ → ℕ
number buffer bits input = buffer + 2 ^ bits * value 256 input

pub record Loaded (n total : ℕ) (buffer bits : ℕ) (input : List ℕ) : Type 0 where
  pub is : number buffer bits input ≡ n
  pub size : bits + 8 * length input ≡ total
  pub low : buffer < 2 ^ bits
  pub small : bits ≤ 64
  pub bytes : All IsByte input

-- A byte put above a buffer of at most 56 bits.
load_byte :
    (buffer bits byte : ℕ)
    → buffer < 2 ^ bits
    → bits ≤ 56
    → byte < 256
    → (bit_or buffer ((byte * 2 ^ bits) % 2 ^ 64) ≡ buffer + byte * 2 ^ bits)
      × (buffer + byte * 2 ^ bits < 2 ^ (bits + 8))
load_byte buffer bits byte h small hb =
    let below : buffer + byte * 2 ^ bits < 2 ^ (bits + 8) =
      add_shifted-lt buffer byte bits 8 h hb in
    let within : 2 ^ (bits + 8) ≤ 2 ^ 64 =
      pow-le-pow_right {n = 2} (omega arith) {i = bits + 8} {j = 64} (omega arith) in
    (
      rw (mod-eq_of_lt {n = byte * 2 ^ bits} {m = 2 ^ 64} (omega arith))
          (bit_or_low bits byte buffer h),
      below,
    )

refill_loop-Loaded :
    (input : List ℕ) (n total buffer bits : ℕ)
    → Loaded n total buffer bits input
    → let (buffer', bits', input') = refill_loop input buffer bits in
      Loaded n total buffer' bits' input' × ((57 ≤ bits') ⊎ (input' ≡ []))
unfolding refill_loop
refill_loop-Loaded [] n total buffer bits l = (l, inr refl)
refill_loop-Loaded (byte ∷ input) n total buffer bits l = elim (Bool-cases (leb bits 56)) [
  | inl more ↦
      let (added, below) = load_byte buffer bits byte l.low (omega (tests, more)) l.bytes.0 in
      rw more (
        refill_loop-Loaded input n total (bit_or buffer ((byte * 2 ^ bits) % 2 ^ 64)) (bits + 8)
          (record {
            is =
                rw added
                  (omega (arith, l.is, ap (λ (t : ℕ). t * value 256 input) (two-pow-add bits 8)));
            size = omega (arith, l.size);
            low = rw added below;
            small = omega (tests, more);
            bytes = l.bytes.1;
          }))
  | inr full ↦ rw full (l, inl (omega (tests, full)))
]

-- The reader stands for the number `n` of `total` bits.
pub record Reads (n total : ℕ) (reader : BitReader) : Type 0 where
  pub loaded : Loaded n total reader.buffer reader.buffer_bits reader.input
  pub paid : reader.overdrawn ≡ 0

pub reader_init-Reads :
    (input : List ℕ)
    → All IsByte input
    → Reads (value 256 input) (8 * length input) (reader_init input)
unfolding reader_init
reader_init-Reads input h = record {
  loaded = record {
    is = omega arith;
    size = omega arith;
    low = omega arith;
    small = omega arith;
    bytes = h;
  };
  paid = refl;
}

-- Bits are refilled where too few are loaded; then as many as are wanted are there, if they exist.
refilled-Reads :
    (n total k : ℕ) (reader : BitReader)
    → k ≤ 32
    → k ≤ total
    → Reads n total reader
    → let refilled = if ltb reader.buffer_bits k then refill_buffer reader else reader in
      Reads n total refilled × (k ≤ refilled.buffer_bits)
unfolding refill_buffer
refilled-Reads n total k reader hk ht r = elim (Bool-cases (ltb reader.buffer_bits k)) [
  | inl few ↦
      let (l, enough) =
        refill_loop-Loaded reader.input n total reader.buffer reader.buffer_bits r.loaded in
      subst (λ (b : BitReader). Reads n total b × (k ≤ b.buffer_bits)) (sym (if-true _ _ _ few))
        (
          record { loaded = l; paid = r.paid },
          elim enough [
            | inl many ↦ omega (arith, many)
            | inr done ↦ omega (arith, l.size, ap length done)
          ],
        )
  | inr many ↦
      subst (λ (b : BitReader). Reads n total b × (k ≤ b.buffer_bits)) (sym (if-false _ _ _ many))
        (r, omega (tests, many))
]

-- The bits of the buffer below `k` and those from there on.
split :
    (buffer bits k : ℕ) (input : List ℕ)
    → k ≤ bits
    → (number buffer bits input % 2 ^ k ≡ buffer % 2 ^ k)
      × (number buffer bits input / 2 ^ k ≡ number (buffer / 2 ^ k) (bits - k) input)
split buffer bits k input h =
    let v = value 256 input in
    let e : k + (bits - k) ≡ bits = omega arith in
    let scaled : 2 ^ bits * v ≡ 2 ^ k * (2 ^ (bits - k) * v) =
      ap (λ (t : ℕ). 2 ^ t * v) (sym e)
      ∙ ap (λ (t : ℕ). t * v) (two-pow-add k (bits - k))
      ∙ omega arith in
    let whole : number buffer bits input ≡ 2 ^ k * (2 ^ (bits - k) * v) + buffer =
      omega (arith, scaled) in
    (
      rw whole (mul-add-mod_self_left (2 ^ k) (2 ^ (bits - k) * v) buffer),
      rw whole (mul-add-div {m = 2 ^ k} (two-pow-pos k) (2 ^ (bits - k) * v) buffer ∙ omega arith),
    )

take_bits-Reads :
    (n total k : ℕ) (reader : BitReader)
    → k ≤ 32
    → k ≤ reader.buffer_bits
    → Reads n total reader
    → ((take_bits reader k).0 ≡ n % 2 ^ k) × Reads (n / 2 ^ k) (total - k) (take_bits reader k).1
unfolding take_bits
take_bits-Reads n total k reader hk there r =
    let buffer = reader.buffer in
    let bits = reader.buffer_bits in
    let l = r.loaded in
    let (below, above) = split buffer bits k reader.input there in
    let within : 2 ^ k ≤ 2 ^ 32 = pow-le-pow_right {n = 2} (omega arith) {i = k} {j = 32} hk in
    let whole : 2 ^ bits ≡ 2 ^ (bits - k) * 2 ^ k =
      ap (λ (t : ℕ). 2 ^ t) (omega arith) ∙ two-pow-add (bits - k) k in
    (
      ap (λ (t : ℕ). t % 2 ^ 32) (bit_and_mask k buffer)
          ∙ mod-eq_of_lt {n = buffer % 2 ^ k} {m = 2 ^ 32}
              (omega (arith, mod-lt buffer (two-pow-pos k)))
          ∙ sym below
          ∙ ap (λ (t : ℕ). t % 2 ^ k) l.is,
      record {
        loaded = record {
          is = sym above ∙ ap (λ (t : ℕ). t / 2 ^ k) l.is;
          size = omega (arith, l.size);
          low =
              (div-lt_iff_lt-mul {k = 2 ^ k} {x = buffer} {y = 2 ^ (bits - k)} (two-pow-pos k)).1
                (subst (λ (t : ℕ). buffer < t) whole l.low);
          small = omega (arith, l.small);
          bytes = l.bytes;
        };
        paid = omega (arith, r.paid);
      },
    )

within_word : (k : ℕ) → k ≤ 32 → (if ltb 32 k then 32 else k) ≡ k
within_word k h = if-false (ltb 32 k) 32 k (le→ltb-false 32 k h)

read_bits_lem :
    (k : ℕ) (reader : BitReader)
    → 1 ≤ k
    → k ≤ 32
    → read_bits reader k
      ≡ take_bits (if ltb reader.buffer_bits k then refill_buffer reader else reader) k
unfolding read_bits
read_bits_lem k reader hp hk =
    if-false (k == 0) _ _ (ne→==-false k 0 (λ z. omega (arith, z)))
    ∙ ap
        (λ (t : ℕ). take_bits (if ltb reader.buffer_bits t then refill_buffer reader else reader) t)
        (within_word k hk)

-- Reading at most 32 bits, where there are as many, gives the lowest ones of the number that the
-- reader stands for, and leaves the others.
pub read_bits-Reads :
    (n total k : ℕ) (reader : BitReader)
    → k ≤ 32
    → k ≤ total
    → Reads n total reader
    → ((read_bits reader k).0 ≡ n % 2 ^ k) × Reads (n / 2 ^ k) (total - k) (read_bits reader k).1
unfolding read_bits
read_bits-Reads n total zero reader hk ht r = (
  sym (mod-one n),
  subst (λ (t : ℕ). Reads (n / 1) t reader) (omega arith)
      (subst (λ (t : ℕ). Reads t total reader) (sym (div-one n)) r),
)
read_bits-Reads n total (suc k) reader hk ht r =
    let (filled, there) = refilled-Reads n total (suc k) reader hk ht r in
    subst (λ (x : ℕ × BitReader). (x.0 ≡ n % 2 ^ suc k) × Reads (n / 2 ^ suc k) (total - suc k) x.1)
      (sym (read_bits_lem (suc k) reader (omega arith) hk))
      (take_bits-Reads n total (suc k) _ hk there filled)

read_bits64_zero : (reader : BitReader) → read_bits64 reader 0 ≡ read_bits reader 0
unfolding read_bits64 read_bits
read_bits64_zero reader = refl

read_bits64_lem :
    (k : ℕ) (reader : BitReader)
    → 1 ≤ k
    → k ≤ 64
    → read_bits64 reader k ≡ (
        if leb k 32 then read_bits reader k else (
          bit_or
              (read_bits reader 32).0
              (((read_bits (read_bits reader 32).1 (k - 32)).0 * 2 ^ 32) % 2 ^ 64),
          (read_bits (read_bits reader 32).1 (k - 32)).1,
        ))
unfolding read_bits64
read_bits64_lem k reader hp hk =
    if-false (k == 0) _ _ (ne→==-false k 0 (λ z. omega (arith, z)))
    ∙ ap
        (λ (t : ℕ). if leb t 32 then read_bits reader t else (
          bit_or (read_bits reader 32).0
              (((read_bits (read_bits reader 32).1 (t - 32)).0 * 2 ^ 32) % 2 ^ 64),
          (read_bits (read_bits reader 32).1 (t - 32)).1,
        ))
        (if-false (ltb 64 k) 64 k (le→ltb-false 64 k hk))

-- The two halves of a long field.
join_halves :
    (n k : ℕ)
    → k ≤ 32
    → (bit_or (n % 2 ^ 32) ((n / 2 ^ 32 % 2 ^ k * 2 ^ 32) % 2 ^ 64) ≡ n % 2 ^ (32 + k))
      × (n / 2 ^ 32 / 2 ^ k ≡ n / 2 ^ (32 + k))
join_halves n k hk =
    let high = n / 2 ^ 32 % 2 ^ k in
    let within : 2 ^ k ≤ 2 ^ 32 = pow-le-pow_right {n = 2} (omega arith) {i = k} {j = 32} hk in
    let small : high < 2 ^ k = mod-lt (n / 2 ^ 32) (two-pow-pos k) in
    (
      ap (bit_or (n % 2 ^ 32)) (mod-eq_of_lt {n = high * 2 ^ 32} {m = 2 ^ 64} (omega arith))
          ∙ bit_or_low 32 high (n % 2 ^ 32) (omega arith)
          ∙ omega (arith, mod-two-pow-add n 32 k),
      sym (div-two-pow-add n 32 k),
    )

-- On a reader that stands for a number of some count of bits, reading at most 64 bits and at
-- most that count gives the lowest ones of the number, and leaves a reader that stands for the
-- others.
pub read_bits64-Reads :
    (n total k : ℕ) (reader : BitReader)
    → k ≤ 64
    → k ≤ total
    → Reads n total reader
    → ((read_bits64 reader k).0 ≡ n % 2 ^ k)
      × Reads (n / 2 ^ k) (total - k) (read_bits64 reader k).1
read_bits64-Reads n total zero reader hk ht r =
    subst (λ (x : ℕ × BitReader). (x.0 ≡ n % 2 ^ 0) × Reads (n / 2 ^ 0) (total - 0) x.1)
      (sym (read_bits64_zero reader)) (read_bits-Reads n total zero reader (omega arith) ht r)
read_bits64-Reads n total (suc j) reader hk ht r = elim (Bool-cases (leb k 32)) [
  | inl short ↦
      subst Wanted (sym (read_bits64_lem k reader (omega arith) hk ∙ if-true (leb k 32) _ _ short))
        (read_bits-Reads n total k reader (omega (tests, short)) ht r)
  | inr long ↦
      let above : 33 ≤ k = omega (tests, long) in
      let (low, next) =
        read_bits-Reads n total 32 reader (omega arith) (omega (arith, above, ht)) r in
      let (high, done) =
        read_bits-Reads (n / 2 ^ 32) (total - 32) (k - 32) (read_bits reader 32).1
          (omega (arith, hk)) (omega (arith, ht)) next in
      let (joined, behind) = join_halves n (k - 32) (omega (arith, hk)) in
      let whole : 32 + (k - 32) ≡ k = omega (arith, above) in
      subst Wanted (sym (read_bits64_lem k reader (omega arith) hk ∙ if-false (leb k 32) _ _ long))
        (
          ap₂ (λ (a b : ℕ). bit_or a ((b * 2 ^ 32) % 2 ^ 64)) low high
              ∙ joined
              ∙ ap (λ (t : ℕ). n % 2 ^ t) whole,
          subst (λ (t : ℕ × ℕ). Reads t.0 t.1 (read_bits (read_bits reader 32).1 (k - 32)).1)
              (ap₂ (λ (a b : ℕ). (a, b)) (behind ∙ ap (λ (t : ℕ). n / 2 ^ t) whole)
                (omega (arith, above)))
              done,
        )
]
  where
    k : ℕ
    k = suc j

    Wanted : ℕ × BitReader → Type 0
    Wanted x = (x.0 ≡ n % 2 ^ k) × Reads (n / 2 ^ k) (total - k) x.1

read_bit_lem :
    (reader : BitReader)
    → reader.overdrawn ≡ 0
    → let refilled = if ltb reader.buffer_bits 1 then refill_buffer reader else reader in
      1 ≤ refilled.buffer_bits
      → read_bit reader ≡ (some (take_bits refilled 1).0, (take_bits refilled 1).1)
unfolding read_bit take_bits
read_bit_lem reader paid there =
    let refilled : BitReader = if ltb reader.buffer_bits 1 then refill_buffer reader else reader in
    let same : (reader.buffer_bits == 0 && reader.overdrawn == 0) ≡ ltb reader.buffer_bits 1 =
      ground (arith, paid) in
    let more : (refilled.buffer_bits == 0 && refilled.overdrawn == 0) ≡ false =
      ap (λ b. b && refilled.overdrawn == 0)
        (ne→==-false refilled.buffer_bits 0 (λ z. omega (arith, z, there))) in
    ap
      (λ b.
        let f : BitReader = if b then refill_buffer reader else reader in
        if f.buffer_bits == 0 && f.overdrawn == 0 then (none, f) else (
          some (bit_and f.buffer 1),
          record f {
            buffer = f.buffer / 2 ^ 1;
            buffer_bits = f.buffer_bits - 1;
            overdrawn = f.overdrawn + (1 - f.buffer_bits);
          },
        ))
      same
    ∙ if-false _ _ _ more
    ∙ ap (λ (t : ℕ). (some t, (take_bits refilled 1).1))
        (omega (arith, bit_and_mask 1 refilled.buffer))

-- On a reader that stands for a number of at least one bit, reading a bit gives the lowest one,
-- never -1, and leaves a reader that stands for the others.
pub read_bit-Reads :
    (n total : ℕ) (reader : BitReader)
    → 1 ≤ total
    → Reads n total reader
    → ((read_bit reader).0 ≡ some (n % 2)) × Reads (n / 2) (total - 1) (read_bit reader).1
read_bit-Reads n total reader h r =
    let (filled, there) = refilled-Reads n total 1 reader (omega arith) h r in
    let (bit, next) = take_bits-Reads n total 1 _ (omega arith) there filled in
    subst (λ (x : Option ℕ × BitReader). (x.0 ≡ some (n % 2)) × Reads (n / 2) (total - 1) x.1)
      (sym (read_bit_lem reader r.paid there)) (ap some bit, next)
