-- ===== src/Core/BitStream/Writer.antt =====
-- The bit writer as a number: the bits written so far, the first one lowest.
use carquet.Prelude.{
  ℕ, zero, suc, ◌+◌, ◌-◌, ◌*◌, ◌/◌, ◌%◌, ◌^◌, ◌<◌, ◌≤◌, ◌≡◌, refl, arith, sym, ap, ◌∙◌, subst, true,
  false,
}
use carquet.Prelude.{
  Bool-cases, inl, inr, tests, ltb, leb, if-true, if-false, ◌==◌, ◌&&◌, bit_or, bit_and,
  bit_and_mask, bit_or_low, two-pow-add, two-pow-pos, add_shifted-lt,
}
use carquet.Prelude.{
  [], ◌∷◌, ◌++◌, length, All, All-append, IsByte, value, value-append, length-append, if◌then◌else◌,
  ne→==-false, le→ltb-false, byte_pow,
}
use native.Mathlib.Nat.{
  mod-eq_of_lt, div-add-mod, pow-le-pow_right, mod-lt, div-lt_iff_lt-mul, pow-suc, mod-one,
}
use carquet.Core.BitStream.{
  BitWriter, writer_init, store_byte, flush_loop, flush_buffer, put_bits, write_bits, flush,
}

-- The writer holds the `total` bits of `n`, in its bytes and in its buffer.
pub record Holds (n total : ℕ) (writer : BitWriter) : Type 0 where
  pub is : value 256 writer.written + 256 ^ length writer.written * writer.buffer ≡ n
  pub size : 8 * length writer.written + writer.buffer_bits ≡ total
  pub low : writer.buffer < 2 ^ writer.buffer_bits
  pub bytes : All IsByte writer.written

pub writer_init-Holds : (capacity : ℕ) → Holds 0 0 (writer_init capacity)
unfolding writer_init
writer_init-Holds capacity = record { is = refl; size = refl; low = omega arith; bytes = tt }

pub writer_init_lem :
    (capacity : ℕ)
    → ((writer_init capacity).buffer_bits ≤ 55) × ((writer_init capacity).capacity ≡ capacity)
unfolding writer_init
writer_init_lem capacity = (omega arith, refl)

quotient-lt : (v m k : ℕ) → v < 2 ^ (m + k) → v / 2 ^ k < 2 ^ m
quotient-lt v m k h =
    (div-lt_iff_lt-mul {k = 2 ^ k} {x = v} {y = 2 ^ m} (two-pow-pos k)).1
      (subst (λ (t : ℕ). v < t) (two-pow-add m k) h)

store_byte-Holds :
    (n total : ℕ) (w : BitWriter)
    → 8 ≤ w.buffer_bits
    → Holds n total w
    → Holds n total (store_byte w)
unfolding store_byte
store_byte-Holds n total w h s =
    let p = 256 ^ length w.written in
    let byte = w.buffer % 256 in
    let longer : length (w.written ++ (byte ∷ [])) ≡ suc (length w.written) =
      length-append w.written (byte ∷ []) ∙ omega arith in
    record {
      is =
          ap (λ (t : ℕ). value 256 (w.written ++ (byte ∷ [])) + 256 ^ t * (w.buffer / 256)) longer
          ∙ omega (
            arith,
            value-append 256 w.written (byte ∷ []),
            ap (λ (t : ℕ). t * (w.buffer / 256)) (pow-suc 256 (length w.written)),
            ap (λ (t : ℕ). p * t) (div-add-mod w.buffer 256),
            s.is,
          );
      size = omega (arith, longer, s.size);
      low =
          quotient-lt w.buffer (w.buffer_bits - 8) 8
            (subst (λ (t : ℕ). w.buffer < 2 ^ t) (omega arith) s.low);
      bytes = All-append IsByte w.written (byte ∷ []) s.bytes (omega arith, tt);
    }

-- The bits are held, at most `most` of them in the buffer.
pub record Kept (n total most capacity : ℕ) (w : BitWriter) : Type 0 where
  pub holds : Holds n total w
  pub few : w.buffer_bits ≤ most
  pub same : w.capacity ≡ capacity

-- Where the bits fit the capacity, a flush leaves fewer than eight in the buffer.
flush_loop-Kept :
    (rounds n total : ℕ) (w : BitWriter)
    → total ≤ 8 * w.capacity
    → w.buffer_bits ≤ rounds
    → Holds n total w
    → Kept n total 7 w.capacity (flush_loop rounds w)
unfolding flush_loop store_byte
flush_loop-Kept zero n total w fits enough s = record { holds = s; few = omega arith; same = refl }
flush_loop-Kept (suc rounds) n total w fits enough s = elim (Bool-cases (leb 8 w.buffer_bits)) [
  | inl whole ↦
      let there : 8 ≤ w.buffer_bits = omega (tests, whole) in
      let free : (leb 8 w.buffer_bits && ltb (length w.written) w.capacity) ≡ true =
        ground (arith, s.size, there, fits) in
      subst (Kept n total 7 w.capacity) (sym (if-true _ _ _ free)) (
        flush_loop-Kept rounds n total (store_byte w) fits (omega (arith, enough))
          (store_byte-Holds n total w there s))
  | inr part ↦
      let done : (leb 8 w.buffer_bits && ltb (length w.written) w.capacity) ≡ false =
        ap (λ b. b && ltb (length w.written) w.capacity) part in
      subst (Kept n total 7 w.capacity) (sym (if-false _ _ _ done))
        (record { holds = s; few = omega (tests, part); same = refl })
]

-- `value` put above the bits of the buffer.
put_bits-Kept :
    (n total k v : ℕ) (w : BitWriter)
    → v < 2 ^ k
    → w.buffer_bits + k ≤ 64
    → total + k ≤ 8 * w.capacity
    → Holds n total w
    → Kept (n + 2 ^ total * v) (total + k) 55 w.capacity (put_bits w v k)
unfolding put_bits flush_buffer
put_bits-Kept n total k v w hv room fits s = elim (Bool-cases (leb 56 filled.buffer_bits)) [
  | inl full ↦
      let flushed =
        flush_loop-Kept filled.buffer_bits (n + 2 ^ total * v) (total + k) filled fits (omega arith)
          added in
      subst (Kept (n + 2 ^ total * v) (total + k) 55 w.capacity) (sym (if-true _ _ _ full))
        (record { holds = flushed.holds; few = omega (arith, flushed.few); same = flushed.same })
  | inr free ↦
      subst (Kept (n + 2 ^ total * v) (total + k) 55 w.capacity) (sym (if-false _ _ _ free))
        (record { holds = added; few = omega (tests, free); same = refl })
]
  where
    filled : BitWriter
    filled = record w {
      buffer = bit_or w.buffer ((v * 2 ^ w.buffer_bits) % 2 ^ 64);
      buffer_bits = w.buffer_bits + k;
    }

    below : w.buffer + v * 2 ^ w.buffer_bits < 2 ^ (w.buffer_bits + k)
    below = add_shifted-lt w.buffer v w.buffer_bits k s.low hv

    word : 2 ^ (w.buffer_bits + k) ≤ 2 ^ 64
    word = pow-le-pow_right {n = 2} (omega arith) {i = w.buffer_bits + k} {j = 64} room

    joined : bit_or w.buffer ((v * 2 ^ w.buffer_bits) % 2 ^ 64) ≡ w.buffer + v * 2 ^ w.buffer_bits
    joined =
        ap (bit_or w.buffer)
          (mod-eq_of_lt {n = v * 2 ^ w.buffer_bits} {m = 2 ^ 64} (omega (arith, below, word)))
        ∙ bit_or_low w.buffer_bits v w.buffer s.low

    place : 256 ^ length w.written * 2 ^ w.buffer_bits ≡ 2 ^ total
    place =
        ap (λ (t : ℕ). t * 2 ^ w.buffer_bits) (byte_pow (length w.written))
        ∙ sym (two-pow-add (8 * length w.written) w.buffer_bits)
        ∙ ap (λ (t : ℕ). 2 ^ t) s.size

    added : Holds (n + 2 ^ total * v) (total + k) filled
    added = record {
      is =
          ap (λ (t : ℕ). value 256 w.written + 256 ^ length w.written * t) joined
          ∙ omega (arith, s.is, ap (λ (t : ℕ). t * v) place);
      size = omega (arith, s.size);
      low = subst (λ (t : ℕ). t < 2 ^ (w.buffer_bits + k)) (sym joined) below;
      bytes = s.bytes;
    }

-- Writing at most 32 bits to a writer that holds the bits of a number, at most 55 of them in its
-- buffer, where its buffer of 64 bits and its capacity have room for them, leaves it with those
-- bits above the others and again with at most 55 in its buffer.
pub write_bits-Kept :
    (n total k v : ℕ) (w : BitWriter)
    → k ≤ 32
    → w.buffer_bits ≤ 55
    → w.buffer_bits + k ≤ 64
    → total + k ≤ 8 * w.capacity
    → Holds n total w
    → Kept (n + 2 ^ total * (v % 2 ^ k)) (total + k) 55 w.capacity (write_bits w v k)
unfolding write_bits
write_bits-Kept n total zero v w hk few room fits s = record {
  holds = record {
    is = s.is ∙ omega (arith, ap (λ (t : ℕ). 2 ^ total * t) (mod-one v));
    size = omega (arith, s.size);
    low = s.low;
    bytes = s.bytes;
  };
  few = few;
  same = refl;
}
write_bits-Kept n total (suc k) v w hk few room fits s =
    let width : (if ltb 32 (suc k) then 32 else suc k) ≡ suc k =
      if-false (ltb 32 (suc k)) 32 (suc k) (le→ltb-false 32 (suc k) hk) in
    subst (Kept (n + 2 ^ total * (v % 2 ^ suc k)) (total + suc k) 55 w.capacity)
      (sym (
        if-false (suc k == 0) _ _ (ne→==-false (suc k) 0 (λ z. omega (arith, z)))
        ∙ ap (λ (t : ℕ). put_bits w (bit_and v (2 ^ t - 1)) t) width
        ∙ ap (λ (t : ℕ). put_bits w t (suc k)) (bit_and_mask (suc k) v)))
      (put_bits-Kept n total (suc k) (v % 2 ^ suc k) w (mod-lt v (two-pow-pos (suc k))) room fits s)

-- Every bit is stored.
pub record Stored (n total : ℕ) (w : BitWriter) : Type 0 where
  pub is : value 256 w.written ≡ n
  pub size : length w.written ≡ (total + 7) / 8
  pub bytes : All IsByte w.written

-- The last flush stores every bit, the last byte filled up with zeros.
pub flush-Stored :
    (n total : ℕ) (w : BitWriter)
    → total ≤ 8 * w.capacity
    → Holds n total w
    → Stored n total (flush w)
unfolding flush flush_buffer
flush-Stored n total w fits s = elim (Bool-cases (ltb 0 f.buffer_bits)) [
  | inl partial ↦
      let some_bits : 0 < f.buffer_bits = omega (tests, partial) in
      let free : (ltb 0 f.buffer_bits && ltb (length f.written) f.capacity) ≡ true =
        ground (arith, some_bits, h.size, kept.same, fits) in
      let low : 2 ^ f.buffer_bits ≤ 2 ^ 8 =
        pow-le-pow_right {n = 2} (omega arith) {i = f.buffer_bits} {j = 8}
          (omega (arith, kept.few)) in
      let byte : f.buffer % 256 ≡ f.buffer = mod-eq_of_lt (omega (arith, low, h.low)) in
      subst (Stored n total) (sym (if-true _ _ _ free)) (record {
        is =
            value-append 256 f.written (f.buffer % 256 ∷ [])
            ∙ omega (arith, h.is, ap (λ (t : ℕ). 256 ^ length f.written * t) byte);
        size =
            omega
              (arith, length-append f.written (f.buffer % 256 ∷ []), h.size, kept.few, some_bits);
        bytes = All-append IsByte f.written (f.buffer % 256 ∷ []) h.bytes (omega arith, tt);
      })
  | inr whole ↦
      let no_bits : f.buffer_bits ≡ 0 = omega (tests, whole) in
      let empty : f.buffer ≡ 0 = omega (arith, subst (λ (t : ℕ). f.buffer < 2 ^ t) no_bits h.low) in
      let done : (ltb 0 f.buffer_bits && ltb (length f.written) f.capacity) ≡ false =
        ap (λ b. b && ltb (length f.written) f.capacity) whole in
      subst (Stored n total) (sym (if-false _ _ _ done)) (record {
        is = omega (arith, h.is, ap (λ (t : ℕ). 256 ^ length f.written * t) empty);
        size = omega (arith, h.size, no_bits);
        bytes = h.bytes;
      })
]
  where
    f : BitWriter
    f = flush_loop w.buffer_bits w

    kept : Kept n total 7 w.capacity f
    kept = flush_loop-Kept w.buffer_bits n total w fits (omega arith) s

    h : Holds n total f
    h = kept.holds
