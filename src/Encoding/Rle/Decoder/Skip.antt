-- ===== src/Encoding/Rle/Decoder/Skip.antt =====
-- Skipping and reading.
use carquet.Prelude.{ℕ, zero, suc, ◌+◌, ◌-◌, ◌<◌, ◌≤◌, ◌≡◌, refl, arith, ap, ◌∙◌, sym}
use carquet.Prelude.{true, false, Bool-cases, inl, inr, ltb, ◌&&◌}
use carquet.Prelude.{List, ◌++◌, length, min}
use carquet.Prelude.{length-append, length-take, length-replicate, le→ltb-false, if-true, if-false}
use carquet.Core.Bitpack.Unpack.{length-bitunpack8_32}
use carquet.Encoding.Rle.Decoder.{
  Decoder, need_values, need_run, copied, advance, get_packed, get_run, get_loop, get_batch,
}
use carquet.Encoding.Rle.Decoder.{
  skip_packed, skip_run, skip_loop, skip, has_next, fill_bitpack_buffer,
}
use carquet.Encoding.Rle.Decoder.Packed.{copied_lem}

-- What a reader says of the number of values it passes.
passed : List ℕ × Decoder → ℕ × Decoder
passed out = (length out.0, out.1)

-- A buffer that is filled has an unread value, and the run is as long as before.
need_values_lem :
    (dec : Decoder)
    → (need_values dec).0 ≡ true
    → (0 < length (need_values dec).1.unread)
      × ((need_values dec).1.run_remaining ≡ dec.run_remaining)
unfolding need_values fill_bitpack_buffer
need_values_lem dec filled = ground (arith, length-bitunpack8_32 dec.input dec.bit_width)

passed_append :
    (part : List ℕ) (n : ℕ) (out : List ℕ × Decoder) (skipped : ℕ × Decoder)
    → length part ≡ n
    → skipped ≡ passed out
    → ◌≡◌ {A = ℕ × Decoder} (n + skipped.0, skipped.1) (passed (part ++ out.0, out.1))
unfolding passed
passed_append part n out skipped size e = rw (e, length-append part out.0, size) refl

advance_remaining : (n : ℕ) (dec : Decoder) → (advance n dec).run_remaining ≡ dec.run_remaining - n
unfolding advance
advance_remaining n dec = refl

-- Of `left` values wanted, `to_skip` are in this run.
skip_packed-get_packed :
    (rounds more : ℕ) (dec : Decoder) (to_skip left : ℕ)
    → to_skip ≤ rounds
    → left ≤ more
    → to_skip ≡ min left dec.run_remaining
    → skip_packed rounds dec to_skip ≡ passed (get_packed more dec left)
unfolding skip_packed get_packed passed
skip_packed-get_packed zero zero dec to_skip left hr hm e = refl
skip_packed-get_packed (suc rounds) zero dec to_skip left hr hm e =
    let stop : ltb 0 to_skip ≡ false = le→ltb-false _ _ (omega arith) in rw stop refl
skip_packed-get_packed zero (suc more) dec to_skip left hr hm e =
    let stop : (ltb 0 left && ltb 0 dec.run_remaining) ≡ false = ground arith in rw stop refl
skip_packed-get_packed (suc rounds) (suc more) dec to_skip left hr hm e =
    elim (Bool-cases (ltb 0 left && ltb 0 dec.run_remaining)) [
      | inr ends ↦
          let stop : (ltb 0 to_skip && ltb 0 dec.run_remaining) ≡ false = ground arith in
          rw (ends, stop) refl
      | inl going ↦
          let (wanted, running) : (0 < left) × (0 < dec.run_remaining) = ground arith in
          let go : (ltb 0 to_skip && ltb 0 dec.run_remaining) ≡ true = ground arith in
          rw (going, go)
            (elim (Bool-cases (need_values dec).0) [
              | inr failed ↦ rw failed refl
              | inl filled ↦
                  let ready = (need_values dec).1 in
                  let (unread, same) = need_values_lem dec filled in
                  let n = min (min (length ready.unread) to_skip) ready.run_remaining in
                  let bound : min (min (length ready.unread) left) ready.run_remaining ≡ n =
                    omega (arith, same) in
                  let size : length (copied left ready.run_remaining ready.unread) ≡ n =
                    rw (copied_lem left ready.run_remaining ready.unread, bound)
                      (omega (arith, length-take n ready.unread)) in
                  rw (filled, size)
                    (passed_append (copied left ready.run_remaining ready.unread) n _ _ size (
                      skip_packed-get_packed rounds more (advance n ready) (to_skip - n) (left - n)
                        (omega (arith, same)) (omega (arith, same))
                        (rw (advance_remaining n ready) (omega (arith, same)))))
            ])
    ]

skip_run-get_run : (dec : Decoder) (left : ℕ) → skip_run dec left ≡ passed (get_run dec left)
unfolding skip_run get_run passed
skip_run-get_run dec left = elim (Bool-cases dec.in_rle_run) [
  | inl repeated ↦
      if-true dec.in_rle_run _ _ repeated
      ∙ ap (λ n. (n, record dec { run_remaining = dec.run_remaining - min left dec.run_remaining }))
          (sym (length-replicate (min left dec.run_remaining) dec.rle_value))
      ∙ sym (ap passed (if-true dec.in_rle_run _ _ repeated))
  | inr packed ↦
      if-false dec.in_rle_run _ _ packed
      ∙ skip_packed-get_packed (min left dec.run_remaining) left dec (min left dec.run_remaining)
          left (omega arith) (omega arith) refl
      ∙ sym (ap passed (if-false dec.in_rle_run _ _ packed))
]

skip_loop-get_loop :
    (rounds : ℕ) (dec : Decoder) (left : ℕ)
    → skip_loop rounds dec left ≡ passed (get_loop rounds dec left)
unfolding skip_loop get_loop passed
skip_loop-get_loop zero dec left = refl
skip_loop-get_loop (suc rounds) dec left = elim (Bool-cases (ltb 0 left && has_next dec)) [
  | inr ends ↦ rw ends refl
  | inl going ↦ rw going (elim (Bool-cases (need_run dec).0) [
    | inr failed ↦ rw failed refl
    | inl started ↦
        let run = (need_run dec).1 in
        let part = get_run run left in
        rw (started, skip_run-get_run run left)
          (passed_append part.0 (length part.0) _ _ refl
            (skip_loop-get_loop rounds part.1 (left - length part.0)))
  ])
]

-- `skip` leaves the decoder that `get_batch` leaves for the same count and gives the number of
-- values that `get_batch` reads: on any decoder, whatever its data, and also where an error
-- stops both.
pub skip-get_batch :
    (dec : Decoder) (count : ℕ)
    → skip dec count ≡ (length (get_batch dec count).0, (get_batch dec count).1)
unfolding skip get_batch passed
skip-get_batch dec count = skip_loop-get_loop (count + 1) dec count
