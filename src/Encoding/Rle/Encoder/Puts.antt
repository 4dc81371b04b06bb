-- ===== src/Encoding/Rle/Encoder/Puts.antt =====
-- The encoder's state between two calls: every value that it was given is in the stream, in the
-- group that fills, or in the run that is counted.
use carquet.Prelude.{
  ℕ, zero, suc, ◌+◌, ◌%◌, ◌-◌, ◌^◌, ◌<◌, ◌≤◌, ◌≡◌, refl, arith, ap, ◌∙◌, sym, subst,
}
use carquet.Prelude.{
  Bool, true, false, not, ◌&&◌, Bool-cases, inl, inr, ltb, leb, ◌==◌, if◌then◌else◌, ==→eq,
}
use carquet.Prelude.{List, [], ◌∷◌, ◌++◌, length, replicate, append-nil, leb→le}
use carquet.Prelude.{
  append_assoc, length-append, ltb-false→le, replicate-add, length-replicate, two-pow-pos,
  empty_list,
}
use carquet.Core.Status.{ok, is_ok}
use carquet.Core.Buffer.{Allocator, Buffer}
use carquet.Core.Buffer.Append.{Wrote}
use carquet.Encoding.Rle.Format.{finished}
use carquet.Encoding.Rle.Encoder.{
  Encoder, flush_rle, flush_bitpack, push_repeats, end_run, put, put_repeat, flush, init,
}
use carquet.Encoding.Rle.Encoder.Writes.{Emitted}
use carquet.Encoding.Rle.Encoder.Groups.{Holds, flush_bitpack-Flushed}
use carquet.Encoding.Rle.Encoder.Ends.{
  Ended, end_run-Ended, push_repeats-Pushed, flush_rle-Emitted, Holds-more, Pushed-Ended,
}

module _ (a : Allocator) (start : Buffer) (budget w : ℕ) (hw : w ≤ 32) where
  pub record Progress (enc : Encoder) (values : List ℕ) : Type 0 where
    pub taken : List ℕ
    pub holds : Holds a start budget w 8 enc taken
    pub parts : values ≡ taken ++ replicate enc.repeat_count enc.prev_value
    pub prev : enc.prev_value < 2 ^ w
    pub good : enc.status ≡ ok
    pub fresh : enc.has_prev ≡ false → enc.repeat_count ≡ 0
    pub idle : enc.repeat_count ≡ 0 → enc.bitpack_buffer ≡ []

  run-le :
      (enc : Encoder) (values : List ℕ) → Progress enc values → enc.repeat_count ≤ length values
  run-le enc values p = omega (
    arith,
    ap length p.parts,
    length-append p.taken (replicate enc.repeat_count enc.prev_value),
    length-replicate enc.repeat_count enc.prev_value,
  )

  -- A new run of `n` values behind what was taken over.
  new_run :
      (enc' : Encoder) (values : List ℕ) (v n : ℕ) (b : Bool)
      → Holds a start budget w 8 enc' values
      → v < 2 ^ w
      → enc'.status ≡ ok
      → 0 < n
      → b ≡ true
      → Progress
          (record enc' { prev_value = v; repeat_count = n; has_prev = b })
          (values ++ replicate n v)
  new_run enc' values v n b h hv good pos has = record {
    taken = values;
    holds = record {
      seen = h.seen;
      emitted = h.emitted;
      parts = h.parts;
      width = h.width;
      total = h.total;
      short = h.short;
      below = h.below;
    };
    parts = refl;
    prev = hv;
    good = good;
    fresh = λ e. cc;
    idle = λ e. absurd (omega arith);
  }

  -- The run that is counted grows.
  longer_run :
      (enc : Encoder) (values : List ℕ) (n : ℕ)
      → Progress enc values
      → enc.has_prev ≡ true
      → 0 < n
      → Progress
          (record enc { repeat_count = enc.repeat_count + n })
          (values ++ replicate n enc.prev_value)
  longer_run enc values n p has pos = record {
    taken = p.taken;
    holds = record {
      seen = p.holds.seen;
      emitted = p.holds.emitted;
      parts = p.holds.parts;
      width = p.holds.width;
      total = p.holds.total;
      short = p.holds.short;
      below = p.holds.below;
    };
    parts =
        ap (λ t. t ++ replicate n enc.prev_value) p.parts
        ∙ append_assoc p.taken (replicate enc.repeat_count enc.prev_value)
            (replicate n enc.prev_value)
        ∙ ap (λ t. p.taken ++ t) (sym (replicate-add enc.repeat_count n enc.prev_value));
    prev = p.prev;
    good = p.good;
    fresh = λ e. cc;
    idle = λ e. absurd (omega arith);
  }

  -- Before the first value nothing is held.
  fresh_taken :
      (enc : Encoder) (values : List ℕ)
      → Progress enc values
      → enc.has_prev ≡ false
      → Holds a start budget w 8 enc values
  fresh_taken enc values p none =
      subst (Holds a start budget w 8 enc)
        (sym (
          p.parts
          ∙ ap (λ n. p.taken ++ replicate n enc.prev_value) (p.fresh none)
          ∙ append-nil p.taken))
        p.holds

  ended :
      (enc : Encoder) (values : List ℕ)
      → Progress enc values
      → length values < 2 ^ 31
      → Ended a start budget w hw enc values (end_run a enc)
  ended enc values p small =
      subst (λ t. Ended a start budget w hw enc t (end_run a enc)) (sym p.parts)
        (end_run-Ended a start budget w hw enc p.taken p.holds p.prev
          (omega (arith, run-le enc values p)))

  -- With values that fit a width of at most 32 bits and fewer than 2^31 of them so far, `put`
  -- succeeds, and the encoder then holds the values put before and the new one, in their order:
  -- in the stream written, in the group that fills, or in the run that is counted.
  pub put-Progress :
      (enc : Encoder) (values : List ℕ) (v : ℕ)
      → Progress enc values
      → v < 2 ^ w
      → length values < 2 ^ 31
      → ((put a enc v).0 ≡ ok) × Progress (put a enc v).1 (values ++ (v ∷ []))
  unfolding put
  put-Progress enc values v p hv small =
      let good : is_ok enc.status ≡ true = ap is_ok p.good in
      rw good (elim (Bool-cases enc.has_prev) [
        | inl has ↦
            let has' : not enc.has_prev ≡ false = ap not has in
            rw has' (elim (Bool-cases (v == enc.prev_value)) [
              | inl same ↦ rw same (
                refl,
                subst
                    (λ t.
                      Progress (record enc { repeat_count = enc.repeat_count + 1 })
                        (values ++ (t ∷ [])))
                    (sym (==→eq v enc.prev_value same))
                    (longer_run enc values 1 p has (omega arith)),
              )
              | inr other ↦
                  let e = ended enc values p small in
                  rw other (
                    refl,
                    new_run (end_run a enc) values v 1 (end_run a enc).has_prev e.holds hv
                        (e.same.good ∙ p.good) (omega arith) (e.same.has ∙ has),
                  )
            ])
        | inr none ↦
            let none' : not enc.has_prev ≡ true = ap not none in
            rw none' (
              refl,
              new_run enc values v 1 true (fresh_taken enc values p none) hv p.good (omega arith)
                  refl,
            )
      ])

  put_other :
      (enc : Encoder) (v : ℕ)
      → enc.status ≡ ok
      → enc.has_prev ≡ true
      → (v == enc.prev_value) ≡ false
      → put a enc v ≡ (ok, record (end_run a enc) { prev_value = v; repeat_count = 1 })
  unfolding put
  put_other enc v good has other =
      let good' : is_ok enc.status ≡ true = ap is_ok good in
      let has' : not enc.has_prev ≡ false = ap not has in rw (good', has', other) refl

  -- With a value that fits a width of at most 32 bits and fewer than 2^31 values put before,
  -- which with `n` more are fewer than 2^63, `put_repeat` succeeds, and the encoder then holds
  -- the values put before and behind them `n` times the new one.
  pub put_repeat-Progress :
      (enc : Encoder) (values : List ℕ) (v n : ℕ)
      → Progress enc values
      → v < 2 ^ w
      → length values < 2 ^ 31
      → length values + n < 2 ^ 63
      → ((put_repeat a enc v n).0 ≡ ok)
        × Progress (put_repeat a enc v n).1 (values ++ replicate n v)
  unfolding put_repeat
  put_repeat-Progress enc values v zero p hv small long =
      (p.good, subst (Progress enc) (sym (append-nil values)) p)
  put_repeat-Progress enc values v (suc n) p hv small long =
      let some : (suc n == 0) ≡ false = ground arith in
      let good : is_ok enc.status ≡ true = ap is_ok p.good in
      rw (some, good)
        (elim (Bool-cases enc.has_prev) [
          | inl has ↦
              let has' : not enc.has_prev ≡ false = ap not has in
              elim (Bool-cases (v == enc.prev_value)) [
                | inl same ↦
                    let run : enc.has_prev && (v == enc.prev_value) ≡ true = rw has same in
                    let sum : (enc.repeat_count + suc n) % 2 ^ 64 ≡ enc.repeat_count + suc n =
                      omega (arith, run-le enc values p) in
                    rw (run, sum)
                      (
                        refl,
                        subst
                            (λ t.
                              Progress (record enc { repeat_count = enc.repeat_count + suc n })
                                (values ++ replicate (suc n) t))
                            (sym (==→eq v enc.prev_value same))
                            (longer_run enc values (suc n) p has (omega arith)),
                      )
                | inr other ↦
                    let run : enc.has_prev && (v == enc.prev_value) ≡ false = rw has other in
                    let count : (1 + (suc n - 1)) % 2 ^ 64 ≡ suc n = omega arith in
                    let e = ended enc values p small in
                    rw (run, has', put_other enc v p.good has other, count)
                      (
                        refl,
                        new_run (end_run a enc) values v (suc n) (end_run a enc).has_prev e.holds hv
                            (e.same.good ∙ p.good) (omega arith) (e.same.has ∙ has),
                      )
              ]
          | inr none ↦
              let none' : not enc.has_prev ≡ true = ap not none in
              let never : enc.has_prev && (v == enc.prev_value) ≡ false = rw none in
              rw (never, none')
                (
                  refl,
                  new_run enc values v (suc n) true (fresh_taken enc values p none) hv p.good
                      (omega arith) refl,
                )
        ])

  pub init-Progress : Wrote a start budget [] start → Progress (init start w) []
  unfolding init
  init-Progress wrote = record {
    taken = [];
    holds = record {
      seen = [];
      emitted = record { out = []; wrote = wrote; encodes = finished };
      parts = refl;
      width = refl;
      total = refl;
      short = omega arith;
      below = tt;
    };
    parts = refl;
    prev = two-pow-pos w;
    good = refl;
    fresh = λ e. refl;
    idle = λ e. refl;
  }

  -- With no group begun, everything is in the stream.
  nothing_waits :
      (enc : Encoder) (values : List ℕ) (room : ℕ)
      → Holds a start budget w room enc values
      → enc.bitpack_buffer ≡ []
      → Emitted a start budget w enc.buffer values
  nothing_waits enc values room h empty =
      subst (Emitted a start budget w enc.buffer)
        (sym (h.parts ∙ ap (λ t. h.seen ++ t) empty ∙ append-nil h.seen)) h.emitted

  long_run :
      (enc : Encoder) (values : List ℕ)
      → Holds a start budget w 8 enc values
      → enc.prev_value < 2 ^ w
      → 8 ≤ enc.repeat_count
      → enc.repeat_count < 2 ^ 31
      → Emitted a start budget w
          (flush_rle a (flush_bitpack a enc)).buffer
          (values ++ replicate enc.repeat_count enc.prev_value)
  unfolding flush_rle
  long_run enc values h prev long small =
      let f =
        flush_bitpack-Flushed a start budget w enc values hw
          (Holds-more a start budget w hw enc values h) in
      let some : ((flush_bitpack a enc).repeat_count == 0) ≡ false = rw f.count (ground arith) in
      rw some (
        flush_rle-Emitted a start budget w hw enc (flush_bitpack a enc) values f h.width prev
          (omega arith) small)

  short_run :
      (pushed : Encoder) (values : List ℕ)
      → Holds a start budget w 8 pushed values
      → Emitted a start budget w
          (if ltb 0 (length pushed.bitpack_buffer) then flush_bitpack a pushed else pushed).buffer
          values
  short_run pushed values h = elim (Bool-cases (ltb 0 (length pushed.bitpack_buffer))) [
    | inl some ↦
        rw some
          (flush_bitpack-Flushed a start budget w pushed values hw
            (Holds-more a start budget w hw pushed values h)).emitted
    | inr none ↦ rw none (
        nothing_waits pushed values 8 h
          (empty_list pushed.bitpack_buffer (omega (arith, ltb-false→le _ _ none))))
  ]

  -- With fewer than 2^31 values put, `flush` succeeds, and what was appended to the output is a
  -- stream of all of them, as long as it is not more than the budget that the output had room
  -- for.
  pub flush-Emitted :
      (enc : Encoder) (values : List ℕ)
      → Progress enc values
      → length values < 2 ^ 31
      → ((flush a enc).0 ≡ ok) × Emitted a start budget w (flush a enc).1.buffer values
  unfolding flush
  flush-Emitted enc values p small =
      let good : is_ok enc.status ≡ true = ap is_ok p.good in
      let bound : enc.repeat_count < 2 ^ 31 = omega (arith, run-le enc values p) in
      rw good (elim (Bool-cases (leb 8 enc.repeat_count)) [
        | inl long ↦ rw long (
          refl,
          subst (Emitted a start budget w (flush_rle a (flush_bitpack a enc)).buffer) (sym p.parts)
              (long_run enc p.taken p.holds p.prev (leb→le _ _ long) bound),
        )
        | inr short ↦ rw short (elim (Bool-cases (ltb 0 enc.repeat_count)) [
          | inl some ↦
              let pushed = record (push_repeats a enc.repeat_count enc) { repeat_count = 0 } in
              let e = Pushed-Ended a start budget w hw enc (push_repeats a enc.repeat_count enc) _ (
                push_repeats-Pushed a start budget w hw enc.repeat_count enc p.taken p.holds
                  p.prev) in
              rw some (
                refl,
                short_run pushed values
                    (subst (Holds a start budget w 8 pushed) (sym p.parts) e.holds),
              )
          | inr none ↦
              let zero_count : enc.repeat_count ≡ 0 = omega (arith, ltb-false→le _ _ none) in
              rw none (
                refl,
                nothing_waits enc values 8
                    (subst (Holds a start budget w 8 enc)
                      (sym (
                        p.parts
                        ∙ ap (λ n. p.taken ++ replicate n enc.prev_value) zero_count
                        ∙ append-nil p.taken))
                      p.holds)
                    (p.idle zero_count),
              )
        ])
      ])
