-- ===== src/Encoding/Rle/Decoder/Batch.antt =====
-- What a batch reads, run after run.
use carquet.Prelude.{
  ℕ, zero, suc, ◌+◌, ◌-◌, ◌*◌, ◌/◌, ◌^◌, ◌<◌, ◌≤◌, ◌≡◌, refl, arith, ap, ◌∙◌, sym, subst, ◌⊎◌,
}
use carquet.Prelude.{Bool, true, false, not, Bool-cases, inl, inr, ltb, ◌==◌, ==→eq, ==-false→ne}
use carquet.Prelude.{List, [], ◌++◌, length, take, drop, replicate, min, ◌&&◌}
use carquet.Encoding.Rle.Decoder.Runs.{Read, no_more, then_more, get_run-Read}
use carquet.Prelude.{take_all}
use carquet.Prelude.{
  length-append, length-replicate, lt→ltb, le→ltb-false, digits, ltb-false→le, ltb→lt,
  take-append_self, drop-append_self,
}
use carquet.Core.Bitpack.{pack_groups}
use carquet.Core.Bitpack.Unpack.{mask32}
use carquet.Core.Status.{ok, is_ok}
use carquet.Encoding.Rle.Format.{
  Encodes, finished, repeated, packed, encode_varint32-header, group_bytes,
}
use carquet.Encoding.Rle.Decoder.{Decoder, need_run, get_run, get_loop, get_batch}
use carquet.Encoding.Rle.Decoder.{start_new_run, start_run_loop, has_next, init, decode_all}
use carquet.Encoding.Rle.Decoder.Start.{
  groups, Pending, Begun, between_runs, start_run_loop-Begun, encode_varint32_some,
}

-- A stream that has values has bytes, and one that has bytes has values.
Encodes-nonempty :
    {w : ℕ} {bytes values : List ℕ}
    → Encodes w bytes values
    → ((length bytes ≡ 0) × (length values ≡ 0)) ⊎ ((0 < length bytes) × (0 < length values))
Encodes-nonempty finished = inl (refl, refl)
Encodes-nonempty {w} (repeated n v {bytes} {values} pos small fits rest) = inr (
  subst (λ h. 0 < length (h ++ (digits 256 ((w + 7) / 8) v ++ bytes)))
      (encode_varint32-header (2 * n) (omega arith))
      (ground
        (arith, encode_varint32_some (2 * n) (digits 256 ((w + 7) / 8) v ++ bytes) (omega arith))),
  omega (arith, length-append (replicate n v) values, length-replicate n v),
)
Encodes-nonempty {w} (packed g vs {bytes} {values} pos small size fits rest) = inr (
  subst (λ h. 0 < length (h ++ (group_bytes w g vs ++ bytes)))
      (encode_varint32-header (2 * g + 1) (omega arith))
      (ground
        (arith, encode_varint32_some (2 * g + 1) (group_bytes w g vs ++ bytes) (omega arith))),
  omega (arith, length-append vs values),
)

some_values :
    {w : ℕ} {bytes values : List ℕ} → Encodes w bytes values → 0 < length bytes → 0 < length values
some_values e h = elim (Encodes-nonempty e) [
  | inl (no_bytes, _) ↦ absurd (omega arith)
  | inr (_, values) ↦ values
]

begun :
    (n w : ℕ) (dec : Decoder) {values : List ℕ}
    → w ≤ 32
    → dec.status ≡ ok
    → dec.bit_width ≡ w
    → dec.value_mask ≡ 2 ^ w - 1
    → Encodes w dec.input values
    → 0 < length values
    → 0 < n
    → Begun w values (start_run_loop n dec)
begun zero w dec hw good width mask stream left pos = absurd (omega arith)
begun (suc n) w dec hw good width mask stream left pos =
    start_run_loop-Begun n w dec hw good width mask refl stream left

next_input :
    (dec : Decoder)
    → dec.status ≡ ok
    → dec.run_remaining ≡ 0
    → has_next dec ≡ ltb 0 (length dec.input)
unfolding has_next
next_input dec good empty =
    let fine : not (is_ok dec.status) ≡ false = ap (λ s. not (is_ok s)) good in
    let over : ltb 0 dec.run_remaining ≡ false = le→ltb-false 0 dec.run_remaining (omega arith) in
    rw (fine, over) refl

-- Where nothing is next, nothing is left.
pub no_next :
    (w : ℕ) (dec : Decoder) (values : List ℕ)
    → Pending w dec values
    → has_next dec ≡ false
    → length values ≡ 0
unfolding has_next
no_next w dec values p over = elim (Bool-cases (ltb 0 dec.run_remaining)) [
  | inl running ↦
      let fine : not (is_ok dec.status) ≡ false = ap (λ s. not (is_ok s)) p.good in
      let going : has_next dec ≡ true = rw (fine, running) refl in absurd (cc (over, going))
  | inr idle ↦
      let empty : dec.run_remaining ≡ 0 = omega (arith, ltb-false→le _ _ idle) in
      let no_bytes : ltb 0 (length dec.input) ≡ false = sym (next_input dec p.good empty) ∙ over in
      elim (Encodes-nonempty (between_runs w dec values p empty)) [
        | inl (_, nothing) ↦ nothing
        | inr (bytes, _) ↦ absurd (omega (arith, ltb-false→le _ _ no_bytes))
      ]
]

-- A decoder that has values left has a run begun, or begins one.
pub need_run-Begun :
    (w : ℕ) (dec : Decoder) (values : List ℕ)
    → w ≤ 32
    → Pending w dec values
    → has_next dec ≡ true
    → Begun w values (need_run dec)
unfolding need_run has_next start_new_run
need_run-Begun w dec values hw p next = elim (Bool-cases (dec.run_remaining == 0)) [
  | inl empty ↦
      let over : dec.run_remaining ≡ 0 = ==→eq _ _ empty in
      let stream = between_runs w dec values p over in
      let bytes : 0 < length dec.input = ltb→lt _ _ (sym (next_input dec p.good over) ∙ next) in
      rw empty (
        begun (length dec.input) w dec hw p.good p.width p.mask stream (some_values stream bytes)
          bytes)
  | inr some ↦
      rw some (record { started = refl; pending = p; some = omega (arith, ==-false→ne _ _ some) })
]

get_loop_stops :
    (rounds : ℕ) (dec : Decoder) (left : ℕ)
    → (ltb 0 left && has_next dec) ≡ false
    → get_loop rounds dec left ≡ ([], dec)
unfolding get_loop
get_loop_stops zero dec left e = refl
get_loop_stops (suc rounds) dec left e = rw e refl

get_loop_step :
    (rounds : ℕ) (dec : Decoder) (left : ℕ)
    → (ltb 0 left && has_next dec) ≡ true
    → (need_run dec).0 ≡ true
    → get_loop (suc rounds) dec left ≡ (
      (get_run (need_run dec).1 left).0
          ++ (get_loop rounds
              (get_run (need_run dec).1 left).1
              (left - length (get_run (need_run dec).1 left).0)).0,
      (get_loop rounds
          (get_run (need_run dec).1 left).1
          (left - length (get_run (need_run dec).1 left).0)).1,
    )
unfolding get_loop
get_loop_step rounds dec left going started = rw (going, started) refl

wanted : (left : ℕ) (next : Bool) → (ltb 0 left && next) ≡ true → (0 < left) × (next ≡ true)
wanted zero next e = absurd (cc (e))
wanted (suc left) next e = (omega arith, (rw (lt→ltb 0 (suc left) (omega arith)) at e))

-- The loop goes on until enough is read or nothing is left.
no_more_wanted :
    (w : ℕ) (dec : Decoder) (values : List ℕ) (left : ℕ)
    → Pending w dec values
    → (ltb 0 left && has_next dec) ≡ false
    → min left (length values) ≡ 0
no_more_wanted w dec values left p e = elim (Bool-cases (ltb 0 left)) [
  | inl more ↦
      let over : has_next dec ≡ false = rw more at e in omega (arith, no_next w dec values p over)
  | inr nothing ↦ omega (arith, ltb-false→le _ _ nothing)
]

get_loop-Read :
    (rounds w : ℕ) (dec : Decoder) (values : List ℕ) (left : ℕ)
    → w ≤ 32
    → Pending w dec values
    → left ≤ rounds
    → Read w values (min left (length values)) (get_loop rounds dec left)
get_loop-Read zero w dec values left hw p enough =
    let ends : (ltb 0 left && has_next dec) ≡ false = rw (le→ltb-false 0 left enough) refl in
    rw (get_loop_stops zero dec left ends) (no_more w dec values _ p (omega arith))
get_loop-Read (suc rounds) w dec values left hw p enough =
    elim (Bool-cases (ltb 0 left && has_next dec)) [
      | inl going ↦
          let (more, next) = wanted left (has_next dec) going in
          let b = need_run-Begun w dec values hw p next in
          let run = (need_run dec).1 in
          let part = get_run-Read w run values left hw b.pending in
          rw (get_loop_step rounds dec left going b.started) (
            then_more w values (get_run run left).0 part.rest
              (min (left - length (get_run run left).0) (length part.rest))
              (min left (length values)) _ part.parts
              (get_loop-Read rounds w (get_run run left).1 part.rest
                (left - length (get_run run left).0) hw part.pending
                (omega (arith, part.count, b.some)))
              (omega (
                arith,
                part.count,
                ap length part.parts,
                length-append (get_run run left).0 part.rest,
              )))
      | inr ends ↦
          rw (get_loop_stops (suc rounds) dec left ends)
            (no_more w dec values _ p (no_more_wanted w dec values left p ends))
    ]

-- A batch is the first values that are left, as many as are wanted, and the decoder goes on behind
-- them.
pub get_batch-Read :
    (w : ℕ) (dec : Decoder) (values : List ℕ) (count : ℕ)
    → w ≤ 32
    → Pending w dec values
    → Read w values (min count (length values)) (get_batch dec count)
unfolding get_batch
get_batch-Read w dec values count hw p =
    get_loop-Read (count + 1) w dec values count hw p (omega arith)

pub init-Pending :
    (w : ℕ) (input values : List ℕ)
    → w ≤ 32
    → Encodes w input values
    → Pending w (init input w) values
unfolding init pack_groups
init-Pending w input values hw stream =
    let narrow : ltb 32 w ≡ false = le→ltb-false 32 w hw in
    rw (narrow, mask32 w hw)
      (record {
        good = refl;
        width = refl;
        mask = refl;
        now = [];
        later = values;
        tail = input;
        parts = refl;
        run = groups 0 [] refl refl refl tt refl;
        stream = stream;
      })

pub take_parts :
    {w : ℕ} {values : List ℕ} {n : ℕ} {out : List ℕ × Decoder}
    → Read w values n out
    → (out.0 ≡ take n values) × Pending w out.1 (drop n values)
take_parts {w} {values} {n} {out} r =
    let front : take n values ≡ out.0 =
      ap (take n) r.parts
      ∙ subst (λ k. take k (out.0 ++ r.rest) ≡ out.0) r.count (take-append_self out.0 r.rest) in
    let behind : drop n values ≡ r.rest =
      ap (drop n) r.parts
      ∙ subst (λ k. drop k (out.0 ++ r.rest) ≡ r.rest) r.count (drop-append_self out.0 r.rest) in
    (sym front, subst (Pending w out.1) (sym behind) r.pending)

-- On a decoder that has met no error and has `values` still to give, at a width of at most 32
-- bits, `get_batch` gives the first `count` of them, or all if there are fewer, and leaves a
-- decoder that has the others still to give.
pub get_batch-Pending :
    (w : ℕ) (dec : Decoder) (values : List ℕ) (count : ℕ)
    → w ≤ 32
    → Pending w dec values
    → ((get_batch dec count).0 ≡ take (min count (length values)) values)
      × Pending w (get_batch dec count).1 (drop (min count (length values)) values)
get_batch-Pending w dec values count hw p = take_parts (get_batch-Read w dec values count hw p)

-- For a width of at most 32 bits, `decode_all` gives the values of any stream that the format
-- allows, however the encoder chose its runs, when as many values are asked for as the stream
-- has.
pub decode_all-Encodes :
    (w : ℕ) (input values : List ℕ)
    → w ≤ 32
    → Encodes w input values
    → decode_all input w (length values) ≡ values
unfolding decode_all
decode_all-Encodes w input values hw stream =
    let n : min (length values) (length values) ≡ length values = omega arith in
    (get_batch-Pending w _ values (length values) hw (init-Pending w input values hw stream)).0
    ∙ ap (λ n. take n values) n
    ∙ take_all (length values) values (omega arith)
