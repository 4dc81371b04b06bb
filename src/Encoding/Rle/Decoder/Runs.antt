-- ===== src/Encoding/Rle/Decoder/Runs.antt =====
-- What the decoder reads from the run that it stands in.
use carquet.Prelude.{ℕ, zero, suc, ◌+◌, ◌-◌, ◌<◌, ◌≤◌, ◌≡◌, refl, arith, ap, ◌∙◌, sym, subst, ◌⊎◌}
use carquet.Prelude.{true, false, Bool-cases, inl, inr, ltb}
use carquet.Prelude.{List, [], ◌++◌, length, take, replicate, min, append_assoc, ◌&&◌}
use carquet.Prelude.{
  length-append, length-take, length-replicate, replicate-add, lt→ltb, le→ltb-false, if-true,
  if-false,
}
use carquet.Encoding.Rle.Decoder.{Decoder, need_values, copied, advance, get_packed, get_run}
use carquet.Encoding.Rle.Decoder.Start.{Running, repeats, groups, Pending}
use carquet.Encoding.Rle.Decoder.Packed.{
  InGroups, InGroups-Pending, need_values-Filled, advance-InGroups, copied_lem,
}

-- `n` values were read, and the rest is left to read.
pub record Read (w : ℕ) (values : List ℕ) (n : ℕ) (out : List ℕ × Decoder) : Type 0 where
  pub rest : List ℕ
  pub parts : values ≡ out.0 ++ rest
  pub pending : Pending w out.1 rest
  pub count : length out.0 ≡ n

get_packed_ends :
    (rounds : ℕ) (dec : Decoder) (left : ℕ)
    → (ltb 0 left && ltb 0 dec.run_remaining) ≡ false
    → get_packed rounds dec left ≡ ([], dec)
unfolding get_packed
get_packed_ends zero dec left e = refl
get_packed_ends (suc rounds) dec left e = rw e refl

get_packed_step :
    (rounds : ℕ) (dec : Decoder) (left : ℕ) (n : ℕ)
    → 0 < left
    → 0 < dec.run_remaining
    → (need_values dec).0 ≡ true
    → min (min (length (need_values dec).1.unread) left) (need_values dec).1.run_remaining ≡ n
    → n ≤ length (need_values dec).1.unread
    → get_packed (suc rounds) dec left ≡ (
      take n (need_values dec).1.unread
          ++ (get_packed rounds (advance n (need_values dec).1) (left - n)).0,
      (get_packed rounds (advance n (need_values dec).1) (left - n)).1,
    )
unfolding get_packed
get_packed_step rounds dec left n more running filled count fits =
    let ready = (need_values dec).1 in
    let going : ltb 0 left && ltb 0 dec.run_remaining ≡ true =
      rw (lt→ltb 0 left more, lt→ltb 0 dec.run_remaining running) refl in
    let part : copied left ready.run_remaining ready.unread ≡ take n ready.unread =
      copied_lem left ready.run_remaining ready.unread ∙ ap (λ k. take k ready.unread) count in
    let size : length (take n ready.unread) ≡ n = omega (arith, length-take n ready.unread) in
    rw (going, filled, part, size) refl

pub no_more :
    (w : ℕ) (dec : Decoder) (values : List ℕ) (n : ℕ)
    → Pending w dec values
    → n ≡ 0
    → Read w values n ([], dec)
no_more w dec values n p none_wanted = record {
  rest = values;
  parts = refl;
  pending = p;
  count = sym none_wanted;
}

-- A part of `n` values, and then the rest of what was wanted.
pub then_more :
    (w : ℕ) (values part after : List ℕ) (n wanted : ℕ) (out : List ℕ × Decoder)
    → values ≡ part ++ after
    → Read w after n out
    → length part + n ≡ wanted
    → Read w values wanted (part ++ out.0, out.1)
then_more w values part after n wanted out parts r sum = record {
  rest = r.rest;
  parts = parts ∙ ap (λ t. part ++ t) r.parts ∙ sym (append_assoc part out.0 r.rest);
  pending = r.pending;
  count = omega (arith, length-append part out.0, r.count);
}

get_packed-Read :
    (rounds w : ℕ) (dec : Decoder) (values : List ℕ) (left : ℕ)
    → w ≤ 32
    → InGroups w dec values
    → left ≤ rounds
    → Read w values (min left dec.run_remaining) (get_packed rounds dec left)
unfolding advance
get_packed-Read zero w dec values left hw p enough =
    let ends : (ltb 0 left && ltb 0 dec.run_remaining) ≡ false =
      rw (le→ltb-false 0 left enough) refl in
    rw (get_packed_ends zero dec left ends)
      (no_more w dec values _ (InGroups-Pending w dec values p) (omega arith))
get_packed-Read (suc rounds) w dec values left hw p enough =
    elim (Bool-cases (ltb 0 left && ltb 0 dec.run_remaining)) [
      | inl going ↦
          let (more, running) : (0 < left) × (0 < dec.run_remaining) = ground arith in
          let f = need_values-Filled w dec values hw p running in
          let ready = (need_values dec).1 in
          let n = min (length ready.unread) left in
          let all : min (min (length ready.unread) left) ready.run_remaining ≡ n =
            omega (arith, f.inner.count) in
          let fit : n ≤ length ready.unread = omega arith in
          let (parts, after) = advance-InGroups w n ready values f.inner fit in
          rw (get_packed_step rounds dec left n more running f.filled all fit) (
            then_more w values (take n ready.unread) _ _ _ _ parts
              (get_packed-Read rounds w (advance n ready) _ (left - n) hw after
                (omega (arith, f.some)))
              (omega (arith, length-take n ready.unread, f.same, f.inner.count)))
      | inr ends ↦
          rw (get_packed_ends (suc rounds) dec left ends)
            (no_more w dec values _ (InGroups-Pending w dec values p) (ground arith))
    ]

-- What is left of a repeated value.
pub repeated_part :
    (w m : ℕ) (dec : Decoder) (values : List ℕ) (p : Pending w dec values)
    → dec.in_rle_run ≡ true
    → p.now ≡ replicate dec.run_remaining dec.rle_value
    → dec.input ≡ p.tail
    → m ≤ dec.run_remaining
    → Read w values m
        (replicate m dec.rle_value, record dec { run_remaining = dec.run_remaining - m })
repeated_part w m dec values p kind now input hm =
    let v = dec.rle_value in
    let left = dec.run_remaining - m in
    let sum : dec.run_remaining ≡ m + left = omega arith in
    record {
      rest = replicate left v ++ p.later;
      parts =
          p.parts
          ∙ ap (λ t. t ++ p.later) (now ∙ ap (λ n. replicate n v) sum ∙ replicate-add m left v)
          ∙ append_assoc (replicate m v) (replicate left v) p.later;
      pending = record {
        good = p.good;
        width = p.width;
        mask = p.mask;
        now = replicate left v;
        later = p.later;
        tail = p.tail;
        parts = refl;
        run = repeats kind input;
        stream = p.stream;
      };
      count = length-replicate m v;
    }

-- The run that a decoder stands in, either of the two.
pub which_run :
    {w : ℕ} {dec : Decoder} {values : List ℕ} (p : Pending w dec values)
    → ((dec.in_rle_run ≡ true)
        × (p.now ≡ replicate dec.run_remaining dec.rle_value)
        × (dec.input ≡ p.tail))
      ⊎ InGroups w dec values
which_run {w} {dec} {values} p = by_kind p.parts p.run
  where
    by_kind :
        {now : List ℕ}
        → values ≡ now ++ p.later
        → Running w dec now p.tail
        → ((dec.in_rle_run ≡ true)
            × (now ≡ replicate dec.run_remaining dec.rle_value)
            × (dec.input ≡ p.tail))
          ⊎ InGroups w dec values
    by_kind parts (repeats kind input) = inl (kind, refl, input)
    by_kind parts (groups g gs kind input size fits count) = inr (record {
      good = p.good;
      width = p.width;
      mask = p.mask;
      kind = kind;
      g = g;
      gs = gs;
      tail = p.tail;
      later = p.later;
      parts = parts ∙ append_assoc dec.unread gs p.later;
      input = input;
      size = size;
      fits = fits;
      count = count;
      stream = p.stream;
    })

-- One run gives all that is wanted or all that it has.
pub get_run-Read :
    (w : ℕ) (dec : Decoder) (values : List ℕ) (left : ℕ)
    → w ≤ 32
    → Pending w dec values
    → Read w values (min left dec.run_remaining) (get_run dec left)
unfolding get_run
get_run-Read w dec values left hw p = elim (which_run p) [
  | inl (kind, now, input) ↦
      subst (Read w values (min left dec.run_remaining)) (sym (if-true dec.in_rle_run _ _ kind))
        (repeated_part w (min left dec.run_remaining) dec values p kind now input (omega arith))
  | inr inner ↦
      subst (Read w values (min left dec.run_remaining))
        (sym (if-false dec.in_rle_run _ _ inner.kind))
        (get_packed-Read left w dec values left hw inner (omega arith))
]
