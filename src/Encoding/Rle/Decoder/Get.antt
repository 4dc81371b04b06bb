-- ===== src/Encoding/Rle/Decoder/Get.antt =====
-- Reading a single value.
use carquet.Prelude.{ℕ, ◌-◌, ◌<◌, ◌≤◌, ◌≡◌, refl, arith, ap, ◌∙◌, sym, subst}
use carquet.Prelude.{true, false, not, Bool-cases, inl, inr, if◌then◌else◌, if-true, if-false}
use carquet.Prelude.{List, [], ◌∷◌, ◌++◌, length, take, drop, get_or}
use carquet.Core.Status.{is_ok}
use carquet.Encoding.Rle.Decoder.{
  Decoder, need_values, need_run, advance, get, next_value, has_next,
}
use carquet.Encoding.Rle.Decoder.Start.{Pending}
use carquet.Encoding.Rle.Decoder.Packed.{InGroups-Pending, need_values-Filled, advance-InGroups}
use carquet.Encoding.Rle.Decoder.Runs.{which_run, repeated_part}
use carquet.Encoding.Rle.Decoder.Batch.{need_run-Begun, no_next}

next_value_lem :
    (xs : List ℕ)
    → 0 < length xs
    → (take 1 xs ≡ (next_value xs).0 ∷ []) × ((next_value xs).1 ≡ drop 1 xs)
unfolding next_value
next_value_lem [] h = absurd (omega arith)
next_value_lem (x ∷ xs) h = (refl, refl)

-- `get` on a decoder whose run has been found.
get_run_lem :
    (dec : Decoder)
    → is_ok dec.status ≡ true
    → (need_run dec).0 ≡ true
    → get dec ≡ (
        if (need_run dec).1.in_rle_run
        then (
          (need_run dec).1.rle_value,
          record (need_run dec).1 { run_remaining = (need_run dec).1.run_remaining - 1 },
        )
        else if not (need_values (need_run dec).1).0
        then (0, (need_values (need_run dec).1).1)
        else (
          (next_value (need_values (need_run dec).1).1.unread).0,
          record (need_values (need_run dec).1).1 {
            unread = (next_value (need_values (need_run dec).1).1.unread).1;
            run_remaining = (need_values (need_run dec).1).1.run_remaining - 1;
          },
        ))
unfolding get
get_run_lem dec good started = rw (good, started) refl

-- The value that stands first, and the others.
first_value :
    (w v : ℕ) (values : List ℕ) (x : ℕ) (rest : List ℕ) (dec : Decoder)
    → v ∷ values ≡ x ∷ rest
    → Pending w dec rest
    → (x ≡ v) × Pending w dec values
first_value w v values x rest dec parts p =
    (sym (ap (λ t. get_or t 0 0) parts), subst (Pending w dec) (sym (ap (λ t. drop 1 t) parts)) p)

-- On a decoder that has met no error and has a value still to give, at a width of at most 32
-- bits, `get` gives the first one and leaves a decoder that has the others still to give.
pub get-Pending :
    (w : ℕ) (dec : Decoder) (v : ℕ) (values : List ℕ)
    → w ≤ 32
    → Pending w dec (v ∷ values)
    → ((get dec).0 ≡ v) × Pending w (get dec).1 values
unfolding advance
get-Pending w dec v values hw p =
    let b = need_run-Begun w dec (v ∷ values) hw p next in
    let run = (need_run dec).1 in
    rw (get_run_lem dec (ap is_ok p.good) b.started) (elim (which_run b.pending) [
      | inl (kind, now, input) ↦
          let part = repeated_part w 1 run (v ∷ values) b.pending kind now input b.some in
          subst (λ (r : ℕ × Decoder). (r.0 ≡ v) × Pending w r.1 values)
            (sym (if-true run.in_rle_run _ _ kind))
            (first_value w v values run.rle_value part.rest _ part.parts part.pending)
      | inr inner ↦
          let f = need_values-Filled w run (v ∷ values) hw inner b.some in
          let ready = (need_values run).1 in
          let (value, others) = next_value_lem ready.unread f.some in
          let (parts, after) =
            advance-InGroups w 1 ready (v ∷ values) f.inner (omega (arith, f.some)) in
          let fine : not (need_values run).0 ≡ false = ap not f.filled in
          subst (λ (r : ℕ × Decoder). (r.0 ≡ v) × Pending w r.1 values)
            (sym (if-false run.in_rle_run _ _ inner.kind ∙ if-false _ _ _ fine))
            (rw others (
              first_value w v values (next_value ready.unread).0 _ (advance 1 ready)
                (parts
                  ∙ ap (λ t. t ++ (drop 1 ready.unread ++ (f.inner.gs ++ f.inner.later))) value)
                (InGroups-Pending w (advance 1 ready) _ after)))
    ])
  where
    next : has_next dec ≡ true
    next = elim (Bool-cases (has_next dec)) [
      | inl more ↦ more
      | inr over ↦ absurd (omega (arith, no_next w dec (v ∷ values) p over))
    ]
