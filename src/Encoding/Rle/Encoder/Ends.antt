-- ===== src/Encoding/Rle/Encoder/Ends.antt =====
-- How the encoder takes over a run that ends.
use carquet.Prelude.{ℕ, zero, suc, ◌+◌, ◌^◌, ◌<◌, ◌≤◌, ◌≡◌, refl, arith, ap, ◌∙◌, sym, subst}
use carquet.Prelude.{false, Bool-cases, inl, inr, leb, ◌==◌, ==-false→ne}
use carquet.Prelude.{List, [], ◌∷◌, ◌++◌, length, All, replicate, IsDigit, append-nil, leb→le}
use carquet.Prelude.{append_assoc, All-append, length-append}
use mathlib.Core.Path.{subst₃}
use carquet.Core.Buffer.{Allocator, Buffer}
use carquet.Encoding.Rle.Encoder.{
  Encoder, emit, flush_rle, flush_bitpack, push, push_repeats, end_run,
}
use carquet.Encoding.Rle.Encoder.{run_bytes}
use carquet.Encoding.Rle.Encoder.Writes.{Emitted, emit_run}
use carquet.Encoding.Rle.Encoder.Groups.{SameRun, Holds, Flushed, flush_bitpack-Flushed}

SameRun-trans : {x y z : Encoder} → SameRun x y → SameRun y z → SameRun x z
SameRun-trans p q = record {
  width = q.width ∙ p.width;
  prev = q.prev ∙ p.prev;
  has = q.has ∙ p.has;
  good = q.good ∙ p.good;
}

module _ (a : Allocator) (start : Buffer) (budget w : ℕ) (hw : w ≤ 32) where
  -- A flushed encoder holds its values, with no group begun.
  pub Flushed-Holds :
      (enc enc' : Encoder) (values : List ℕ)
      → enc.bit_width ≡ w
      → Flushed a start budget w enc values enc'
      → Holds a start budget w 8 enc' values
  Flushed-Holds enc enc' values width f = record {
    seen = values;
    emitted = f.emitted;
    parts = sym (ap (λ t. values ++ t) f.empty ∙ append-nil values);
    width = f.same.width ∙ width;
    total = f.none ∙ sym (ap length f.empty);
    short = omega (arith, ap length f.empty);
    below = subst (All (IsDigit (2 ^ w))) (sym f.empty) tt;
  }

  pub record Pushed (enc : Encoder) (values : List ℕ) (enc' : Encoder) : Type 0 where
    pub holds : Holds a start budget w 8 enc' values
    pub same : SameRun enc enc'
    pub count : enc'.repeat_count ≡ enc.repeat_count

  push-Pushed :
      (enc : Encoder) (values : List ℕ)
      → Holds a start budget w 8 enc values
      → enc.prev_value < 2 ^ w
      → Pushed enc (values ++ (enc.prev_value ∷ [])) (push a enc)
  unfolding push
  push-Pushed enc values h prev =
      let wider = record enc {
        bitpack_buffer = enc.bitpack_buffer ++ (enc.prev_value ∷ []);
        bitpack_total = enc.bitpack_total + 1;
      } in
      let size : length wider.bitpack_buffer ≡ length enc.bitpack_buffer + 1 =
        length-append enc.bitpack_buffer (enc.prev_value ∷ []) in
      let held : (room : ℕ)
          → length wider.bitpack_buffer < room
          → Holds a start budget w room wider (values ++ (enc.prev_value ∷ [])) =
        λ room fits. record {
          seen = h.seen;
          emitted = h.emitted;
          parts =
              ap (λ t. t ++ (enc.prev_value ∷ [])) h.parts
              ∙ append_assoc h.seen enc.bitpack_buffer (enc.prev_value ∷ []);
          width = h.width;
          total = omega (arith, h.total, size);
          short = fits;
          below =
              All-append (IsDigit (2 ^ w)) enc.bitpack_buffer (enc.prev_value ∷ []) h.below
                (prev, tt);
        } in
      elim (Bool-cases (length wider.bitpack_buffer == 8)) [
        | inl full ↦
            let f =
              flush_bitpack-Flushed a start budget w wider (values ++ (enc.prev_value ∷ [])) hw
                (held 9 (omega (arith, size, h.short))) in
            rw full (record {
              holds = Flushed-Holds wider (flush_bitpack a wider) _ h.width f;
              same = record {
                width = f.same.width;
                prev = f.same.prev;
                has = f.same.has;
                good = f.same.good;
              };
              count = f.count;
            })
        | inr more ↦ rw more (record {
          holds = held 8 (omega (arith, size, h.short, ==-false→ne _ _ more));
          same = record { width = refl; prev = refl; has = refl; good = refl };
          count = refl;
        })
      ]

  pub push_repeats-Pushed :
      (n : ℕ) (enc : Encoder) (values : List ℕ)
      → Holds a start budget w 8 enc values
      → enc.prev_value < 2 ^ w
      → Pushed enc (values ++ replicate n enc.prev_value) (push_repeats a n enc)
  unfolding push_repeats
  push_repeats-Pushed zero enc values h prev = record {
    holds = subst (Holds a start budget w 8 enc) (sym (append-nil values)) h;
    same = record { width = refl; prev = refl; has = refl; good = refl };
    count = refl;
  }
  push_repeats-Pushed (suc n) enc values h prev =
      let first = push-Pushed enc values h prev in
      let rest =
        push_repeats-Pushed n (push a enc) (values ++ (enc.prev_value ∷ [])) first.holds
          (rw first.same.prev prev) in
      record {
        holds =
            subst (Holds a start budget w 8 (push_repeats a n (push a enc)))
              (ap (λ v. (values ++ (enc.prev_value ∷ [])) ++ replicate n v) first.same.prev
                ∙ append_assoc values (enc.prev_value ∷ []) (replicate n enc.prev_value))
              rest.holds;
        same = SameRun-trans first.same rest.same;
        count = rest.count ∙ first.count;
      }

  -- Ending a run takes its values over and leaves an empty run.
  pub record Ended (enc : Encoder) (values : List ℕ) (enc' : Encoder) : Type 0 where
    pub holds : Holds a start budget w 8 enc' values
    pub same : SameRun enc enc'
    pub count : enc'.repeat_count ≡ 0

  pub Holds-more :
      (enc : Encoder) (values : List ℕ)
      → Holds a start budget w 8 enc values
      → Holds a start budget w 9 enc values
  Holds-more enc values h = record {
    seen = h.seen;
    emitted = h.emitted;
    parts = h.parts;
    width = h.width;
    total = h.total;
    short = omega (arith, h.short);
    below = h.below;
  }

  -- The run goes behind the values that are flushed.
  pub flush_rle-Emitted :
      (enc mid : Encoder) (values : List ℕ)
      → Flushed a start budget w enc values mid
      → enc.bit_width ≡ w
      → enc.prev_value < 2 ^ w
      → 0 < enc.repeat_count
      → enc.repeat_count < 2 ^ 31
      → Emitted a start budget w
          (emit a mid.buffer (run_bytes mid.bit_width mid.repeat_count mid.prev_value))
          (values ++ replicate enc.repeat_count enc.prev_value)
  flush_rle-Emitted enc mid values f width prev pos small =
      subst₃
        (λ k n v.
          Emitted a start budget w (emit a mid.buffer (run_bytes k n v))
            (values ++ replicate enc.repeat_count enc.prev_value))
        (sym (f.same.width ∙ width)) (sym f.count) (sym f.same.prev)
        (emit_run a start budget w mid.buffer values enc.repeat_count enc.prev_value hw f.emitted
          pos small prev)

  flush_rle-Ended :
      (enc mid : Encoder) (values : List ℕ)
      → Flushed a start budget w enc values mid
      → enc.bit_width ≡ w
      → enc.prev_value < 2 ^ w
      → 0 < enc.repeat_count
      → enc.repeat_count < 2 ^ 31
      → Ended enc (values ++ replicate enc.repeat_count enc.prev_value) (flush_rle a mid)
  unfolding flush_rle
  flush_rle-Ended enc mid values f width prev pos small =
      let some : (mid.repeat_count == 0) ≡ false = rw f.count (ground arith) in
      rw some (record {
        holds = record {
          seen = values ++ replicate enc.repeat_count enc.prev_value;
          emitted = flush_rle-Emitted enc mid values f width prev pos small;
          parts = sym (
              ap (λ t. (values ++ replicate enc.repeat_count enc.prev_value) ++ t) f.empty
              ∙ append-nil _);
          width = f.same.width ∙ width;
          total = f.none ∙ sym (ap length f.empty);
          short = omega (arith, ap length f.empty);
          below = subst (All (IsDigit (2 ^ w))) (sym f.empty) tt;
        };
        same = record {
          width = f.same.width;
          prev = f.same.prev;
          has = f.same.has;
          good = f.same.good;
        };
        count = refl;
      })

  -- A long run is written as one, behind the group that waits.
  long_run-Ended :
      (enc : Encoder) (values : List ℕ)
      → Holds a start budget w 8 enc values
      → enc.prev_value < 2 ^ w
      → 8 ≤ enc.repeat_count
      → enc.repeat_count < 2 ^ 31
      → Ended enc
          (values ++ replicate enc.repeat_count enc.prev_value)
          (flush_rle a (flush_bitpack a enc))
  long_run-Ended enc values h prev long small =
      flush_rle-Ended enc (flush_bitpack a enc) values
        (flush_bitpack-Flushed a start budget w enc values hw (Holds-more enc values h)) h.width
        prev (omega arith) small

  pub Pushed-Ended :
      (enc mid : Encoder) (values : List ℕ)
      → Pushed enc values mid
      → Ended enc values (record mid { repeat_count = 0 })
  Pushed-Ended enc mid values p = record {
    holds = record {
      seen = p.holds.seen;
      emitted = p.holds.emitted;
      parts = p.holds.parts;
      width = p.holds.width;
      total = p.holds.total;
      short = p.holds.short;
      below = p.holds.below;
    };
    same = record {
      width = p.same.width;
      prev = p.same.prev;
      has = p.same.has;
      good = p.same.good;
    };
    count = refl;
  }

  pub end_run-Ended :
      (enc : Encoder) (values : List ℕ)
      → Holds a start budget w 8 enc values
      → enc.prev_value < 2 ^ w
      → enc.repeat_count < 2 ^ 31
      → Ended enc (values ++ replicate enc.repeat_count enc.prev_value) (end_run a enc)
  unfolding end_run
  end_run-Ended enc values h prev small = elim (Bool-cases (leb 8 enc.repeat_count)) [
    | inl long ↦ rw long (long_run-Ended enc values h prev (leb→le _ _ long) small)
    | inr short ↦ rw short (
        Pushed-Ended enc (push_repeats a enc.repeat_count enc) _
          (push_repeats-Pushed enc.repeat_count enc values h prev))
  ]
