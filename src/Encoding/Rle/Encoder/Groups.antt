-- ===== src/Encoding/Rle/Encoder/Groups.antt =====
-- The buffered values of the encoder, and what a flush of them writes.
use carquet.Prelude.{ℕ, ◌+◌, ◌/◌, ◌^◌, ◌<◌, ◌≤◌, ◌≡◌, refl, arith, ap, ◌∙◌, sym, subst}
use carquet.Prelude.{Bool-cases, inl, inr, ltb, ◌==◌, ==→eq}
use carquet.Prelude.{List, [], ◌++◌, length, All, IsDigit, append-nil}
use carquet.Prelude.{ltb-false→le}
use carquet.Prelude.{u32, ◌<<◌, bit_or}
use carquet.Prelude.{empty_list}
use mathlib.Core.Path.{subst₂, subst₃}
use carquet.Core.Endian.{encode_varint32}
use carquet.Core.Buffer.{Allocator, Buffer}
use carquet.Encoding.Rle.Encoder.{Encoder, emit, flush_bitpack}
use carquet.Encoding.Rle.Encoder.{emit_groups, emit_runs}
use carquet.Encoding.Rle.Encoder.Writes.{Emitted, emit_group, emit_runs-Emitted}

-- What the flushes and pushes leave alone.
pub record SameRun (enc enc' : Encoder) : Type 0 where
  pub width : enc'.bit_width ≡ enc.bit_width
  pub prev : enc'.prev_value ≡ enc.prev_value
  pub has : enc'.has_prev ≡ enc.has_prev
  pub good : enc'.status ≡ enc.status

module _ (a : Allocator) (start : Buffer) (budget w : ℕ) where
  -- `values` have been taken from the runs that ended: a stream of the first of them is in the
  -- buffer, and the rest, fewer than `room`, wait for a group to fill.
  pub record Holds (room : ℕ) (enc : Encoder) (values : List ℕ) : Type 0 where
    pub seen : List ℕ
    pub emitted : Emitted a start budget w enc.buffer seen
    pub parts : values ≡ seen ++ enc.bitpack_buffer
    pub width : enc.bit_width ≡ w
    pub total : enc.bitpack_total ≡ length enc.bitpack_buffer
    pub short : length enc.bitpack_buffer < room
    pub below : All (IsDigit (2 ^ w)) enc.bitpack_buffer

  pub record Flushed (enc : Encoder) (values : List ℕ) (enc' : Encoder) : Type 0 where
    pub emitted : Emitted a start budget w enc'.buffer values
    pub empty : enc'.bitpack_buffer ≡ []
    pub none : enc'.bitpack_total ≡ 0
    pub same : SameRun enc enc'
    pub count : enc'.repeat_count ≡ enc.repeat_count

  -- A flush of the group writes all that is held, as a group if it is full, as runs if it is not.
  pub flush_bitpack-Flushed :
      (enc : Encoder) (values : List ℕ)
      → w ≤ 32
      → Holds 9 enc values
      → Flushed enc values (flush_bitpack a enc)
  unfolding flush_bitpack emit_groups
  flush_bitpack-Flushed enc values hw h = elim (Bool-cases (length enc.bitpack_buffer == 0)) [
    | inl empty ↦
        let nothing : enc.bitpack_buffer ≡ [] =
          empty_list enc.bitpack_buffer (==→eq (length enc.bitpack_buffer) 0 empty) in
        rw empty (record {
          emitted =
              subst (Emitted a start budget w enc.buffer)
                (sym (h.parts ∙ ap (λ t. h.seen ++ t) nothing ∙ append-nil h.seen)) h.emitted;
          empty = nothing;
          none = h.total ∙ ==→eq (length enc.bitpack_buffer) 0 empty;
          same = record { width = refl; prev = refl; has = refl; good = refl };
          count = refl;
        })
    | inr some ↦ rw some (elim (Bool-cases (ltb (length enc.bitpack_buffer) 8)) [
      | inl partial ↦ rw partial (record {
        emitted =
            subst₂
              (λ k vs.
                Emitted a start budget w
                  (emit_runs a (length enc.bitpack_buffer) k enc.bitpack_buffer enc.buffer) vs)
              (sym h.width) (sym h.parts)
              (emit_runs-Emitted a start budget w (length enc.bitpack_buffer) enc.buffer h.seen
                enc.bitpack_buffer hw h.emitted (omega arith) (omega (arith, h.short)) h.below);
        empty = refl;
        none = refl;
        same = record { width = refl; prev = refl; has = refl; good = refl };
        count = refl;
      })
      | inr full ↦
          let eight : length enc.bitpack_buffer ≡ 8 =
            omega (arith, h.short, ltb-false→le _ _ full) in
          rw full (record {
            emitted =
                subst₃
                  (λ t k vs.
                    Emitted a start budget w
                      (emit_groups a ((t + 7) / 8) k enc.bitpack_buffer
                        (emit a enc.buffer (encode_varint32 (u32 (bit_or (((t + 7) / 8) << 1) 1)))))
                      vs)
                  (sym (h.total ∙ eight)) (sym h.width) (sym h.parts)
                  (emit_group a start budget w enc.buffer h.seen enc.bitpack_buffer hw h.emitted
                    eight h.below);
            empty = refl;
            none = refl;
            same = record { width = refl; prev = refl; has = refl; good = refl };
            count = refl;
          })
    ])
  ]
