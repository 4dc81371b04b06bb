-- ===== src/Encoding/Rle/Encoder/Writes.antt =====
-- What the encoder writes is a stream of the format that holds the values it was given.
use carquet.Prelude.{
  ℕ, zero, suc, ◌+◌, ◌*◌, ◌/◌, ◌%◌, ◌^◌, ◌<◌, ◌≤◌, ◌≡◌, refl, arith, ap, ◌∙◌, sym, subst,
}
use carquet.Prelude.{Bool-cases, inl, inr, ◌==◌, ==→eq}
use carquet.Prelude.{
  List, [], ◌∷◌, ◌++◌, length, All, take, drop, replicate, digits, IsDigit, append-nil,
}
use carquet.Prelude.{append_assoc, length-drop, take_all, drop-All}
use mathlib.Core.Path.{ap₂, subst₂}
use carquet.Core.Buffer.{Allocator, Buffer}
use carquet.Core.Buffer.Append.{Wrote, Wrote-append}
use carquet.Core.Endian.{encode_varint32}
use carquet.Core.Bitpack.{bitpack8_32, pack_groups}
use carquet.Encoding.Rle.Format.{
  Encodes, finished, repeated, packed, Encodes-append, header_bytes, group_bytes,
  encode_varint32-header,
}
use carquet.Encoding.Rle.Groups.{pack_groups-group_bytes}
use carquet.Encoding.Rle.Encoder.{rle_value_bytes, write_value_bytes, run_bytes, run_behind}
use carquet.Encoding.Rle.Encoder.{emit, emit_runs}

write_value_bytes_lem : (v n : ℕ) → n ≤ 4 → write_value_bytes v n ≡ digits 256 n v
unfolding write_value_bytes
write_value_bytes_lem v zero h = refl
write_value_bytes_lem v (suc zero) h = refl
write_value_bytes_lem v (suc (suc zero)) h = refl
write_value_bytes_lem v (suc (suc (suc zero))) h =
    ap (λ (t : ℕ). v % 256 ∷ v / 256 % 256 ∷ t ∷ []) (omega arith)
write_value_bytes_lem v (suc (suc (suc (suc zero)))) h = ground arith
write_value_bytes_lem v (suc (suc (suc (suc (suc n))))) h = absurd (omega arith)

run_bytes_lem :
    (w n v : ℕ)
    → w ≤ 32
    → n < 2 ^ 31
    → run_bytes w n v ≡ header_bytes (2 * n) ++ digits 256 ((w + 7) / 8) v
unfolding run_bytes rle_value_bytes
run_bytes_lem w n v hw hn =
    let header : n * 2 ^ 1 % 2 ^ 32 ≡ 2 * n = omega arith in
    rw (
      header,
      write_value_bytes_lem v ((w + 7) / 8) (omega arith),
      encode_varint32-header (2 * n) (omega arith),
    )

-- The values of the run that begins a list are equal, and they are the list's first ones.
run_behind_lem :
    (val : ℕ) (values : List ℕ)
    → replicate (run_behind val values) val ++ drop (run_behind val values) values ≡ values
unfolding run_behind
run_behind_lem val [] = refl
run_behind_lem val (x ∷ xs) = elim (Bool-cases (x == val)) [
  | inl same ↦ rw same (ap₂ ◌∷◌ (sym (==→eq x val same)) (run_behind_lem val xs))
  | inr other ↦ rw other
]

run_behind-le : (val : ℕ) (values : List ℕ) → run_behind val values ≤ length values
unfolding run_behind
run_behind-le val [] = omega arith
run_behind-le val (x ∷ xs) = ground (arith, run_behind-le val xs)

module _ (a : Allocator) (start : Buffer) (budget w : ℕ) where
  -- The buffer holds what it held at the start, and behind it a stream of the values.
  pub record Emitted (buffer : Buffer) (values : List ℕ) : Type 0 where
    pub out : List ℕ
    pub wrote : Wrote a start budget out buffer
    pub encodes : Encodes w out values

  one_run :
      (n v : ℕ)
      → 0 < n
      → n < 2 ^ 31
      → v < 2 ^ w
      → Encodes w (header_bytes (2 * n) ++ digits 256 ((w + 7) / 8) v) (replicate n v)
  one_run n v pos small fits =
      subst₂ (Encodes w)
        (ap (λ t. header_bytes (2 * n) ++ t) (append-nil (digits 256 ((w + 7) / 8) v)))
        (append-nil (replicate n v)) (repeated n v pos small fits finished)

  pub emit_run :
      (buffer : Buffer) (values : List ℕ) (n v : ℕ)
      → w ≤ 32
      → Emitted buffer values
      → 0 < n
      → n < 2 ^ 31
      → v < 2 ^ w
      → Emitted (emit a buffer (run_bytes w n v)) (values ++ replicate n v)
  unfolding emit
  emit_run buffer values n v hw e pos small fits = record {
    out = e.out ++ run_bytes w n v;
    wrote = Wrote-append a start budget e.out buffer (run_bytes w n v) e.wrote;
    encodes =
        rw (run_bytes_lem w n v hw small) (Encodes-append e.encodes (one_run n v pos small fits));
  }

  pub emit_group :
      (buffer : Buffer) (values vs : List ℕ)
      → w ≤ 32
      → Emitted buffer values
      → length vs ≡ 8
      → All (IsDigit (2 ^ w)) vs
      → Emitted (emit a (emit a buffer (encode_varint32 3)) (bitpack8_32 vs w)) (values ++ vs)
  unfolding emit pack_groups
  emit_group buffer values vs hw e size fits =
      let group : pack_groups 1 vs w ≡ bitpack8_32 vs w =
        append-nil (bitpack8_32 (take 8 vs) w)
        ∙ ap (λ t. bitpack8_32 t w) (take_all 8 vs (omega (arith, size))) in
      record {
        out = (e.out ++ encode_varint32 3) ++ bitpack8_32 vs w;
        wrote =
            Wrote-append a start budget (e.out ++ encode_varint32 3) _ (bitpack8_32 vs w)
              (Wrote-append a start budget e.out buffer (encode_varint32 3) e.wrote);
        encodes =
            subst₂ (Encodes w) (sym (append_assoc e.out (encode_varint32 3) (bitpack8_32 vs w)))
              refl
              (Encodes-append e.encodes (
                subst₂ (Encodes w)
                  (ap₂ ◌++◌ (sym (encode_varint32-header 3 (omega arith))) (
                    append-nil (group_bytes w 1 vs)
                    ∙ sym (pack_groups-group_bytes 1 vs w hw size fits)
                    ∙ group))
                  (append-nil vs) (packed 1 vs (omega arith) (omega arith) size fits finished)));
      }

  pub emit_runs-Emitted :
      (rounds : ℕ) (buffer : Buffer) (values vs : List ℕ)
      → w ≤ 32
      → Emitted buffer values
      → length vs ≤ rounds
      → length vs < 2 ^ 31
      → All (IsDigit (2 ^ w)) vs
      → Emitted (emit_runs a rounds w vs buffer) (values ++ vs)
  unfolding emit_runs
  emit_runs-Emitted zero buffer values [] hw e hr small fits =
      subst (Emitted buffer) (sym (append-nil values)) e
  emit_runs-Emitted zero buffer values (x ∷ vs) hw e hr small fits = absurd (omega arith)
  emit_runs-Emitted (suc rounds) buffer values [] hw e hr small fits =
      subst (Emitted buffer) (sym (append-nil values)) e
  emit_runs-Emitted (suc rounds) buffer values (x ∷ vs) hw e hr small fits =
      let behind = run_behind x vs in
      let after = drop behind vs in
      let bound : behind ≤ length vs = run_behind-le x vs in
      let count : 1 + behind ≡ suc behind = omega arith in
      let first : Emitted (emit a buffer (run_bytes w (1 + behind) x))
          (values ++ replicate (suc behind) x) =
        subst (λ n. Emitted (emit a buffer (run_bytes w (1 + behind) x)) (values ++ replicate n x))
          count (emit_run buffer values (1 + behind) x hw e (omega arith) (omega arith) fits.0) in
      subst (Emitted (emit_runs a rounds w after (emit a buffer (run_bytes w (1 + behind) x))))
        (append_assoc values (replicate (suc behind) x) after
          ∙ ap (λ t. values ++ (x ∷ t)) (run_behind_lem x vs))
        (emit_runs-Emitted rounds _ (values ++ replicate (suc behind) x) after hw first
          (omega (arith, length-drop behind vs)) (omega (arith, length-drop behind vs))
          (drop-All (IsDigit (2 ^ w)) behind vs fits.1))
