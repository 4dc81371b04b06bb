-- ===== src/Encoding/ByteStreamSplit/RoundTrip.antt =====
-- The byte stream split of fixed-length values, there and back.
use carquet.Prelude.{
  ℕ, ◌+◌, ◌*◌, ◌%◌, ◌^◌, ◌≤◌, ◌<◌, ◌≡◌, sym, ap, subst, ◌∙◌, ◌==◌, ==→eq, inl, inr, arith,
  Bool-cases, ltb, le→ltb-false, ne→==-false, if-true, if-false,
}
use native.Mathlib.Nat.{mod-eq_of_lt}
use carquet.Core.Status.{ok}
use carquet.Encoding.ByteStreamSplit.{
  encode, decode, split, join, required_size, tiled_float, tiled_double,
}
use carquet.Encoding.ByteStreamSplit.Places.{split_rows-writes}
use carquet.Encoding.ByteStreamSplit.Scalar.{scalar_byte_split_encode_lem, join_values-writes}
use carquet.Encoding.ByteStreamSplit.Tiles.{tiled_float_lem, tiled_double_lem}

split_lem :
    (width count : ℕ) (values output : ℕ → ℕ) (i b : ℕ)
    → i < count
    → b < width
    → split width count values output (b * count + i) ≡ values (i * width + b)
unfolding split
split_lem width count values output i b i_lt b_lt =
    let general =
      split_rows-writes count width values width 0 b i output i_lt (omega arith) (omega arith) in
    elim (Bool-cases (width == 4)) [
      | inl e ↦
          let four = ==→eq width 4 e in
          ap (λ (m : ℕ → ℕ). m (b * count + i)) (if-true (width == 4) _ _ e)
          ∙ scalar_byte_split_encode_lem count 4 values i b output i_lt (omega arith)
          ∙ ap (λ w. values (i * w + b)) (sym four)
      | inr e ↦
          ap (λ (m : ℕ → ℕ). m (b * count + i)) (if-false (width == 4) _ _ e)
          ∙ elim (Bool-cases (width == 8)) [
            | inl f ↦
                let eight = ==→eq width 8 f in
                ap (λ (m : ℕ → ℕ). m (b * count + i)) (if-true (width == 8) _ _ f)
                ∙ scalar_byte_split_encode_lem count 8 values i b output i_lt (omega arith)
                ∙ ap (λ w. values (i * w + b)) (sym eight)
            | inr f ↦ ap (λ (m : ℕ → ℕ). m (b * count + i)) (if-false (width == 8) _ _ f) ∙ general
          ]
    ]

join_lem :
    (width count : ℕ) (input tile values : ℕ → ℕ) (i b : ℕ)
    → i < count
    → b < width
    → join width count input tile values (i * width + b) ≡ input (b * count + i)
unfolding join
join_lem width count input tile values i b i_lt b_lt =
    let general =
      join_values-writes count width input count 0 i b values b_lt (omega arith) (omega arith) in
    elim (Bool-cases (width == 4)) [
      | inl e ↦
          let four = ==→eq width 4 e in
          ap (λ (m : ℕ → ℕ). m (i * width + b)) (if-true (width == 4) _ _ e)
          ∙ ap (λ w. tiled_float count input tile values (i * w + b)) four
          ∙ tiled_float_lem count i b input tile values i_lt (omega arith)
      | inr e ↦
          ap (λ (m : ℕ → ℕ). m (i * width + b)) (if-false (width == 4) _ _ e)
          ∙ elim (Bool-cases (width == 8)) [
            | inl f ↦
                let eight = ==→eq width 8 f in
                ap (λ (m : ℕ → ℕ). m (i * width + b)) (if-true (width == 8) _ _ f)
                ∙ ap (λ w. tiled_double count input tile values (i * w + b)) eight
                ∙ tiled_double_lem count i b input tile values i_lt (omega arith)
            | inr f ↦ ap (λ (m : ℕ → ℕ). m (i * width + b)) (if-false (width == 8) _ _ f) ∙ general
          ]
    ]

pub encode_lem :
    (width count capacity : ℕ) (values output : ℕ → ℕ) (i b : ℕ)
    → count * width < 2 ^ 64
    → count * width ≤ capacity
    → i < count
    → b < width
    → (encode width count capacity values output
        ≡ (ok, count * width, split width count values output))
      × (split width count values output (b * count + i) ≡ values (i * width + b))
unfolding encode required_size
encode_lem width count capacity values output i b fits room i_lt b_lt =
    let size : count * width % 2 ^ 64 ≡ count * width = mod-eq_of_lt fits in
    (
      if-false (width == 0) _ _ (ne→==-false width 0 (λ z. omega arith))
          ∙ if-false (ltb capacity (count * width % 2 ^ 64)) _ _
              (le→ltb-false capacity _ (subst (λ x. x ≤ capacity) (sym size) room))
          ∙ ap (λ x. (ok, x, split width count values output)) size,
      split_lem width count values output i b i_lt b_lt,
    )

-- Where the size given covers the values, whose bytes number fewer than 2^64, decoding succeeds,
-- in tiles or not, and puts byte b of value i from place i of stream b.
pub decode_lem :
    (width count input_size : ℕ) (input tile values : ℕ → ℕ) (i b : ℕ)
    → count * width < 2 ^ 64
    → count * width ≤ input_size
    → i < count
    → b < width
    → (decode width count input_size input tile values ≡ (ok, join width count input tile values))
      × (join width count input tile values (i * width + b) ≡ input (b * count + i))
unfolding decode required_size
decode_lem width count input_size input tile values i b fits enough i_lt b_lt =
    let size : count * width % 2 ^ 64 ≡ count * width = mod-eq_of_lt fits in
    (
      if-false (width == 0) _ _ (ne→==-false width 0 (λ z. omega arith))
          ∙ if-false (ltb input_size (count * width % 2 ^ 64)) _ _
              (le→ltb-false input_size _ (subst (λ x. x ≤ input_size) (sym size) enough)),
      join_lem width count input tile values i b i_lt b_lt,
    )

-- For values of any positive width whose bytes together number fewer than 2^64 and fit both the
-- capacity and the size given, encoding succeeds, decoding its output succeeds, and each byte of
-- each value is back in its place.
pub decode-encode :
    (width count capacity input_size : ℕ) (values output tile target : ℕ → ℕ) (i b : ℕ)
    → count * width < 2 ^ 64
    → count * width ≤ capacity
    → count * width ≤ input_size
    → i < count
    → b < width
    → (streams : ℕ → ℕ) × (decoded : ℕ → ℕ) × (encode width count capacity values output
        ≡ (ok, count * width, streams))
      × (decode width count input_size streams tile target ≡ (ok, decoded))
      × (decoded (i * width + b) ≡ values (i * width + b))
decode-encode width count capacity input_size values output tile target i b fits room enough i_lt
      b_lt =
    let streams = split width count values output in
    let (encoded, apart) = encode_lem width count capacity values output i b fits room i_lt b_lt in
    let (result, together) =
      decode_lem width count input_size streams tile target i b fits enough i_lt b_lt in
    (streams, join width count streams tile target, encoded, result, together ∙ apart)
