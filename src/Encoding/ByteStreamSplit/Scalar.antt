-- ===== src/Encoding/ByteStreamSplit/Scalar.antt =====
-- The scalar kernels of the byte stream split: what they leave in the output.
use carquet.Prelude.{
  ℕ, zero, suc, ◌+◌, ◌*◌, ◌≤◌, ◌<◌, ◌≡◌, refl, sym, subst, ◌==◌, inl, inr, arith, Bool-cases, ==→eq,
  ==-false→ne,
}
use carquet.Encoding.ByteStreamSplit.{
  store, join_value, join_values, split_value, split_values, scalar_byte_split_encode,
  scalar_byte_split_decode,
}
use carquet.Encoding.ByteStreamSplit.Places.{store_at, Turned, store-Turned}

module _ (count width : ℕ) (input : ℕ → ℕ) where
  join_value-Turned :
      (left b i r c : ℕ) (values : ℕ → ℕ)
      → b + left ≤ width
      → c < width
      → Turned count width input r c values
      → Turned count width input r c (join_value left b i count width input values)
  unfolding join_value
  join_value-Turned zero b i r c values fits c_lt turned = turned
  join_value-Turned (suc left) b i r c values fits c_lt turned =
      join_value-Turned left (b + 1) i r c _ (omega arith) c_lt
        (store-Turned count width input r i c b values c_lt (omega arith) turned)

  join_value-writes :
      (left b i c : ℕ) (values : ℕ → ℕ)
      → b + left ≤ width
      → b ≤ c
      → c < b + left
      → Turned count width input i c (join_value left b i count width input values)
  unfolding join_value
  join_value-writes zero b i c values fits low high = omega arith
  join_value-writes (suc left) b i c values fits low high = elim (Bool-cases (c == b)) [
    | inl e ↦
        let same = ==→eq c b e in
        join_value-Turned left (b + 1) i i c _ (omega arith) (omega arith) (
          subst
            (λ x.
              Turned count width input i x (store (i * width + b) (input (b * count + i)) values))
            (sym same) (store_at _ _ values _ refl))
    | inr e ↦
        let differs = ==-false→ne c b e in
        join_value-writes left (b + 1) i c _ (omega arith) (omega arith) (omega arith)
  ]

  join_values-Turned :
      (left i r c : ℕ) (values : ℕ → ℕ)
      → c < width
      → Turned count width input r c values
      → Turned count width input r c (join_values left i count width input values)
  unfolding join_values
  join_values-Turned zero i r c values c_lt turned = turned
  join_values-Turned (suc left) i r c values c_lt turned =
      join_values-Turned left (i + 1) r c _ c_lt
        (join_value-Turned width 0 i r c values (omega arith) c_lt turned)

  pub join_values-writes :
      (left i r c : ℕ) (values : ℕ → ℕ)
      → c < width
      → i ≤ r
      → r < i + left
      → Turned count width input r c (join_values left i count width input values)
  unfolding join_values
  join_values-writes zero i r c values c_lt low high = omega arith
  join_values-writes (suc left) i r c values c_lt low high = elim (Bool-cases (r == i)) [
    | inl e ↦
        let same = ==→eq r i e in
        join_values-Turned left (i + 1) r c _ c_lt (
          subst (λ x. Turned count width input x c (join_value width 0 i count width input values))
            (sym same)
            (join_value-writes width 0 i c values (omega arith) (omega arith) (omega arith)))
    | inr e ↦
        let differs = ==-false→ne r i e in
        join_values-writes left (i + 1) r c _ c_lt (omega arith) (omega arith)
  ]

  pub scalar_byte_split_decode_lem :
      (i b : ℕ) (values : ℕ → ℕ)
      → i < count
      → b < width
      → scalar_byte_split_decode width count input values (i * width + b) ≡ input (b * count + i)
  unfolding scalar_byte_split_decode
  scalar_byte_split_decode_lem i b values i_lt b_lt =
      join_values-writes count 0 i b values b_lt (omega arith) (omega arith)

module _ (count width : ℕ) (values : ℕ → ℕ) where
  split_value-Turned :
      (left b i r c : ℕ) (output : ℕ → ℕ)
      → i < count
      → c < count
      → Turned width count values r c output
      → Turned width count values r c (split_value left b i count width values output)
  unfolding split_value
  split_value-Turned zero b i r c output i_lt c_lt turned = turned
  split_value-Turned (suc left) b i r c output i_lt c_lt turned =
      split_value-Turned left (b + 1) i r c _ i_lt c_lt
        (store-Turned width count values r b c i output c_lt i_lt turned)

  split_value-writes :
      (left b i r : ℕ) (output : ℕ → ℕ)
      → i < count
      → b ≤ r
      → r < b + left
      → Turned width count values r i (split_value left b i count width values output)
  unfolding split_value
  split_value-writes zero b i r output i_lt low high = omega arith
  split_value-writes (suc left) b i r output i_lt low high = elim (Bool-cases (r == b)) [
    | inl e ↦
        let same = ==→eq r b e in
        split_value-Turned left (b + 1) i r i _ i_lt i_lt (
          subst
            (λ x.
              Turned width count values x i (store (b * count + i) (values (i * width + b)) output))
            (sym same) (store_at _ _ output _ refl))
    | inr e ↦
        let differs = ==-false→ne r b e in
        split_value-writes left (b + 1) i r _ i_lt (omega arith) (omega arith)
  ]

  split_values-Turned :
      (left i r c : ℕ) (output : ℕ → ℕ)
      → i + left ≤ count
      → c < count
      → Turned width count values r c output
      → Turned width count values r c (split_values left i count width values output)
  unfolding split_values
  split_values-Turned zero i r c output fits c_lt turned = turned
  split_values-Turned (suc left) i r c output fits c_lt turned =
      split_values-Turned left (i + 1) r c _ (omega arith) c_lt
        (split_value-Turned width 0 i r c output (omega arith) c_lt turned)

  split_values-writes :
      (left i r c : ℕ) (output : ℕ → ℕ)
      → i + left ≤ count
      → r < width
      → i ≤ c
      → c < i + left
      → Turned width count values r c (split_values left i count width values output)
  unfolding split_values
  split_values-writes zero i r c output fits r_lt low high = omega arith
  split_values-writes (suc left) i r c output fits r_lt low high = elim (Bool-cases (c == i)) [
    | inl e ↦
        let same = ==→eq c i e in
        split_values-Turned left (i + 1) r c _ (omega arith) (omega arith) (
          subst
            (λ x. Turned width count values r x (split_value width 0 i count width values output))
            (sym same)
            (split_value-writes width 0 i r output (omega arith) (omega arith) (omega arith)))
    | inr e ↦
        let differs = ==-false→ne c i e in
        split_values-writes left (i + 1) r c _ (omega arith) r_lt (omega arith) (omega arith)
  ]

  pub scalar_byte_split_encode_lem :
      (i b : ℕ) (output : ℕ → ℕ)
      → i < count
      → b < width
      → scalar_byte_split_encode width count values output (b * count + i) ≡ values (i * width + b)
  unfolding scalar_byte_split_encode
  scalar_byte_split_encode_lem i b output i_lt b_lt =
      split_values-writes count 0 b i output (omega arith) b_lt (omega arith) (omega arith)
