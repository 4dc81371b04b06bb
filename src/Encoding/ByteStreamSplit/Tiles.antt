-- ===== src/Encoding/ByteStreamSplit/Tiles.antt =====
-- The tiled decoder of the byte stream split leaves what the kernel leaves.
use carquet.Prelude.{
  ℕ, zero, suc, ◌+◌, ◌-◌, ◌*◌, ◌≤◌, ◌<◌, ◌≡◌, sym, ap, ap₂, subst, ◌∙◌, ◌==◌, inl, inr, arith,
  Bool-cases, ==→eq, ==-false→ne, leb, ltb, ltb→lt, le→leb, lt→ltb, ltb-false→le, lt→leb-false,
  ◌&&◌, if-true, if-false, min, true,
}
use carquet.Encoding.ByteStreamSplit.{
  copy, gather, decode_at, tile_loop, tiled_float, tiled_double, scalar_byte_split_decode,
}
use carquet.Encoding.ByteStreamSplit.Places.{places_differ, next_row}
use carquet.Encoding.ByteStreamSplit.Scalar.{scalar_byte_split_decode_lem}

in_range : (a i b : ℕ) → (leb a i && ltb i b) ≡ true → (a ≤ i) × (i < b)
in_range a i b inside = (ground arith, ground arith)

copy_inside :
    (size to from : ℕ) (source memory : ℕ → ℕ) (k : ℕ)
    → k < size
    → copy size to from source memory (to + k) ≡ source (from + k)
unfolding copy
copy_inside size to from source memory k lt =
    let test : (leb to (to + k) && ltb (to + k) (to + size)) ≡ true =
      ap₂ (λ x y. x && y) (le→leb to (to + k) (omega arith))
        (lt→ltb (to + k) (to + size) (omega arith)) in
    if-true (leb to (to + k) && ltb (to + k) (to + size)) _ _ test
    ∙ ap (λ x. source (from + x)) (omega arith)

module _ (n count offset : ℕ) (input : ℕ → ℕ) where
  abbrev Gathered : (s k : ℕ) → (ℕ → ℕ) → Type 0
  Gathered s k tile = tile (s * n + k) ≡ input (s * count + offset + k)

  copy-Gathered :
      (t s k : ℕ) (tile : ℕ → ℕ)
      → k < n
      → Gathered s k tile
      → Gathered s k (copy n (t * n) (t * count + offset) input tile)
  unfolding copy
  copy-Gathered t s k tile lt gathered =
      elim (Bool-cases (leb (t * n) (s * n + k) && ltb (s * n + k) (t * n + n))) [
        | inl e ↦
            let (low, high) = in_range (t * n) (s * n + k) (t * n + n) e in
            let (st, kd) =
              places_differ s t k (s * n + k - t * n) n lt (omega arith) (omega arith) in
            if-true (leb (t * n) (s * n + k) && ltb (s * n + k) (t * n + n)) _ _ e
            ∙ ap₂ (λ x y. input (x * count + offset + y)) (sym st) (sym kd)
        | inr e ↦ if-false (leb (t * n) (s * n + k) && ltb (s * n + k) (t * n + n)) _ _ e ∙ gathered
      ]

  gather-Gathered :
      (left t s k : ℕ) (tile : ℕ → ℕ)
      → k < n
      → Gathered s k tile
      → Gathered s k (gather left t n count offset input tile)
  unfolding gather
  gather-Gathered zero t s k tile lt gathered = gathered
  gather-Gathered (suc left) t s k tile lt gathered =
      gather-Gathered left (t + 1) s k _ lt (copy-Gathered t s k tile lt gathered)

  gather-fills :
      (left t s k : ℕ) (tile : ℕ → ℕ)
      → k < n
      → t ≤ s
      → s < t + left
      → Gathered s k (gather left t n count offset input tile)
  unfolding gather
  gather-fills zero t s k tile lt low high = omega arith
  gather-fills (suc left) t s k tile lt low high = elim (Bool-cases (s == t)) [
    | inl e ↦
        let same = ==→eq s t e in
        gather-Gathered left (t + 1) s k _ lt (
          subst (λ x. Gathered x k (copy n (t * n) (t * count + offset) input tile)) (sym same)
            (copy_inside n (t * n) (t * count + offset) input tile k lt))
    | inr e ↦
        let differs = ==-false→ne s t e in
        gather-fills left (t + 1) s k _ lt (omega arith) (omega arith)
  ]

module _ (size width count : ℕ) (input : ℕ → ℕ) where
  -- The byte `b` of the value `i` is in its place.
  abbrev pub Joined : (i b : ℕ) → (ℕ → ℕ) → Type 0
  Joined i b values = values (i * width + b) ≡ input (b * count + i)

  decode_at-before :
      (at n p : ℕ) (tile values : ℕ → ℕ) → p < at → decode_at at width n tile values p ≡ values p
  unfolding decode_at
  decode_at-before at n p tile values lt = if-false (leb at p) _ _ (lt→leb-false at p lt)

  decode_at-Joined :
      (offset n k b : ℕ) (tile values : ℕ → ℕ)
      → k < n
      → b < width
      → tile (b * n + k) ≡ input (b * count + offset + k)
      → Joined (offset + k) b (decode_at (offset * width) width n tile values)
  unfolding decode_at
  decode_at-Joined offset n k b tile values k_lt b_lt gathered =
      let place : (offset + k) * width + b ≡ offset * width + (k * width + b) = omega arith in
      let behind : leb (offset * width) ((offset + k) * width + b) ≡ true =
        le→leb _ _ (omega arith) in
      let inner : (offset + k) * width + b - offset * width ≡ k * width + b = omega arith in
      if-true (leb (offset * width) ((offset + k) * width + b)) _ _ behind
      ∙ ap (λ x. scalar_byte_split_decode width n tile (λ j. values (offset * width + j)) x) inner
      ∙ scalar_byte_split_decode_lem n width tile k b _ k_lt b_lt
      ∙ gathered
      ∙ ap input (omega arith)

  round-Joined :
      (offset n i b : ℕ) (tile values : ℕ → ℕ)
      → b < width
      → i < offset + n
      → (i < offset → Joined i b values)
      → Joined i b
          (decode_at (offset * width) width n (gather width 0 n count offset input tile) values)
  round-Joined offset n i b tile values b_lt i_lt before = elim (Bool-cases (ltb i offset)) [
    | inl e ↦
        let row = next_row i offset width (ltb→lt i offset e) in
        decode_at-before (offset * width) n (i * width + b) _ values (omega arith)
        ∙ before (ltb→lt i offset e)
    | inr e ↦
        let from = ltb-false→le i offset e in
        subst
          (λ x.
            Joined x b (
              decode_at (offset * width) width n (gather width 0 n count offset input tile) values))
          (omega arith)
          (decode_at-Joined offset n (i - offset) b _ values (omega arith) b_lt (
            gather-fills n count offset input width 0 b (i - offset) tile (omega arith)
              (omega arith) (omega arith)))
  ]

  tile_loop-Joined :
      (fuel offset i b : ℕ) (tile values : ℕ → ℕ)
      → 0 < size
      → b < width
      → i < count
      → count ≤ offset + fuel
      → (i < offset → Joined i b values)
      → Joined i b (tile_loop fuel size width count offset input tile values)
  unfolding tile_loop
  tile_loop-Joined zero offset i b tile values positive b_lt i_lt enough before =
      before (omega arith)
  tile_loop-Joined (suc fuel) offset i b tile values positive b_lt i_lt enough before =
      elim (Bool-cases (ltb offset count)) [
        | inl e ↦
            let lt = ltb→lt offset count e in
            let n = min (count - offset) size in
            subst (λ m. Joined i b m) (sym (if-true (ltb offset count) _ _ e))
              (tile_loop-Joined fuel (offset + n) i b (gather width 0 n count offset input tile) _
                positive b_lt i_lt (omega arith)
                (λ reached. round-Joined offset n i b tile values b_lt reached before))
        | inr e ↦
            let all = ltb-false→le offset count e in
            subst (λ m. Joined i b m) (sym (if-false (ltb offset count) _ _ e))
              (before (omega arith))
      ]

pub tiled_float_lem :
    (count i b : ℕ) (input tile values : ℕ → ℕ)
    → i < count
    → b < 4
    → tiled_float count input tile values (i * 4 + b) ≡ input (b * count + i)
unfolding tiled_float
tiled_float_lem count i b input tile values i_lt b_lt = elim (Bool-cases (leb count 65536)) [
  | inl e ↦
      subst (λ m. Joined 65536 4 count input i b m) (sym (if-true (leb count 65536) _ _ e))
        (scalar_byte_split_decode_lem count 4 input i b values i_lt b_lt)
  | inr e ↦
      subst (λ m. Joined 65536 4 count input i b m) (sym (if-false (leb count 65536) _ _ e))
        (tile_loop-Joined 65536 4 count input count 0 i b tile values (omega arith) b_lt i_lt
          (omega arith) (λ reached. omega arith))
]

pub tiled_double_lem :
    (count i b : ℕ) (input tile values : ℕ → ℕ)
    → i < count
    → b < 8
    → tiled_double count input tile values (i * 8 + b) ≡ input (b * count + i)
unfolding tiled_double
tiled_double_lem count i b input tile values i_lt b_lt = elim (Bool-cases (leb count 32768)) [
  | inl e ↦
      subst (λ m. Joined 32768 8 count input i b m) (sym (if-true (leb count 32768) _ _ e))
        (scalar_byte_split_decode_lem count 8 input i b values i_lt b_lt)
  | inr e ↦
      subst (λ m. Joined 32768 8 count input i b m) (sym (if-false (leb count 32768) _ _ e))
        (tile_loop-Joined 32768 8 count input count 0 i b tile values (omega arith) b_lt i_lt
          (omega arith) (λ reached. omega arith))
]
