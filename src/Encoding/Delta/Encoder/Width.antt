-- ===== src/Encoding/Delta/Encoder/Width.antt =====
-- The width of a mini block: the least number of bits that its values fit.
use carquet.Prelude.{
  ℕ, zero, suc, ◌/◌, ◌^◌, ◌<◌, ◌≤◌, arith, sym, List, [], ◌∷◌, All, IsU64, ltb, if◌then◌else◌,
  tests, Bool-cases, inl, inr,
}
use carquet.Prelude.{
  refl, ap, ap₂, ◌≡◌, ◌⊎◌, ◌+◌, ◌-◌, ◌*◌, ◌%◌, Any, All-zip, Any-zip, take, drop, take-All,
  drop-All, ltb→lt, ltb-false→le,
}
use carquet.Prelude.{subst, if-true, if-false, Bool, true, false}
use native.Mathlib.Nat.{pow-suc}
use carquet.Encoding.Delta.Encoder.{
  bit_width_loop, bit_width_required, max_adjusted, adjusted, mini_block_width, mini_block,
  min_delta, min_delta_loop, signed_ltb,
}

-- `w` bits hold the value, and no fewer do.
pub record IsWidth (v w : ℕ) : Type 0 where
  pub holds : v < 2 ^ w
  pub least : (k : ℕ) → v < 2 ^ k → w ≤ k

bit_width_loop-IsWidth : (rounds v : ℕ) → v < 2 ^ rounds → IsWidth v (bit_width_loop rounds v)
unfolding bit_width_loop
bit_width_loop-IsWidth zero v h = record { holds = h; least = λ k hk. omega arith }
bit_width_loop-IsWidth (suc rounds) v h = elim (Bool-cases (ltb 0 v)) [
  | inl more ↦
      let half = bit_width_loop-IsWidth rounds (v / 2) (omega (arith, pow-suc 2 rounds)) in
      let w = bit_width_loop rounds (v / 2) in
      subst (IsWidth v) (sym (if-true _ _ _ more)) (record {
        holds = omega (arith, half.holds, pow-suc 2 w);
        least = λ k hk. least_suc k hk (omega (tests, more)) half;
      })
  | inr empty ↦
      subst (IsWidth v) (sym (if-false _ _ _ empty))
        (record { holds = omega (tests, empty); least = λ k hk. omega arith })
]
  where
    least_suc :
        (k : ℕ)
        → v < 2 ^ k
        → 1 ≤ v
        → IsWidth (v / 2) (bit_width_loop rounds (v / 2))
        → suc (bit_width_loop rounds (v / 2)) ≤ k
    least_suc zero hk hv half = absurd (omega arith)
    least_suc (suc k) hk hv half = omega (arith, half.least k (omega (arith, pow-suc 2 k)))

pub bit_width_required-IsWidth : (v : ℕ) → IsU64 v → IsWidth v (bit_width_required v)
unfolding bit_width_required
bit_width_required-IsWidth v h = bit_width_loop-IsWidth 64 v h

max_adjusted_lem :
    (m : ℕ) (deltas : List ℕ) (best : ℕ)
    → (best ≤ max_adjusted m deltas best)
      × All (λ d. adjusted m d ≤ max_adjusted m deltas best) deltas
unfolding max_adjusted
max_adjusted_lem m [] best = (omega arith, tt)
max_adjusted_lem m (d ∷ deltas) best =
    let next = if ltb best (adjusted m d) then adjusted m d else best in
    let (above, all) = max_adjusted_lem m deltas next in
    let (a, b) = larger best (adjusted m d) in
    (omega (arith, above, a), (omega (arith, above, b), all))
  where
    larger : (x y : ℕ) → (x ≤ (if ltb x y then y else x)) × (y ≤ (if ltb x y then y else x))
    larger x y = ground arith

max_adjusted-lt :
    (m : ℕ) (deltas : List ℕ) (best : ℕ) → IsU64 best → IsU64 (max_adjusted m deltas best)
unfolding max_adjusted adjusted
max_adjusted-lt m [] best h = h
max_adjusted-lt m (d ∷ deltas) best h =
    max_adjusted-lt m deltas (if ltb best (adjusted m d) then adjusted m d else best)
      (picked (ltb best (adjusted m d)))
  where
    picked : (b : Bool) → IsU64 (if b then adjusted m d else best)
    picked true = omega arith
    picked false = h

max_adjusted_attained :
    (m : ℕ) (deltas : List ℕ) (best : ℕ)
    → (max_adjusted m deltas best ≡ best)
      ⊎ Any (λ d. adjusted m d ≡ max_adjusted m deltas best) deltas
unfolding max_adjusted
max_adjusted_attained m [] best = inl refl
max_adjusted_attained m (d ∷ deltas) best =
    let value = adjusted m d in
    let attained : ℕ → Type 0 = λ t. (t ≡ best) ⊎ Any (λ x. adjusted m x ≡ t) (d ∷ deltas) in
    elim (Bool-cases (ltb best value)) [
      | inl more ↦
          subst attained
            (ap (max_adjusted m deltas) (sym (if-true (ltb best value) value best more)))
            (elim (max_adjusted_attained m deltas value) [
              | inl first ↦ inr (inl (sym first))
              | inr later ↦ inr (inr later)
            ])
      | inr less ↦
          subst attained
            (ap (max_adjusted m deltas) (sym (if-false (ltb best value) value best less)))
            (elim (max_adjusted_attained m deltas best) [
              | inl kept ↦ inl kept
              | inr later ↦ inr (inr later)
            ])
    ]

least_width : (v w : ℕ) → IsWidth v w → (w ≡ 0) ⊎ (2 ^ (w - 1) ≤ v)
least_width v w width = elim (Bool-cases (ltb v (2 ^ (w - 1)))) [
  | inl less ↦ inl (omega (arith, width.least (w - 1) (ltb→lt _ _ less)))
  | inr more ↦ inr (ltb-false→le _ _ more)
]

-- Where a word stands in the order of the signed integers of 64 bits: 0 for the least, -2^63.
abbrev pub rank : ℕ → ℕ
rank d = if ltb d (2 ^ 63) then d + 2 ^ 63 else d - 2 ^ 63

signed_ltb-rank : (a b : ℕ) → IsU64 a → IsU64 b → signed_ltb a b ≡ ltb (rank a) (rank b)
unfolding signed_ltb
signed_ltb-rank a b ha hb = ap₂ ltb (word_rank a ha) (word_rank b hb)
  where
    word_rank : (d : ℕ) → IsU64 d → (d + 2 ^ 63) % 2 ^ 64 ≡ rank d
    word_rank d h = ground arith

adjusted-rank : (m d : ℕ) → IsU64 m → IsU64 d → rank m ≤ rank d → adjusted m d ≡ rank d - rank m
unfolding adjusted
adjusted-rank m d hm hd le = ground arith

pub record IsLeast (m : ℕ) (deltas : List ℕ) : Type 0 where
  pub below : All (λ d. rank m ≤ rank d) deltas
  pub there : Any (λ d. d ≡ m) deltas

min_delta_loop-IsLeast :
    (best : ℕ) (deltas : List ℕ)
    → IsU64 best
    → All IsU64 deltas
    → IsU64 (min_delta_loop best deltas) × IsLeast (min_delta_loop best deltas) (best ∷ deltas)
unfolding min_delta_loop
min_delta_loop-IsLeast best [] hb hd = (hb, record { below = (omega arith, tt); there = inl refl })
min_delta_loop-IsLeast best (d ∷ deltas) hb hd =
    let order = signed_ltb-rank d best hd.0 hb in
    elim (Bool-cases (ltb (rank d) (rank best))) [
      | inl less ↦
          let (word, least) = min_delta_loop-IsLeast d deltas hd.0 hd.1 in
          let lt = ltb→lt _ _ less in
          rw (order, less)
            (
              word,
              record {
                below = (omega (arith, least.below.0), least.below);
                there = inr least.there;
              },
            )
      | inr more ↦
          let (word, least) = min_delta_loop-IsLeast best deltas hb hd.1 in
          let le = ltb-false→le _ _ more in
          rw (order, more)
            (
              word,
              record {
                below = (least.below.0, (omega (arith, least.below.0), least.below.1));
                there = elim least.there [ inl e ↦ inl e | inr later ↦ inr (inr later) ];
              },
            )
    ]

-- What is known of the deltas of a block, and what is said of each.
block_width :
    (m : ℕ) (block : List ℕ)
    → IsU64 m
    → All IsU64 block
    → All (λ d. rank m ≤ rank d) block
    → (bit_width_required (max_adjusted m block 0) ≤ 64)
      × All (λ d. rank d - rank m < 2 ^ bit_width_required (max_adjusted m block 0)) block
      × ((bit_width_required (max_adjusted m block 0) ≡ 0)
          ⊎ Any
              (λ d. 2 ^ (bit_width_required (max_adjusted m block 0) - 1) ≤ rank d - rank m)
              block)
block_width m block hm words above =
    let most = max_adjusted m block 0 in
    let word = max_adjusted-lt m block 0 (omega arith) in
    let width = bit_width_required-IsWidth most word in
    let distances : All (λ d. adjusted m d ≡ rank d - rank m) block =
      All-zip (λ d hd le. adjusted-rank m d hm hd le) block words above in
    (
      width.least 64 word,
      All-zip (λ d same le. omega (arith, same, le, width.holds)) block distances
          (max_adjusted_lem m block 0).1,
      elim (least_width most (bit_width_required most) width) [
        | inl no_bits ↦ inl no_bits
        | inr large ↦ elim (max_adjusted_attained m block 0) [
          | inl none_larger ↦ inl (omega (arith, width.least 0 (omega (arith, none_larger))))
          | inr there ↦
              inr (Any-zip (λ d same is. omega (arith, same, is, large)) block distances there)
        ]
      ],
    )

-- In a block of deltas that are words of 64 bits, the least delta is one of them and is least in
-- the order of signed integers. The width of every mini block, the 32 deltas from its place on,
-- is at most 64 bits; how far each of these deltas is above the least one fits it; and, unless
-- it is 0, the distance of one of them does not fit a bit less.
pub mini_block_width_lem :
    (first : ℕ) (others : List ℕ) (mb : ℕ)
    → All IsU64 (first ∷ others)
    → IsLeast (min_delta (first ∷ others)) (first ∷ others)
      × (mini_block_width (first ∷ others) mb ≤ 64)
      × All
          (λ d.
            rank d - rank (min_delta (first ∷ others)) < 2 ^ mini_block_width (first ∷ others) mb)
          (take 32 (drop (mb * 32) (first ∷ others)))
      × ((mini_block_width (first ∷ others) mb ≡ 0)
          ⊎ Any
              (λ d.
                2 ^ (mini_block_width (first ∷ others) mb - 1)
                ≤ rank d - rank (min_delta (first ∷ others)))
              (take 32 (drop (mb * 32) (first ∷ others))))
unfolding mini_block_width mini_block min_delta
mini_block_width_lem first others mb words =
    let (word, least) = min_delta_loop-IsLeast first others words.0 words.1 in
    let m = min_delta_loop first others in
    let (narrow, fits, needed) =
      block_width m (take 32 (drop (mb * 32) (first ∷ others))) word
        (take-All IsU64 32 _ (drop-All IsU64 (mb * 32) (first ∷ others) words))
        (take-All (λ d. rank m ≤ rank d) 32 _
          (drop-All (λ d. rank m ≤ rank d) (mb * 32) (first ∷ others) least.below)) in
    (least, narrow, fits, needed)
