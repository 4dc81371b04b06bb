-- ===== src/Encoding/ByteStreamSplit/Places.antt =====
-- Where the loops of the byte stream split write, and what stands there afterwards.
use carquet.Prelude.{
  ℕ, zero, suc, ◌+◌, ◌*◌, ◌≤◌, ◌<◌, ◌≡◌, ◌≢◌, refl, sym, ap, ap₂, subst, ◌∙◌, ◌==◌, inl, inr, arith,
  if-true, if-false, Bool-cases, ltb, ltb→lt, ltb-false→le, ==→eq, eq→==, ==-false→ne, ne→==-false,
}
use native.Mathlib.Nat.{mul-le-mul_right}
use carquet.Encoding.ByteStreamSplit.{store, split_row, split_rows}

pub next_row : (r s cols : ℕ) → r < s → r * cols + cols ≤ s * cols
next_row r s cols lt =
    let le : suc r * cols ≤ s * cols = mul-le-mul_right cols lt in
    let step : suc r * cols ≡ r * cols + cols = omega arith in omega arith

same_row : (r s c d cols : ℕ) → c < cols → d < cols → r * cols + c ≡ s * cols + d → r ≡ s
same_row r s c d cols c_lt d_lt same = elim (Bool-cases (ltb r s)) [
  | inl e ↦ let le = next_row r s cols (ltb→lt r s e) in omega arith
  | inr e ↦ elim (Bool-cases (ltb s r)) [
    | inl f ↦ let le = next_row s r cols (ltb→lt s r f) in omega arith
    | inr f ↦ let le = ltb-false→le r s e in let ge = ltb-false→le s r f in omega arith
  ]
]

pub places_differ :
    (r s c d cols : ℕ) → c < cols → d < cols → r * cols + c ≡ s * cols + d → (r ≡ s) × (c ≡ d)
places_differ r s c d cols c_lt d_lt same =
    let rows = same_row r s c d cols c_lt d_lt same in
    let products : r * cols ≡ s * cols = ap (λ x. x * cols) rows in (rows, omega arith)

pub store_at : (at byte : ℕ) (memory : ℕ → ℕ) (i : ℕ) → i ≡ at → store at byte memory i ≡ byte
unfolding store
store_at at byte memory i e = if-true (i == at) _ _ (eq→== i at e)

pub store_off : (at byte : ℕ) (memory : ℕ → ℕ) (i : ℕ) → i ≢ at → store at byte memory i ≡ memory i
unfolding store
store_off at byte memory i ne = if-false (i == at) _ _ (ne→==-false i at ne)

-- A table of `rows` rows and `cols` columns is to hold at row `r` and column `c` what the other
-- table, which has the rows for columns, holds at row `c` and column `r`.
module _ (rows cols : ℕ) (source : ℕ → ℕ) where
  abbrev pub Turned : (r c : ℕ) → (ℕ → ℕ) → Type 0
  Turned r c memory = memory (r * cols + c) ≡ source (c * rows + r)

  pub store-Turned :
      (r s c d : ℕ) (memory : ℕ → ℕ)
      → c < cols
      → d < cols
      → Turned r c memory
      → Turned r c (store (s * cols + d) (source (d * rows + s)) memory)
  store-Turned r s c d memory c_lt d_lt turned =
      elim (Bool-cases ((r * cols + c) == (s * cols + d))) [
        | inl e ↦
            let same = ==→eq _ _ e in
            let (rs, cd) = places_differ r s c d cols c_lt d_lt same in
            store_at _ _ memory _ same ∙ ap₂ (λ x y. source (x * rows + y)) (sym cd) (sym rs)
        | inr e ↦ store_off _ _ memory _ (==-false→ne _ _ e) ∙ turned
      ]

-- The rows of the split are the byte streams.
module _ (count width : ℕ) (values : ℕ → ℕ) where
  split_row-Turned :
      (left i b r c : ℕ) (output : ℕ → ℕ)
      → i + left ≤ count
      → c < count
      → Turned width count values r c output
      → Turned width count values r c (split_row left i b count width values output)
  unfolding split_row
  split_row-Turned zero i b r c output fits c_lt turned = turned
  split_row-Turned (suc left) i b r c output fits c_lt turned =
      split_row-Turned left (i + 1) b r c _ (omega arith) c_lt
        (store-Turned width count values r b c i output c_lt (omega arith) turned)

  split_row-writes :
      (left i b c : ℕ) (output : ℕ → ℕ)
      → i + left ≤ count
      → i ≤ c
      → c < i + left
      → Turned width count values b c (split_row left i b count width values output)
  unfolding split_row
  split_row-writes zero i b c output fits low high = omega arith
  split_row-writes (suc left) i b c output fits low high = elim (Bool-cases (c == i)) [
    | inl e ↦
        let same = ==→eq c i e in
        split_row-Turned left (i + 1) b b c _ (omega arith) (omega arith) (
          subst
            (λ x.
              Turned width count values b x (store (b * count + i) (values (i * width + b)) output))
            (sym same) (store_at _ _ output _ refl))
    | inr e ↦
        let differs = ==-false→ne c i e in
        split_row-writes left (i + 1) b c _ (omega arith) (omega arith) (omega arith)
  ]

  split_rows-Turned :
      (left b r c : ℕ) (output : ℕ → ℕ)
      → c < count
      → Turned width count values r c output
      → Turned width count values r c (split_rows left b count width values output)
  unfolding split_rows
  split_rows-Turned zero b r c output c_lt turned = turned
  split_rows-Turned (suc left) b r c output c_lt turned =
      split_rows-Turned left (b + 1) r c _ c_lt
        (split_row-Turned count 0 b r c output (omega arith) c_lt turned)

  pub split_rows-writes :
      (left b r c : ℕ) (output : ℕ → ℕ)
      → c < count
      → b ≤ r
      → r < b + left
      → Turned width count values r c (split_rows left b count width values output)
  unfolding split_rows
  split_rows-writes zero b r c output c_lt low high = omega arith
  split_rows-writes (suc left) b r c output c_lt low high = elim (Bool-cases (r == b)) [
    | inl e ↦
        let same = ==→eq r b e in
        split_rows-Turned left (b + 1) r c _ c_lt (
          subst (λ x. Turned width count values x c (split_row count 0 b count width values output))
            (sym same)
            (split_row-writes count 0 b c output (omega arith) (omega arith) (omega arith)))
    | inr e ↦
        let differs = ==-false→ne r b e in
        split_rows-writes left (b + 1) r c _ c_lt (omega arith) (omega arith)
  ]
