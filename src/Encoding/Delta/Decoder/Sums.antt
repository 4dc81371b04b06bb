-- ===== src/Encoding/Delta/Decoder/Sums.antt =====
-- The sums of the decoder undo the differences of the encoder.
use carquet.Prelude.{ℕ, ◌+◌, ◌-◌, ◌%◌, ◌^◌, ◌≡◌, refl, arith, ap, List, [], ◌∷◌, All, IsU64, u64}
use carquet.Encoding.Delta.Decoder.{prefix_sums}

-- What the encoder subtracts: each value from the one behind it.
abbrev pub differences : ℕ → List ℕ → List ℕ
differences last [] = []
differences last (value ∷ values) = u64 (value + 2 ^ 64 - last) ∷ differences value values

-- The sums of the decoder, started at a word of 64 bits, turn the wrapped differences of
-- successive words of 64 bits back into these words.
pub prefix_sums-differences :
    (first : ℕ) (values : List ℕ)
    → IsU64 first
    → All IsU64 values
    → prefix_sums 64 first (differences first values) ≡ values
unfolding prefix_sums
prefix_sums-differences first [] h hs = refl
prefix_sums-differences first (value ∷ values) h (hv, hs) =
    let sum : (first + u64 (value + 2 ^ 64 - first)) % 2 ^ 64 ≡ value = omega (arith, h, hv) in
    rw sum (ap (λ t. value ∷ t) (prefix_sums-differences value values hv hs))
