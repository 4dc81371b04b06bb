-- ===== src/Core/Buffer/Samples.antt =====
-- An allocator that meets every request, filling new blocks with zeros.
use carquet.Prelude.{
  ℕ, zero, suc, ◌≤◌, ◌≡◌, refl, arith, ap, true, List, [], ◌∷◌, length, take, replicate,
}
use carquet.Prelude.{length-replicate, ◌<◌, ◌^◌, ◌+◌, inr}
use carquet.Core.Buffer.{Allocator, Buffer, init}
use carquet.Core.Buffer.Growth.{IsValid, CanHold, init-IsValid}
use carquet.Core.Buffer.Append.{HasRoom}

zero_fill : List ℕ → ℕ → List ℕ
zero_fill [] n = replicate n 0
zero_fill (x ∷ block) zero = []
zero_fill (x ∷ block) (suc n) = x ∷ zero_fill block n

length-zero_fill : (block : List ℕ) (n : ℕ) → length (zero_fill block n) ≡ n
unfolding zero_fill
length-zero_fill [] n = length-replicate n 0
length-zero_fill (x ∷ block) zero = refl
length-zero_fill (x ∷ block) (suc n) = ap suc (length-zero_fill block n)

zero_fill_keeps :
    (block : List ℕ) (n k : ℕ)
    → k ≤ length block
    → k ≤ n
    → take k (zero_fill block n) ≡ take k block
unfolding zero_fill
zero_fill_keeps block n zero hb hn = refl
zero_fill_keeps [] n (suc k) hb hn = absurd (omega arith)
zero_fill_keeps (x ∷ block) zero (suc k) hb hn = absurd (omega arith)
zero_fill_keeps (x ∷ block) (suc n) (suc k) hb hn =
    ap (λ t. x ∷ t) (zero_fill_keeps block n k (omega arith) (omega arith))

abbrev pub zero_filled : Allocator
unfolding zero_fill length-zero_fill zero_fill_keeps
zero_filled = record {
  grants = λ n. true;
  realloc = zero_fill;
  length_realloc = length-zero_fill;
  realloc_keeps = zero_fill_keeps;
}

pub zero_filled_grants : (n : ℕ) → zero_filled.grants n ≡ true
unfolding zero_filled
zero_filled_grants n = refl

abbrev pub empty_buffer : Buffer
empty_buffer = init

pub empty_buffer-IsValid : IsValid empty_buffer
empty_buffer-IsValid = init-IsValid

pub empty_buffer_grows : (m : ℕ) → CanHold zero_filled empty_buffer m
unfolding init zero_filled
empty_buffer_grows m = inr (refl, refl)

pub empty_buffer_room :
    (limit : ℕ) → limit < 2 ^ 64 → HasRoom zero_filled empty_buffer (empty_buffer.size + limit)
unfolding init
empty_buffer_room limit h m hm = (omega arith, empty_buffer_grows m)
