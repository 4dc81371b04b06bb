-- ===== src/Core/Buffer/Growth.antt =====
-- Growing a buffer changes no byte that it holds.
use carquet.Prelude.{
  ℕ, ◌≤◌, ◌≡◌, arith, ◌<◌, ◌-◌, ◌/◌, ◌^◌, max, two-pow-pos, bit_or-lt, Bool-cases, inl, inr, ◌==◌,
  ==-false→ne,
}
use native.Mathlib.Nat.{pow-le-pow_right, div-le_self}
use carquet.Prelude.{true, List, length, take}
use carquet.Prelude.{◌⊎◌}
use carquet.Core.Status.{ok, error_out_of_memory}
use carquet.Core.Buffer.{
  Allocator, Buffer, ensure_capacity, new_capacity, can_grow, next_power_of_two, smear, init,
  init_wrap,
}

-- The block is as large as its capacity says, and the bytes written fit it.
pub record IsValid (buf : Buffer) : Type 0 where
  pub whole : length buf.block ≡ buf.capacity
  pub fits : buf.size ≤ buf.capacity

pub init-IsValid : IsValid init
unfolding init
init-IsValid = omega arith

pub init_wrap-IsValid : (bytes : List ℕ) → IsValid (init_wrap bytes)
unfolding init_wrap
init_wrap-IsValid bytes = omega arith

pub new_capacity-le : (needed : ℕ) → needed ≤ new_capacity needed
unfolding new_capacity
new_capacity-le needed = ground arith

smear-lt : (k n e : ℕ) → n < 2 ^ e → smear k n < 2 ^ e
unfolding smear
smear-lt k n e h = bit_or-lt e n (n / 2 ^ k) h (omega (arith, div-le_self n (2 ^ k)))

-- Rounding up goes no further than a power of two that is large enough.
next_power_of_two-le : (n e : ℕ) → n ≤ 2 ^ e → e < 64 → next_power_of_two n ≤ 2 ^ e
unfolding next_power_of_two
next_power_of_two-le n e h he =
    let power : 2 ^ e ≤ 2 ^ 63 =
      pow-le-pow_right {n = 2} (omega arith) {i = e} {j = 63} (omega arith) in
    elim (Bool-cases (n == 0)) [
      | inl empty ↦ rw empty (two-pow-pos e)
      | inr some ↦
          let positive = ==-false→ne n 0 some in
          let smeared = smear-lt 32 _ e (
            smear-lt 16 _ e (
              smear-lt 8 _ e
                (smear-lt 4 _ e (smear-lt 2 _ e (smear-lt 1 (n - 1) e (omega arith)))))) in
          rw some (omega (arith, smeared))
    ]

pub new_capacity_bound :
    (needed e : ℕ) → needed ≤ 2 ^ e → e < 64 → new_capacity needed ≤ max 4096 (2 ^ e)
unfolding new_capacity
new_capacity_bound needed e h he = ground (arith, next_power_of_two-le needed e h he)

-- Whether `m` bytes in all can be had: they fit now, or the buffer may grow and is granted it.
abbrev pub CanHold : Allocator → Buffer → ℕ → Type 0
CanHold a buf m = (m ≤ buf.capacity) ⊎ ((can_grow buf ≡ true) × (a.grants (new_capacity m) ≡ true))

-- The outcomes of `ensure_capacity`.
pub record Grows (buf : Buffer) (needed : ℕ) (grown : Buffer) : Type 0 where
  pub valid : IsValid grown
  pub same_size : grown.size ≡ buf.size
  pub same_bytes : take buf.size grown.block ≡ take buf.size buf.block
  pub room : needed ≤ grown.capacity
  pub no_less : buf.capacity ≤ grown.capacity
  pub still_grows : can_grow buf ≡ true → can_grow grown ≡ true

module _ (a : Allocator) where
  -- When `ensure_capacity` succeeds on a valid buffer, the buffer is valid, has the capacity
  -- asked for and no less than before, holds the same bytes, and can still grow if it could.
  pub ensure_capacity-Grows :
      (buf : Buffer) (needed : ℕ)
      → IsValid buf
      → (ensure_capacity a buf needed).0 ≡ ok
      → Grows buf needed (ensure_capacity a buf needed).1
  unfolding ensure_capacity
  ensure_capacity-Grows buf needed v h = ground (
    arith,
    new_capacity-le needed,
    a.length_realloc buf.block (new_capacity needed),
    a.realloc_keeps buf.block (new_capacity needed) buf.size,
  )

  pub ensure_capacity_ok :
      (buf : Buffer) (needed : ℕ) → CanHold a buf needed → (ensure_capacity a buf needed).0 ≡ ok
  unfolding ensure_capacity
  ensure_capacity_ok buf needed h = ground arith

  -- Either there is room, or memory ran out and nothing has changed.
  pub ensure_capacity_outcomes :
      (buf : Buffer) (needed : ℕ)
      → ((ensure_capacity a buf needed).0 ≡ ok)
        ⊎ (ensure_capacity a buf needed ≡ (error_out_of_memory, buf))
  unfolding ensure_capacity
  ensure_capacity_outcomes buf needed = ground arith
