-- ===== src/Core/Bitpack/Sizes.antt =====
-- Packed runs are as long as counted.
use carquet.Prelude.{ℕ, zero, suc, ◌*◌, ◌≤◌, ◌≡◌, arith, List, length, take, drop}
use carquet.Prelude.{length-append, length-take, length-drop}
use carquet.Core.Bitpack.{bitpack8_32, pack_groups, bitpack_32}
use carquet.Core.Bitpack.RoundTrip.{length-bitpack8_32}

pub length-pack_groups :
    (groups : ℕ) (values : List ℕ) (w : ℕ)
    → length values ≡ 8 * groups
    → w ≤ 32
    → length (pack_groups groups values w) ≡ groups * w
unfolding pack_groups
length-pack_groups zero values w h h32 = omega arith
length-pack_groups (suc groups) values w h h32 = omega (
  arith,
  length-append (bitpack8_32 (take 8 values) w) (pack_groups groups (drop 8 values) w),
  length-bitpack8_32 (take 8 values) w (omega (arith, length-take 8 values)) h32,
  length-pack_groups groups (drop 8 values) w (omega (arith, length-drop 8 values)) h32,
)

-- A run of 32 values.
pub length-bitpack_32 :
    (values : List ℕ) (w : ℕ)
    → length values ≡ 32
    → w ≤ 32
    → length (bitpack_32 values 32 w) ≡ 4 * w
unfolding bitpack_32
length-bitpack_32 values w h h32 = ground (arith, length-pack_groups 4 values w h h32)
