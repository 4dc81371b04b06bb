-- ===== src/Encoding/Delta/Encoder/Bounds.antt =====
-- The encoder stays within the capacity that it is given.
use carquet.Prelude.{
  ℕ, zero, suc, ◌+◌, ◌-◌, ◌*◌, ◌/◌, ◌^◌, ◌<◌, ◌≤◌, ◌≡◌, refl, arith, ap, Option, none, some, ◌>>=◌,
  map,
}
use carquet.Prelude.{
  List, [], ◌∷◌, ◌++◌, length, length-append, length-replicate, length-take, drop, replicate, All,
  IsU64, Bool, true, false,
}
use carquet.Prelude.{
  if◌then◌else◌, ltb, leb, ◌==◌, digits, length-digits, u64, u32, Bool-cases, inl, inr, tests,
  ltb-false→le, All-append, subst,
}
use carquet.Core.Endian.{encode_varint64, zigzag_encode64}
use carquet.Core.Endian.Varint.{encode_varint64_shape}
use carquet.Core.Endian.Zigzag.{zigzag_encode64-lt}
use carquet.Core.Bitpack.Sizes.{length-bitpack_32}
use carquet.Encoding.Delta.Encoder.{
  DeltaEncoder, header, encode, encode_loop, flushed, flush_block, block_bytes, widths,
  mini_block_width, mini_block, adjusted, min_delta, min_delta_loop, signed_ltb, packed_total,
  packed_bytes, mini_blocks_bytes, mini_block_bytes, wide_bytes,
}

length-map {ℓ κ} :
    {A : Type ℓ} {B : Type κ} (f : A → B) (xs : List A) → length (map f xs) ≡ length xs
length-map f [] = refl
length-map f (x ∷ xs) = ap suc (length-map f xs)

length-wide_bytes : (b : ℕ) (values : List ℕ) → length (wide_bytes b values) ≡ length values * b
unfolding wide_bytes
length-wide_bytes b [] = omega arith
length-wide_bytes b (v ∷ values) = omega (
  arith,
  length-append (digits 256 b v) (wide_bytes b values),
  length-digits 256 b v,
  length-wide_bytes b values,
)

-- The bytes of a mini block are those that the check of the capacity counts.
length-mini_block_bytes :
    (smallest : ℕ) (deltas : List ℕ) (w : ℕ)
    → length deltas ≤ 32
    → length (mini_block_bytes smallest deltas w) ≡ packed_bytes w
unfolding mini_block_bytes packed_bytes
length-mini_block_bytes smallest deltas w h =
    let values : List ℕ = map (adjusted smallest) deltas in
    let padding : List ℕ = replicate (32 - length deltas) 0 in
    let full : length (values ++ padding) ≡ 32 = omega (
      arith,
      length-append values padding,
      length-map (adjusted smallest) deltas,
      length-replicate {A = ℕ} (32 - length deltas) 0,
    ) in
    let full_words : length (map u32 values ++ padding) ≡ 32 = omega (
      arith,
      length-append (map u32 values) padding,
      length-map u32 values,
      length-map (adjusted smallest) deltas,
      length-replicate {A = ℕ} (32 - length deltas) 0,
    ) in
    elim (Bool-cases (leb w 32)) [
      | inl packed ↦ ground (
        arith,
        length-bitpack_32 (map u32 values ++ padding) w full_words (omega (tests, packed)),
      )
      | inr wide ↦ ground (arith, wide, length-wide_bytes ((w + 7) / 8) (values ++ padding), full)
    ]

length-mini_block : (deltas : List ℕ) (mb : ℕ) → length (mini_block deltas mb) ≤ 32
unfolding mini_block
length-mini_block deltas mb = omega (arith, length-take 32 (drop (mb * 32) deltas))

length-mini_blocks_bytes :
    (deltas : List ℕ) (rounds mb : ℕ)
    → length (mini_blocks_bytes deltas rounds mb) ≡ packed_total (widths deltas rounds mb)
unfolding mini_blocks_bytes packed_total widths
length-mini_blocks_bytes deltas zero mb = refl
length-mini_blocks_bytes deltas (suc rounds) mb = omega (
  arith,
  length-append
      (mini_block_bytes (min_delta deltas) (mini_block deltas mb) (mini_block_width deltas mb))
      (mini_blocks_bytes deltas rounds (mb + 1)),
  length-mini_block_bytes (min_delta deltas) (mini_block deltas mb) (mini_block_width deltas mb)
      (length-mini_block deltas mb),
  length-mini_blocks_bytes deltas rounds (mb + 1),
)

length-widths : (deltas : List ℕ) (rounds mb : ℕ) → length (widths deltas rounds mb) ≡ rounds
unfolding widths
length-widths deltas zero mb = refl
length-widths deltas (suc rounds) mb = ap suc (length-widths deltas rounds (mb + 1))

min_delta_loop-lt :
    (best : ℕ) (deltas : List ℕ)
    → IsU64 best
    → All IsU64 deltas
    → IsU64 (min_delta_loop best deltas)
unfolding min_delta_loop
min_delta_loop-lt best [] h hs = h
min_delta_loop-lt best (d ∷ deltas) h hs =
    min_delta_loop-lt (if signed_ltb d best then d else best) deltas (picked (signed_ltb d best))
      hs.1
  where
    picked : (b : Bool) → IsU64 (if b then d else best)
    picked true = hs.0
    picked false = h

min_delta-lt : (deltas : List ℕ) → All IsU64 deltas → IsU64 (min_delta deltas)
unfolding min_delta
min_delta-lt [] h = omega arith
min_delta-lt (d ∷ deltas) h = min_delta_loop-lt d deltas h.0 h.1

length-block_bytes :
    (deltas : List ℕ)
    → All IsU64 deltas
    → length (block_bytes deltas) ≤ 10 + 4 + packed_total (widths deltas 4 0)
unfolding block_bytes
length-block_bytes deltas h =
    let code = zigzag_encode64 (min_delta deltas) in
    let short =
      encode_varint64_shape 9 code
        (omega (arith, zigzag_encode64-lt (min_delta deltas) (min_delta-lt deltas h))) in
    omega (
      arith,
      short.2,
      length-append (encode_varint64 code) (widths deltas 4 0 ++ mini_blocks_bytes deltas 4 0),
      length-append (widths deltas 4 0) (mini_blocks_bytes deltas 4 0),
      length-widths deltas 4 0,
      length-mini_blocks_bytes deltas 4 0,
    )

-- What has been stored stands within the capacity.
record Within (capacity : ℕ) (enc : DeltaEncoder) : Type 0 where
  same : enc.capacity ≡ capacity
  fits : length enc.out ≤ capacity
  words : All IsU64 enc.deltas

-- A property of the result, if there is one.
abbrev Gives : {A : Type 0} → (A → Type 0) → Option A → Type 0
Gives P none = Unit {0}
Gives P (some a) = P a

Gives-bind :
    {A B : Type 0} (P : A → Type 0) (Q : B → Type 0) (o : Option A) (f : A → Option B)
    → Gives P o
    → ((a : A) → P a → Gives Q (f a))
    → Gives Q (o >>= f)
Gives-bind P Q none f p q = tt
Gives-bind P Q (some a) f p q = q a p

Gives-if :
    {A : Type 0} (P : A → Type 0) (b : Bool) (x y : Option A)
    → (b ≡ true → Gives P x)
    → (b ≡ false → Gives P y)
    → Gives P (if b then x else y)
Gives-if P true x y p q = p refl
Gives-if P false x y p q = q refl

flush_block-Within :
    (capacity : ℕ) (enc : DeltaEncoder)
    → Within capacity enc
    → Gives (Within capacity) (flush_block enc)
unfolding flush_block
flush_block-Within capacity enc w =
    let needed = 10 + 4 + packed_total (widths enc.deltas 4 0) in
    Gives-if (Within capacity) (length enc.deltas == 0) _ _ (λ e. w)
      (λ e.
        Gives-if (Within capacity) (ltb enc.capacity (length enc.out + needed)) _ _ (λ over. tt)
          (λ room. record {
            same = w.same;
            fits = omega (
              arith,
              ltb-false→le _ _ room,
              w.same,
              length-append enc.out (block_bytes enc.deltas),
              length-block_bytes enc.deltas w.words,
            );
            words = tt;
          }))

flushed-Within :
    (capacity : ℕ) (full : Bool) (enc : DeltaEncoder)
    → Within capacity enc
    → Gives (Within capacity) (flushed full enc)
unfolding flushed
flushed-Within capacity true enc w = flush_block-Within capacity enc w
flushed-Within capacity false enc w = w

encode_loop-Within :
    (capacity : ℕ) (values : List ℕ) (enc : DeltaEncoder)
    → Within capacity enc
    → Gives (Within capacity) (encode_loop values enc)
unfolding encode_loop
encode_loop-Within capacity [] enc w = w
encode_loop-Within capacity (value ∷ values) enc w =
    let delta = u64 (value + 2 ^ 64 - enc.last_value) in
    let pushed : DeltaEncoder = record enc {
      deltas = enc.deltas ++ (delta ∷ []);
      last_value = value;
    } in
    Gives-bind (Within capacity) (Within capacity) (flushed (length enc.deltas + 1 == 128) pushed)
      (encode_loop values)
      (flushed-Within capacity (length enc.deltas + 1 == 128) pushed (record {
        same = w.same;
        fits = w.fits;
        words = All-append IsU64 enc.deltas (delta ∷ []) w.words (omega arith, tt);
      }))
      (λ enc' w'. encode_loop-Within capacity values enc' w')

length-header : (n first : ℕ) → n < 2 ^ 64 → IsU64 first → length (header n first) ≤ 40
unfolding header
length-header n first hn hf =
    let code = zigzag_encode64 first in
    let size = encode_varint64_shape 9 128 (omega arith) in
    let minis = encode_varint64_shape 9 4 (omega arith) in
    let total = encode_varint64_shape 9 n (omega arith) in
    let value = encode_varint64_shape 9 code (omega (arith, zigzag_encode64-lt first hf)) in
    omega (
      arith,
      size.2,
      minis.2,
      total.2,
      value.2,
      length-append (encode_varint64 128)
          (encode_varint64 4 ++ (encode_varint64 n ++ encode_varint64 code)),
      length-append (encode_varint64 4) (encode_varint64 n ++ encode_varint64 code),
      length-append (encode_varint64 n) (encode_varint64 code),
    )

encode-Gives :
    (values : List ℕ) (capacity : ℕ)
    → All IsU64 values
    → length values < 2 ^ 64
    → Gives (λ bytes. length bytes ≤ capacity) (encode values capacity)
unfolding encode
encode-Gives [] capacity h small =
    Gives-if (λ bytes. length bytes ≤ capacity) (ltb capacity 40) _ _ (λ over. tt)
      (λ room. omega (arith, ltb-false→le _ _ room, length-header 0 0 (omega arith) (omega arith)))
encode-Gives (first ∷ values) capacity (hf, h) small =
    let started : DeltaEncoder = record {
      out = header (suc (length values)) first;
      capacity = capacity;
      last_value = first;
      deltas = [];
    } in
    Gives-if (λ bytes. length bytes ≤ capacity) (ltb capacity 40) _ _ (λ over. tt)
      (λ room.
        Gives-bind (Within capacity) (λ bytes. length bytes ≤ capacity) (encode_loop values started)
          _
          (encode_loop-Within capacity values started (record {
            same = refl;
            fits =
                omega (
                  arith,
                  ltb-false→le _ _ room,
                  length-header (suc (length values)) first small hf,
                );
            words = tt;
          }))
          (λ enc w.
            Gives-bind (Within capacity) (λ bytes. length bytes ≤ capacity) (flush_block enc) _
              (flush_block-Within capacity enc w) (λ enc' w'. w'.fits)))

-- For fewer than 2^64 words of 64 bits, whatever the encoder accepts takes at most the capacity:
-- the check before each block counts enough for the bytes that the block then has.
pub encode_within :
    (values bytes : List ℕ) (capacity : ℕ)
    → All IsU64 values
    → length values < 2 ^ 64
    → encode values capacity ≡ some bytes
    → length bytes ≤ capacity
encode_within values bytes capacity h small e =
    subst (Gives (λ b. length b ≤ capacity)) e (encode-Gives values capacity h small)
