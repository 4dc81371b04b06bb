-- ===== src/Encoding/Rle/Decoder/Start.antt =====
-- What a decoder still has to read, and how it begins a run.
use carquet.Prelude.{
  ℕ, zero, suc, ◌+◌, ◌-◌, ◌*◌, ◌/◌, ◌%◌, ◌^◌, ◌<◌, ◌≤◌, ◌≡◌, refl, arith, ap, ◌∙◌, sym, subst,
}
use carquet.Prelude.{Bool, true, false, ltb, ◌==◌}
use carquet.Prelude.{
  List, [], ◌++◌, length, All, drop, replicate, IsDigit, digits, bit_and, bit_or, u32,
}
use carquet.Prelude.{
  bit_and_mask, bit_or_low, drop-append_self, length-append, length-digits, length-replicate, some,
  ◌<<◌,
}
use carquet.Prelude.{byte_pow, empty_list}
use native.Mathlib.Nat.{pow-le-pow_right, pow-suc, mul-le-mul_right, mod-eq_of_lt, div-add-mod}
use mathlib.Core.Path.{subst₂}
use carquet.Core.Status.{ok}
use carquet.Core.Endian.{encode_varint32, encode_varint64}
use carquet.Core.Endian.Varint.{decode_varint_loop-encode, encode_varint64_shape}
use carquet.Core.Bitpack.{pack_groups}
use carquet.Encoding.Rle.Format.{Encodes, finished, repeated, packed, encode_varint32-header}
use carquet.Prelude.{ap₂}
use carquet.Encoding.Rle.Groups.{pack_groups-group_bytes}
use carquet.Encoding.Rle.Decoder.{
  Decoder, start_run_loop, begin_repeated, read_header, read_varint, read_value,
}

read_varint-encode :
    (v : ℕ) (rest : List ℕ) → v < 2 ^ 32 → read_varint (encode_varint32 v ++ rest) ≡ some (v, rest)
unfolding read_varint encode_varint32
read_varint-encode v rest h = decode_varint_loop-encode 4 32 v rest (omega arith) h

pub encode_varint32_some :
    (v : ℕ) (rest : List ℕ) → v < 2 ^ 32 → (length (encode_varint32 v ++ rest) == 0) ≡ false
unfolding encode_varint32
encode_varint32_some v rest h =
    ground
      (arith, (encode_varint64_shape 4 v (omega arith)).1, length-append (encode_varint64 v) rest)

-- The bytes of a repeated value add up to it.
pub read_value_lem :
    (left i acc v : ℕ) (rest : List ℕ)
    → left + i ≤ 4
    → acc < 256 ^ i
    → v < 256 ^ left
    → read_value left i acc (digits 256 left v ++ rest) ≡ acc + v * 256 ^ i
unfolding read_value
read_value_lem zero i acc v rest hl ha hv =
    let nothing : v ≡ 0 = omega arith in rw nothing (omega arith)
read_value_lem (suc left) i acc v rest hl ha hv =
    let acc' = acc + v % 256 * 256 ^ i in
    let small : 256 ^ i ≤ 256 ^ 3 =
      pow-le-pow_right {n = 256} (omega arith) {i = i} {j = 3} (omega arith) in
    let next : 256 ^ (i + 1) ≡ 256 ^ i * 256 =
      ap (λ (t : ℕ). 256 ^ t) (omega arith) ∙ pow-suc 256 i in
    let product : v % 256 * 256 ^ i ≤ 255 * 256 ^ i = mul-le-mul_right (256 ^ i) (omega arith) in
    let shift : 256 ^ i ≡ 2 ^ (i * 8) = byte_pow i ∙ ap (λ (t : ℕ). 2 ^ t) (omega arith) in
    let step : bit_or acc (u32 ((v % 256) << (i * 8))) ≡ acc' =
      ap (bit_or acc)
        (mod-eq_of_lt {n = v % 256 * 2 ^ (i * 8)} {m = 2 ^ 32} (rw (← shift) (omega arith)))
      ∙ bit_or_low (i * 8) (v % 256) acc (rw (← shift) ha)
      ∙ ap (λ t. acc + v % 256 * t) (sym shift) in
    rw step (
      read_value_lem left (i + 1) acc' (v / 256) rest (omega arith) (omega arith) (omega arith)
      ∙ rw next (omega (arith, ap (λ (t : ℕ). t * 256 ^ i) (div-add-mod v 256))))

-- A run of a value whose header has been read.
begin_repeated_lem :
    (w : ℕ) (dec : Decoder) (v : ℕ) (bytes : List ℕ)
    → w ≤ 32
    → dec.bit_width ≡ w
    → dec.value_mask ≡ 2 ^ w - 1
    → dec.input ≡ digits 256 ((w + 7) / 8) v ++ bytes
    → v < 2 ^ w
    → begin_repeated dec ≡ (true, record dec { input = bytes; rle_value = v })
unfolding begin_repeated
begin_repeated_lem w dec v bytes hw width mask input fits =
    let k = (w + 7) / 8 in
    let size : length (digits 256 k v) ≡ k = length-digits 256 k v in
    let enough : ltb (length dec.input) ((dec.bit_width + 7) / 8) ≡ false =
      rw (width, input) (ground (arith, size, length-append (digits 256 k v) bytes)) in
    let after : drop ((dec.bit_width + 7) / 8) dec.input ≡ bytes =
      rw (width, input)
        (subst (λ n. drop n (digits 256 k v ++ bytes) ≡ bytes) size
          (drop-append_self (digits 256 k v) bytes)) in
    let room : 2 ^ w ≤ 256 ^ k =
      rw (byte_pow k) (pow-le-pow_right {n = 2} (omega arith) {i = w} {j = 8 * k} (omega arith)) in
    let read : read_value ((dec.bit_width + 7) / 8) 0 0 dec.input ≡ v =
      rw (width, input)
        (read_value_lem k 0 0 v bytes (omega arith) (omega arith) (omega arith) ∙ omega arith) in
    let masked : bit_and v dec.value_mask ≡ v = rw mask (bit_and_mask w v ∙ mod-eq_of_lt fits) in
    rw (enough, after, read, masked) refl

repeated_start :
    (k w : ℕ) (dec : Decoder) (n v : ℕ) (bytes : List ℕ)
    → w ≤ 32
    → dec.bit_width ≡ w
    → dec.value_mask ≡ 2 ^ w - 1
    → dec.input ≡ encode_varint32 (2 * n) ++ (digits 256 ((w + 7) / 8) v ++ bytes)
    → 0 < n
    → n < 2 ^ 31
    → v < 2 ^ w
    → start_run_loop (suc k) dec
      ≡ (true, record dec { input = bytes; in_rle_run = true; run_remaining = n; rle_value = v })
unfolding start_run_loop read_header
repeated_start k w dec n v bytes hw width mask input pos small fits =
    let header : read_varint dec.input ≡ some (2 * n, digits 256 ((w + 7) / 8) v ++ bytes) =
      rw input (read_varint-encode (2 * n) _ (omega arith)) in
    let nonempty : (length dec.input == 0) ≡ false =
      rw input (encode_varint32_some (2 * n) _ (omega arith)) in
    let even : bit_and (2 * n) 1 ≡ 0 = bit_and_mask 1 (2 * n) ∙ omega arith in
    let half : 2 * n / 2 ^ 1 ≡ n = omega arith in
    let some_left : (n == 0) ≡ false = ground arith in
    let dec' = record dec {
      input = digits 256 ((w + 7) / 8) v ++ bytes;
      in_rle_run = true;
      run_remaining = n;
    } in
    rw (nonempty, header, even, half, some_left)
      (begin_repeated_lem w dec' v bytes hw width mask refl fits)

packed_start :
    (k w : ℕ) (dec : Decoder) (g : ℕ) (bytes : List ℕ)
    → dec.input ≡ encode_varint32 (2 * g + 1) ++ bytes
    → 0 < g
    → g < 2 ^ 31
    → start_run_loop (suc k) dec
      ≡ (true, record dec { input = bytes; in_rle_run = false; run_remaining = g * 8; unread = [] })
unfolding start_run_loop read_header
packed_start k w dec g bytes input pos small =
    let header : read_varint dec.input ≡ some (2 * g + 1, bytes) =
      rw input (read_varint-encode (2 * g + 1) _ (omega arith)) in
    let nonempty : (length dec.input == 0) ≡ false =
      rw input (encode_varint32_some (2 * g + 1) _ (omega arith)) in
    let odd : bit_and (2 * g + 1) 1 ≡ 1 = bit_and_mask 1 (2 * g + 1) ∙ omega arith in
    let half : (2 * g + 1) / 2 ^ 1 ≡ g = omega arith in
    let some_left : (g * 8 == 0) ≡ false = ground arith in
    rw (nonempty, header, odd, half, some_left) refl

-- What the decoder that runs is about to give, and the stream behind its run.
pub data Running (w : ℕ) (dec : Decoder) : List ℕ → List ℕ → Type 0 where
  repeats :
      {tail : List ℕ}
      → dec.in_rle_run ≡ true
      → dec.input ≡ tail
      → Running w dec (replicate dec.run_remaining dec.rle_value) tail
  groups :
      (g : ℕ) (gs : List ℕ) {tail : List ℕ}
      → dec.in_rle_run ≡ false
      → dec.input ≡ pack_groups g gs w ++ tail
      → length gs ≡ 8 * g
      → All (IsDigit (2 ^ w)) gs
      → dec.run_remaining ≡ length dec.unread + 8 * g
      → Running w dec (dec.unread ++ gs) tail

-- The decoder has met no error, and the values that it has still to give are `values`.
pub record Pending (w : ℕ) (dec : Decoder) (values : List ℕ) : Type 0 where
  pub good : dec.status ≡ ok
  pub width : dec.bit_width ≡ w
  pub mask : dec.value_mask ≡ 2 ^ w - 1
  pub now : List ℕ
  pub later : List ℕ
  pub tail : List ℕ
  pub parts : values ≡ now ++ later
  pub run : Running w dec now tail
  pub stream : Encodes w tail later

length-Running :
    {w : ℕ} {dec : Decoder} {now tail : List ℕ}
    → Running w dec now tail
    → length now ≡ dec.run_remaining
length-Running {dec = dec} (repeats r e) = length-replicate dec.run_remaining dec.rle_value
length-Running {dec = dec} (groups g gs r e size fits count) =
    omega (arith, length-append dec.unread gs)

nothing_now :
    {w : ℕ} {dec : Decoder} {now tail : List ℕ}
    → Running w dec now tail
    → dec.run_remaining ≡ 0
    → (now ≡ []) × (dec.input ≡ tail)
unfolding pack_groups
nothing_now {dec = dec} (repeats r e) empty = (ap (λ n. replicate n dec.rle_value) empty, e)
nothing_now {w = w} {dec = dec} (groups g gs {tail} r e size fits count) empty =
    let no_groups : g ≡ 0 = omega arith in
    (
      empty_list (dec.unread ++ gs) (omega (arith, length-append dec.unread gs)),
      e ∙ ap (λ n. pack_groups n gs w ++ tail) no_groups,
    )

-- Between two runs the input is a stream of the rest.
pub between_runs :
    (w : ℕ) (dec : Decoder) (values : List ℕ)
    → Pending w dec values
    → dec.run_remaining ≡ 0
    → Encodes w dec.input values
between_runs w dec values p empty =
    let (nothing, at) = nothing_now p.run empty in
    subst₂ (Encodes w) (sym at) (sym (p.parts ∙ ap (λ t. t ++ p.later) nothing)) p.stream

pub record Begun (w : ℕ) (values : List ℕ) (out : Bool × Decoder) : Type 0 where
  pub started : out.0 ≡ true
  pub pending : Pending w out.1 values
  pub some : 0 < out.1.run_remaining

-- A run is begun wherever values are left.
pub start_run_loop-Begun :
    (k w : ℕ) (dec : Decoder) {input values : List ℕ}
    → w ≤ 32
    → dec.status ≡ ok
    → dec.bit_width ≡ w
    → dec.value_mask ≡ 2 ^ w - 1
    → dec.input ≡ input
    → Encodes w input values
    → 0 < length values
    → Begun w values (start_run_loop (suc k) dec)
start_run_loop-Begun k w dec hw good width mask input finished left = absurd (omega arith)
start_run_loop-Begun k w dec hw good width mask input
      (repeated n v {bytes} {values} pos small fits rest) left =
    subst (Begun w (replicate n v ++ values))
      (sym (
        repeated_start k w dec n v bytes hw width mask
          (input
            ∙ ap (λ h. h ++ (digits 256 ((w + 7) / 8) v ++ bytes))
                (sym (encode_varint32-header (2 * n) (omega arith))))
          pos small fits))
      (record {
        started = refl;
        pending = record {
          good = good;
          width = width;
          mask = mask;
          now = replicate n v;
          later = values;
          tail = bytes;
          parts = refl;
          run = repeats refl refl;
          stream = rest;
        };
        some = pos;
      })
start_run_loop-Begun k w dec hw good width mask input
      (packed g vs {bytes} {values} pos small size fits rest) left =
    subst (Begun w (vs ++ values))
      (sym (
        packed_start k w dec g (pack_groups g vs w ++ bytes)
          (input
            ∙ ap₂ (λ h t. h ++ (t ++ bytes))
                (sym (encode_varint32-header (2 * g + 1) (omega arith)))
                (sym (pack_groups-group_bytes g vs w hw size fits)))
          pos small))
      (record {
        started = refl;
        pending = record {
          good = good;
          width = width;
          mask = mask;
          now = vs;
          later = values;
          tail = bytes;
          parts = refl;
          run = groups g vs refl refl size fits (omega arith);
          stream = rest;
        };
        some = omega arith;
      })
