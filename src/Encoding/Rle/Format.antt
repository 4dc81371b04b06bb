-- ===== src/Encoding/Rle/Format.antt =====
-- The hybrid format, as the Parquet specification describes it: a row of runs, each behind a
-- header. An even header announces a repeated value, an odd one groups of eight packed values.
use carquet.Prelude.{
  ℕ, zero, suc, ◌+◌, ◌*◌, ◌/◌, ◌%◌, ◌^◌, ◌<◌, ◌≤◌, ◌≡◌, arith, sym, subst, ltb, if◌then◌else◌, ◌∷◌,
  value,
}
use carquet.Prelude.{
  List, [], ◌++◌, length, All, replicate, digits, IsDigit, length-append, length-digits, All-append,
  digits-IsDigit, length-replicate,
}
use mathlib.Core.Path.{subst₂}
use mathlib.Core.List.{append_assoc}
use native.Mathlib.Nat.{mul-le-mul_right}
use carquet.Core.Endian.{encode_varint32, encode_varint64}
use carquet.Core.Endian.Varint.{encode_varint64_shape, encode_varint64_lem}

-- A number below `128 ^ suc n` in the base-128 form of the specification: seven bits a byte, the
-- lowest first, with 128 added to every byte but the last.
abbrev pub uleb128 : ℕ → ℕ → List ℕ
uleb128 zero v = v ∷ []
uleb128 (suc n) v =
    let rest = uleb128 n (v / 128) in if ltb v 128 then v ∷ [] else (128 + v % 128) ∷ rest

-- The header of a run is a word of 32 bits.
abbrev pub header_bytes : ℕ → List ℕ
header_bytes v = uleb128 4 v

-- `g` groups of eight values are one number of `8 * g` digits below `2 ^ w`, stored with its lowest
-- byte first.
abbrev pub group_bytes : ℕ → ℕ → List ℕ → List ℕ
group_bytes w g vs = digits 256 (w * g) (value (2 ^ w) vs)

-- `Encodes w bytes values`: the bytes are runs that hold the values, each below `2 ^ w`.
pub data Encodes (w : ℕ) : List ℕ → List ℕ → Type 0 where
  finished : Encodes w [] []
  repeated :
      (n v : ℕ) {bytes values : List ℕ}
      → 0 < n
      → n < 2 ^ 31
      → v < 2 ^ w
      → Encodes w bytes values
      → Encodes w
          (header_bytes (2 * n) ++ (digits 256 ((w + 7) / 8) v ++ bytes))
          (replicate n v ++ values)
  packed :
      (g : ℕ) (vs : List ℕ) {bytes values : List ℕ}
      → 0 < g
      → g < 2 ^ 31
      → length vs ≡ 8 * g
      → All (IsDigit (2 ^ w)) vs
      → Encodes w bytes values
      → Encodes w (header_bytes (2 * g + 1) ++ (group_bytes w g vs ++ bytes)) (vs ++ values)

-- Streams can be put one behind the other.
pub Encodes-append :
    {w : ℕ} {b1 v1 b2 v2 : List ℕ}
    → Encodes w b1 v1
    → Encodes w b2 v2
    → Encodes w (b1 ++ b2) (v1 ++ v2)
Encodes-append finished e = e
Encodes-append {w} {b2 = b2} {v2 = v2} (repeated n v {bytes} {values} pos small fits rest) e =
    let header = header_bytes (2 * n) in
    let value = digits 256 ((w + 7) / 8) v in
    subst₂ (Encodes w) (simp append_assoc) (sym (append_assoc (replicate n v) values v2))
      (repeated n v pos small fits (Encodes-append rest e))
Encodes-append {w} {b2 = b2} {v2 = v2} (packed g vs {bytes} {values} pos small size fits rest) e =
    subst₂ (Encodes w) (simp append_assoc) (sym (append_assoc vs values v2))
      (packed g vs pos small size fits (Encodes-append rest e))

encode_varint64-uleb128 : (n v : ℕ) → v < 128 ^ suc n → encode_varint64 v ≡ uleb128 n v
encode_varint64-uleb128 zero v h = rw encode_varint64_lem (ground arith)
encode_varint64-uleb128 (suc n) v h =
    rw encode_varint64_lem (ground (arith, encode_varint64-uleb128 n (v / 128)))

-- The writer of varints writes a header as the format has it.
pub encode_varint32-header : (v : ℕ) → v < 2 ^ 32 → encode_varint32 v ≡ header_bytes v
unfolding encode_varint32
encode_varint32-header v h = encode_varint64-uleb128 4 v (omega arith)

header_shape :
    (v : ℕ) → v < 2 ^ 32 → All (IsDigit 256) (header_bytes v) × (length (header_bytes v) ≤ 5)
unfolding encode_varint32
header_shape v h =
    let (bytes, _, size) = encode_varint64_shape 4 v (omega arith) in
    subst (λ t. All (IsDigit 256) t × (length t ≤ 5)) (encode_varint32-header v h)
      (bytes, omega arith)

-- A stream is made of bytes.
pub Encodes-bytes :
    (w : ℕ) → w ≤ 32 → {bytes values : List ℕ} → Encodes w bytes values → All (IsDigit 256) bytes
Encodes-bytes w hw finished = tt
Encodes-bytes w hw (repeated n v {bytes} {values} pos small fits rest) =
    All-append (IsDigit 256) _ _ (header_shape (2 * n) (omega arith)).0 (
      All-append (IsDigit 256) _ _ (digits-IsDigit 256 ((w + 7) / 8) v (omega arith))
        (Encodes-bytes w hw rest))
Encodes-bytes w hw (packed g vs {bytes} {values} pos small size fits rest) =
    All-append (IsDigit 256) _ _ (header_shape (2 * g + 1) (omega arith)).0 (
      All-append (IsDigit 256) _ _ (digits-IsDigit 256 (w * g) (value (2 ^ w) vs) (omega arith))
        (Encodes-bytes w hw rest))

-- At a width of at most 32 bits a stream has at most nine bytes for each of its values.
pub length-Encodes :
    (w : ℕ)
    → w ≤ 32
    → {bytes values : List ℕ} → Encodes w bytes values
    → length bytes ≤ 9 * length values
length-Encodes w hw finished = omega arith
length-Encodes w hw (repeated n v {bytes} {values} pos small fits rest) = omega (
  arith,
  (header_shape (2 * n) (omega arith)).1,
  length-append (header_bytes (2 * n)) (digits 256 ((w + 7) / 8) v ++ bytes),
  length-append (digits 256 ((w + 7) / 8) v) bytes,
  length-digits 256 ((w + 7) / 8) v,
  length-append (replicate n v) values,
  length-replicate n v,
  length-Encodes w hw rest,
)
length-Encodes w hw (packed g vs {bytes} {values} pos small size fits rest) =
    let groups : w * g ≤ 32 * g = mul-le-mul_right g hw in
    omega (
      arith,
      (header_shape (2 * g + 1) (omega arith)).1,
      length-append (header_bytes (2 * g + 1)) (group_bytes w g vs ++ bytes),
      length-append (group_bytes w g vs) bytes,
      length-digits 256 (w * g) (value (2 ^ w) vs),
      length-append vs values,
      length-Encodes w hw rest,
    )
