-- ===== src/Encoding/ByteStreamSplit/Examples.antt =====
-- The byte stream split on two values of three bytes and on one page of four values of four bytes.
use carquet.Prelude.{ℕ, ◌+◌, ◌*◌, ◌≡◌, refl, arith, [], ◌∷◌, get_or}
use carquet.Core.Status.{ok, error_encode, error_decode}
use carquet.Encoding.ByteStreamSplit.{
  encode, decode, split, join, split_row, split_rows, store, required_size, join_value, join_values,
  tile_loop, gather, copy, decode_at, scalar_byte_split_decode, encode_float, decode_float,
}
use carquet.Encoding.ByteStreamSplit.RoundTrip.{decode-encode, decode_lem}

abbrev six : ℕ → ℕ
six i = get_or (10 ∷ 11 ∷ 12 ∷ 20 ∷ 21 ∷ 22 ∷ []) i 0

abbrev blank : ℕ → ℕ
blank i = 0

second_byte_first : split 3 2 six blank 2 ≡ 11
unfolding split split_rows split_row store
second_byte_first = refl

two_tiles : tile_loop 4 3 2 4 0 (λ i. i) blank blank 7 ≡ 7
unfolding tile_loop gather copy decode_at scalar_byte_split_decode join_values join_value store
two_tiles = refl

no_room : encode_float 2 7 six blank ≡ (error_encode, 0, blank)
unfolding encode_float required_size
no_room = refl

no_bytes : decode_float 2 7 six blank blank ≡ (error_decode, blank)
unfolding decode_float required_size
no_bytes = refl

decode-encode_example :
    (streams : ℕ → ℕ) × (decoded : ℕ → ℕ) × (encode 3 2 6 six blank ≡ (ok, 2 * 3, streams))
    × (decode 3 2 6 streams blank blank ≡ (ok, decoded))
    × (decoded (1 * 3 + 2) ≡ six (1 * 3 + 2))
decode-encode_example =
    decode-encode 3 2 6 6 six blank blank blank 1 2 (omega arith) (omega arith) (omega arith)
      (omega arith) (omega arith)

decode_lem_example :
    (decode 4 70000 280000 (λ i. i) blank blank ≡ (ok, join 4 70000 (λ i. i) blank blank))
    × (join 4 70000 (λ i. i) blank blank (69999 * 4 + 3) ≡ 3 * 70000 + 69999)
decode_lem_example =
    decode_lem 4 70000 280000 (λ i. i) blank blank 69999 3 (omega arith) (omega arith) (omega arith)
      (omega arith)
