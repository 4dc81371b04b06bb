-- ===== src/Encoding/Rle/Encoder/All.antt =====
-- What the encoder writes for a whole list of values.
use carquet.Prelude.{ℕ, ◌+◌, ◌*◌, ◌^◌, ◌<◌, ◌≤◌, ◌≡◌, arith, ap, sym, subst, not}
use carquet.Prelude.{
  false, List, [], ◌∷◌, ◌++◌, length, All, IsDigit, append_assoc, length-append, append-nil,
}
use carquet.Core.Status.{ok, is_ok}
use carquet.Core.Buffer.{Allocator, Buffer, contents}
use carquet.Core.Buffer.Growth.{IsValid}
use carquet.Core.Buffer.Append.{Wrote-start, HasRoom}
use carquet.Encoding.Rle.Format.{Encodes, length-Encodes}
use carquet.Encoding.Rle.Encoder.{Encoder, put, flush, init, encode_loop, encode_all}
use carquet.Encoding.Rle.Encoder.Writes.{Emitted}
use carquet.Encoding.Rle.Encoder.Puts.{Progress, put-Progress, flush-Emitted, init-Progress}

module _ (a : Allocator) (start : Buffer) (budget w : ℕ) (hw : w ≤ 32) where
  encode_loop-Emitted :
      (input : List ℕ) (enc : Encoder) (values : List ℕ)
      → Progress a start budget w hw enc values
      → All (IsDigit (2 ^ w)) input
      → length values + length input < 2 ^ 31
      → ((encode_loop a input enc).0 ≡ ok)
        × Emitted a start budget w (encode_loop a input enc).1.buffer (values ++ input)
  unfolding encode_loop
  encode_loop-Emitted [] enc values p fits small =
      let (done, e) = flush-Emitted a start budget w hw enc values p (omega arith) in
      (done, subst (Emitted a start budget w (flush a enc).1.buffer) (sym (append-nil values)) e)
  encode_loop-Emitted (x ∷ input) enc values p fits small =
      let (done, more) = put-Progress a start budget w hw enc values x p fits.0 (omega arith) in
      let next : not (is_ok (put a enc x).0) ≡ false = ap (λ s. not (is_ok s)) done in
      let (all_done, e) =
        encode_loop-Emitted input (put a enc x).1 (values ++ (x ∷ [])) more fits.1
          (omega (arith, length-append values (x ∷ []))) in
      rw next (
        all_done,
        subst (Emitted a start budget w (encode_loop a input (put a enc x).1).1.buffer)
            (append_assoc values (x ∷ []) input) e,
      )

-- What the stream of `values` is, and where it stands.
pub record Encoded (before after : Buffer) (w : ℕ) (values : List ℕ) : Type 0 where
  pub bytes : List ℕ
  pub behind : contents after ≡ contents before ++ bytes
  pub encodes : Encodes w bytes values

-- For a width of at most 32 bits, fewer than 2^31 values that fit it, and a valid buffer that
-- can come to hold nine bytes a value more, `encode_all` reports success and puts behind the
-- buffer's contents a stream of runs that the format allows and that holds exactly these values.
pub encode_all-Encoded :
    (a : Allocator) (output : Buffer) (w : ℕ) (input : List ℕ)
    → w ≤ 32
    → All (IsDigit (2 ^ w)) input
    → length input < 2 ^ 31
    → IsValid output
    → HasRoom a output (output.size + 9 * length input)
    → ((encode_all a input w output).0 ≡ ok)
      × Encoded output (encode_all a input w output).1 w input
unfolding encode_all
encode_all-Encoded a output w input hw fits small v room =
    let budget = 9 * length input in
    let (done, e) =
      encode_loop-Emitted a output budget w hw input (init output w) []
        (init-Progress a output budget w hw (Wrote-start a output budget v room)) fits
        (omega arith) in
    (
      done,
      record {
        bytes = e.out;
        behind = e.wrote.holds (length-Encodes w hw e.encodes);
        encodes = e.encodes;
      },
    )
