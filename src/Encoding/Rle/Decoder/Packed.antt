-- ===== src/Encoding/Rle/Decoder/Packed.antt =====
-- What the decoder reads from one run.
use carquet.Prelude.{
  ℕ, zero, suc, ◌+◌, ◌-◌, ◌*◌, ◌^◌, ◌<◌, ◌≤◌, ◌≡◌, refl, arith, ap, ◌∙◌, sym, subst,
}
use carquet.Prelude.{Bool, true, false, Bool-cases, inl, inr, ltb, ◌==◌, ==→eq, ==-false→ne}
use carquet.Prelude.{List, [], ◌∷◌, ◌++◌, length, All, take, drop, IsDigit, min, append_assoc}
use carquet.Prelude.{length-append, length-take, length-drop, take-append-drop}
use mathlib.Core.Path.{ap₂}
use native.Mathlib.Nat.{mod-eq_of_lt}
use carquet.Prelude.{drop-append_self, All-append, drop-All, take-All, empty_list}
use carquet.Core.Status.{ok}
use carquet.Core.Bitpack.{pack_groups, bitunpack8_32, bitpack8_32}
use carquet.Core.Bitpack.Pack.{fields}
use carquet.Core.Bitpack.RoundTrip.{bitunpack8-bitpack8, length-bitpack8_32}
use carquet.Encoding.Rle.Format.{Encodes, Encodes-bytes}
use carquet.Core.Bitpack.Groups.{pack_groups_shape}
use carquet.Encoding.Rle.Decoder.{Decoder, need_values, fill_bitpack_buffer, copied, advance}
use carquet.Encoding.Rle.Decoder.Start.{groups, Pending}

-- The inner loop copies the first values of the buffer, as many as all its bounds allow.
pub copied_lem :
    (left run_remaining : ℕ) (unread : List ℕ)
    → copied left run_remaining unread ≡ take (min (min (length unread) left) run_remaining) unread
unfolding copied
copied_lem zero run_remaining unread =
    let n : min (min (length unread) 0) run_remaining ≡ 0 = omega arith in rw n refl
copied_lem (suc left) zero unread =
    let n : min (min (length unread) (suc left)) 0 ≡ 0 = omega arith in rw n refl
copied_lem (suc left) (suc run_remaining) [] =
    let n : min (min 0 (suc left)) (suc run_remaining) ≡ 0 = omega arith in rw n refl
copied_lem (suc left) (suc run_remaining) (x ∷ unread) =
    let n : min (min (suc (length unread)) (suc left)) (suc run_remaining)
        ≡ suc (min (min (length unread) left) run_remaining) =
      omega arith in
    rw n (ap (λ t. x ∷ t) (copied_lem left run_remaining unread))

-- Fields of values that fit are the values.
fields_fit : (w : ℕ) (values : List ℕ) → All (IsDigit (2 ^ w)) values → fields w values ≡ values
fields_fit w [] h = refl
fields_fit w (x ∷ values) h = ap₂ ◌∷◌ (mod-eq_of_lt h.0) (fields_fit w values h.1)

-- The decoder stands in a packed run: some values wait in its buffer, the others in groups.
pub record InGroups (w : ℕ) (dec : Decoder) (values : List ℕ) : Type 0 where
  pub good : dec.status ≡ ok
  pub width : dec.bit_width ≡ w
  pub mask : dec.value_mask ≡ 2 ^ w - 1
  pub kind : dec.in_rle_run ≡ false
  pub g : ℕ
  pub gs : List ℕ
  pub tail : List ℕ
  pub later : List ℕ
  pub parts : values ≡ dec.unread ++ (gs ++ later)
  pub input : dec.input ≡ pack_groups g gs w ++ tail
  pub size : length gs ≡ 8 * g
  pub fits : All (IsDigit (2 ^ w)) gs
  pub count : dec.run_remaining ≡ length dec.unread + 8 * g
  pub stream : Encodes w tail later

pub InGroups-Pending :
    (w : ℕ) (dec : Decoder) (values : List ℕ) → InGroups w dec values → Pending w dec values
InGroups-Pending w dec values p = record {
  good = p.good;
  width = p.width;
  mask = p.mask;
  now = dec.unread ++ p.gs;
  later = p.later;
  tail = p.tail;
  parts = p.parts ∙ sym (append_assoc dec.unread p.gs p.later);
  run = groups p.g p.gs p.kind p.input p.size p.fits p.count;
  stream = p.stream;
}

pub record Filled (w : ℕ) (dec : Decoder) (values : List ℕ) (out : Bool × Decoder) : Type 0 where
  pub filled : out.0 ≡ true
  pub inner : InGroups w out.1 values
  pub some : 0 < length out.1.unread
  pub same : out.1.run_remaining ≡ dec.run_remaining

-- A group read into the buffer.
fill-Filled :
    (w g : ℕ) (dec : Decoder) (values : List ℕ) (p : InGroups w dec values)
    → w ≤ 32
    → dec.unread ≡ []
    → p.g ≡ suc g
    → Filled w dec values (fill_bitpack_buffer dec)
unfolding fill_bitpack_buffer pack_groups
fill-Filled w g dec values p hw empty more =
    let first = take 8 p.gs in
    let others = drop 8 p.gs in
    let rest = pack_groups g others w ++ p.tail in
    let eight : length first ≡ 8 = omega (arith, length-take 8 p.gs, p.size, more) in
    let others_size : length others ≡ 8 * g = omega (arith, length-drop 8 p.gs, p.size, more) in
    let running : (dec.run_remaining == 0) ≡ false = ground (arith, p.count, more) in
    let input : dec.input ≡ bitpack8_32 first w ++ rest =
      p.input
      ∙ ap (λ n. pack_groups n p.gs w ++ p.tail) more
      ∙ append_assoc (bitpack8_32 first w) (pack_groups g others w) p.tail in
    let taken : length (bitpack8_32 first w) ≡ w = length-bitpack8_32 first w eight hw in
    let enough : ltb (length dec.input) dec.bit_width ≡ false =
      rw (p.width, input) (ground (arith, taken, length-append (bitpack8_32 first w) rest)) in
    let after : drop dec.bit_width dec.input ≡ rest =
      rw (p.width, input)
        (subst (λ n. drop n (bitpack8_32 first w ++ rest) ≡ rest) taken
          (drop-append_self (bitpack8_32 first w) rest)) in
    let bytes : All (IsDigit 256) rest =
      All-append (IsDigit 256) _ _ (pack_groups_shape g others w hw others_size).0
        (Encodes-bytes w hw p.stream) in
    let unpacked : bitunpack8_32 dec.input dec.bit_width ≡ first =
      rw (p.width, input)
        (bitunpack8-bitpack8 first rest w eight hw bytes
          ∙ fields_fit w first (take-All (IsDigit (2 ^ w)) 8 p.gs p.fits)) in
    rw (running, enough, after, unpacked)
      (record {
        filled = refl;
        inner = record {
          good = p.good;
          width = p.width;
          mask = p.mask;
          kind = p.kind;
          g = g;
          gs = others;
          tail = p.tail;
          later = p.later;
          parts =
              p.parts
              ∙ ap (λ t. t ++ (p.gs ++ p.later)) empty
              ∙ ap (λ t. t ++ p.later) (sym (take-append-drop 8 p.gs))
              ∙ append_assoc first others p.later;
          input = refl;
          size = others_size;
          fits = drop-All (IsDigit (2 ^ w)) 8 p.gs p.fits;
          count = omega (arith, p.count, ap length empty, more, eight);
          stream = p.stream;
        };
        some = omega arith;
        same = refl;
      })

pub need_values-Filled :
    (w : ℕ) (dec : Decoder) (values : List ℕ)
    → w ≤ 32
    → InGroups w dec values
    → 0 < dec.run_remaining
    → Filled w dec values (need_values dec)
unfolding need_values
need_values-Filled w dec values hw p running = elim (Bool-cases (length dec.unread == 0)) [
  | inl empty ↦
      let nothing : length dec.unread ≡ 0 = ==→eq _ _ empty in
      rw empty (
        fill-Filled w (p.g - 1) dec values p hw (empty_list dec.unread nothing)
          (omega (arith, p.count)))
  | inr some ↦
      rw some (record {
        filled = refl;
        inner = p;
        some = omega (arith, ==-false→ne _ _ some);
        same = refl;
      })
]

-- Values of the buffer passed over.
pub advance-InGroups :
    (w k : ℕ) (dec : Decoder) (values : List ℕ) (p : InGroups w dec values)
    → k ≤ length dec.unread
    → (values ≡ take k dec.unread ++ (drop k dec.unread ++ (p.gs ++ p.later)))
      × InGroups w (advance k dec) (drop k dec.unread ++ (p.gs ++ p.later))
unfolding advance
advance-InGroups w k dec values p hk =
    let rest = p.gs ++ p.later in
    (
      p.parts
          ∙ ap (λ t. t ++ rest) (sym (take-append-drop k dec.unread))
          ∙ append_assoc (take k dec.unread) (drop k dec.unread) rest,
      record {
        good = p.good;
        width = p.width;
        mask = p.mask;
        kind = p.kind;
        g = p.g;
        gs = p.gs;
        tail = p.tail;
        later = p.later;
        parts = refl;
        input = p.input;
        size = p.size;
        fits = p.fits;
        count = omega (arith, p.count, length-drop k dec.unread);
        stream = p.stream;
      },
    )
