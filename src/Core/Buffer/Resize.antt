-- ===== src/Core/Buffer/Resize.antt =====
-- Resizing and shrinking a buffer.
use carquet.Prelude.{ℕ, ◌+◌, ◌-◌, ◌<◌, ◌≤◌, ◌≡◌, refl, arith, ap, sym, ◌∙◌, true, ◌&&◌, some, false}
use carquet.Prelude.{
  List, [], ◌++◌, length, take, replicate, length-replicate, ltb, ◌==◌, Bool-cases, inl, inr,
}
use carquet.Prelude.{==→eq, lt→ltb, if◌then◌else◌}
use carquet.Core.Status.{ok}
use carquet.Core.Buffer.{Allocator, Buffer, contents, ensure_capacity, resize, shrink_to_fit, store}
use carquet.Core.Buffer.Growth.{IsValid, ensure_capacity-Grows}
use carquet.Core.Buffer.Append.{take-store, length-store}

module _ (a : Allocator) where
  -- On a valid buffer that owns its data `shrink_to_fit` passes its assertion and always reports
  -- success, also where the allocator refuses, and leaves a valid buffer that owns its data and
  -- holds the same bytes.
  pub shrink_to_fit-contents :
      (buf : Buffer)
      → IsValid buf
      → buf.owns_data ≡ true
      → (after : Buffer) × (shrink_to_fit a buf ≡ some (ok, after))
        × IsValid after
        × (after.owns_data ≡ true)
        × (contents after ≡ contents buf)
  unfolding shrink_to_fit contents
  shrink_to_fit-contents buf v owns = elim (Bool-cases (buf.size == 0)) [
    | inl empty ↦
        let none_held : buf.size ≡ 0 = ==→eq _ _ empty in
        (
          record buf { block = []; is_null = true; capacity = 0 },
          rw (owns, empty) refl,
          record { whole = refl; fits = omega arith },
          owns,
          ap (λ n. take n []) none_held ∙ sym (ap (λ n. take n buf.block) none_held),
        )
    | inr held ↦ elim (Bool-cases (ltb buf.size buf.capacity && a.grants buf.size)) [
      | inl smaller ↦
          let less : buf.size < buf.capacity = ground arith in
          (
            record buf {
              block = a.realloc buf.block buf.size;
              is_null = false;
              capacity = buf.size;
            },
            rw (owns, held, smaller) refl,
            record { whole = a.length_realloc buf.block buf.size; fits = omega arith },
            owns,
            a.realloc_keeps buf.block buf.size buf.size (omega (arith, v.whole)) (omega arith),
          )
      | inr as_it_is ↦ (buf, rw (owns, held, as_it_is) refl, v, owns, refl)
    ]
  ]

  grown_resize :
      (buf : Buffer) (n : ℕ)
      → (ensure_capacity a buf n).0 ≡ ok
      → resize a buf n ≡ (
        ok,
        record (ensure_capacity a buf n).1 {
          block =
              if ltb (ensure_capacity a buf n).1.size n
              then store
                  (ensure_capacity a buf n).1.block
                  (ensure_capacity a buf n).1.size
                  (replicate (n - (ensure_capacity a buf n).1.size) 0)
              else (ensure_capacity a buf n).1.block;
          size = n;
        },
      )
  unfolding resize
  grown_resize buf n good = rw good refl

  -- Resizing a valid buffer to more bytes than it holds, where `ensure_capacity` grants the
  -- capacity, succeeds with a valid buffer that holds the old bytes and zeros behind them.
  pub resize-contents :
      (buf : Buffer) (n : ℕ)
      → IsValid buf
      → buf.size < n
      → (ensure_capacity a buf n).0 ≡ ok
      → ((resize a buf n).0 ≡ ok)
        × IsValid (resize a buf n).1
        × (contents (resize a buf n).1 ≡ contents buf ++ replicate (n - buf.size) 0)
  unfolding contents
  resize-contents buf n v more good =
      let grown = (ensure_capacity a buf n).1 in
      let g = ensure_capacity-Grows a buf n v good in
      let zeros : List ℕ = replicate (n - grown.size) 0 in
      let longer : ltb grown.size n ≡ true = lt→ltb _ _ (omega (arith, g.same_size)) in
      let size : grown.size + length zeros ≡ n =
        omega (arith, g.same_size, length-replicate {A = ℕ} (n - grown.size) 0) in
      let fit : grown.size + length zeros ≤ length grown.block =
        omega (arith, g.room, g.valid.whole) in
      rw (grown_resize buf n good, longer)
        (
          refl,
          record {
            whole = length-store grown.block grown.size zeros fit ∙ g.valid.whole;
            fits = g.room;
          },
          ap (λ k. take k (store grown.block grown.size zeros)) (sym size)
              ∙ take-store grown.block grown.size zeros fit
              ∙ ap (λ k. take k grown.block ++ replicate (n - k) 0) g.same_size
              ∙ ap (λ t. t ++ replicate (n - buf.size) 0) g.same_bytes,
        )
