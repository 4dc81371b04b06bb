-- ===== src/Core/Buffer/Append.antt =====
-- What an append does, and what a row of appends does to a buffer with room.
use carquet.Prelude.{ℕ, ◌+◌, ◌<◌, ◌≤◌, ◌≡◌, refl, arith, sym, ◌∙◌, ap, ◌^◌, subst}
use carquet.Prelude.{false, List, [], ◌∷◌, ◌++◌, length, take, drop, ◌==◌}
use carquet.Prelude.{Option-cases, inl, inr, ◌⊎◌, append-nil, append_assoc, some}
use carquet.Prelude.{length-take, length-drop, length-append, take-append_self}
use carquet.Core.Status.{ok, error_out_of_memory}
use carquet.Core.Buffer.{
  Allocator, Buffer, contents, append, ensure_capacity, store, add_overflows_size,
}
use carquet.Core.Buffer.Growth.{IsValid, Grows, CanHold, ensure_capacity-Grows, ensure_capacity_ok}
use carquet.Core.Buffer.Growth.{ensure_capacity_outcomes, new_capacity_bound}
use native.Mathlib.Nat.{pow-le-pow_right}
use carquet.Prelude.{true, max}
use carquet.Core.Buffer.{can_grow}

pub length-store :
    (block : List ℕ) (at : ℕ) (bytes : List ℕ)
    → at + length bytes ≤ length block
    → length (store block at bytes) ≡ length block
length-store block at bytes h = omega (
  arith,
  length-append (take at block) (bytes ++ drop (at + length bytes) block),
  length-append bytes (drop (at + length bytes) block),
  length-take at block,
  length-drop (at + length bytes) block,
)

-- The bytes up to the end of a store are those before it and those stored.
pub take-store :
    (block : List ℕ) (at : ℕ) (bytes : List ℕ)
    → at + length bytes ≤ length block
    → take (at + length bytes) (store block at bytes) ≡ take at block ++ bytes
take-store block at bytes h =
    let front = take at block ++ bytes in
    let size : at + length bytes ≡ length front =
      omega (arith, length-append (take at block) bytes, length-take at block) in
    rw (size, ← append_assoc) (take-append_self front (drop (length front) block))

nonempty : (x : ℕ) (xs : List ℕ) → (length (x ∷ xs) == 0) ≡ false
nonempty x xs = ground arith

module _ (a : Allocator) where
  add_fits : (x y : ℕ) → x + y < 2 ^ 64 → add_overflows_size x y ≡ some (x + y)
  unfolding add_overflows_size
  add_fits x y h = ground arith

  sum_of_fits : (x y n : ℕ) → add_overflows_size x y ≡ some n → n ≡ x + y
  unfolding add_overflows_size
  sum_of_fits x y n h = ground arith

  -- The two outcomes of an append.
  pub record Appends (buf : Buffer) (bytes : List ℕ) (after : Buffer) : Type 0 where
    pub valid : IsValid after
    pub holds : contents after ≡ contents buf ++ bytes
    pub size : after.size ≡ buf.size + length bytes
    pub keeps : (m : ℕ) → CanHold a buf m → CanHold a after m

  stored :
      (buf grown : Buffer) (bytes : List ℕ)
      → Grows buf (buf.size + length bytes) grown
      → Appends buf bytes (record grown {
        block = store grown.block grown.size bytes;
        size = grown.size + length bytes;
      })
  unfolding contents
  stored buf grown bytes g =
      let fit : grown.size + length bytes ≤ length grown.block =
        omega (arith, g.room, g.same_size, g.valid.whole) in
      record {
        valid = record {
          whole = length-store grown.block grown.size bytes fit ∙ g.valid.whole;
          fits = omega (arith, g.valid.whole);
        };
        holds =
            take-store grown.block grown.size bytes fit
            ∙ ap (λ s. take s grown.block ++ bytes) g.same_size
            ∙ ap (λ s. s ++ bytes) g.same_bytes;
        size = omega (arith, g.same_size);
        keeps = λ m h. keeps_room m h;
      }
    where
      keeps_room : (m : ℕ) → CanHold a buf m → CanHold a grown m
      keeps_room m (inl h) = inl (omega (arith, g.no_less))
      keeps_room m (inr (grow, granted)) = inr (g.still_grows grow, granted)

  -- Appending to a valid buffer has one of two outcomes: success, with a valid buffer that holds
  -- the bytes behind what it held, or out of memory, with the buffer as it was.
  pub append_outcomes :
      (buf : Buffer) (bytes : List ℕ)
      → IsValid buf
      → (((append a buf bytes).0 ≡ ok) × Appends buf bytes (append a buf bytes).1)
        ⊎ (append a buf bytes ≡ (error_out_of_memory, buf))
  unfolding append
  append_outcomes buf [] v = inl (
    refl,
    record {
      valid = v;
      holds = sym (append-nil (contents buf));
      size = omega arith;
      keeps = λ m h. h;
    },
  )
  append_outcomes buf (x ∷ xs) v =
      elim (Option-cases (add_overflows_size buf.size (length (x ∷ xs)))) [
        | inl overflow ↦ inr (rw (nonempty x xs, overflow))
        | inr (needed, fits) ↦
            rw (nonempty x xs, fits)
              (elim (ensure_capacity_outcomes a buf needed) [
                | inl granted ↦ rw granted (
                    inl (
                      refl,
                      stored buf (ensure_capacity a buf needed).1 (x ∷ xs) (
                          subst (λ n. Grows buf n (ensure_capacity a buf needed).1)
                            (sum_of_fits buf.size (length (x ∷ xs)) needed fits)
                            (ensure_capacity-Grows a buf needed v granted)),
                    ))
                | inr failed ↦ inr (rw failed)
              ])
      ]

  -- The buffer can come to hold any number of bytes up to `limit`.
  abbrev pub HasRoom : Buffer → ℕ → Type 0
  HasRoom buf limit = (m : ℕ) → m ≤ limit → (m < 2 ^ 64) × CanHold a buf m

  -- An append to a buffer that can come to hold any number of bytes up to a limit succeeds if
  -- the bytes fit the limit.
  pub append_ok :
      (buf : Buffer) (bytes : List ℕ) (limit : ℕ)
      → HasRoom buf limit
      → buf.size + length bytes ≤ limit
      → (append a buf bytes).0 ≡ ok
  unfolding append
  append_ok buf [] limit room h = refl
  append_ok buf (x ∷ xs) limit room h =
      let (small, can) = room (buf.size + length (x ∷ xs)) h in
      rw (nonempty x xs, add_fits buf.size (length (x ∷ xs)) small, ensure_capacity_ok a buf _ can)
        refl

  -- Appending to a valid buffer that owns its data, or has none yet, succeeds where the bytes in
  -- all are no more than some power of two below 2^64 and the allocator meets every request up
  -- to that power, or up to 4096 if that is more: the buffer stays valid, and the bytes stand
  -- behind what it held.
  pub append_succeeds :
      (buf : Buffer) (bytes : List ℕ) (e : ℕ)
      → IsValid buf
      → (buf.owns_data ≡ true) ⊎ (buf.is_null ≡ true)
      → e < 64
      → buf.size + length bytes ≤ 2 ^ e
      → ((n : ℕ) → n ≤ max 4096 (2 ^ e) → a.grants n ≡ true)
      → ((append a buf bytes).0 ≡ ok)
        × IsValid (append a buf bytes).1
        × (contents (append a buf bytes).1 ≡ contents buf ++ bytes)
  append_succeeds buf bytes e v owner small fits granted =
      let power : 2 ^ e ≤ 2 ^ 63 =
        pow-le-pow_right {n = 2} (omega arith) {i = e} {j = 63} (omega arith) in
      let limit = buf.size + length bytes in
      let room : HasRoom buf limit = λ m hm.
        (omega arith, inr (grows owner, granted _ (new_capacity_bound m e (omega arith) small))) in
      let done = append_ok buf bytes limit room (omega arith) in
      elim (append_outcomes buf bytes v) [
        | inl (_, after) ↦ (done, after.valid, after.holds)
        | inr failed ↦ absurd (cc (done, failed))
      ]
    where
      grows : (buf.owns_data ≡ true) ⊎ (buf.is_null ≡ true) → can_grow buf ≡ true
      grows (inl owns) = rw owns refl
      grows (inr null) = ground arith

  -- `out` has been appended to `start`, which had room for `budget` bytes more. It says nothing
  -- once more bytes than that are written.
  pub record Wrote (start : Buffer) (budget : ℕ) (out : List ℕ) (buf : Buffer) : Type 0 where
    pub valid : IsValid buf
    pub room : HasRoom buf (start.size + budget)
    pub size : length out ≤ budget → buf.size ≡ start.size + length out
    pub holds : length out ≤ budget → contents buf ≡ contents start ++ out

  pub Wrote-start :
      (start : Buffer) (budget : ℕ)
      → IsValid start
      → HasRoom start (start.size + budget)
      → Wrote start budget [] start
  Wrote-start start budget v room = record {
    valid = v;
    room = room;
    size = λ h. omega arith;
    holds = λ h. sym (append-nil (contents start));
  }

  -- Where `out` has been appended to a buffer that had room for `budget` bytes more, an append
  -- keeps this, with `out` and the new bytes, whatever its caller does with the status; that the
  -- bytes are there is said as long as they fit the budget.
  pub Wrote-append :
      (start : Buffer) (budget : ℕ) (out : List ℕ) (buf : Buffer) (bytes : List ℕ)
      → Wrote start budget out buf
      → Wrote start budget (out ++ bytes) (append a buf bytes).1
  Wrote-append start budget out buf bytes w = elim (append_outcomes buf bytes w.valid) [
    | inl (done, after) ↦ record {
      valid = after.valid;
      room = λ m h. ((w.room m h).0, after.keeps m (w.room m h).1);
      size = λ h. omega (
        arith,
        after.size,
        w.size (omega (arith, length-append out bytes)),
        length-append out bytes,
      );
      holds = λ h.
          after.holds
          ∙ ap (λ s. s ++ bytes) (w.holds (omega (arith, length-append out bytes)))
          ∙ append_assoc (contents start) out bytes;
    }
    | inr failed ↦
        let never : length (out ++ bytes) ≤ budget → ⊥ = λ h.
          let fits : length out + length bytes ≤ budget = rw length-append at h in
          cc (
            failed,
            append_ok buf bytes (start.size + budget) w.room (omega (arith, w.size (omega arith))),
          ) in
        record {
          valid = rw failed w.valid;
          room = rw failed w.room;
          size = λ h. absurd (never h);
          holds = λ h. absurd (never h);
        }
  ]
