-- ===== src/Thrift/Encoder/Emits.antt =====
-- What each write appends: the bytes of the compact protocol, as long as they fit the buffer.
use carquet.Prelude.{ℕ, suc, ◌+◌, ◌-◌, ◌*◌, ◌^◌, ◌<◌, ◌≤◌, ◌≡◌, refl, arith, sym, ap, ◌∙◌, subst}
use carquet.Prelude.{
  Bool, true, false, Bool-cases, inl, inr, ltb, leb, ◌==◌, ◌&&◌, ◌||◌, if◌then◌else◌, if-true,
  if-false,
}
use carquet.Prelude.{
  List, [], ◌∷◌, ◌++◌, length, set, append_assoc, append-nil, length-append, u8, bit_and, bit_or,
  bit_and_mask, bit_or_shifted,
}
use carquet.Prelude.{lt→leb-false, lt→ltb}
use carquet.Core.Status.{ok, is_ok}
use carquet.Core.Endian.{encode_varint64}
use carquet.Core.Buffer.{Allocator, Buffer, append}
use carquet.Core.Buffer.Growth.{IsValid}
use carquet.Core.Buffer.Append.{Wrote, Wrote-start, Wrote-append, HasRoom, append_ok}
use carquet.Thrift.Types.{max_nesting, sign_extend}
use carquet.Thrift.Place.{
  Place, Place-push, Place-pop, Place-named, Place-top, Place-start, top, named, pop, IsU16,
}
use carquet.Thrift.Wire.{field_bytes, list_bytes, map_bytes, distance, int_bytes, binary_bytes}
use carquet.Thrift.Encoder.{
  ThriftEncoder, init, set_error, emit, last_id, set_last_id, write_byte, write_varint,
  write_struct_begin,
}
use carquet.Thrift.Encoder.{
  write_struct_end, write_field_stop, write_field_header, write_list_begin, write_map_begin,
  write_binary,
}
use carquet.Thrift.Encoder.{write_i16, write_zigzag}

module _ (a : Allocator) (start : Buffer) (budget : ℕ) where
  -- The encoder has appended `out` to its buffer, which had room for `budget` bytes more, and the
  -- open structs have the ids of the stack. It has not failed unless `out` exceeds the budget.
  pub record Written (out stack : List ℕ) (enc : ThriftEncoder) : Type 0 where
    pub wrote : Wrote a start budget out enc.buffer
    pub good : length out ≤ budget → enc.status ≡ ok
    pub place : Place stack enc.last_field_id enc.nesting_level

  pub Written-init :
      IsValid start → HasRoom a start (start.size + budget) → Written [] [] (init start)
  unfolding init
  Written-init v room = record {
    wrote = Wrote-start a start budget v room;
    good = λ h. refl;
    place = Place-start;
  }

  module _ {out stack : List ℕ} {enc : ThriftEncoder} (w : Written out stack enc) where
    pub Written-emit : (bytes : List ℕ) → Written (out ++ bytes) stack (emit a enc bytes)
    unfolding emit set_error
    Written-emit bytes =
        let done = Wrote-append a start budget out enc.buffer bytes w.wrote in
        elim (Bool-cases (is_ok (append a enc.buffer bytes).0)) [
          | inl granted ↦
              subst (Written (out ++ bytes) stack) (sym (if-true _ _ _ granted)) (record {
                wrote = done;
                good = λ h. w.good (omega (arith, length-append out bytes));
                place = w.place;
              })
          | inr failed ↦
              let never : length (out ++ bytes) ≤ budget → ⊥ = λ h. cc (
                failed,
                ap is_ok (
                    append_ok a enc.buffer bytes (start.size + budget) w.wrote.room (
                      omega (
                        arith,
                        length-append out bytes,
                        w.wrote.size (omega (arith, length-append out bytes)),
                      ))),
              ) in
              subst (Written (out ++ bytes) stack) (sym (if-false _ _ _ failed)) (
                Written-if (is_ok enc.status)
                  (record { wrote = done; good = λ h. absurd (never h); place = w.place })
                  (record { wrote = done; good = λ h. absurd (never h); place = w.place }))
        ]
      where
        Written-if :
            (b : Bool) {x y : ThriftEncoder}
            → Written (out ++ bytes) stack x
            → Written (out ++ bytes) stack y
            → Written (out ++ bytes) stack (if b then x else y)
        Written-if true p q = p
        Written-if false p q = q

    pub Written-struct_begin :
        length stack < max_nesting → Written out (0 ∷ stack) (write_struct_begin enc)
    unfolding write_struct_begin
    Written-struct_begin h =
        let level : enc.nesting_level < max_nesting = omega (arith, w.place.height) in
        subst (Written out (0 ∷ stack))
          (sym (if-false (leb max_nesting enc.nesting_level) _ _ (lt→leb-false _ _ level)))
          (record { wrote = w.wrote; good = w.good; place = Place-push w.place level })

    Written-popped : Written out (pop stack) (
        if ltb 0 enc.nesting_level
        then record enc { nesting_level = enc.nesting_level - 1 }
        else enc)
    Written-popped = popped (ltb 0 enc.nesting_level) (Place-pop stack w.place)
      where
        popped :
            (b : Bool)
            → Place
                (pop stack)
                enc.last_field_id
                (if b then enc.nesting_level - 1 else enc.nesting_level)
            → Written out
                (pop stack)
                (if b then record enc { nesting_level = enc.nesting_level - 1 } else enc)
        popped true p = record { wrote = w.wrote; good = w.good; place = p }
        popped false p = record { wrote = w.wrote; good = w.good; place = p }

    pub Written-named : (id : ℕ) → IsU16 id → Written out (named id stack) (set_last_id id enc)
    unfolding set_last_id
    Written-named id h = renamed (ltb 0 enc.nesting_level) (Place-named stack id h w.place)
      where
        renamed :
            (b : Bool)
            → Place
                (named id stack)
                (if b then set enc.last_field_id (enc.nesting_level - 1) id else enc.last_field_id)
                enc.nesting_level
            → Written out (named id stack) (
                if b
                then record enc { last_field_id = set enc.last_field_id (enc.nesting_level - 1) id }
                else enc)
        renamed true p = record { wrote = w.wrote; good = w.good; place = p }
        renamed false p = record { wrote = w.wrote; good = w.good; place = p }

    last_id_lem : last_id enc ≡ top stack
    unfolding last_id
    last_id_lem = Place-top stack w.place

  module _ {out stack : List ℕ} {enc : ThriftEncoder} (w : Written out stack enc) where
    -- Two appends, one behind the other.
    Written-emit_two :
        (first second : List ℕ)
        → Written (out ++ (first ++ second)) stack (emit a (emit a enc first) second)
    Written-emit_two first second =
        subst (λ o. Written o stack (emit a (emit a enc first) second))
          (append_assoc out first second) (Written-emit (Written-emit w first) second)

    pub Written-binary :
        (bytes : List ℕ) → Written (out ++ binary_bytes bytes) stack (write_binary a enc bytes)
    unfolding write_binary write_varint
    Written-binary [] =
        subst (λ o. Written (out ++ o) stack (emit a enc (encode_varint64 0)))
          (sym (append-nil (encode_varint64 0))) (Written-emit w (encode_varint64 0))
    Written-binary (x ∷ bytes) =
        subst (Written (out ++ binary_bytes (x ∷ bytes)) stack)
          (sym (if-true (ltb 0 (suc (length bytes))) _ _ (lt→ltb 0 _ (omega arith))))
          (Written-emit_two (encode_varint64 (suc (length bytes))) (x ∷ bytes))

    pub Written-struct_end : Written (out ++ (0 ∷ [])) (pop stack) (write_struct_end a enc)
    unfolding write_struct_end write_field_stop write_byte
    Written-struct_end = Written-popped (Written-emit w (0 ∷ []))

    packed :
        (q t : ℕ)
        → q < 16
        → t < 16
        → u8 (bit_or (bit_and q 0x0f * 2 ^ 4) (bit_and t 0x0f)) ≡ q * 16 + t
    packed q t hq ht =
        let low : bit_and t 0x0f ≡ t = bit_and_mask 4 t ∙ omega arith in
        let high : bit_and q 0x0f ≡ q = bit_and_mask 4 q ∙ omega arith in
        rw (low, high, bit_or_shifted 4 q t ht) (omega arith)

    Written-byte : (b c : ℕ) → b ≡ c → Written (out ++ (c ∷ [])) stack (emit a enc (b ∷ []))
    Written-byte b c e =
        subst (λ (t : ℕ). Written (out ++ (t ∷ [])) stack (emit a enc (b ∷ []))) e
          (Written-emit w (b ∷ []))

    Written-byte_then :
        (b c : ℕ) (code : List ℕ)
        → b ≡ c
        → Written (out ++ (c ∷ code)) stack (emit a (emit a enc (b ∷ [])) code)
    Written-byte_then b c code e =
        subst (λ (t : ℕ). Written (out ++ (t ∷ code)) stack (emit a (emit a enc (b ∷ [])) code)) e
          (Written-emit_two (b ∷ []) code)

    Written-branch :
        (b : Bool) (x y : List ℕ) (left right : ThriftEncoder)
        → (b ≡ true → Written (out ++ x) stack left)
        → (b ≡ false → Written (out ++ y) stack right)
        → Written (out ++ (if b then x else y)) stack (if b then left else right)
    Written-branch true x y left right p q = p refl
    Written-branch false x y left right p q = q refl

    low_byte : (t : ℕ) → t < 16 → u8 (bit_and t 0x0f) ≡ t
    low_byte t h = rw (bit_and_mask 4 t) (omega arith)

  module _ {out stack : List ℕ} {enc : ThriftEncoder} (w : Written out stack enc) where
    pub Written-field :
        (type id : ℕ)
        → type < 16
        → IsU16 id
        → Written
            (out ++ field_bytes (top stack) type id)
            (named id stack)
            (write_field_header a enc type id)
    unfolding write_field_header write_byte write_i16 write_zigzag write_varint
    Written-field type id ht hi =
        Written-named
          (subst
            (λ (last : ℕ). Written (out ++ field_bytes (top stack) type id) stack (headed last))
            (sym (last_id_lem w)) base)
          id hi
      where
        near : ℕ → Bool
        near last = ltb 0 (distance last id) && leb (distance last id) 15

        headed : ℕ → ThriftEncoder
        headed last =
            if near last
            then write_byte a enc
                (bit_or (bit_and (distance last id) 0x0f * 2 ^ 4) (bit_and type 0x0f))
            else write_i16 a (write_byte a enc (bit_and type 0x0f)) id

        base : Written (out ++ field_bytes (top stack) type id) stack (headed (top stack))
        base =
            Written-branch w (near (top stack)) _ _ _ _
              (λ e.
                Written-byte w _ _ (packed w (distance (top stack) id) type (ground (arith, e)) ht))
              (λ e. Written-byte_then w _ _ (int_bytes 16 id) (low_byte w type ht))

    pub Written-list :
        (type count : ℕ)
        → type < 16
        → count < 2 ^ 31
        → Written (out ++ list_bytes type count) stack (write_list_begin a enc type count)
    unfolding write_list_begin write_byte write_varint
    Written-list type count ht hc =
        subst (λ b. Written (out ++ list_bytes type count) stack (if b then compact else extended))
          (sym few) base
      where
        compact : ThriftEncoder
        compact = write_byte a enc (bit_or (bit_and count 0x0f * 2 ^ 4) (bit_and type 0x0f))

        extended : ThriftEncoder
        extended =
            write_varint a (write_byte a enc (bit_or (0x0f * 2 ^ 4) (bit_and type 0x0f))) count

        few : (ltb count 15 || leb (2 ^ 31) count) ≡ ltb count 15
        few = ground arith

        base :
            Written
              (out ++ list_bytes type count)
              stack
              (if ltb count 15 then compact else extended)
        base =
            Written-branch w (ltb count 15) _ _ _ _
              (λ e. Written-byte w _ _ (packed w count type (ground (arith, e)) ht))
              (λ e.
                Written-byte_then w _ _ (encode_varint64 count) (packed w 15 type (omega arith) ht))

    pub Written-map :
        (key value count : ℕ)
        → key < 16
        → value < 16
        → count < 2 ^ 31
        → Written (out ++ map_bytes key value count) stack (write_map_begin a enc key value count)
    unfolding write_map_begin write_byte write_varint sign_extend
    Written-map key value count hk hv hc =
        Written-branch w (count == 0) _ _ _ _ (λ e. Written-byte w 0 0 refl)
          (λ e.
            subst
              (λ (n : ℕ).
                Written (out ++ (encode_varint64 count ++ ((key * 16 + value) ∷ []))) stack (
                  write_byte a (write_varint a enc n)
                    (bit_or (bit_and key 0x0f * 2 ^ 4) (bit_and value 0x0f))))
              (sym (if-true (ltb count (2 ^ 31)) count (count + (2 ^ 64 - 2 ^ 32)) (lt→ltb _ _ hc)))
              (subst
                (λ o. Written o stack (
                  emit a (emit a enc (encode_varint64 count))
                    (u8 (bit_or (bit_and key 0x0f * 2 ^ 4) (bit_and value 0x0f)) ∷ [])))
                (append_assoc out (encode_varint64 count) _)
                (Written-byte (Written-emit w (encode_varint64 count)) _ _
                  (packed w key value hk hv))))
