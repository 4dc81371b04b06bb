-- ===== src/Thrift/Decoder/Ready.antt =====
-- A decoder that stands between two values: what each operation makes of it.
use carquet.Prelude.{ℕ, ◌+◌, ◌-◌, ◌*◌, ◌^◌, ◌<◌, ◌≤◌, ◌≡◌, refl, arith, sym, ap, ◌∙◌, subst}
use carquet.Prelude.{
  Bool, true, false, Bool-cases, inl, inr, tests, ltb, leb, ◌==◌, ◌&&◌, if◌then◌else◌, if-true,
  if-false,
}
use carquet.Prelude.{
  List, [], ◌∷◌, ◌++◌, length, set, ne→==-false, append_assoc, u16, lt→leb-false, ltb→lt, ==→eq,
}
use carquet.Core.Status.{is_ok}
use carquet.Core.Endian.{encode_varint64}
use carquet.Thrift.Types.{max_nesting}
use carquet.Thrift.Place.{
  Place, Place-push, Place-pop, Place-named, Place-top, Place-start, top, named, pop, IsU16,
  top-IsU16,
}
use carquet.Thrift.Wire.{field_bytes, list_bytes, map_bytes, distance}
use carquet.Thrift.Decoder.{
  ThriftDecoder, init, set_last_id, last_id, pend_bool, read_bool, read_struct_begin,
  read_struct_end,
}
use carquet.Thrift.Decoder.{read_field_begin, read_list_begin, read_map_begin}
use carquet.Thrift.Decoder.Reads.{behind}
use carquet.Thrift.Decoder.Headers.{
  read_field_short, read_field_long, read_list_short, read_list_long, read_map_none, read_map_some,
}

pub record Ready (stack input : List ℕ) (d : ThriftDecoder) : Type 0 where
  pub place : Place stack d.last_field_id d.nesting_level
  pub left : d.input ≡ input
  pub good : is_ok d.status ≡ true
  pub idle : d.bool_pending ≡ false

pub Ready-init : (input : List ℕ) → Ready [] input (init input)
unfolding init
Ready-init input = record { place = Place-start; left = refl; good = refl; idle = refl }

pub Ready-behind :
    {stack input : List ℕ} {d : ThriftDecoder} (rest : List ℕ)
    → Ready stack input d
    → Ready stack rest (behind d rest)
Ready-behind rest r = record { place = r.place; left = refl; good = r.good; idle = r.idle }

module _ {stack input : List ℕ} {d : ThriftDecoder} (r : Ready stack input d) where
  pub Ready-struct_begin :
      length stack < max_nesting → Ready (0 ∷ stack) input (read_struct_begin d)
  unfolding read_struct_begin
  Ready-struct_begin h =
      let level : d.nesting_level < max_nesting = omega (arith, r.place.height) in
      subst (λ x. Ready (0 ∷ stack) input x)
        (sym (if-false (leb max_nesting d.nesting_level) _ _ (lt→leb-false _ _ level)))
        (record { place = Place-push r.place level; left = r.left; good = r.good; idle = r.idle })

  pub Ready-struct_end : Ready (pop stack) input (read_struct_end d)
  unfolding read_struct_end
  Ready-struct_end = ended (ltb 0 d.nesting_level) (Place-pop stack r.place)
    where
      ended :
          (b : Bool)
          → Place (pop stack) d.last_field_id (if b then d.nesting_level - 1 else d.nesting_level)
          → Ready
              (pop stack)
              input
              (if b then record d { nesting_level = d.nesting_level - 1 } else d)
      ended true p = record { place = p; left = r.left; good = r.good; idle = r.idle }
      ended false p = record { place = p; left = r.left; good = r.good; idle = r.idle }

  pub Ready-named : (id : ℕ) → IsU16 id → Ready (named id stack) input (set_last_id id d)
  unfolding set_last_id
  Ready-named id h = renamed (ltb 0 d.nesting_level) (Place-named stack id h r.place)
    where
      renamed :
          (b : Bool)
          → Place
              (named id stack)
              (if b then set d.last_field_id (d.nesting_level - 1) id else d.last_field_id)
              d.nesting_level
          → Ready (named id stack) input (
              if b
              then record d { last_field_id = set d.last_field_id (d.nesting_level - 1) id }
              else d)
      renamed true p = record { place = p; left = r.left; good = r.good; idle = r.idle }
      renamed false p = record { place = p; left = r.left; good = r.good; idle = r.idle }

  last_id_lem : last_id d ≡ top stack
  unfolding last_id
  last_id_lem = Place-top stack r.place

  -- A value that is no Boolean leaves nothing pending.
  pub pend_nothing : (type : ℕ) → 3 ≤ type → pend_bool type d ≡ d
  unfolding pend_bool
  pend_nothing type h =
      if-false (type == 1) _ _ (ne→==-false type 1 (λ z. omega (arith, z)))
      ∙ if-false (type == 2) _ _ (ne→==-false type 2 (λ z. omega (arith, z)))

  -- A Boolean that came with its field.
  pub read_pending :
      (b : Bool)
      → ((read_bool (pend_bool (if b then 1 else 2) d)).0 ≡ b)
        × Ready stack input (read_bool (pend_bool (if b then 1 else 2) d)).1
  unfolding read_bool pend_bool
  read_pending true = (refl, record { place = r.place; left = r.left; good = r.good; idle = refl })
  read_pending false = (refl, record { place = r.place; left = r.left; good = r.good; idle = refl })

-- The header of a field, whichever of its two forms it has.
pub read_field_lem :
    {stack : List ℕ} {d : ThriftDecoder} (rest : List ℕ) (type id : ℕ)
    → 1 ≤ type
    → type < 16
    → IsU16 id
    → Ready stack (field_bytes (top stack) type id ++ rest) d
    → read_field_begin d ≡ (true, type, id, pend_bool type (set_last_id id (behind d rest)))
read_field_lem {stack} {d} rest type id hp ht hi r =
    let last = top stack in
    let small = top-IsU16 stack r.place.words in
    elim (Bool-cases (ltb 0 (distance last id) && leb (distance last id) 15)) [
      | inl near ↦
          let (low, high) = near_bounds (distance last id) near in
          let back : u16 (last_id d + distance last id) ≡ id =
            ap (λ (t : ℕ). u16 (t + distance last id)) (last_id_lem r) ∙ omega (arith, small, hi) in
          read_field_short d rest (distance last id) type r.good low high ht
            (r.left ∙ ap (λ t. t ++ rest) (if-true _ _ _ near))
          ∙ ap (λ (t : ℕ). (true, type, t, pend_bool type (set_last_id t (behind d rest)))) back
      | inr far ↦
          read_field_long d rest type id r.good hp ht hi
            (r.left ∙ ap (λ t. t ++ rest) (if-false _ _ _ far))
    ]
  where
    near_bounds : (n : ℕ) → (ltb 0 n && leb n 15) ≡ true → (1 ≤ n) × (n < 16)
    near_bounds n h = ground arith

pub read_list_lem :
    (d : ThriftDecoder) (rest : List ℕ) (type n : ℕ)
    → type < 16
    → n < 2 ^ 31
    → n ≤ length rest
    → d.input ≡ list_bytes type n ++ rest
    → read_list_begin d ≡ (type, n, behind d rest)
read_list_lem d rest type n ht hn there e = elim (Bool-cases (ltb n 15)) [
  | inl few ↦
      read_list_short d rest type n ht (ltb→lt n 15 few) there
        (e ∙ ap (λ t. t ++ rest) (if-true _ _ _ few))
  | inr many ↦
      read_list_long d rest type n ht hn there (e ∙ ap (λ t. t ++ rest) (if-false _ _ _ many))
]

-- A map without entries has no types.
abbrev pub MapTypes : ℕ → ℕ → ℕ → Type 0
MapTypes key value n = n ≡ 0 → (key ≡ 0) × (value ≡ 0)

pub read_map_lem :
    (d : ThriftDecoder) (rest : List ℕ) (key value n : ℕ)
    → key < 16
    → value < 16
    → MapTypes key value n
    → n < 2 ^ 31
    → n ≤ length rest
    → d.input ≡ map_bytes key value n ++ rest
    → read_map_begin d ≡ (key, value, n, behind d rest)
unfolding encode_varint64
read_map_lem d rest key value n hk hv types hn there e = elim (Bool-cases (n == 0)) [
  | inl empty ↦
      let zero_count = ==→eq n 0 empty in
      let (no_key, no_value) = types zero_count in
      read_map_none d rest (e ∙ ap (λ t. t ++ rest) (if-true _ _ _ empty))
      ∙ rw (no_key, no_value, zero_count) refl
  | inr filled ↦ read_map_some d rest key value n hk hv (omega (tests, filled)) hn there (
      e
      ∙ ap (λ t. t ++ rest) (if-false _ _ _ filled)
      ∙ append_assoc (encode_varint64 n) ((key * 16 + value) ∷ []) rest)
]

pub pend_bool_lem :
    (b : Bool) (d : ThriftDecoder)
    → pend_bool (if b then 1 else 2) d ≡ record d { bool_pending = true; bool_value = b }
unfolding pend_bool
pend_bool_lem true d = refl
pend_bool_lem false d = refl
