-- ===== src/Thrift/Skip/Shrinks.antt =====
-- The fuel of `skip` is enough: skipping never lengthens the input, and a call inside another
-- stands behind a byte that was read.
use carquet.Prelude.{ℕ, zero, suc, ◌<◌, ◌≤◌, ◌≡◌, refl, arith, length}
use carquet.Prelude.{Bool-cases, inl, inr, ◌∙◌, ap}
use carquet.Core.Status.{error_thrift_decode, error_thrift_invalid_type}
use carquet.Thrift.Decoder.{ThriftDecoder, read_list_begin, read_map_begin}
use carquet.Thrift.Decoder.{read_struct_begin, read_struct_end, read_field_begin}
use carquet.Thrift.Decoder.Room.{
  room, room-set_error, room-reader_skip, read_varint-Takes, read_binary_room,
}
use carquet.Thrift.Decoder.Room.{
  read_struct_begin_room, read_struct_end_room, read_field_begin_room,
}
use carquet.Thrift.Decoder.Room.{read_list_begin_room, read_map_begin_room}
use carquet.Thrift.Skip.{
  repeat, skip_fields, skip_list, skip_map, skip_struct, skip_case, skip_fuel,
}

abbrev Shrinks : (ThriftDecoder → ThriftDecoder) → Type 0
Shrinks step = (d : ThriftDecoder) → room (step d) ≤ room d

repeat-Shrinks :
    (n : ℕ) (step : ThriftDecoder → ThriftDecoder) → Shrinks step → Shrinks (repeat n step)
unfolding repeat
repeat-Shrinks zero step h d = omega arith
repeat-Shrinks (suc n) step h d = ground (arith, h d, repeat-Shrinks n step h (step d))

module _ (again : ℕ → ThriftDecoder → ThriftDecoder) (h : (t : ℕ) → Shrinks (again t)) where
  skip_fields-Shrinks : (n : ℕ) → Shrinks (skip_fields n again)
  unfolding skip_fields
  skip_fields-Shrinks zero d = omega arith
  skip_fields-Shrinks (suc n) d =
      let field = read_field_begin d in
      ground (
        arith,
        read_field_begin_room d,
        h field.1 field.3,
        skip_fields-Shrinks n (again field.1 field.3),
      )

  skip_list-Shrinks : Shrinks (skip_list again)
  unfolding skip_list
  skip_list-Shrinks d =
      let (elem_type, count, behind) = read_list_begin d in
      omega
        (arith, read_list_begin_room d, repeat-Shrinks count (again elem_type) (h elem_type) behind)

  skip_map-Shrinks : Shrinks (skip_map again)
  unfolding skip_map
  skip_map-Shrinks d =
      let (key_type, value_type, count, behind) = read_map_begin d in
      omega (
        arith,
        read_map_begin_room d,
        repeat-Shrinks count (λ e. again value_type (again key_type e))
            (λ e. omega (arith, h key_type e, h value_type (again key_type e))) behind,
      )

  skip_struct-Shrinks : Shrinks (skip_struct again)
  unfolding skip_struct
  skip_struct-Shrinks d = omega (
    arith,
    read_struct_begin_room d,
    skip_fields-Shrinks (suc (room d)) (read_struct_begin d),
    read_struct_end_room (skip_fields (suc (room d)) again (read_struct_begin d)),
  )

  skip_case-Shrinks : (t : ℕ) → Shrinks (skip_case again t)
  unfolding skip_case
  skip_case-Shrinks t d = ground (
    arith,
    room-set_error error_thrift_decode d,
    room-set_error error_thrift_invalid_type d,
    room-reader_skip 1 d,
    room-reader_skip 8 d,
    room-reader_skip 16 d,
    (read_varint-Takes d).0,
    read_binary_room d,
    skip_list-Shrinks d,
    skip_map-Shrinks d,
    skip_struct-Shrinks d,
  )

pub skip_fuel-Shrinks : (f t : ℕ) → Shrinks (skip_fuel f t)
unfolding skip_fuel
skip_fuel-Shrinks zero t d = omega arith
skip_fuel-Shrinks (suc f) t d =
    ground (arith, skip_case-Shrinks (skip_fuel f) (skip_fuel-Shrinks f) t d)

abbrev Agree : ℕ → (ThriftDecoder → ThriftDecoder) → (ThriftDecoder → ThriftDecoder) → Type 0
Agree n step step' = (d : ThriftDecoder) → room d < n → step d ≡ step' d

repeat-Agree :
    (k n : ℕ) (step step' : ThriftDecoder → ThriftDecoder)
    → Shrinks step
    → Agree n step step'
    → Agree n (repeat k step) (repeat k step')
unfolding repeat
repeat-Agree zero n step step' s e d h = refl
repeat-Agree (suc k) n step step' s e d h =
    rw (← e d h) (rw (repeat-Agree k n step step' s e (step d) (omega (arith, s d))) refl)

module _ (again again' : ℕ → ThriftDecoder → ThriftDecoder)
    (shrink : (t : ℕ) → Shrinks (again t)) where
  skip_fields-Agree :
      (k n : ℕ)
      → ((t : ℕ) → Agree n (again t) (again' t))
      → (d : ThriftDecoder) → room d ≤ n
      → skip_fields k again d ≡ skip_fields k again' d
  unfolding skip_fields
  skip_fields-Agree zero n e d h = refl
  skip_fields-Agree (suc k) n e d h =
      let field = read_field_begin d in
      elim (Bool-cases field.0) [
        | inr over ↦ rw over refl
        | inl more ↦
            let taken : room field.3 < room d = elim (read_field_begin_room d).1 [
              | inl over ↦ absurd (cc (over, more))
              | inr less ↦ less
            ] in
            let step : again field.1 field.3 ≡ again' field.1 field.3 =
              e field.1 field.3 (omega arith) in
            rw (more, ← step)
              (skip_fields-Agree k n e (again field.1 field.3)
                (omega (arith, shrink field.1 field.3)))
      ]

  module _ (d : ThriftDecoder) (e : (t : ℕ) → Agree (room d) (again t) (again' t)) where
    skip_list-Agree : skip_list again d ≡ skip_list again' d
    unfolding skip_list repeat
    skip_list-Agree =
        let (elem_type, count, behind) = read_list_begin d in
        elim (read_list_begin_room d).1 [
          | inl nothing ↦ rw nothing refl
          | inr less ↦
              repeat-Agree count (room d) (again elem_type) (again' elem_type) (shrink elem_type)
                (e elem_type) behind less
        ]

    skip_map-Agree : skip_map again d ≡ skip_map again' d
    unfolding skip_map repeat
    skip_map-Agree =
        let (key_type, value_type, count, behind) = read_map_begin d in
        elim (read_map_begin_room d).1 [
          | inl nothing ↦ rw nothing refl
          | inr less ↦
              repeat-Agree count (room d) (λ c. again value_type (again key_type c))
                (λ c. again' value_type (again' key_type c))
                (λ c. omega (arith, shrink key_type c, shrink value_type (again key_type c)))
                (λ c h.
                  e value_type (again key_type c) (omega (arith, shrink key_type c))
                  ∙ ap (again' value_type) (e key_type c h))
                behind less
        ]

    skip_struct-Agree : skip_struct again d ≡ skip_struct again' d
    unfolding skip_struct
    skip_struct-Agree = ap read_struct_end (
        skip_fields-Agree (suc (room d)) (room d) e (read_struct_begin d)
          (omega (arith, read_struct_begin_room d)))

    skip_case-Agree : (t : ℕ) → skip_case again t d ≡ skip_case again' t d
    unfolding skip_case
    skip_case-Agree t = rw (skip_list-Agree, skip_map-Agree, skip_struct-Agree) refl

-- Skipping gives the same decoder for any two amounts of fuel above the number of bytes left:
-- the recursion of `thrift_skip` ends within that many nested calls.
pub skip_fuel_enough :
    (f g t : ℕ) (d : ThriftDecoder)
    → length d.input < f
    → length d.input < g
    → skip_fuel f t d ≡ skip_fuel g t d
unfolding skip_fuel
skip_fuel_enough zero g t d p q = absurd (omega arith)
skip_fuel_enough (suc f) zero t d p q = absurd (omega arith)
skip_fuel_enough (suc f) (suc g) t d p q =
    rw
      (skip_case-Agree (skip_fuel f) (skip_fuel g) (skip_fuel-Shrinks f) d
        (λ t' d' h. skip_fuel_enough f g t' d' (omega arith) (omega arith)) t)
      refl
