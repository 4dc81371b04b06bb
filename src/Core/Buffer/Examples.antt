-- ===== src/Core/Buffer/Examples.antt =====
-- The buffer of src/core/buffer.c on small inputs.
use carquet.Prelude.{true, false, some, inl}
use carquet.Prelude.{◌-◌, replicate}
use carquet.Prelude.{◌+◌, ◌≡◌, refl, arith, [], ◌∷◌, ◌++◌, ◌⊎◌}
use carquet.Core.Status.{ok, error_out_of_memory}
use carquet.Core.Endian.{write_u32_le}
use carquet.Core.Buffer.Reader.{Reader, reader_read_u32_le, reader_read_u32-write}
use carquet.Core.Buffer.{contents, Buffer, resize, shrink_to_fit}
use carquet.Core.Buffer.{init, append, ensure_capacity, next_power_of_two, smear}
use carquet.Core.Buffer.Growth.{IsValid, Grows, ensure_capacity-Grows, ensure_capacity_ok}
use carquet.Core.Buffer.Append.{
  Appends, append_outcomes, Wrote, Wrote-start, Wrote-append, append_succeeds,
}
use carquet.Core.Buffer.Resize.{shrink_to_fit-contents, resize-contents}
use carquet.Core.Buffer.Samples.{
  zero_filled, zero_filled_grants, empty_buffer, empty_buffer-IsValid, empty_buffer_room,
  empty_buffer_grows,
}

round_up : next_power_of_two 4097 ≡ 8192
unfolding next_power_of_two smear
round_up = refl

append_outcomes_example :
    (((append zero_filled empty_buffer (1 ∷ 2 ∷ [])).0 ≡ ok)
      × Appends zero_filled empty_buffer
          (1 ∷ 2 ∷ [])
          (append zero_filled empty_buffer (1 ∷ 2 ∷ [])).1)
    ⊎ (append zero_filled empty_buffer (1 ∷ 2 ∷ []) ≡ (error_out_of_memory, empty_buffer))
append_outcomes_example = append_outcomes zero_filled empty_buffer (1 ∷ 2 ∷ []) empty_buffer-IsValid

append_succeeds_example :
    ((append zero_filled empty_buffer (1 ∷ 2 ∷ [])).0 ≡ ok)
    × IsValid (append zero_filled empty_buffer (1 ∷ 2 ∷ [])).1
    × (contents (append zero_filled empty_buffer (1 ∷ 2 ∷ [])).1
        ≡ contents empty_buffer ++ (1 ∷ 2 ∷ []))
unfolding init
append_succeeds_example =
    append_succeeds zero_filled empty_buffer (1 ∷ 2 ∷ []) 4 empty_buffer-IsValid (inl refl)
      (omega arith) (omega arith) (λ n small. zero_filled_grants n)

ensure_capacity-Grows_example :
    Grows empty_buffer 10 (ensure_capacity zero_filled empty_buffer 10).1
ensure_capacity-Grows_example =
    ensure_capacity-Grows zero_filled empty_buffer 10 empty_buffer-IsValid
      (ensure_capacity_ok zero_filled empty_buffer 10 (empty_buffer_grows 10))

Wrote-append_example :
    Wrote zero_filled empty_buffer 10
      ([] ++ (1 ∷ 2 ∷ []))
      (append zero_filled empty_buffer (1 ∷ 2 ∷ [])).1
Wrote-append_example = Wrote-append zero_filled empty_buffer 10 [] empty_buffer (1 ∷ 2 ∷ []) (
    Wrote-start zero_filled empty_buffer 10 empty_buffer-IsValid
      (empty_buffer_room 10 (omega arith)))

abbrev reader : Reader
reader = record { data_bytes = (9 ∷ []) ++ (write_u32_le 77 ++ []); size = 5; pos = 1 }

reader_read_u32-write_example :
    reader_read_u32_le reader ≡ (ok, 77, record reader { pos = reader.pos + 4 })
reader_read_u32-write_example =
    reader_read_u32-write reader (9 ∷ []) [] 77 refl refl (omega arith) (omega arith)

resize-contents_example :
    ((resize zero_filled empty_buffer 3).0 ≡ ok)
    × IsValid (resize zero_filled empty_buffer 3).1
    × (contents (resize zero_filled empty_buffer 3).1
        ≡ contents empty_buffer ++ replicate (3 - empty_buffer.size) 0)
unfolding init
resize-contents_example =
    resize-contents zero_filled empty_buffer 3 empty_buffer-IsValid (omega arith)
      (ensure_capacity_ok zero_filled empty_buffer 3 (empty_buffer_grows 3))

abbrev wide_buffer : Buffer
wide_buffer = record {
  block = 1 ∷ 2 ∷ 3 ∷ [];
  is_null = false;
  size = 2;
  capacity = 3;
  owns_data = true;
}

shrink_to_fit-contents_example :
    (after : Buffer) × (shrink_to_fit zero_filled wide_buffer ≡ some (ok, after))
    × IsValid after
    × (after.owns_data ≡ true)
    × (contents after ≡ contents wide_buffer)
shrink_to_fit-contents_example =
    shrink_to_fit-contents zero_filled wide_buffer (record { whole = refl; fits = omega arith })
      refl
