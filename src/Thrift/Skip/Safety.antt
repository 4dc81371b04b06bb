-- ===== src/Thrift/Skip/Safety.antt =====
-- Skipping keeps what every read keeps.
use carquet.Prelude.{ℕ, zero, suc, Bool, if◌then◌else◌, refl, length, ◌==◌, ◌||◌}
use carquet.Core.Status.{is_ok, error_thrift_decode, error_thrift_invalid_type}
use carquet.Thrift.Decoder.{
  ThriftDecoder, read_field_begin, read_list_begin, read_map_begin, read_struct_begin,
}
use carquet.Thrift.Decoder.Safety.{
  Keeps, Keeps-refl, Keeps-trans, Keeps-if, set_error-Keeps, reader_skip-Keeps, read_varint-Keeps,
  read_binary-Keeps, read_struct_begin-Keeps, read_struct_end-Keeps, read_field_begin-Keeps,
  read_list_begin-Keeps, read_map_begin-Keeps,
}
use carquet.Thrift.Skip.{
  repeat, skip_fields, skip_list, skip_map, skip_struct, skip_case, skip_fuel, skip,
}

abbrev AllKeep : (ThriftDecoder → ThriftDecoder) → Type 0
AllKeep step = (d : ThriftDecoder) → Keeps d (step d)

repeat-Keeps :
    (n : ℕ) (step : ThriftDecoder → ThriftDecoder) → AllKeep step → AllKeep (repeat n step)
unfolding repeat
repeat-Keeps zero step h d = Keeps-refl d
repeat-Keeps (suc n) step h d =
    Keeps-if (λ e. e) (is_ok d.status) (Keeps-trans (h d) (repeat-Keeps n step h (step d)))
      (Keeps-refl d)

module _ (again : ℕ → ThriftDecoder → ThriftDecoder) (h : (t : ℕ) → AllKeep (again t)) where
  skip_fields-Keeps : (n : ℕ) → AllKeep (skip_fields n again)
  unfolding skip_fields
  skip_fields-Keeps zero d = Keeps-refl d
  skip_fields-Keeps (suc n) d =
      let (more, type, _, behind) = read_field_begin d in
      let field = read_field_begin-Keeps d in
      Keeps-if (λ e. e) more
        (Keeps-trans field (Keeps-trans (h type behind) (skip_fields-Keeps n (again type behind))))
        field

  skip_list-Keeps : AllKeep (skip_list again)
  unfolding skip_list
  skip_list-Keeps d =
      let (elem_type, count, behind) = read_list_begin d in
      Keeps-trans (read_list_begin-Keeps d)
        (repeat-Keeps count (again elem_type) (h elem_type) behind)

  skip_map-Keeps : AllKeep (skip_map again)
  unfolding skip_map
  skip_map-Keeps d =
      let (key_type, value_type, count, behind) = read_map_begin d in
      Keeps-trans (read_map_begin-Keeps d) (
        repeat-Keeps count (λ e. again value_type (again key_type e))
          (λ e. Keeps-trans (h key_type e) (h value_type (again key_type e))) behind)

  skip_struct-Keeps : AllKeep (skip_struct again)
  unfolding skip_struct
  skip_struct-Keeps d = Keeps-trans (read_struct_begin-Keeps d) (
      Keeps-trans (skip_fields-Keeps (suc (length d.input)) (read_struct_begin d))
        (read_struct_end-Keeps (skip_fields (suc (length d.input)) again (read_struct_begin d))))

  skip_case-Keeps : (t : ℕ) → AllKeep (skip_case again t)
  unfolding skip_case
  skip_case-Keeps t d = either (t == 0) (set_error-Keeps error_thrift_decode d) (
      either (t == 1 || t == 2) (record { sticky = λ e. refl; stack = refl; level = λ l. l })
        (either (t == 3) (reader_skip-Keeps d 1) (
          either (t == 4 || (t == 5 || t == 6)) (read_varint-Keeps d) (
            either (t == 7) (reader_skip-Keeps d 8) (
              either (t == 8) (read_binary-Keeps d) (
                either (t == 9 || t == 10) (skip_list-Keeps d) (
                  either (t == 11) (skip_map-Keeps d) (
                    either (t == 12) (skip_struct-Keeps d) (
                      either (t == 13) (reader_skip-Keeps d 16)
                        (set_error-Keeps error_thrift_invalid_type d))))))))))
    where
      either :
          (b : Bool) {x y : ThriftDecoder} → Keeps d x → Keeps d y → Keeps d (if b then x else y)
      either b p q = Keeps-if (λ e. e) b p q

skip_fuel-Keeps : (f t : ℕ) → AllKeep (skip_fuel f t)
unfolding skip_fuel
skip_fuel-Keeps zero t d = Keeps-refl d
skip_fuel-Keeps (suc f) t d =
    Keeps-if (λ e. e) (is_ok d.status) (skip_case-Keeps (skip_fuel f) (skip_fuel-Keeps f) t d)
      (Keeps-refl d)

pub skip-Keeps : (d : ThriftDecoder) (t : ℕ) → Keeps d (skip d t)
unfolding skip
skip-Keeps d t = skip_fuel-Keeps (suc (length d.input)) t d
