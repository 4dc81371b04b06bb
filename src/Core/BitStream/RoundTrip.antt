-- ===== src/Core/BitStream/RoundTrip.antt =====
-- Fields of bits, written and read.
use carquet.Prelude.{ℕ, ◌+◌, ◌*◌, ◌/◌, ◌%◌, ◌^◌, ◌<◌, ◌≤◌, ◌≡◌, refl, arith, ap, ap₂, ◌∙◌, subst}
use carquet.Prelude.{map, ◌-◌}
use carquet.Prelude.{List, [], ◌∷◌, length, All, value, two-pow-add, two-pow-pos}
use native.Mathlib.Nat.{mod-eq_of_lt, mul-add-div, mul-add-mod_self_left, mod-lt, div-eq_of_lt}
use carquet.Core.BitStream.{
  BitReader, BitWriter, reader_init, writer_init, write_bits, read_bits, flush,
}
use carquet.Core.BitStream.Reader.{Reads, reader_init-Reads, read_bits-Reads}
use carquet.Core.BitStream.Writer.{
  Holds, Kept, writer_init-Holds, writer_init_lem, write_bits-Kept, flush-Stored,
}

-- A value and the count of its bits.
pub record Field : Type 0 where
  pub value : ℕ
  pub width : ℕ

abbrev pub write_fields : BitWriter → List Field → BitWriter
write_fields writer [] = writer
write_fields writer (field ∷ fields) =
    write_fields (write_bits writer field.value field.width) fields

abbrev pub read_fields : BitReader → List Field → List ℕ
read_fields reader [] = []
read_fields reader (field ∷ fields) =
    let (bits, reader') = read_bits reader field.width in bits ∷ read_fields reader' fields

-- What a field of that width can hold of a value.
abbrev pub low_bits : Field → ℕ
low_bits field = field.value % 2 ^ field.width

abbrev pub total_bits : List Field → ℕ
total_bits [] = 0
total_bits (field ∷ fields) = field.width + total_bits fields

abbrev joined : List Field → ℕ
joined [] = 0
joined (field ∷ fields) = low_bits field + 2 ^ field.width * joined fields

-- The widest field that the writer takes in every state: 55 bits may wait in its buffer of 64.
abbrev pub IsNarrow : Field → Type 0
IsNarrow field = field.width ≤ 9

write_fields-Kept :
    (fields : List Field) (n total : ℕ) (w : BitWriter)
    → All IsNarrow fields
    → w.buffer_bits ≤ 55
    → total + total_bits fields ≤ 8 * w.capacity
    → Holds n total w
    → Kept
        (n + 2 ^ total * joined fields)
        (total + total_bits fields)
        55
        w.capacity
        (write_fields w fields)
write_fields-Kept [] n total w narrow few fits s =
    subst (λ (t : ℕ × ℕ). Kept t.0 t.1 55 w.capacity w)
      (ap₂ (λ (a b : ℕ). (a, b)) (omega arith) (omega arith))
      (record { holds = s; few = few; same = refl })
write_fields-Kept (field ∷ fields) n total w (hw, narrow) few fits s =
    let k = field.width in
    let first =
      write_bits-Kept n total k field.value w (omega (arith, hw)) few (omega (arith, hw, few))
        (omega arith) s in
    let rest =
      write_fields-Kept fields (n + 2 ^ total * low_bits field) (total + k)
        (write_bits w field.value k) narrow first.few (omega (arith, first.same)) first.holds in
    let same_number : n + 2 ^ total * low_bits field + 2 ^ (total + k) * joined fields
        ≡ n + 2 ^ total * (low_bits field + 2 ^ k * joined fields) =
      omega (arith, ap (λ (t : ℕ). t * joined fields) (two-pow-add total k)) in
    record {
      holds =
          subst (λ (t : ℕ × ℕ). Holds t.0 t.1 (write_fields (write_bits w field.value k) fields))
            (ap₂ (λ (a b : ℕ). (a, b)) same_number (omega arith)) rest.holds;
      few = rest.few;
      same = rest.same ∙ first.same;
    }

read_fields_lem :
    (fields : List Field) (n total : ℕ) (r : BitReader)
    → All IsNarrow fields
    → total_bits fields ≤ total
    → n ≡ joined fields
    → Reads n total r
    → read_fields r fields ≡ map low_bits fields
read_fields_lem [] n total r narrow there e s = refl
read_fields_lem (field ∷ fields) n total r (hw, narrow) there e s =
    let k = field.width in
    let (first, next) = read_bits-Reads n total k r (omega (arith, hw)) (omega arith) s in
    let whole : n ≡ 2 ^ k * joined fields + low_bits field = omega (arith, e) in
    let low = low_bits field in
    let small : low < 2 ^ k = mod-lt field.value (two-pow-pos k) in
    let now : n % 2 ^ k ≡ low =
      ap (λ (t : ℕ). t % 2 ^ k) whole
      ∙ mul-add-mod_self_left (2 ^ k) (joined fields) low
      ∙ mod-eq_of_lt small in
    let later : n / 2 ^ k ≡ joined fields =
      ap (λ (t : ℕ). t / 2 ^ k) whole
      ∙ mul-add-div {m = 2 ^ k} (two-pow-pos k) (joined fields) low
      ∙ omega (arith, div-eq_of_lt {n = low} {m = 2 ^ k} small) in
    ap₂ (λ (a : ℕ) (b : List ℕ). a ∷ b) (first ∙ now)
      (read_fields_lem fields (n / 2 ^ k) (total - k) (read_bits r k).1 narrow (omega arith) later
        next)

-- For fields of at most 9 bits whose bits fit the capacity, a flush after all writes leaves as
-- many bytes as the bits need, and reading the same widths from these bytes gives the low bits
-- of every value.
pub read_fields-write_fields :
    (fields : List Field) (capacity : ℕ)
    → All IsNarrow fields
    → total_bits fields ≤ 8 * capacity
    → let writer = flush (write_fields (writer_init capacity) fields) in
      (length writer.written ≡ (total_bits fields + 7) / 8)
      × (read_fields (reader_init writer.written) fields ≡ map low_bits fields)
read_fields-write_fields fields capacity narrow fits =
    let w = writer_init capacity in
    let kept =
      write_fields-Kept fields 0 0 w narrow (writer_init_lem capacity).0
        (omega (arith, (writer_init_lem capacity).1)) (writer_init-Holds capacity) in
    let stored =
      flush-Stored (0 + 2 ^ 0 * joined fields) (0 + total_bits fields) (write_fields w fields)
        (omega (arith, kept.same, (writer_init_lem capacity).1)) kept.holds in
    let number : value 256 (flush (write_fields w fields)).written ≡ joined fields =
      stored.is ∙ omega arith in
    (
      stored.size ∙ ap (λ (t : ℕ). (t + 7) / 8) (omega arith),
      read_fields_lem fields (joined fields) (8 * length (flush (write_fields w fields)).written)
          (reader_init (flush (write_fields w fields)).written) narrow (omega (arith, stored.size))
          refl
          (subst
            (λ (t : ℕ).
              Reads t (8 * length (flush (write_fields w fields)).written)
                (reader_init (flush (write_fields w fields)).written))
            number (reader_init-Reads (flush (write_fields w fields)).written stored.bytes)),
    )
