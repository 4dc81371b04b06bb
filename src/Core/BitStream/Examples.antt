-- ===== src/Core/BitStream/Examples.antt =====
-- The bit reader and the bit writer of src/core/bitpack.c on small inputs.
use carquet.Prelude.{
  ℕ, ◌+◌, ◌-◌, ◌*◌, ◌/◌, ◌%◌, ◌^◌, ◌≡◌, refl, arith, none, some, map, List, [], ◌∷◌, length,
  below-All,
}
use carquet.Core.BitStream.{
  BitReader, reader_init, refill_loop, refill_buffer, read_bit, take_bits, read_bits, read_bits64,
  writer_init, store_byte, flush_loop, flush_buffer, put_bits, write_bits, flush,
}
use carquet.Core.BitStream.Reader.{Reads, reader_init-Reads, read_bits64-Reads, read_bit-Reads}
use carquet.Core.BitStream.Writer.{Kept, writer_init-Holds, write_bits-Kept}
use carquet.Core.BitStream.RoundTrip.{
  Field, write_fields, read_fields, low_bits, total_bits, read_fields-write_fields,
}

abbrev fields : List Field
fields =
    record { value = 5; width = 3 }
    ∷ record { value = 300; width = 9 }
    ∷ record { value = 7; width = 0 }
    ∷ record { value = 1; width = 1 }
    ∷ []

abbrev bytes : List ℕ
bytes = 0x65 ∷ 0x19 ∷ []

fields_written : (flush (write_fields (writer_init 8) fields)).written ≡ bytes
unfolding writer_init write_bits put_bits flush_buffer flush_loop store_byte flush
fields_written = refl

abbrev loaded : BitReader
loaded = reader_init bytes

loaded-Reads : Reads 0x1965 16 loaded
loaded-Reads = reader_init-Reads bytes (below-All 256 bytes refl)

-- Behind the last bit a read of bits gives zeros, and a read of one bit too.
beyond_the_end : (read_bit (read_bits loaded 20).1).0 ≡ some 0
unfolding reader_init read_bits take_bits refill_buffer refill_loop read_bit
beyond_the_end = refl

at_the_end : (read_bit (read_bits loaded 16).1).0 ≡ none
unfolding reader_init read_bits take_bits refill_buffer refill_loop read_bit
at_the_end = refl

-- 31 bits, 24 bits and 31 ones: 22 of the ones are lost.
lost_bits :
    (flush (write_bits (write_bits (write_bits (writer_init 16) 0 31) 0 24) 0x7fffffff 31)).written
    ≡ 0 ∷ 0 ∷ 0 ∷ 0 ∷ 0 ∷ 0 ∷ 0x80 ∷ 255 ∷ 0 ∷ 0 ∷ 0 ∷ []
unfolding writer_init write_bits put_bits flush_buffer flush_loop store_byte flush
lost_bits = refl

read_fields-write_fields_example :
    (length (flush (write_fields (writer_init 8) fields)).written ≡ (total_bits fields + 7) / 8)
    × (read_fields (reader_init (flush (write_fields (writer_init 8) fields)).written) fields
        ≡ map low_bits fields)
read_fields-write_fields_example =
    read_fields-write_fields fields 8 (omega arith, (omega arith, (omega arith, (omega arith, tt))))
      (omega arith)

write_bits-Kept_example :
    Kept
      (0 + 2 ^ 0 * (300 % 2 ^ 9))
      (0 + 9)
      55
      (writer_init 8).capacity
      (write_bits (writer_init 8) 300 9)
unfolding writer_init
write_bits-Kept_example =
    write_bits-Kept 0 0 9 300 (writer_init 8) (omega arith) (omega arith) (omega arith)
      (omega arith) (writer_init-Holds 8)

read_bits64-Reads_example :
    ((read_bits64 loaded 12).0 ≡ 0x1965 % 2 ^ 12)
    × Reads (0x1965 / 2 ^ 12) (16 - 12) (read_bits64 loaded 12).1
read_bits64-Reads_example =
    read_bits64-Reads 0x1965 16 12 loaded (omega arith) (omega arith) loaded-Reads

read_bit-Reads_example :
    ((read_bit loaded).0 ≡ some (0x1965 % 2)) × Reads (0x1965 / 2) (16 - 1) (read_bit loaded).1
read_bit-Reads_example = read_bit-Reads 0x1965 16 loaded (omega arith) loaded-Reads
