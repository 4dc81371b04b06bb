-- ===== src/Lib.antt =====
-- Verification of the core of carquet, a library in C that reads and writes Parquet files.
--
-- Every column of a Parquet file rests on a few routines: integers stored byte by byte, variable
-- length integers, groups of packed bits, a byte buffer that grows, and the hybrid of run-length
-- encoding and bit packing that carries levels and dictionary indices. These are modelled here.
--
-- Core.Status: include/carquet/error.h, the status codes.
-- Core.Endian: src/core/endian.h. Words are natural numbers below 2^w with their wrap-around
--   written out, memory is a list of bytes, and a reader returns the bytes that are left where the
--   source returns a count.
-- Core.Bitpack: src/core/bitpack.c and bitpack.h, on the portable path: the kernels of one to
--   eight bits, the general loop, and the packing of groups. A byte outside a list reads as zero.
-- Core.BitStream: the bit reader and the bit writer of src/core/bitpack.c, each seen as a number
--   whose lowest bit is the next one to read, or the first one written.
-- Core.Buffer: src/core/buffer.c and buffer.h. The allocator is chosen by the application, and is a
--   parameter: which requests it grants, the block that realloc gives, and that this block has the
--   size asked for and keeps the bytes of the old one. Core.Buffer.Reader is the reader.
-- Encoding.Rle: src/encoding/rle.c and rle.h. Format is the hybrid format itself, an inductive
--   relation between bytes and values that mentions no function of the source: headers are numbers
--   in base 128, and groups are one number whose digits are the values. Groups says that what
--   src/core/bitpack.c packs has that form. Encoder is the encoder,
--   whose state holds the values in three places: written, in the group that fills, in the run that
--   is counted. Decoder is the decoder; its state holds the rest of a run and the rest of the
--   input. Levels has the level functions, which do without the decoder's state;
--   Levels.Runs is about decode_levels on a stream of the format.
--
-- Encoding.Delta: src/encoding/delta.c, DELTA_BINARY_PACKED. Encoder and Decoder have the loops of
--   the source; a signed integer is its word. The prefix sums are the portable ones of
--   src/simd/dispatch.c. That whole pages decode to what was encoded is not shown yet.
--
-- Encoding.ByteStreamSplit: src/encoding/byte_stream_split.c with the scalar kernels of
--   src/simd/dispatch.c. A buffer is a function from offsets to bytes. The loop over the tiles has
--   the number of values for fuel, and a tile takes one value at least. Places says where the loops
--   write, Scalar what the kernels leave, Tiles that the tiled decoders leave the same.
--
-- Thrift: src/thrift/thrift_encode.c and thrift_decode.c, the compact protocol that carries the
--   metadata of a file. Encoder and Decoder have one function per function of the source; the
--   decoder's reader is the list of the bytes that are left, and an error is its status without
--   its text. Skip is thrift_skip. Wire is the protocol itself as bytes, Place the ids of the open
--   structs as a stack, Value its values as trees, less Booleans in lists, sets and maps, and Script
--   a row of calls to the encoder with the row of calls to the decoder that reads it. Reach is a
--   decoder in use.
--
-- The encoders write through the buffer; that of the hybrid ignores what an append reports, as the
-- source does. Statements about them name a budget of bytes for which the buffer has room.
--
-- Loops are recursive functions. Where their number of rounds is not that of a list or of a count,
-- it is a bound: five or ten bytes for a varint, the number of bytes left for the runs of a decoder
-- (a header takes one at least), the number of values wanted for a batch and one round more for an
-- error, the number of buffered values for the runs among them, and for thrift_skip the number of
-- bytes left, of which every call inside another has fewer. Each round takes a byte or a value,
-- so that no loop of the source runs longer.
--
-- Not modelled: the SIMD kernels that replace the portable code at run time, floating-point words,
-- other encodings, the structures of the metadata, compression, files and threads.
pub mod Prelude
pub mod Core
pub mod Encoding
pub mod Thrift
