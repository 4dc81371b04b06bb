-- ===== src/Thrift/Script/RoundTrip.antt =====
-- What the encoder writes, the decoder reads.
use carquet.Prelude.{
  ℕ, true, drop, drop-append_self, ◌+◌, ◌≡◌, sym, ap, ◌∙◌, subst, arith, List, [], ◌++◌, length,
}
use carquet.Core.Status.{ok, is_ok}
use carquet.Core.Buffer.{Allocator, Buffer, contents}
use carquet.Core.Buffer.Growth.{IsValid}
use carquet.Core.Buffer.Append.{HasRoom}
use carquet.Thrift.Encoder
use carquet.Thrift.Encoder.Emits.{Written, Written-init}
use carquet.Thrift.Decoder
use carquet.Thrift.Decoder.Ready.{Ready, Ready-init}
use carquet.Thrift.Script
use carquet.Thrift.Script.{Item, write_all, read_all, kinds_of, script_bytes, moved_all}
use carquet.Thrift.Script.Writes.{write_all-Written}
use carquet.Thrift.Script.Reads.{read_all_lem}

module _ (a : Allocator) (start : Buffer) (items : List Item) (v : IsValid start)
    (fits : Script.IsValid [] items)
    (room : HasRoom a start (start.size + length (script_bytes [] items))) where
  written :
      Written a start
        (length (script_bytes [] items))
        (script_bytes [] items)
        (moved_all items [])
        (write_all a (Encoder.init start) items)
  written =
      write_all-Written a start (length (script_bytes [] items)) items fits
        (Written-init a start (length (script_bytes [] items)) v room)

  -- For a row of calls with sound arguments, whose containers announce no more elements than
  -- calls follow, and a valid buffer with room for its bytes: a fresh encoder has no error, has
  -- put exactly the bytes that the compact protocol has for the row behind the buffer's
  -- contents, and has as many structs open as the row leaves.
  pub write_all_lem :
      ((write_all a (Encoder.init start) items).status ≡ ok)
      × (contents (write_all a (Encoder.init start) items).buffer
          ≡ contents start ++ script_bytes [] items)
      × ((write_all a (Encoder.init start) items).nesting_level ≡ length (moved_all items []))
  write_all_lem =
      (written.good (omega arith), written.wrote.holds (omega arith), written.place.height)

  -- For a row of calls with sound arguments, whose containers announce no more elements than
  -- calls follow, and a valid buffer with room for its bytes: a decoder on what a fresh encoder
  -- put behind the buffer's contents, with any bytes behind that, gives the same values in the
  -- same order, leaves exactly those bytes, has no error, and has as many structs open as the
  -- encoder.
  pub read_all-write_all :
      (rest : List ℕ)
      → let enc = write_all a (Encoder.init start) items in
        let input = drop (length (contents start)) (contents enc.buffer) ++ rest in
        let (read, dec) = read_all (kinds_of items) (Decoder.init input) in
        (read ≡ items)
        × (dec.input ≡ rest)
        × (is_ok dec.status ≡ true)
        × (dec.nesting_level ≡ enc.nesting_level)
  read_all-write_all rest =
      let bytes = script_bytes [] items in
      let enc = write_all a (Encoder.init start) items in
      let input = drop (length (contents start)) (contents enc.buffer) ++ rest in
      let same : input ≡ bytes ++ rest =
        ap (λ t. drop (length (contents start)) t ++ rest) (written.wrote.holds (omega arith))
        ∙ ap (λ t. t ++ rest) (drop-append_self (contents start) bytes) in
      let (read, done) =
        read_all_lem items [] rest (Decoder.init input) fits
          (subst (λ i. Ready [] i (Decoder.init input)) same (Ready-init input)) in
      (read, done.left, done.good, done.place.height ∙ sym written.place.height)
