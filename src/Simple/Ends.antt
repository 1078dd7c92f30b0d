-- ===== src/Simple/Ends.antt =====
-- `simpleDecompress` of test/simple.c comes to an end.
use easylzma.Common.{ℕ, ◌≤◌, ◌<◌, ◌≢◌, List, Option, arith, fault, out_of_fuel, length}
use easylzma.Format.{FileHeader, FormatHandler}
use easylzma.Api.{FileFormat}
use easylzma.Alloc.{Runtime}
use easylzma.Sdk.{Crc, Decoder, Advances}
use easylzma.Decompress.{
  elzma_decompress_alloc, elzma_decompress_input_bufsize, elzma_decompress_free,
}
use easylzma.Decompress.Run.{elzma_decompress_run}
use easylzma.Decompress.Returns.{IsQuiet, elzma_decompress_run-ends}
use easylzma.Simple.{DataStream, data_stream, input_callback, output_callback, simple_decompress}
use easylzma.Simple.Streams.{simple-IsFinite}

module _ {S : Type 0} (realloc : Option ℕ → ℕ → S → ℕ × S) (rt : Runtime (DataStream S)) (crc : Crc)
    (D : Decoder (DataStream S)) (law : Advances D) where
  -- Allocation does not add to the input.
  abbrev pub IsQuietHeap : Type 0
  IsQuietHeap =
      IsQuiet rt crc D law elzma_decompress_alloc input_callback (output_callback realloc)
        (simple-IsFinite realloc)

  -- Let the decoder advance, and let allocation not add to the input. With more rounds than the
  -- decoder may produce bytes from one buffer, and than the input has bytes, decompressing a buffer in
  -- memory does not run out of rounds, for every format and every input.
  pub simple_decompress-ends :
      (quiet : IsQuietHeap) (rounds : ℕ)
      (enough : (dec : D.DecState) (src : List ℕ)
        → length src ≤ elzma_decompress_input_bufsize
        → law.pending dec src < rounds)
      (junk : FormatHandler) (h : FileHeader) (address : ℕ) (format : FileFormat) (in_data : List ℕ)
      (s : S)
      → length in_data < rounds
      → simple_decompress realloc rt crc D rounds junk h address format in_data s
        ≢ fault out_of_fuel
  unfolding simple_decompress elzma_decompress_free
  simple_decompress-ends quiet rounds enough junk h address format in_data s more e =
      let run =
        elzma_decompress_run rt crc D elzma_decompress_alloc input_callback
          (output_callback realloc) rounds junk h format (data_stream in_data s) in
      let ends =
        elzma_decompress_run-ends rt crc D law elzma_decompress_alloc input_callback
          (output_callback realloc) (simple-IsFinite realloc) quiet rounds enough junk h format
          (data_stream in_data s) (unfold simple-IsFinite in more) in
      ground arith
