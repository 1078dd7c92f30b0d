-- ===== src/Simple/LzmaRoundTrip.antt =====
-- `simpleDecompress` behind `simpleCompress` of test/simple.c, for LZMA-Alone.
use easylzma.Common.{
  ℕ, ◌^◌, ◌<◌, ◌≡◌, refl, ap, ◌∙◌, List, ◌++◌, Option, none, some, arith, ok, ◌==◌, if◌then◌else◌,
  length,
}
use easylzma.Common.Words.{IsU64}
use easylzma.Format.{FileHeader, FormatHandler}
use easylzma.Common.Words.LittleEndian.{le_bytes}
use easylzma.LzmaHeader.{properties_byte}
use easylzma.LzmaHeader.Serialize.{stored_size, lzma_front}
use easylzma.LzmaHeader.RoundTrip.{IsEncodable}
use easylzma.Api.{lzma, elzma_e_ok}
use easylzma.Alloc.{Runtime}
use easylzma.Sdk.{Crc, Encoder, Decoder}
use easylzma.Sdk.Coding.{StreamDecoder}
use easylzma.Compress.{CompressHandle, elzma_compress_alloc, elzma_compress_config, null_handler}
use easylzma.Compress.Whole.{Codes}
use easylzma.Compress.WholeLzma.{lzma_run_succeeds}
use easylzma.Decompress.{elzma_decompress_alloc}
use easylzma.Decompress.Complete.{Decodes}
use easylzma.Decompress.LzmaFile.{
  lzma_props, lzma_front-IsParsable, stored_size-plain, lzma_file_comes_back,
}
use easylzma.Simple.{
  DataStream, Answer, data_stream, input_callback, output_callback, simple_compress,
  simple_decompress,
}
use easylzma.Simple.Returns.{simple_compress-returns, simple_decompress-returns}
use easylzma.Simple.RoundTrip.{simple_props}
use easylzma.Simple.Client.{IsRoomy, simple-HasInput, simple-HasHeap, simple-HasMemory}

-- The header for an input of a size: the size is written unless it is 0.
abbrev pub simple_header : ℕ → FileHeader
simple_header size = record {
  pb = 2;
  lp = 0;
  lc = 3;
  is_streamed = if size == 0 then 1 else 0;
  uncompressed_size = size;
  dict_size = 2 ^ 20;
}

simple_header-IsEncodable : (size : ℕ) → IsU64 size → IsEncodable (simple_header size)
simple_header-IsEncodable size fits = record {
  lc_small = omega arith;
  lp_zero = refl;
  pb_small = omega arith;
  dict_size_small = omega arith;
  size_fits = fits;
}

module _ {S : Type 0} (realloc : Option ℕ → ℕ → S → ℕ × S) (rt : Runtime (DataStream S))
    (E : Encoder (DataStream S)) (D : Decoder (DataStream S)) (streams : StreamDecoder D)
    (crc : Crc) (roomy : IsRoomy realloc rt E D) where
  -- What the encoder makes of the input, with the properties that `simpleCompress` sets, the decoder
  -- turns back, with those that the header says.
  abbrev pub IsLzmaCoded : List ℕ → List ℕ → Type 0
  IsLzmaCoded input body =
      Codes crc rt E input_callback (output_callback realloc) none (simple-HasInput realloc)
        (elzma_compress_alloc {S = DataStream S} {Enc = E.Enc}).alloc_struct simple_props input body
      × Decodes D streams elzma_decompress_alloc (lzma_props (simple_header (length input))) body
          input

  -- Let the heap give memory, and let managing memory not touch the two buffers. Let the decoder go
  -- through coded bodies as `StreamDecoder` says, and let the encoder code the input as a body that
  -- the decoder expects for the input. Let the input's length fit 64 bits. With more rounds than the
  -- body and the input have bytes, compressing the input for LZMA-Alone returns ELZMA_E_OK with some
  -- buffer, and decompressing that buffer returns ELZMA_E_OK with the input.
  pub simple_lzma_round_trip :
      (rounds : ℕ) (junk : FormatHandler) (h h' : FileHeader) (address : ℕ) (input body : List ℕ)
      (s s' : S)
      → IsLzmaCoded input body
      → IsU64 (length input)
      → length body < rounds
      → length input < rounds
      → (buffer : List ℕ) × (packed : Answer S) × (unpacked : Answer S) × (simple_compress realloc
            rt crc E h lzma input s
          ≡ ok packed)
        × (packed.rc ≡ elzma_e_ok)
        × (packed.out ≡ some buffer)
        × (simple_decompress realloc rt crc D rounds junk h' address lzma buffer s' ≡ ok unpacked)
        × (unpacked.rc ≡ elzma_e_ok)
        × (unpacked.out ≡ some input)
  unfolding elzma_compress_config simple-HasInput elzma_compress_alloc
  simple_lzma_round_trip rounds junk h h' address input body s s' (codes, decodes) size_fits
        enough_body enough_input =
      let start : CompressHandle (DataStream S) E.Enc = elzma_compress_alloc in
      let hdr = simple_header (length input) in
      let fields = simple_header-IsEncodable (length input) size_fits in
      let (end, f, ran, sent, taken) =
        lzma_run_succeeds crc rt E input_callback (output_callback realloc) none
          (simple-HasInput realloc) (λ report in_size total s e. absurd cc) null_handler start 3 0 2
          5 (2 ^ 20) (length input) h input body (data_stream input s)
          (simple-HasHeap realloc rt E D roomy) codes refl in
      let (packed, compressed, fine, filled) =
        simple_compress-returns realloc rt E D crc roomy h lzma input s {end = end} {f = f} ran in
      let file = lzma_front hdr ++ body in
      let (r, ran', good, through) =
        lzma_file_comes_back rt crc D streams elzma_decompress_alloc input_callback
          (output_callback realloc) (simple-HasInput realloc)
          (simple-HasMemory realloc rt E D roomy) rounds junk h' (properties_byte hdr)
          (le_bytes 4 hdr.dict_size) (le_bytes 8 (stored_size hdr)) body input (data_stream file s')
          (lzma_front-IsParsable hdr fields) size_fits
          (stored_size-plain hdr (length input) fields refl) decodes enough_body enough_input
          refl in
      let (unpacked, decompressed, fine', out) =
        simple_decompress-returns realloc rt E D crc roomy rounds junk h' address lzma file s'
          {r = r} ran' good in
      (
        file,
        packed,
        unpacked,
        compressed,
        fine,
        filled ∙ ap some sent,
        decompressed,
        fine',
        out ∙ ap some through,
      )
