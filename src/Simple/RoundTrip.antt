-- ===== src/Simple/RoundTrip.antt =====
-- `simpleDecompress` behind `simpleCompress` of test/simple.c.
use easylzma.Common.{
  ℕ, ◌+◌, ◌%◌, ◌^◌, ◌≤◌, ◌<◌, ◌≡◌, refl, ap, ◌∙◌, List, [], ◌∷◌, ◌++◌, Option, none, some, arith,
  ok, length,
}
use easylzma.Common.Words.{IsU32, IsU64}
use easylzma.Format.{FileHeader, FormatHandler}
use easylzma.LzipHeader.{magic, elzma_lzip_footer_size}
use easylzma.Api.{lzip, elzma_e_ok}
use easylzma.Alloc.{Runtime}
use easylzma.Sdk.{Crc, IsRunningCrc, Encoder, EncProps, Decoder}
use easylzma.Sdk.Coding.{StreamDecoder}
use easylzma.Compress.{CompressHandle, elzma_compress_alloc, elzma_compress_config, default_props}
use easylzma.Compress.Whole.{Codes}
use easylzma.Compress.WholeLzip.{lzip_run_succeeds}
use easylzma.Decompress.{elzma_decompress_alloc, elzma_decompress_input_bufsize}
use easylzma.Decompress.Complete.{Decodes}
use easylzma.Decompress.LzipFile.{lzip_props, footer_of, digest, lzip_file_comes_back}
use easylzma.Simple.{
  DataStream, Answer, data_stream, input_callback, output_callback, simple_compress,
  simple_decompress,
}
use easylzma.Simple.Written.{exponent}
use easylzma.Simple.Returns.{simple_compress-returns, simple_decompress-returns}
use easylzma.Simple.Client.{IsRoomy, simple-HasInput, simple-HasHeap, simple-HasMemory}

-- The properties that `simpleCompress` configures.
abbrev pub simple_props : EncProps
simple_props = record default_props { dict_size = 2 ^ 20 }

module _ {S : Type 0} (realloc : Option ℕ → ℕ → S → ℕ × S) (rt : Runtime (DataStream S))
    (E : Encoder (DataStream S)) (D : Decoder (DataStream S)) (streams : StreamDecoder D)
    (crc : Crc) (law : IsRunningCrc crc) (roomy : IsRoomy realloc rt E D) where
  -- What the encoder makes of the input, with the properties that `simpleCompress` sets, the decoder
  -- turns back, with those that an lzip file of that dictionary size has.
  abbrev pub IsCoded : List ℕ → List ℕ → Type 0
  IsCoded input body =
      Codes crc rt E input_callback (output_callback realloc) none (simple-HasInput realloc)
        (elzma_compress_alloc {S = DataStream S} {Enc = E.Enc}).alloc_struct simple_props input body
      × Decodes D streams elzma_decompress_alloc (lzip_props (2 ^ 20)) body input

  -- The lzip file with this body.
  abbrev pub file_with : List ℕ → List ℕ → List ℕ
  file_with input body =
      (magic ++ (0 ∷ 20 ∷ [])) ++ (body ++ footer_of (digest crc input) (length input))

  simple_compress-file :
      (h : FileHeader) (input body : List ℕ) (s : S)
      → IsCoded input body
      → (a : Answer S) × (simple_compress realloc rt crc E h lzip input s ≡ ok a)
        × (a.rc ≡ elzma_e_ok)
        × (a.out ≡ some (file_with input body))
  unfolding elzma_compress_config simple-HasInput elzma_compress_alloc
  simple_compress-file h input body s (codes, decodes) =
      let start : CompressHandle (DataStream S) E.Enc = elzma_compress_alloc in
      let (end, f, k, ran, low, high, sent, taken) =
        lzip_run_succeeds crc law rt E input_callback (output_callback realloc) none
          (simple-HasInput realloc) (λ report in_size total s e. absurd cc) start 3 0 2 5 (2 ^ 20)
          (length input) h input body (data_stream input s) (simple-HasHeap realloc rt E D roomy)
          (omega arith) (omega arith) codes refl in
      let (a, returned, good, out) =
        simple_compress-returns realloc rt E D crc roomy h lzip input s {end = end} {f = f} ran in
      let twenty = exponent realloc rt E k low high in
      let tail = body ++ footer_of (digest crc input) (length input) in
      (a, returned, good, out ∙ ap some (sent ∙ ap (λ j. (magic ++ (0 ∷ j ∷ [])) ++ tail) twenty))

  simple_decompress-file :
      (rounds : ℕ) (junk : FormatHandler) (h : FileHeader) (address : ℕ) (input body : List ℕ)
      (s : S)
      → IsCoded input body
      → IsU32 (digest crc input)
      → IsU64 (length input)
      → 0 < length body % elzma_decompress_input_bufsize
      → length body % elzma_decompress_input_bufsize + elzma_lzip_footer_size
        ≤ elzma_decompress_input_bufsize
      → length body < rounds
      → length input < rounds
      → (a : Answer S) × (simple_decompress realloc rt crc D rounds junk h address lzip
            (file_with input body)
            s
          ≡ ok a)
        × (a.rc ≡ elzma_e_ok)
        × (a.out ≡ some input)
  unfolding simple-HasInput
  simple_decompress-file rounds junk h address input body s (codes, decodes) sum_fits size_fits
        some_body whole enough_body enough_input =
      let file = file_with input body in
      let (r, ran, good, through) =
        lzip_file_comes_back rt crc law D streams elzma_decompress_alloc input_callback
          (output_callback realloc) (simple-HasInput realloc)
          (simple-HasMemory realloc rt E D roomy) rounds junk h 0 20 body input (data_stream file s)
          (omega arith) sum_fits size_fits some_body whole decodes enough_body enough_input refl in
      let (a, returned, fine, out) =
        simple_decompress-returns realloc rt E D crc roomy rounds junk h address lzip file s {r = r}
          ran good in
      (a, returned, fine, out ∙ ap some through)

  -- Let the checksum be a running one, let the heap give memory, and let managing memory not touch
  -- the two buffers. Let the decoder go through coded bodies as `StreamDecoder` says, and let the
  -- encoder code the input as a body that the decoder expects for the input. Let the digest fit 32
  -- bits and the input's length 64, and let the body's last buffer of 64 KB hold some of the body and
  -- have room for the whole footer. With more rounds than the body and the input have bytes,
  -- compressing the input for lzip returns ELZMA_E_OK with some buffer, and decompressing that buffer
  -- returns ELZMA_E_OK with the input.
  pub simple_round_trip :
      (rounds : ℕ) (junk : FormatHandler) (h h' : FileHeader) (address : ℕ) (input body : List ℕ)
      (s s' : S)
      → IsCoded input body
      → IsU32 (digest crc input)
      → IsU64 (length input)
      → 0 < length body % elzma_decompress_input_bufsize
      → length body % elzma_decompress_input_bufsize + elzma_lzip_footer_size
        ≤ elzma_decompress_input_bufsize
      → length body < rounds
      → length input < rounds
      → (buffer : List ℕ) × (packed : Answer S) × (unpacked : Answer S) × (simple_compress realloc
            rt crc E h lzip input s
          ≡ ok packed)
        × (packed.rc ≡ elzma_e_ok)
        × (packed.out ≡ some buffer)
        × (simple_decompress realloc rt crc D rounds junk h' address lzip buffer s' ≡ ok unpacked)
        × (unpacked.rc ≡ elzma_e_ok)
        × (unpacked.out ≡ some input)
  simple_round_trip rounds junk h h' address input body s s' coded sum_fits size_fits some_body
        whole enough_body enough_input =
      let (packed, compressed, fine, filled) = simple_compress-file h input body s coded in
      let (unpacked, decompressed, good, back) =
        simple_decompress-file rounds junk h' address input body s' coded sum_fits size_fits
          some_body whole enough_body enough_input in
      (file_with input body, packed, unpacked, compressed, fine, filled, decompressed, good, back)
