-- ===== src/Simple/Returns.antt =====
-- `simpleCompress` and `simpleDecompress` of test/simple.c behind a run that returns ELZMA_E_OK.
use easylzma.Common.{ℕ, ◌^◌, ◌≡◌, refl, ap, ◌∙◌, List, ◌++◌, Option, none, some, ok, length}
use easylzma.Format.{FileHeader, FormatHandler}
use easylzma.Api.{FileFormat, elzma_e_ok}
use easylzma.Alloc.{Runtime, elzma_alloc, elzma_free, init_alloc_struct}
use easylzma.Sdk.{Crc, Encoder, Decoder}
use easylzma.Compress.{CompressHandle, elzma_compress_alloc, elzma_compress_config}
use easylzma.Compress.Invariant.{elzma_compress_run-Holds}
use easylzma.Compress.Run.{elzma_compress_run}
use easylzma.Compress.Streams.{Flow}
use easylzma.Decompress.{elzma_decompress_alloc}
use easylzma.Decompress.Invariant.{Keeps, elzma_decompress_run-Holds}
use easylzma.Decompress.Run.{Run, elzma_decompress_run}
use easylzma.Simple.{
  DataStream, Answer, data_stream, input_callback, output_callback, simple_compress,
  simple_decompress,
}
use easylzma.Simple.Streams.{input_callback_lem, output_callback_lem}
use easylzma.Simple.Written.{Split, simple-Keeps}
use easylzma.Simple.Client.{IsRoomy}

module _ {S : Type 0} (realloc : Option ℕ → ℕ → S → ℕ × S) (rt : Runtime (DataStream S))
    (E : Encoder (DataStream S)) (D : Decoder (DataStream S)) (crc : Crc)
    (roomy : IsRoomy realloc rt E D) where
  -- The handle that `simpleCompress` configures.
  abbrev pub simple_handle : FileFormat → ℕ → CompressHandle (DataStream S) E.Enc
  simple_handle format size =
      (elzma_compress_config (elzma_compress_alloc {S = DataStream S} {Enc = E.Enc}) 3 0 2 5
        (2 ^ 20) format size).1

  -- The buffer is what was written.
  pub simple_compress-returns :
      (h : FileHeader) (format : FileFormat) (input : List ℕ) (s : S)
      {end : Option (CompressHandle (DataStream S) E.Enc)} {f : Flow (DataStream S)}
      → elzma_compress_run crc rt E
          (output_callback realloc)
          none
          h
          (some (simple_handle format (length input)))
          (some input_callback)
          (data_stream input s)
        ≡ ok (elzma_e_ok, end, f)
      → (a : Answer S) × (simple_compress realloc rt crc E h format input s ≡ ok a)
        × (a.rc ≡ elzma_e_ok)
        × (a.out ≡ some f.sent)
  unfolding simple_compress elzma_compress_config
  simple_compress-returns h format input s {end} {f} ran =
      let (whole, same) =
        elzma_compress_run-Holds (Split realloc rt E roomy.leaves input) crc rt E input_callback
          (output_callback realloc) none (simple_handle format (length input))
          (simple-Keeps realloc rt E roomy.leaves input) h (data_stream input s) (refl, refl) ran in
      let a : Answer S = record { rc = 0; out = some f.world.out_data; streams = f.world } in
      (a, rw (simple_compress, ran) refl, refl, ap some same)

  decompress-Keeps :
      Keeps
        (λ ds sent. ds.out_data ≡ sent)
        rt
        D
        (elzma_decompress_alloc {S = DataStream S}).alloc_struct
        input_callback
        (output_callback realloc)
  unfolding elzma_alloc elzma_free elzma_decompress_alloc init_alloc_struct
  decompress-Keeps = record {
    reads = λ size ds sent same. (input_callback_lem size ds).1 ∙ same;
    writes = λ buf ds sent same. (output_callback_lem realloc buf ds).0 ∙ ap (λ t. t ++ buf) same;
    allocates = λ size ds sent same. (roomy.leaves.malloc size ds).1 ∙ same;
    frees = λ address ds sent same. (roomy.leaves.free address ds).1 ∙ same;
    prepares = λ dec props ds sent same. (roomy.prepares dec props ds).1 ∙ same;
    releases = λ dec ds sent same. (roomy.releases dec ds).1 ∙ same;
  }

  -- The buffer is what was written.
  pub simple_decompress-returns :
      (rounds : ℕ) (junk : FormatHandler) (h : FileHeader) (address : ℕ) (format : FileFormat)
      (file : List ℕ) (s : S) {r : Run (DataStream S)}
      → elzma_decompress_run rt crc D elzma_decompress_alloc input_callback
          (output_callback realloc)
          rounds
          junk
          h
          format
          (data_stream file s)
        ≡ ok r
      → r.error ≡ elzma_e_ok
      → (a : Answer S) × (simple_decompress realloc rt crc D rounds junk h address format file s
          ≡ ok a)
        × (a.rc ≡ elzma_e_ok)
        × (a.out ≡ some r.sent)
  unfolding simple_decompress
  simple_decompress-returns rounds junk h address format file s {r} ran good =
      let same =
        elzma_decompress_run-Holds (λ ds sent. ds.out_data ≡ sent) rt crc D elzma_decompress_alloc
          input_callback (output_callback realloc) decompress-Keeps rounds junk h format
          (data_stream file s) refl ran in
      let a : Answer S = record { rc = r.error; out = some r.world.out_data; streams = r.world } in
      (a, rw (simple_decompress, ran, good) refl, good, ap some same)
