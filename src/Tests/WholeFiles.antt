-- ===== src/Tests/WholeFiles.antt =====
-- Whole files for src/decompress.c, one of them with a footer that two buffers share.
use Prim.Native.Nat.{bit_xor}
use easylzma.Common.{
  ℕ, zero, suc, ◌+◌, ◌≡◌, ◌≢◌, refl, sym, ap, ◌∙◌, List, [], ◌∷◌, ◌++◌, ok, Outcome, arith, length,
  All, length-append, replicate, length-replicate,
}
use easylzma.Format.{zero_header}
use easylzma.Api.{lzip, lzma, elzma_e_ok, elzma_e_crc32_mismatch}
use easylzma.LzipHeader.{magic}
use easylzma.Sdk
use easylzma.Compress.{null_handler}
use easylzma.Decompress.{elzma_decompress_alloc}
use easylzma.Decompress.Run.{Run, elzma_decompress_run}
use easylzma.Decompress.LzipFile.{footer_of, digest, lzip_file_comes_back}
use easylzma.Decompress.CutFooter.{lzip_file_cut_by_buffer}
use easylzma.Decompress.LzmaFile.{IsParsable, lzma_file_comes_back}
use easylzma.Simple.{data_stream, input_callback, output_callback}
use easylzma.Simple.Client.{simple-HasInput, simple-HasMemory}
use easylzma.Tests.Memory.{Streams, realloc, heap, encoder, decoder}
use easylzma.Tests.Toys.{crc, crc-IsRunningCrc}
use easylzma.Tests.RoundTrips.{decoder-StreamDecoder, roomy}

-- A checksum that counts.
abbrev pub count : Sdk.Crc
count = record { update = λ c xs. c + length xs }

count-IsRunningCrc : Sdk.IsRunningCrc count
count-IsRunningCrc = record {
  update-nil = λ c. omega arith;
  update-append = λ c xs ys. omega (arith, length-append xs ys);
}

-- The lzip file of a text.
abbrev pub lzip_of : Sdk.Crc → List ℕ → List ℕ
lzip_of crc text =
    (magic ++ (0 ∷ 20 ∷ [])) ++ ((text ++ (0 ∷ [])) ++ footer_of (digest crc text) (length text))

abbrev pub run_lzip : Sdk.Crc → List ℕ → Outcome (Run Streams)
run_lzip crc text =
    elzma_decompress_run heap crc decoder elzma_decompress_alloc input_callback
      (output_callback realloc) 70_000 null_handler zero_header lzip
      (data_stream (lzip_of crc text) 0)

short_text : All {A = ℕ} (λ b. b ≢ 0) (5 ∷ 6 ∷ [])
short_text = ((λ e. absurd (omega (arith, e))), ((λ e. absurd (omega (arith, e))), tt))

lzip_file_comes_back_example :
    (r : Run Streams) × (run_lzip crc (5 ∷ 6 ∷ []) ≡ ok r)
    × (r.error ≡ elzma_e_ok)
    × (r.sent ≡ 5 ∷ 6 ∷ [])
unfolding simple-HasInput
lzip_file_comes_back_example =
    lzip_file_comes_back heap crc crc-IsRunningCrc decoder decoder-StreamDecoder
      elzma_decompress_alloc input_callback (output_callback realloc) (simple-HasInput realloc)
      (simple-HasMemory realloc heap encoder decoder roomy) 70_000 null_handler zero_header 0 20
      (5 ∷ 6 ∷ 0 ∷ []) (5 ∷ 6 ∷ []) (data_stream (lzip_of crc (5 ∷ 6 ∷ [])) 0) (omega arith)
      (omega arith) (omega arith) (omega arith) (omega arith) (λ s. (refl, short_text))
      (omega arith) (omega arith) refl

long_text : List ℕ
long_text = replicate 65_530 7

All-replicate : (n b : ℕ) → b ≢ 0 → All (λ b. b ≢ 0) (replicate n b)
All-replicate zero b nonzero = tt
All-replicate (suc n) b nonzero = (nonzero, All-replicate n b nonzero)

length-long_text : length long_text ≡ 65_530
unfolding long_text
length-long_text = length-replicate {A = ℕ} 65_530 7

length-body : length (long_text ++ (0 ∷ [])) ≡ 65_531
length-body = omega (arith, length-append long_text (0 ∷ []), length-long_text)

digest-long_text : digest count long_text ≢ 0
digest-long_text e =
    let value = ap (λ n. bit_xor (0xFFFFFFFF + n) 0xFFFFFFFF) length-long_text in
    absurd (omega (arith, sym value ∙ e))

long_text-nonzero : All (λ b. b ≢ 0) long_text
unfolding long_text
long_text-nonzero = All-replicate 65_530 7 (λ e. absurd (omega (arith, e)))

lzip_file_cut_by_buffer_example :
    (r : Run Streams) × (run_lzip count long_text ≡ ok r)
    × (r.error ≡ elzma_e_crc32_mismatch)
    × (r.sent ≡ long_text)
unfolding simple-HasInput
lzip_file_cut_by_buffer_example =
    lzip_file_cut_by_buffer heap count count-IsRunningCrc decoder decoder-StreamDecoder
      elzma_decompress_alloc input_callback (output_callback realloc) (simple-HasInput realloc)
      (simple-HasMemory realloc heap encoder decoder roomy) 70_000 null_handler zero_header 0 20
      (long_text ++ (0 ∷ [])) long_text (data_stream (lzip_of count long_text) 0) (omega arith)
      digest-long_text (omega (arith, length-body)) (λ s. (refl, long_text-nonzero))
      (omega (arith, length-body)) (omega (arith, length-long_text)) refl

-- lc = 3, lp = 1, pb = 2, and a dictionary of 2^20 bytes.
abbrev lzma_dict : List ℕ
lzma_dict = 0 ∷ 0 ∷ 16 ∷ 0 ∷ []

-- The size of the text.
abbrev lzma_size : List ℕ
lzma_size = 2 ∷ 0 ∷ 0 ∷ 0 ∷ 0 ∷ 0 ∷ 0 ∷ 0 ∷ []

abbrev pub lzma_two_bytes : List ℕ
lzma_two_bytes = (102 ∷ (lzma_dict ++ lzma_size)) ++ (5 ∷ 6 ∷ 0 ∷ [])

lzma_two_bytes-IsParsable : IsParsable 102 lzma_dict lzma_size
lzma_two_bytes-IsParsable = record {
  properties = omega arith;
  dict_bytes = refl;
  dict_range = ground arith;
  dict_small = omega arith;
  size_bytes = refl;
  size_range = ground arith;
}

lzma_file_comes_back_example :
    (r : Run Streams) × (elzma_decompress_run heap crc decoder elzma_decompress_alloc input_callback
        (output_callback realloc)
        10
        null_handler
        zero_header
        lzma
        (data_stream lzma_two_bytes 0)
      ≡ ok r)
    × (r.error ≡ elzma_e_ok)
    × (r.sent ≡ 5 ∷ 6 ∷ [])
unfolding simple-HasInput
lzma_file_comes_back_example =
    lzma_file_comes_back heap crc decoder decoder-StreamDecoder elzma_decompress_alloc
      input_callback (output_callback realloc) (simple-HasInput realloc)
      (simple-HasMemory realloc heap encoder decoder roomy) 10 null_handler zero_header 102
      lzma_dict lzma_size (5 ∷ 6 ∷ 0 ∷ []) (5 ∷ 6 ∷ []) (data_stream lzma_two_bytes 0)
      lzma_two_bytes-IsParsable (omega arith) (λ e. refl) (λ s. (refl, short_text)) (omega arith)
      (omega arith) refl
