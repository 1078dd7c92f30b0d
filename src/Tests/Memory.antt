-- ===== src/Tests/Memory.antt =====
-- Runs of test/simple.c and test/easylzma_test.c over a heap that gives one address.
use easylzma.Common.{
  ℕ, ◌+◌, ◌≡◌, ◌≢◌, refl, List, [], ◌∷◌, ◌++◌, Option, some, ok, fault, out_of_fuel, arith, length,
}
use easylzma.Common.Words.{store_le, shift_loop}
use easylzma.Format.{zero_header}
use easylzma.Api.{lzip}
use easylzma.Alloc.{Runtime, elzma_alloc, elzma_free, init_alloc_struct}
use easylzma.Sdk
use easylzma.LzmaHeader
use easylzma.LzipHeader
use easylzma.Compress.{null_handler, switch_handler, elzma_compress_alloc, elzma_compress_config}
use easylzma.Compress.Streams.{run_script, elzma_read_func, elzma_write_func, elzma_progress}
use easylzma.Compress.Run.{
  put_block, put_footer, encode_file, encode_body, with_encoder, elzma_compress_run,
}
use easylzma.Decompress.{elzma_decompress_alloc}
use easylzma.Simple.{
  DataStream, Answer, input_callback, output_callback, simple_compress, simple_decompress,
}
use easylzma.Simple.Streams.{simple-IsFinite}
use easylzma.Simple.Ends.{IsQuietHeap, simple_decompress-ends}
use easylzma.Simple.Written.{LeavesBuffers, FileOf, simple_compress-FileOf}
use easylzma.Tests.Toys.{crc, crc-IsRunningCrc, decode}
use easylzma.Tests.Endings.{decode-drains, decode-fills}

-- The state counts the blocks that were asked for.
abbrev pub Streams : Type 0
Streams = DataStream ℕ

abbrev pub realloc : Option ℕ → ℕ → ℕ → ℕ × ℕ
realloc block size s = (4096, s + 1)

abbrev pub heap : Runtime Streams
heap = record { malloc = λ size ds. (some 8192, ds); free = λ address ds. ds }

abbrev pub encoder : Sdk.Encoder Streams
encoder = record {
  Enc = Unit;
  create = λ alloc s. (some tt, s);
  set_props = λ enc props. (0, enc);
  encode = λ enc.
      Sdk.Script.read 100
        (λ rv bytes. Sdk.Script.write (bytes ++ (0 ∷ [])) (λ wt. Sdk.Script.finish 0));
  destroy = λ alloc enc s. s;
}

pub heap-LeavesBuffers : LeavesBuffers realloc heap encoder
heap-LeavesBuffers = record {
  malloc = λ size ds. (refl, refl);
  free = λ address ds. (refl, refl);
  create = λ ds. (refl, refl);
}

packed : Answer ℕ
packed = record {
  rc = 0;
  out = some (
      b'L' ∷ b'Z' ∷ b'I' ∷ b'P' ∷ 0 ∷ 20 ∷ 5 ∷ 6 ∷ 0 ∷ 0xf5 ∷ 0xff ∷ 0xff ∷ 0xff ∷ 2 ∷ 0 ∷ 0 ∷ 0 ∷ 0
      ∷ 0 ∷ 0 ∷ 0 ∷ []);
  streams = record {
    in_data = [];
    out_data =
        b'L' ∷ b'Z' ∷ b'I' ∷ b'P' ∷ 0 ∷ 20 ∷ 5 ∷ 6 ∷ 0 ∷ 0xf5 ∷ 0xff ∷ 0xff ∷ 0xff ∷ 2 ∷ 0 ∷ 0 ∷ 0
        ∷ 0 ∷ 0 ∷ 0 ∷ 0 ∷ [];
    out_block = some 4096;
    world = 3;
  };
}

compress-packed :
    simple_compress realloc heap crc encoder zero_header lzip (5 ∷ 6 ∷ []) 0 ≡ ok packed
unfolding packed simple_compress input_callback output_callback elzma_compress_alloc
    elzma_compress_config switch_handler init_alloc_struct LzmaHeader.initialize_lzma_format_handler
    LzipHeader.initialize_lzip_format_handler elzma_compress_run with_encoder encode_file
    encode_body put_block put_footer run_script elzma_read_func elzma_write_func elzma_progress
    LzipHeader.init_lzip_header LzipHeader.serialize_lzip_header LzipHeader.serialize_lzip_footer
    LzipHeader.put_width LzipHeader.put_bytes store_le shift_loop elzma_alloc elzma_free
compress-packed = refl

simple_compress-FileOf_example :
    (buffer : List ℕ) × (enc : Unit {0}) × (some tt ≡ some enc)
    × (packed.out ≡ some buffer)
    × FileOf realloc heap encoder crc enc 20 (5 ∷ 6 ∷ []) buffer
simple_compress-FileOf_example =
    simple_compress-FileOf realloc heap encoder heap-LeavesBuffers crc crc-IsRunningCrc zero_header
      (5 ∷ 6 ∷ []) 0 {a = packed} compress-packed (unfold packed in refl)

abbrev pub decoder : Sdk.Decoder Streams
decoder = record {
  DecState = Unit;
  blank = tt;
  init = λ d. d;
  allocate = λ alloc d props s. (0, d, s);
  decode_to_buf = λ d cap src. decode src;
  free = λ alloc d s. s;
}

abbrev decoder-Advances : Sdk.Advances decoder
decoder-Advances = record {
  pending = λ d src. length src;
  drains = λ d cap src good. decode-drains src;
  fills =
      λ dec cap src good open_end less. let all = decode-fills src open_end in absurd (omega arith);
}

quiet : IsQuietHeap realloc heap crc decoder decoder-Advances
unfolding simple-IsFinite elzma_alloc elzma_free elzma_decompress_alloc init_alloc_struct
quiet = record {
  alloc = λ size s. omega arith;
  free = λ address s. omega arith;
  allocate = λ dec props s. omega arith;
}

simple_decompress-ends_example :
    simple_decompress realloc heap crc decoder 70_000 null_handler zero_header 4096 lzip
      (b'L' ∷ b'Z' ∷ b'I' ∷ b'P' ∷ 0 ∷ 20 ∷ 5 ∷ 6 ∷ 0 ∷ [])
      0
    ≢ fault out_of_fuel
simple_decompress-ends_example =
    simple_decompress-ends realloc heap crc decoder decoder-Advances quiet 70_000
      (λ dec src fits. omega arith) null_handler zero_header 4096 lzip
      (b'L' ∷ b'Z' ∷ b'I' ∷ b'P' ∷ 0 ∷ 20 ∷ 5 ∷ 6 ∷ 0 ∷ []) 0 (omega arith)
