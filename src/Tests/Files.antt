-- ===== src/Tests/Files.antt =====
-- Whole runs of src/compress.c and src/decompress.c.
use easylzma.Common.{ℕ, ◌%◌, ◌^◌, ◌≡◌, refl, [], ◌∷◌, none, Outcome, ok, ◌>>=◌}
use easylzma.Format.{zero_header}
use easylzma.Api.{FileFormat, lzip, lzma, elzma_e_ok}
use easylzma.Alloc.{elzma_alloc, elzma_free}
use easylzma.LzmaHeader.{
  initialize_lzma_format_handler, parse_lzma_header, serialize_lzma_header,
  lzmadec_header_properties, lzmadec_header_dictionary, lzmadec_header_uncompressed,
  init_lzma_header, serialize_fields,
}
use easylzma.LzipHeader.{
  initialize_lzip_format_handler, parse_lzip_header, parse_lzip_footer, init_lzip_header,
}
use easylzma.Common.Words.{load_le, store_le}
use easylzma.Compress.{null_handler}
use easylzma.Decompress.{DecompressHandle, deliver, inner_loop}
use easylzma.Decompress.Run.{
  Run, select_handler, verdict, read_footer, after_buffer, outer_loop, decoder_props, finish,
  decode_stream, read_header, elzma_decompress_run,
}
use easylzma.Decompress.Refused.{elzma_decompress_run-refused}
use easylzma.Decompress.FooterFrom.{FooterFrom}
use easylzma.Decompress.Integrity.{lzma_integrity}
use easylzma.Tests.Toys.{Input, reader, writer, runtime, crc, decoder}

abbrev handle : DecompressHandle Input
handle = record {
  inbuf = [];
  alloc_struct = record {
    client_malloc_func = none;
    client_malloc_context = 0;
    client_free_func = none;
    client_free_context = 0;
  };
}

decompress : FileFormat → Input → Outcome (Run Input)
unfolding elzma_decompress_run read_header decode_stream outer_loop inner_loop deliver after_buffer
    read_footer verdict finish decoder_props select_handler initialize_lzip_format_handler
    initialize_lzma_format_handler init_lzma_header parse_lzma_header lzmadec_header_properties
    lzmadec_header_dictionary lzmadec_header_uncompressed init_lzip_header parse_lzip_header
    parse_lzip_footer load_le store_le serialize_lzma_header serialize_fields elzma_alloc elzma_free
decompress =
    elzma_decompress_run runtime crc decoder handle reader writer 5 null_handler zero_header

abbrev lzip_file : Input
lzip_file =
    (b'L' ∷ b'Z' ∷ b'I' ∷ b'P' ∷ 0 ∷ 16 ∷ [])
    ∷ (5 ∷ 6 ∷ 0 ∷ 0xf5 ∷ 0xff ∷ 0xff ∷ 0xff ∷ 2 ∷ 0 ∷ 0 ∷ 0 ∷ 0 ∷ 0 ∷ 0 ∷ 0 ∷ [])
    ∷ []

abbrev lzip_result : Run Input
lzip_result = record {
  error = elzma_e_ok;
  world = [];
  inbuf = 5 ∷ 6 ∷ 0 ∷ 0xf5 ∷ 0xff ∷ 0xff ∷ 0xff ∷ 2 ∷ 0 ∷ 0 ∷ 0 ∷ 0 ∷ 0 ∷ 0 ∷ 0 ∷ [];
  header = record {
    pb = 2;
    lp = 0;
    lc = 3;
    is_streamed = 1;
    uncompressed_size = 0;
    dict_size = 2 ^ 16;
  };
  footer = record { crc32 = 0xffff_fff5; uncompressed_size = 2 };
  sent = 5 ∷ 6 ∷ [];
}

abbrev lzma_file : Input
lzma_file = (93 ∷ 0 ∷ 0 ∷ 1 ∷ 0 ∷ 2 ∷ 0 ∷ 0 ∷ 0 ∷ 0 ∷ 0 ∷ 0 ∷ 0 ∷ []) ∷ (5 ∷ []) ∷ (6 ∷ []) ∷ []

abbrev lzma_result : Run Input
lzma_result = record {
  error = elzma_e_ok;
  world = [];
  inbuf = 6 ∷ [];
  header = record {
    pb = 2;
    lp = 0;
    lc = 3;
    is_streamed = 0;
    uncompressed_size = 2;
    dict_size = 2 ^ 16;
  };
  footer = record { crc32 = 0; uncompressed_size = 0 };
  sent = 5 ∷ 6 ∷ [];
}

decompress_lzma : decompress lzma lzma_file ≡ ok lzma_result
unfolding decompress
decompress_lzma = refl

lzma_integrity_example : ◌≡◌ {A = ℕ} 2 (2 % 2 ^ 64)
unfolding decompress
lzma_integrity_example =
    lzma_integrity runtime crc decoder handle reader writer 5 null_handler zero_header lzma_file
      {r = lzma_result} decompress_lzma refl refl

-- The input ends before the decoder does.
decompress_cut : Outcome ℕ
unfolding decompress
decompress_cut =
    decompress lzma ((93 ∷ 0 ∷ 0 ∷ 1 ∷ 0 ∷ 2 ∷ 0 ∷ 0 ∷ 0 ∷ 0 ∷ 0 ∷ 0 ∷ 0 ∷ []) ∷ (5 ∷ []) ∷ [])
    >>= λ r. ok r.error

cut : decompress_cut ≡ ok 18
unfolding decompress_cut
cut = refl

-- An LZMA-Alone file, read as lzip.
abbrev mistaken : Input
mistaken = (93 ∷ 0 ∷ 0 ∷ 1 ∷ 0 ∷ 2 ∷ []) ∷ (5 ∷ []) ∷ []

abbrev refused : Run Input
refused = record {
  error = 16;
  world = (5 ∷ []) ∷ [];
  inbuf = handle.inbuf;
  header = zero_header;
  footer = record { crc32 = 0; uncompressed_size = 0 };
  sent = [];
}

decompress-mistaken : decompress lzip mistaken ≡ ok refused
unfolding decompress
decompress-mistaken = refl

elzma_decompress_run-refused_example : refused.sent ≡ []
unfolding decompress
elzma_decompress_run-refused_example =
    elzma_decompress_run-refused runtime crc decoder handle reader writer 5 null_handler zero_header
      lzip mistaken {r = refused} decompress-mistaken refl
