-- ===== src/Tests/Verdicts.antt =====
-- A run of the test program of test/easylzma_test.c.
use easylzma.Common.{ℕ, ◌+◌, ◌≡◌, ◌↔◌, refl, List, Outcome, ok}
use easylzma.Common.Strings.{Str}
use easylzma.Common.Words.{store_le, shift_loop, load_le}
use easylzma.Format.{zero_header}
use easylzma.Alloc.{elzma_alloc, elzma_free, init_alloc_struct}
use easylzma.Compress.{
  null_handler, elzma_compress_alloc, elzma_compress_config, elzma_compress_free, switch_handler,
}
use easylzma.Compress.Streams.{run_script, elzma_read_func, elzma_write_func, elzma_progress}
use easylzma.Compress.Run.{
  put_block, put_footer, encode_file, encode_body, with_encoder, elzma_compress_run,
}
use easylzma.Decompress.{elzma_decompress_alloc, elzma_decompress_free, inner_loop, deliver}
use easylzma.Decompress.Run.{
  select_handler, verdict, read_footer, after_buffer, outer_loop, decoder_props, finish,
  decode_stream, read_header, elzma_decompress_run,
}
use easylzma.LzmaHeader.{
  init_lzma_header, serialize_lzma_header, serialize_fields, store_size, memset_zero,
  parse_lzma_header, lzmadec_header_properties, lzmadec_header_dictionary,
  lzmadec_header_uncompressed, uncompressed_loop, initialize_lzma_format_handler,
}
use easylzma.LzipHeader.{
  init_lzip_header, serialize_lzip_header, serialize_lzip_footer, put_width, put_bytes,
  parse_lzip_header, parse_lzip_footer, strncmp_eq, byte_at, initialize_lzip_format_handler,
}
use easylzma.Elzma.Files.{Arg}
use easylzma.Simple.{simple_compress, simple_decompress, free_out, input_callback, output_callback}
use easylzma.EasylzmaTest.{main, round_trip, round_trip_test, run_tests, run_test}
use easylzma.EasylzmaTest.Verdict.{AllPass, main_iff}
use easylzma.Tests.Toys.{crc}
use easylzma.Tests.Memory.{encoder, decoder, heap, realloc}

abbrev print : Str → List Arg → ℕ → ℕ
print text args s = s + 1

run : Outcome (ℕ × ℕ)
unfolding main round_trip round_trip_test run_tests run_test simple_compress simple_decompress
    input_callback output_callback free_out elzma_compress_alloc elzma_compress_config
    elzma_compress_free switch_handler init_alloc_struct initialize_lzma_format_handler
    initialize_lzip_format_handler elzma_compress_run with_encoder encode_file encode_body put_block
    put_footer run_script elzma_read_func elzma_write_func elzma_progress init_lzma_header
    serialize_lzma_header serialize_fields store_size memset_zero init_lzip_header
    serialize_lzip_header serialize_lzip_footer put_width put_bytes store_le shift_loop elzma_alloc
    elzma_free elzma_decompress_alloc elzma_decompress_free elzma_decompress_run select_handler
    read_header decoder_props decode_stream outer_loop after_buffer finish verdict read_footer
    inner_loop deliver parse_lzma_header load_le lzmadec_header_properties lzmadec_header_dictionary
    lzmadec_header_uncompressed uncompressed_loop parse_lzip_header parse_lzip_footer strncmp_eq
    byte_at
run = main print (λ s. s) realloc heap crc encoder decoder 9 null_handler zero_header 4096 0

run-fails : run ≡ ok (1, 29)
unfolding run
run-fails = refl

abbrev status : ℕ
status = 1

main_iff_example :
    (status ≡ 0)
    ↔ AllPass print (λ s. s) realloc heap crc encoder decoder 9 null_handler zero_header 4096 0
unfolding run
main_iff_example =
    main_iff print (λ s. s) realloc heap crc encoder decoder 9 null_handler zero_header 4096 0
      {status = status} {s' = 29} run-fails
