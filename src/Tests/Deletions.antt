-- ===== src/Tests/Deletions.antt =====
-- Runs of the tool on a file of two bytes, and what it deletes.
use easylzma.Common.{◌≡◌, refl, List, [], ◌∷◌, ◌++◌, some, ok, take, length, ◌-◌}
use easylzma.Common.Strings.{Str, codes}
use easylzma.Common.Words.{store_le, shift_loop, load_le}
use easylzma.Format.{zero_header}
use easylzma.Api.{lzip, lzma}
use easylzma.Alloc.{elzma_alloc, elzma_free, init_alloc_struct}
use easylzma.Sdk.{Encoder, Decoder}
use easylzma.LzmaHeader.{
  init_lzma_header, initialize_lzma_format_handler, parse_lzma_header, lzmadec_header_properties,
  lzmadec_header_dictionary, lzmadec_header_uncompressed,
}
use easylzma.LzipHeader.{
  put_bytes, put_width, initialize_lzip_format_handler, init_lzip_header, serialize_lzip_header,
  serialize_lzip_footer,
}
use easylzma.DictSize.{elzma_get_dict_size}
use easylzma.Compress.{
  null_handler, switch_handler, elzma_compress_alloc, elzma_compress_config, elzma_compress_free,
}
use easylzma.Compress.Streams
use easylzma.Compress.Run.{
  put_block, put_footer, encode_file, encode_body, with_encoder, elzma_compress_run,
}
use easylzma.Decompress.{elzma_decompress_alloc, elzma_decompress_free, inner_loop, deliver}
use easylzma.Decompress.Run.{
  select_handler, verdict, read_footer, after_buffer, outer_loop, decoder_props, finish,
  decode_stream, read_header, elzma_decompress_run,
}
use easylzma.Elzma.Args.{CompressArgs}
use easylzma.Elzma.Names.{compress_name, decompress_name}
use easylzma.Elzma.Files
use easylzma.Elzma.Compressing.{
  default_args, input_size, run_compression, clean_up, compress_sized, compress_named,
  compress_file,
}
use easylzma.Elzma.Compressing.Quiet
use easylzma.Elzma.Compressing.Deletes as Packing
use easylzma.Elzma.Decompressing.{no_args, decompress_opened, decompress_file}
use easylzma.Elzma.Decompressing.Deletes as Unpacking
use easylzma.Elzma.Journal.{Deletes}
use easylzma.Tests.Toys.{crc, decode}
use easylzma.Tests.Machine.{Machine, posix, machine, runtime, journal}

-- Reads once, and writes what it read with an end mark.
abbrev encoder : Encoder (Files.Tool Machine)
encoder = record {
  Enc = Unit;
  create = λ alloc s. (some tt, s);
  set_props = λ enc props. (0, enc);
  encode = λ enc.
      easylzma.Sdk.read 100
        (λ rv bytes. easylzma.Sdk.write (bytes ++ (0 ∷ [])) (λ wt. easylzma.Sdk.finish 0));
  destroy = λ alloc enc s. s;
}

abbrev two_bytes : Files.Tool Machine
two_bytes = machine ((5 ∷ 6 ∷ []) ∷ [])

abbrev to_lzip : CompressArgs
to_lzip = record default_args { format = lzip }

after : Files.Tool Machine
after = record {
  world = record {
    input = [];
    shown = [];
    stored =
        b'L' ∷ b'Z' ∷ b'I' ∷ b'P' ∷ 0 ∷ 13 ∷ 5 ∷ 6 ∷ 0 ∷ 0xf5 ∷ 0xff ∷ 0xff ∷ 0xff ∷ 2 ∷ 0 ∷ 0 ∷ 0
        ∷ 0 ∷ 0 ∷ 0 ∷ 0 ∷ [];
    unlinked = codes "f" ∷ [];
  };
  dots = 0;
}

compress-two_bytes :
    compress_file posix runtime crc encoder zero_header to_lzip (codes "f") two_bytes
    ≡ ok (0, after)
unfolding after compress_file compress_named compress_sized run_compression clean_up input_size
    Files.open_files Files.delete_file Files.elzma_read_func Files.elzma_write_func compress_name
    elzma_get_dict_size elzma_compress_alloc elzma_compress_config elzma_compress_free
    switch_handler init_alloc_struct initialize_lzma_format_handler initialize_lzip_format_handler
    elzma_compress_run with_encoder encode_file encode_body put_block put_footer Streams.run_script
    Streams.elzma_read_func Streams.elzma_write_func Streams.elzma_progress init_lzip_header
    serialize_lzip_header serialize_lzip_footer put_width put_bytes store_le shift_loop elzma_alloc
    elzma_free
compress-two_bytes = refl

encoder-DeletesNothing : Quiet.DeletesNothing posix runtime crc encoder zero_header journal
encoder-DeletesNothing = record { create = λ t. refl; destroy = λ enc t. refl }

compress_file-Deletes_example :
    (deleted : List Str) × (codes "f" ∷ [] ≡ [] ++ deleted)
    × Deletes 0 (codes "f") (codes "f" ++ codes ".lz") 0 deleted
unfolding after
compress_file-Deletes_example =
    Packing.compress_file-Deletes posix runtime crc encoder zero_header journal
      encoder-DeletesNothing to_lzip (codes "f") two_bytes {status = 0} {t' = after}
      compress-two_bytes

-- The end mark is not looked for: a decoder that gives what it takes.
abbrev decoder : Decoder (Files.Tool Machine)
decoder = record {
  DecState = Unit;
  blank = tt;
  init = λ d. d;
  allocate = λ alloc d props s. (0, d, s);
  decode_to_buf = λ d cap src. decode src;
  free = λ alloc d s. s;
}

abbrev packed : Files.Tool Machine
packed = machine ((93 ∷ 0 ∷ 0 ∷ 1 ∷ 0 ∷ 2 ∷ 0 ∷ 0 ∷ 0 ∷ 0 ∷ 0 ∷ 0 ∷ 0 ∷ []) ∷ (5 ∷ 6 ∷ 0 ∷ []) ∷ [])

unpacked : Files.Tool Machine
unpacked = record {
  world = record { input = []; shown = []; stored = 5 ∷ 6 ∷ []; unlinked = codes "f.lzma" ∷ [] };
  dots = 0;
}

decompress-packed :
    decompress_file posix runtime crc decoder 9 null_handler zero_header 4096 no_args
      (codes "f.lzma")
      lzma
      (codes ".lzma")
      packed
    ≡ ok (0, unpacked)
unfolding unpacked decompress_file decompress_opened Files.open_files Files.delete_file
    Files.elzma_read_func Files.elzma_write_func decompress_name elzma_decompress_alloc
    elzma_decompress_free init_alloc_struct initialize_lzma_format_handler elzma_alloc elzma_free
    elzma_decompress_run select_handler read_header decoder_props decode_stream outer_loop
    after_buffer finish verdict read_footer inner_loop deliver parse_lzma_header load_le
    init_lzma_header lzmadec_header_properties lzmadec_header_dictionary lzmadec_header_uncompressed
decompress-packed = refl

decoder-DeletesNothing :
    Unpacking.DeletesNothing posix runtime crc decoder 9 null_handler zero_header 4096 journal
decoder-DeletesNothing = record { allocate = λ dec props t. refl; free = λ dec t. refl }

decompress_file-Deletes_example :
    (deleted : List Str) × (codes "f.lzma" ∷ [] ≡ [] ++ deleted)
    × Deletes 0
        (codes "f.lzma")
        (take (length (codes "f.lzma") - length (codes ".lzma")) (codes "f.lzma"))
        0
        deleted
unfolding unpacked
decompress_file-Deletes_example =
    Unpacking.decompress_file-Deletes posix runtime crc decoder 9 null_handler zero_header 4096
      journal decoder-DeletesNothing no_args (codes "f.lzma") lzma (codes ".lzma") packed
      {status = 0} {t' = unpacked} decompress-packed
