-- ===== src/Tests/Compression.antt =====
-- Whole runs of src/compress.c.
use easylzma.Common.{◌≡◌, ◌⊎◌, ◌>>=◌, ap, refl, [], ◌∷◌, none, some, Outcome, ok, arith}
use easylzma.Common.Words.{store_le, shift_loop}
use easylzma.Format.{zero_header}
use easylzma.Api.{lzip, lzma, elzma_e_ok}
use easylzma.Alloc.{elzma_alloc, elzma_free, init_alloc_struct}
use easylzma.LzmaHeader.{
  init_lzma_header, serialize_lzma_header, serialize_fields, store_size, memset_zero,
  initialize_lzma_format_handler,
}
use easylzma.LzipHeader.{
  put_bytes, put_width, initialize_lzip_format_handler, init_lzip_header, serialize_lzip_header,
  serialize_lzip_footer,
}
use easylzma.Compress.{
  null_handler, CompressHandle, switch_handler, elzma_compress_alloc, elzma_compress_config,
}
use easylzma.Compress.Streams.{Flow, elzma_read_func, elzma_write_func, elzma_progress, run_script}
use easylzma.Compress.Run.{
  Returned, put_block, put_footer, encode_body, encode_file, with_encoder, elzma_compress_run,
}
use easylzma.Compress.Interface.{compress_api, compress_api-frees_encoder}
use easylzma.Compress.LzmaLayout.{LzmaFile, lzma_layout}
use easylzma.Compress.Layout.{LzipFile, lzip_layout, lzip_layout_sticks}
use easylzma.Tests.Toys.{Input, reader, writer, runtime, crc, crc-IsRunningCrc, encoder}

abbrev Handle : Type 0
Handle = CompressHandle Input encoder.Enc

start : Handle
unfolding elzma_compress_alloc init_alloc_struct initialize_lzma_format_handler
start = elzma_compress_alloc

once : Handle
unfolding start elzma_compress_config switch_handler initialize_lzip_format_handler
once = (elzma_compress_config start 3 0 2 5 0x1_2345 lzip 2).1

-- Configured for lzip, and then for lzma.
again : Handle
unfolding start elzma_compress_config switch_handler initialize_lzip_format_handler
again =
    (elzma_compress_config (elzma_compress_config start 3 0 2 5 0x8000 lzip 9).1 3 0 2 5 0x1_2345
      lzma 2).1

compress : Handle → Outcome (Returned encoder)
unfolding elzma_compress_run with_encoder init_lzma_header serialize_lzma_header serialize_fields
    store_size memset_zero initialize_lzma_format_handler encode_file encode_body put_block
    put_footer run_script elzma_read_func elzma_write_func elzma_progress init_lzip_header
    serialize_lzip_header serialize_lzip_footer put_width put_bytes store_le shift_loop elzma_alloc
    elzma_free
compress hand =
    elzma_compress_run crc runtime encoder writer none zero_header (some hand) (some reader)
      ((5 ∷ 6 ∷ []) ∷ [])

-- The six bytes of the header, the encoder's three, and the twelve of the footer.
written : Flow Input
written = record {
  world = [];
  crc32 = 10;
  taken = 5 ∷ 6 ∷ [];
  sent =
      b'L' ∷ b'Z' ∷ b'I' ∷ b'P' ∷ 0 ∷ 16 ∷ 5 ∷ 6 ∷ 0 ∷ 0xf5 ∷ 0xff ∷ 0xff ∷ 0xff ∷ 2 ∷ 0 ∷ 0 ∷ 0 ∷ 0
      ∷ 0 ∷ 0 ∷ 0 ∷ [];
}

compress-once : compress once ≡ ok (elzma_e_ok, some (record once { enc_hand = some tt }), written)
unfolding compress once written
compress-once = refl

compress-again :
    compress again ≡ ok (elzma_e_ok, some (record again { enc_hand = some tt }), written)
unfolding compress again written
compress-again = refl

lzip_layout_example :
    (enc : Unit {0}) × (some tt ≡ some enc)
    × LzipFile crc crc-IsRunningCrc runtime encoder reader writer none enc 0x1_2345 2 written
unfolding compress once
lzip_layout_example =
    lzip_layout crc crc-IsRunningCrc runtime encoder reader writer none start 3 0 2 5 0x1_2345 2
      zero_header ((5 ∷ 6 ∷ []) ∷ []) {hand = some (record once { enc_hand = some tt })}
      {flow = written} (ground arith) (ground arith) compress-once

lzip_layout_sticks_example :
    (enc : Unit {0}) × (some tt ≡ some enc)
    × LzipFile crc crc-IsRunningCrc runtime encoder reader writer none enc 0x1_2345 2 written
unfolding compress again
lzip_layout_sticks_example =
    lzip_layout_sticks crc crc-IsRunningCrc runtime encoder reader writer none start 3 0 2 5 0x8000
      9 3 0 2 5 0x1_2345 2 zero_header ((5 ∷ 6 ∷ []) ∷ [])
      {hand = some (record again { enc_hand = some tt })} {flow = written} (ground arith)
      (ground arith) compress-again

lone : Handle
unfolding start elzma_compress_config switch_handler
lone = (elzma_compress_config start 3 0 2 5 0x1_0000 lzma 0).1

-- The thirteen bytes of the header, with no size, and the encoder's three.
written_alone : Flow Input
written_alone = record {
  world = [];
  crc32 = 0xffff_ffff;
  taken = 5 ∷ 6 ∷ [];
  sent = 93 ∷ 0 ∷ 0 ∷ 1 ∷ 0 ∷ 255 ∷ 255 ∷ 255 ∷ 255 ∷ 255 ∷ 255 ∷ 255 ∷ 255 ∷ 5 ∷ 6 ∷ 0 ∷ [];
}

compress-lone :
    compress lone ≡ ok (elzma_e_ok, some (record lone { enc_hand = some tt }), written_alone)
unfolding compress lone written_alone
compress-lone = refl

lzma_layout_example :
    (enc : Unit {0}) × (some tt ≡ some enc)
    × LzmaFile crc runtime encoder reader writer none enc
        (record {
          pb = 2;
          lp = 0;
          lc = 3;
          is_streamed = 1;
          uncompressed_size = 0;
          dict_size = 0x1_0000;
        })
        written_alone
unfolding compress lone
lzma_layout_example =
    lzma_layout crc runtime encoder reader writer none null_handler start 3 0 2 5 0x1_0000 0
      zero_header ((5 ∷ 6 ∷ []) ∷ []) {hand = some (record lone { enc_hand = some tt })}
      {flow = written_alone} compress-lone

-- The run through the interface of compress.h.
compress_api-once :
    (compress_api crc runtime encoder zero_header).elzma_compress_run
      (some once)
      (some reader)
      writer
      none
      ((5 ∷ 6 ∷ []) ∷ [])
    ≡ ok (elzma_e_ok, some (record once { enc_hand = some tt }), [], written.sent)
unfolding compress written
compress_api-once = ap (λ m. m >>= λ r. ok (r.0, r.1, r.2.world, r.2.sent)) compress-once

compress_api-frees_encoder_example :
    let left : Handle = record once { enc_hand = some tt } in
    let freed =
      (compress_api crc runtime encoder zero_header).elzma_compress_free (some (some left)) [] in
    ((encoder.create once.alloc_struct ((5 ∷ 6 ∷ []) ∷ [])).0 ≡ none) × (freed ≡ ok (none, []))
    ⊎ ((enc : Unit {0}) × (some tt ≡ some enc) × (freed ≡ ok (none, [])))
compress_api-frees_encoder_example =
    compress_api-frees_encoder crc runtime encoder zero_header once reader writer none
      ((5 ∷ 6 ∷ []) ∷ []) {hand' = some (record once { enc_hand = some tt })} {s' = []}
      compress_api-once
