-- ===== src/Tests/Blocks.antt =====
-- A run of src/decompress.c over a heap that counts its blocks.
use easylzma.Common.{ℕ, ◌+◌, ◌-◌, ◌^◌, ◌≡◌, refl, [], ◌∷◌, none, some, Outcome, ok, length}
use easylzma.Common.Words.{load_le, store_le}
use easylzma.Format.{zero_header}
use easylzma.Api.{ReadCallback, WriteCallback, lzip, elzma_e_ok}
use easylzma.Alloc.{Runtime, elzma_alloc, elzma_free}
use easylzma.LzmaHeader.{serialize_lzma_header, serialize_fields}
use easylzma.LzipHeader.{
  parse_lzip_footer, initialize_lzip_format_handler, init_lzip_header, parse_lzip_header,
}
use easylzma.Compress.{null_handler}
use easylzma.Sdk.{Decoder}
use easylzma.Decompress.{DecompressHandle, deliver, inner_loop}
use easylzma.Decompress.Run.{
  Run, select_handler, verdict, read_footer, after_buffer, outer_loop, decoder_props, finish,
  decode_stream, read_header, elzma_decompress_run,
}
use easylzma.Decompress.Balance.{Counts, elzma_decompress_run-keeps_live}
use easylzma.Tests.Toys.{Input, reader, crc, decode}

record World : Type 0 where
  input : Input
  blocks : ℕ

abbrev heap : Runtime World
heap = record {
  malloc = λ size s. (some 4096, record s { blocks = s.blocks + 1 });
  free = λ address s. record s { blocks = s.blocks - 1 };
}

abbrev reads : ReadCallback World
reads size s =
    let r = reader size s.input in
    record { status = r.status; bytes = r.bytes; state = record s { input = r.state } }

abbrev writes : WriteCallback World
writes bytes s = (length bytes, s)

-- The state is the number of blocks that it holds.
abbrev holder : Decoder World
holder = record {
  DecState = ℕ;
  blank = 0;
  init = λ d. d;
  allocate = λ alloc d props s. (0, 2, record s { blocks = s.blocks + 2 });
  decode_to_buf = λ d cap src.
      let r = decode src in
      record {
        status = r.status;
        output = r.output;
        consumed = r.consumed;
        stat = r.stat;
        dec = d;
      };
  free = λ alloc d s. record s { blocks = s.blocks - d };
}

abbrev handle : DecompressHandle World
handle = record {
  inbuf = [];
  alloc_struct = record {
    client_malloc_func = none;
    client_malloc_context = 0;
    client_free_func = none;
    client_free_context = 0;
  };
}

counts : Counts heap holder handle.alloc_struct reads writes
unfolding elzma_alloc elzma_free
counts = record {
  live = λ s. s.blocks;
  held = λ d. d;
  malloc = λ size address s got. refl;
  free = λ address s. refl;
  allocate = λ dec props s. refl;
  decode = λ dec cap src. refl;
  release = λ dec s. refl;
  read = λ size s. refl;
  write = λ bytes s. refl;
}

abbrev start : World
start = record {
  input =
      (b'L' ∷ b'Z' ∷ b'I' ∷ b'P' ∷ 0 ∷ 16 ∷ [])
      ∷ (5 ∷ 6 ∷ 0 ∷ 0xf5 ∷ 0xff ∷ 0xff ∷ 0xff ∷ 2 ∷ 0 ∷ 0 ∷ 0 ∷ 0 ∷ 0 ∷ 0 ∷ 0 ∷ [])
      ∷ [];
  blocks = 7;
}

abbrev end : Run World
end = record {
  error = elzma_e_ok;
  world = record { input = []; blocks = 7 };
  inbuf = 5 ∷ 6 ∷ 0 ∷ 0xf5 ∷ 0xff ∷ 0xff ∷ 0xff ∷ 2 ∷ 0 ∷ 0 ∷ 0 ∷ 0 ∷ 0 ∷ 0 ∷ 0 ∷ [];
  header = record {
    pb = 2;
    lp = 0;
    lc = 3;
    is_streamed = 1;
    uncompressed_size = 0;
    dict_size = 2 ^ 16;
  };
  footer = record { crc32 = 0xffff_fff5; uncompressed_size = 2 };
  sent = 5 ∷ 6 ∷ [];
}

run : Outcome (Run World)
unfolding elzma_decompress_run read_header decode_stream outer_loop inner_loop deliver after_buffer
    read_footer verdict finish decoder_props select_handler initialize_lzip_format_handler
    init_lzip_header parse_lzip_header parse_lzip_footer load_le store_le serialize_lzma_header
    serialize_fields elzma_alloc elzma_free
run = elzma_decompress_run heap crc holder handle reads writes 5 null_handler zero_header lzip start

run-ok : run ≡ ok end
unfolding run
run-ok = refl

elzma_decompress_run-keeps_live_example : end.world.blocks ≡ start.blocks
unfolding run counts
elzma_decompress_run-keeps_live_example =
    elzma_decompress_run-keeps_live heap crc holder handle reads writes counts 5 null_handler
      zero_header lzip start {r = end} run-ok
