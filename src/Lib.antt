-- ===== src/Lib.antt =====
-- A model of easylzma: an interface to the LZMA SDK that reads and writes two container formats,
-- LZMA-Alone and lzip, through callbacks of the client.
--
-- The parts, and the files that model them:
-- - Format.antt: the structs of src/common_internal.h, elzma_file_header, elzma_file_footer and the
--   function table elzma_format_handler, by which both runs reach a format.
-- - LzmaHeader.antt (src/lzma_header.c): parseLzmaHeader is `parse_lzma_header`, serializeLzmaHeader
--   is `serialize_lzma_header`, initializeLZMAFormatHandler is `initialize_lzma_format_handler`.
-- - LzipHeader.antt (src/lzip_header.c): header and footer likewise; `put_width` is the search for the
--   highest bit of the dictionary size.
-- - Alloc.antt (src/common_internal.c): elzmaAlloc, elzmaFree and init_alloc_struct.
-- - Api.antt (src/easylzma/common.h): result codes, formats and the types of the callbacks.
-- - Decompress.antt and Decompress/Run.antt (src/decompress.c): elzma_decompress_run. Its inner loop
--   over one buffer is `inner_loop` with `deliver` for a decoded block, its outer loop is `outer_loop`
--   with `after_buffer`, the checks at its end are `verdict`.
-- - Compress.antt (src/compress.c): the handle and elzma_compress_config; Compress/Streams.antt: the
--   hooks elzmaReadFunc, elzmaWriteFunc and elzmaProgress; Compress/Run.antt: elzma_compress_run, whose
--   header and footer are both written by `put_block`.
-- - Compress/Interface.antt (src/easylzma/compress.h) and Decompress/Interface.antt
--   (src/easylzma/decompress.h): the declared functions as records of operations, and the two
--   records that src/compress.c and src/decompress.c fill.
-- - DictSize.antt (src/compress.c): elzma_get_dict_size.
-- - Sdk.antt: what the code calls of the SDK (src/pavlov/), as interfaces. A checksum, a decoder and an
--   encoder are parameters of the runs; the laws that a theorem needs of them are records there, those
--   that it needs of the client and its heap stand beside the theorem.
-- - Sdk/Coding.antt: when the SDK's decoder goes through a coded body that it gets in pieces, and when
--   its encoder makes a body of an input; `Transcript` says which bytes an encoder read and wrote.
--   Api/Clients.antt: a client that reads from a list of bytes. Alloc/Heap.antt: a heap that does not
--   run out.
-- - Decompress/InnerRounds.antt, OneBuffer.antt, LastBuffer.antt, LaidOut.antt, Whole.antt and
--   Complete.antt follow a coded body through the buffers of elzma_decompress_run,
--   Decompress/LzipFile.antt, CutFooter.antt and LzmaFile.antt a whole file.
--   Compress/Forward.antt, Whole.antt, WholeLzip.antt and WholeLzma.antt follow elzma_compress_run.
-- - Decompress/FooterFrom.antt says where the footer of an lzip stream is read.
-- - Compress/Invariant.antt and Decompress/Invariant.antt: relations between the state and the
--   bytes that went through, carried through a run.
-- - Elzma.antt and below (elzma/elzma.c, elzma/util.c), the command-line tool: Elzma/Args.antt the two
--   option parsers, Elzma/Names.antt the names of the output files, Elzma/Files.antt the C library's
--   files and console as the record `Posix`, with the callbacks on files, Elzma/Progress.antt the
--   progress bar, Elzma/Compressing.antt doCompress, Elzma/Decompressing.antt doDecompress,
--   Elzma/Mode.antt main.
-- - Simple.antt (test/simple.c): a client that compresses and decompresses from memory to memory;
--   Simple/RoundTrip.antt and LzmaRoundTrip.antt put the two behind each other.
-- - EasylzmaTest.antt (test/easylzma_test.c): the test program, its table of tests and its count.
-- - Common.antt and below: outcomes, Boolean tests, lists, machine words. Tests.antt and below: a small
--   client and a small codec, whole runs on them, and each theorem at a concrete input.
--
-- A function of the code is a function of the model that takes and returns what the code changes. All
-- that lies outside the library (the client's data, the heap) is one state `S` that callbacks take
-- and return. Undefined behaviour and failed assertions are the outcomes `fault`, which no result code
-- is mixed with. Words wrap where the C types do. `sent` and `taken` are no variables of the code: they
-- record the bytes that were handed to the write callback and those that were read.
--
-- The loops of elzma_decompress_run depend on the decoder and the client, so the model bounds their
-- rounds by a number; to run out of it is the fault `out_of_fuel`, which is no result of the code. It
-- is enough that the number is above what the decoder may produce from one buffer and above what the
-- client has left of its input (Decompress/Returns.antt); on a whole file, above the lengths of the
-- body and of the text (Decompress/Whole.antt).
-- The count of `shift_loop` is no such bound: it is the number of shifts that C defines on the word.
-- An encoder is a tree of calls (`Script`), whose run is a recursion on the tree.
--
-- In the tool and in test/simple.c, `malloc` of a handle and `realloc` succeed, as the code takes for
-- granted; a null pointer for the name of the output file is a fault. An unsigned long has 64 bits. The
-- progress bar's quotient of doubles is the quotient of the numbers, which is right for sizes below 2^32.
-- A block of the C runtime may be larger than asked for: `usable` says by how much.
--
-- Not modelled: the SDK itself (src/pavlov/), another project's code. The CRC table's generation is part
-- of the parameter for the checksum.
pub mod Common
pub mod Format
pub mod LzmaHeader
pub mod LzipHeader
pub mod DictSize
pub mod Api
pub mod Alloc
pub mod Sdk
pub mod Decompress
pub mod Compress
pub mod Elzma
pub mod Simple
pub mod EasylzmaTest
pub mod Tests
