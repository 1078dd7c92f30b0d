-- ===== src/Api.antt =====
-- src/easylzma/common.h: result codes, formats, and the client's callbacks. All that lies outside
-- the library (files, the client's data, the heap) is one state of an unknown type `S`, which a
-- callback takes and returns; the context pointer of a callback is part of the function.
pub mod Clients
use easylzma.Common.{ℕ, List, Option}

pub data FileFormat : Type 0 where
  lzip lzma : FileFormat
  -- Any other number that a caller passes for the enumeration.
  other : ℕ → FileFormat

abbrev pub elzma_e_ok : ℕ
elzma_e_ok = 0

abbrev pub elzma_e_bad_params : ℕ
elzma_e_bad_params = 10

-- No function of the library returns it.
abbrev pub elzma_e_encoding_properties_error : ℕ
elzma_e_encoding_properties_error = 11

abbrev pub elzma_e_compress_error : ℕ
elzma_e_compress_error = 12

abbrev pub elzma_e_unsupported_format : ℕ
elzma_e_unsupported_format = 13

abbrev pub elzma_e_input_error : ℕ
elzma_e_input_error = 14

abbrev pub elzma_e_output_error : ℕ
elzma_e_output_error = 15

abbrev pub elzma_e_corrupt_header : ℕ
elzma_e_corrupt_header = 16

abbrev pub elzma_e_decompress_error : ℕ
elzma_e_decompress_error = 17

abbrev pub elzma_e_insufficient_input : ℕ
elzma_e_insufficient_input = 18

abbrev pub elzma_e_crc32_mismatch : ℕ
elzma_e_crc32_mismatch = 19

abbrev pub elzma_e_size_mismatch : ℕ
elzma_e_size_mismatch = 20

-- What a read callback leaves: its result, the bytes that it put into the buffer (`*size` is their
-- number) and the state.
pub record ReadResult (S : Type 0) : Type 0 where
  pub status : ℕ
  pub bytes : List ℕ
  pub state : S

-- Given the size of the buffer.
abbrev pub ReadCallback : Type 0 → Type 0
ReadCallback S = ℕ → S → ReadResult S

-- Given the bytes of the buffer; the result is the number of bytes that were consumed.
abbrev pub WriteCallback : Type 0 → Type 0
WriteCallback S = List ℕ → S → ℕ × S

-- Given the amounts `complete` and `total`.
abbrev pub ProgressCallback : Type 0 → Type 0
ProgressCallback S = ℕ → ℕ → S → S

-- `malloc` and `free` with their context, as addresses; `none` is the null pointer.
abbrev pub MallocCallback : Type 0 → Type 0
MallocCallback S = ℕ → ℕ → S → Option ℕ × S

abbrev pub FreeCallback : Type 0 → Type 0
FreeCallback S = ℕ → Option ℕ → S → S
