-- ===== src/Compress.antt =====
-- src/compress.c: the compressor's handle and its configuration.
pub mod Streams
pub mod Run
pub mod Tracking
pub mod Success
pub mod LzipParts
pub mod Layout
pub mod LzmaLayout
pub mod Invariant
pub mod Handle
pub mod Interface
pub mod Forward
pub mod Whole
pub mod WholeLzip
pub mod WholeLzma
use easylzma.Common.{ℕ, ◌^◌, Option, none, some, Outcome, ok, fault, null_pointer}
use easylzma.Format.{FormatHandler}
use easylzma.LzmaHeader.{initialize_lzma_format_handler}
use easylzma.LzipHeader.{initialize_lzip_format_handler}
use easylzma.Api.{FileFormat, lzip, lzma, other, MallocCallback, FreeCallback, elzma_e_ok}
use easylzma.Alloc.{AllocStruct, init_alloc_struct}
use easylzma.Sdk.{EncProps, Encoder}

-- struct _elzma_compress_handle
pub record CompressHandle (S Enc : Type 0) : Type 0 where
  pub props : EncProps
  pub enc_hand : Option Enc
  pub uncompressed_size : ℕ
  pub format : FileFormat
  pub alloc_struct : AllocStruct S
  pub format_handler : FormatHandler

-- Every field that `LzmaEncProps_Init` fills is set again.
abbrev pub default_props : EncProps
default_props = record {
  level = 5;
  dict_size = 2 ^ 24;
  lc = 3;
  lp = 0;
  pb = 2;
  algo = 1;
  fb = 32;
  bt_mode = 1;
  num_hash_bytes = 4;
  mc = 32;
  write_end_mark = 1;
  num_threads = 1;
}

-- A table of null pointers, which is what `memset` makes of the handle's.
abbrev pub null_handler : FormatHandler
null_handler = record {
  header_size = 0;
  init_header = λ hdr. hdr;
  parse_header = λ buf hdr. fault null_pointer;
  serialize_header = λ buf hdr. fault null_pointer;
  footer_size = 0;
  serialize_footer = none;
  parse_footer = none;
}

-- The handler that is left by a change of the format.
unfoldable pub switch_handler : FileFormat → FormatHandler → FormatHandler
switch_handler lzip handler = initialize_lzip_format_handler handler
switch_handler lzma handler = handler
switch_handler (other n) handler = handler

module _ {S Enc : Type 0} where
  -- The number 0 of the format after `memset` is that of lzip.
  unfoldable pub elzma_compress_alloc : CompressHandle S Enc
  elzma_compress_alloc = record {
    props = default_props;
    enc_hand = none;
    uncompressed_size = 0;
    format = lzip;
    alloc_struct = init_alloc_struct none 0 none 0;
    format_handler = initialize_lzma_format_handler null_handler;
  }

  unfoldable pub elzma_compress_config :
      CompressHandle S Enc → ℕ → ℕ → ℕ → ℕ → ℕ → FileFormat → ℕ → ℕ × CompressHandle S Enc
  elzma_compress_config hand lc lp pb level dictionary_size format uncompressed_size = (
    elzma_e_ok,
    record hand {
      props = record hand.props {
        lc = lc;
        lp = lp;
        pb = pb;
        level = level;
        dict_size = dictionary_size;
      };
      uncompressed_size = uncompressed_size;
      format = format;
      format_handler = switch_handler format hand.format_handler;
    },
  )

  unfoldable pub elzma_compress_set_allocation_callbacks :
      Option (CompressHandle S Enc)
      → Option (MallocCallback S)
      → ℕ
      → Option (FreeCallback S)
      → ℕ
      → Option (CompressHandle S Enc)
  elzma_compress_set_allocation_callbacks none malloc_func malloc_context free_func free_context =
      none
  elzma_compress_set_allocation_callbacks (some hand) malloc_func malloc_context free_func
        free_context =
      some (record hand {
        alloc_struct = init_alloc_struct malloc_func malloc_context free_func free_context;
      })

-- The argument is what the pointer to the handle points to, or `none` for a null pointer; the
-- assignment behind the test follows it in any case. The handle's own memory is not freed.
unfoldable pub elzma_compress_free :
    {S : Type 0} (E : Encoder S)
    → Option (Option (CompressHandle S E.Enc))
    → S
    → Outcome (Option (CompressHandle S E.Enc) × S)
elzma_compress_free E none s = fault null_pointer
elzma_compress_free E (some none) s = ok (none, s)
elzma_compress_free E (some (some hand)) s = elim hand.enc_hand [
  | none ↦ ok (none, s)
  | some enc ↦ ok (none, E.destroy hand.alloc_struct enc s)
]
