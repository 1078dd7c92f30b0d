-- ===== src/Format.antt =====
-- src/common_internal.h: the file header and footer that the formats share, and the table of
-- functions by which compression and decompression reach a format.
use easylzma.Common.{ℕ, List, Option, Outcome}

-- struct elzma_file_header. Each field holds the number that the C field does.
pub record FileHeader : Type 0 where
  pub pb : ℕ
  pub lp : ℕ
  pub lc : ℕ
  pub is_streamed : ℕ
  pub uncompressed_size : ℕ
  pub dict_size : ℕ

-- struct elzma_file_footer.
pub record FileFooter : Type 0 where
  pub crc32 : ℕ
  pub uncompressed_size : ℕ

-- struct elzma_format_handler. A buffer is the list of the bytes from the pointer to the end of its
-- object. A function that fills a struct or a buffer returns the new one behind its status.
pub record FormatHandler : Type 0 where
  pub header_size : ℕ
  pub init_header : FileHeader → FileHeader
  pub parse_header : List ℕ → FileHeader → Outcome (ℕ × FileHeader)
  pub serialize_header : List ℕ → FileHeader → Outcome (ℕ × List ℕ)
  pub footer_size : ℕ
  pub serialize_footer : Option (FileFooter → List ℕ → Outcome (ℕ × List ℕ))
  pub parse_footer : Option (List ℕ → FileFooter → Outcome (ℕ × FileFooter))

-- `memset(hdr, 0, sizeof(struct elzma_file_header))`
abbrev pub zero_header : FileHeader
zero_header = record {
  pb = 0;
  lp = 0;
  lc = 0;
  is_streamed = 0;
  uncompressed_size = 0;
  dict_size = 0;
}
