-- ===== src/Elzma/Names.antt =====
-- The names of the output files in `doCompress` and `doDecompress` of elzma/elzma.c.
pub mod RoundTrip
use easylzma.Common.{
  ℕ, ◌+◌, ◌-◌, Bool, true, false, ◌&&◌, List, [], ◌∷◌, ◌++◌, Option, none, some, ltb, if◌then◌else◌,
  Outcome, ok, fault, out_of_bounds, length, take, drop,
}
use easylzma.Common.Strings.{Str, codes, same}
use easylzma.Api.{FileFormat, lzip, lzma, other}

abbrev pub lzma_ext : Str
lzma_ext = codes ".lzma"

abbrev pub lzip_ext : Str
lzip_ext = codes ".lz"

-- The extension by the type of the compression.
abbrev pub ext_of : FileFormat → Str
ext_of lzip = lzip_ext
ext_of lzma = lzma_ext
ext_of (other n) = lzma_ext

-- A string and its terminating zero in a block of `bytes` bytes.
abbrev pub stored_in : ℕ → Str → Outcome Str
stored_in bytes s = if ltb (length s) bytes then ok s else fault out_of_bounds

-- `usable n` is how many bytes of a block of `malloc(n)` can be written.
module _ (usable : ℕ → ℕ) where
  unfoldable pub compress_name : Str → FileFormat → Outcome Str
  compress_name ifname format =
      stored_in (usable (length ifname + length (ext_of format) + 1)) (ifname ++ ext_of format)

  -- The size of the block has no place for the terminating zero.
  unfoldable pub decompress_name : Str → Str → Outcome Str
  decompress_name ifname ext =
      let n = length ifname - length ext in stored_in (usable n) (take n ifname)

-- `strlen(ifname) > strlen(ext) && 0 == strcmp(ext, ifname + strlen(ifname) - strlen(ext))`
abbrev pub has_ext : Str → Str → Bool
has_ext ext ifname =
    ltb (length ext) (length ifname) && same ext (drop (length ifname - length ext) ifname)

-- The format, and its extension.
unfoldable pub name_format : Str → Option (FileFormat × Str)
name_format ifname =
    if has_ext lzma_ext ifname
    then some (lzma, lzma_ext)
    else if has_ext lzip_ext ifname
    then some (lzip, lzip_ext)
    else none
