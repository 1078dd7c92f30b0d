-- ===== src/LzipHeader/Footer.antt =====
-- The footer functions of src/lzip_header.c, one after the other.
use easylzma.Common.{ℕ, ◌≡◌, refl, List, ◌++◌, ok, ◌>>=◌, length, drop}
use easylzma.Common.Words.{IsU32, IsU64, store_le}
use easylzma.Common.Words.LittleEndian.{
  le_bytes, length-le_bytes, le_bytes-IsByte, le_value-le_bytes, load_le-value, store_le-bytes,
}
use easylzma.Format.{FileFooter}
use easylzma.LzipHeader.{serialize_lzip_footer, parse_lzip_footer}

-- The twelve bytes of a footer, over the front of a buffer.
pub serialize_lzip_footer_lem :
    (ftr : FileFooter) (crc_old size_old rest : List ℕ)
    → length crc_old ≡ 4
    → length size_old ≡ 8
    → serialize_lzip_footer ftr (crc_old ++ (size_old ++ rest))
      ≡ ok (0, le_bytes 4 ftr.crc32 ++ (le_bytes 8 ftr.uncompressed_size ++ rest))
unfolding serialize_lzip_footer
serialize_lzip_footer_lem ftr crc_old size_old rest hc hs = rw (
    store_le-bytes 4 ftr.crc32 (store_le 8 0 ftr.uncompressed_size ok) crc_old (size_old ++ rest) hc
      (store_le-bytes 8 ftr.uncompressed_size ok size_old rest hs refl))

drop_four : (v : ℕ) (rest : List ℕ) → drop 4 (le_bytes 4 v ++ rest) ≡ rest
unfolding le_bytes
drop_four v rest = refl

pub parse_lzip_footer_lem :
    (crc size : ℕ) (rest : List ℕ) (init : FileFooter)
    → IsU32 crc
    → IsU64 size
    → parse_lzip_footer (le_bytes 4 crc ++ (le_bytes 8 size ++ rest)) init
      ≡ ok (0, record { crc32 = crc; uncompressed_size = size })
unfolding parse_lzip_footer
parse_lzip_footer_lem crc size rest init hc hs = rw (
  load_le-value 32 4 (le_bytes 4 crc) (le_bytes 8 size ++ rest) refl (length-le_bytes 4 crc)
      (le_bytes-IsByte 4 crc),
  drop_four crc (le_bytes 8 size ++ rest),
  load_le-value 64 8 (le_bytes 8 size) rest refl (length-le_bytes 8 size) (le_bytes-IsByte 8 size),
  le_value-le_bytes 4 crc hc,
  le_value-le_bytes 8 size hs,
)

-- For a buffer of at least 12 bytes, a footer whose checksum fits 32 bits and whose size fits 64 is
-- parsed back from what was written of it.
pub parse-serialize_lzip_footer :
    (ftr init : FileFooter) (crc_old size_old rest : List ℕ)
    → length crc_old ≡ 4
    → length size_old ≡ 8
    → IsU32 ftr.crc32
    → IsU64 ftr.uncompressed_size
    → (serialize_lzip_footer ftr (crc_old ++ (size_old ++ rest)) >>= λ written.
        parse_lzip_footer written.1 init)
      ≡ ok (0, ftr)
parse-serialize_lzip_footer ftr init crc_old size_old rest h1 h2 hc hs = rw (
  serialize_lzip_footer_lem ftr crc_old size_old rest h1 h2,
  parse_lzip_footer_lem ftr.crc32 ftr.uncompressed_size rest init hc hs,
)
