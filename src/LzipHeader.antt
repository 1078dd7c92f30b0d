-- ===== src/LzipHeader.antt =====
-- src/lzip_header.c: the 6 bytes of the lzip header and the 12 bytes of its footer (version 0, with
-- no member length).
pub mod Header
pub mod Footer
pub mod RoundTrip
use Prim.Native.Nat.{bit_and}
use easylzma.Common.{
  ℕ, zero, suc, ◌+◌, ◌/◌, ◌%◌, ◌^◌, Bool, true, false, List, [], ◌∷◌, some, ◌==◌, if◌then◌else◌,
  Outcome, ok, fault, out_of_bounds, ◌>>=◌, drop,
}
use easylzma.Common.Words.{load_le, store_le, shift_loop}
use easylzma.Format.{FileHeader, FileFooter, FormatHandler, zero_header}

abbrev pub elzma_lzip_header_size : ℕ
elzma_lzip_header_size = 6

abbrev pub elzma_lzip_footer_size : ℕ
elzma_lzip_footer_size = 12

unfoldable pub init_lzip_header : FileHeader → FileHeader
init_lzip_header hdr = zero_header

abbrev pub magic : List ℕ
magic = b'L' ∷ b'Z' ∷ b'I' ∷ b'P' ∷ []

-- `0 == strncmp(text, buf, n)` for a text of `n` characters: it stops at the first difference.
unfoldable pub strncmp_eq : List ℕ → List ℕ → Outcome Bool
strncmp_eq [] buf = ok true
strncmp_eq (c ∷ text) [] = fault out_of_bounds
strncmp_eq (c ∷ text) (b ∷ buf) = if c == b then strncmp_eq text buf else ok false

-- `buf[i]`
unfoldable pub byte_at : ℕ → List ℕ → Outcome ℕ
byte_at i [] = fault out_of_bounds
byte_at zero (b ∷ buf) = ok b
byte_at (suc i) (b ∷ buf) = byte_at i buf

-- `1 << 31` is read as the unsigned number, which is what the usual compilers make of it.
unfoldable pub parse_lzip_header : List ℕ → FileHeader → Outcome (ℕ × FileHeader)
unfolding strncmp_eq byte_at
parse_lzip_header hdr_buf hdr = do
  found ← strncmp_eq magic hdr_buf
  elim found [
    | false ↦ ok (1, hdr)
    | true ↦ byte_at 5 hdr_buf >>= λ b. ok (
      0,
      record {
        pb = 2;
        lp = 0;
        lc = 3;
        is_streamed = 1;
        uncompressed_size = 0;
        dict_size = 2 ^ bit_and b 0x1f;
      },
    )
  ]

-- `buf[0..n-1] = bytes` for the `n` bytes, and `next` behind them.
unfoldable pub put_bytes : List ℕ → (List ℕ → Outcome (List ℕ)) → List ℕ → Outcome (List ℕ)
put_bytes [] next buf = next buf
put_bytes (b ∷ bytes) next [] = fault out_of_bounds
put_bytes (b ∷ bytes) next (_ ∷ buf) = do buf' ← put_bytes bytes next buf; ok (b ∷ buf')

-- `(unsigned char) (r - 1) & 0x1F`
abbrev pub width_code : ℕ → ℕ
width_code r = bit_and ((r + 255) % 256) 0x1f

unfoldable pub put_width : FileHeader → List ℕ → Outcome (List ℕ)
unfolding shift_loop put_bytes
put_width hdr buf = do r ← shift_loop 32 hdr.dict_size 0; put_bytes (width_code r ∷ []) ok buf

unfoldable pub serialize_lzip_header : List ℕ → FileHeader → Outcome (ℕ × List ℕ)
unfolding put_width put_bytes
serialize_lzip_header hdr_buf hdr = do
  written ← put_bytes magic (put_bytes (0 ∷ []) (put_width hdr)) hdr_buf
  ok (0, written)

unfoldable pub serialize_lzip_footer : FileFooter → List ℕ → Outcome (ℕ × List ℕ)
serialize_lzip_footer ftr ftr_buf = do
  written ← store_le 4 0 ftr.crc32 (store_le 8 0 ftr.uncompressed_size ok) ftr_buf
  ok (0, written)

unfoldable pub parse_lzip_footer : List ℕ → FileFooter → Outcome (ℕ × FileFooter)
parse_lzip_footer ftr_buf ftr = do
  crc ← load_le 32 4 0 0 ftr_buf
  size ← load_le 64 8 0 0 (drop 4 ftr_buf)
  ok (0, record { crc32 = crc; uncompressed_size = size })

unfoldable pub initialize_lzip_format_handler : FormatHandler → FormatHandler
initialize_lzip_format_handler hand = record {
  header_size = elzma_lzip_header_size;
  init_header = init_lzip_header;
  parse_header = parse_lzip_header;
  serialize_header = serialize_lzip_header;
  footer_size = elzma_lzip_footer_size;
  serialize_footer = some serialize_lzip_footer;
  parse_footer = some parse_lzip_footer;
}
