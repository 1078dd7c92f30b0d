-- ===== src/LzmaHeader.antt =====
-- src/lzma_header.c: the 13 bytes of the LZMA-Alone header.
pub mod Parse
pub mod Serialize
pub mod RoundTrip
use easylzma.Common.{
  ℕ, zero, suc, ◌+◌, ◌*◌, ◌/◌, ◌%◌, ◌^◌, ◌-◌, Bool, true, false, ◌&&◌, ◌||◌, List, [], ◌∷◌, Option,
  none, some, ltb, ◌==◌, if◌then◌else◌, Outcome, ok, fault, out_of_bounds, assertion, ◌>>=◌, drop,
  replicate,
}
use easylzma.Common.Words.{load_le, store_le}
use easylzma.Format.{FileHeader, FormatHandler, zero_header}

abbrev pub elzma_lzma_header_size : ℕ
elzma_lzma_header_size = 13

pub record Properties : Type 0 where
  pub pb : ℕ
  pub lp : ℕ
  pub lc : ℕ

-- `none` is the result -1.
unfoldable pub lzmadec_header_properties : ℕ → Outcome (Option Properties)
lzmadec_header_properties c =
    let pb = c / 45 in
    let lp = c % 45 / 9 in
    let lc = c % 9 in
    if ltb (9 * 5 * 5) c
    then ok none
    else if ltb pb 5 && ltb lp 5 && ltb lc 9
    then ok (some (record { pb = pb; lp = lp; lc = lc }))
    else fault assertion

-- The size is stored whether or not it is accepted; `true` is the result -1.
unfoldable pub lzmadec_header_dictionary : List ℕ → Outcome (Bool × ℕ)
lzmadec_header_dictionary buffer = do size ← load_le 32 4 0 0 buffer; ok (ltb (2 ^ 28) size, size)

unfoldable pub uncompressed_loop : ℕ → ℕ → ℕ → ℕ → List ℕ → Outcome (ℕ × ℕ)
uncompressed_loop zero i size is_streamed buffer = ok (size, is_streamed)
uncompressed_loop (suc n) i size is_streamed [] = fault out_of_bounds
uncompressed_loop (suc n) i size is_streamed (b ∷ buffer) =
    uncompressed_loop n (i + 1) ((size + b * 2 ^ (i * 8) % 2 ^ 64) % 2 ^ 64)
      (if b == 255 then is_streamed else 0) buffer

abbrev pub uint64_max : ℕ
uint64_max = 2 ^ 64 - 1

-- The size and the streamed flag.
unfoldable pub lzmadec_header_uncompressed : List ℕ → Outcome (ℕ × ℕ)
unfolding uncompressed_loop
lzmadec_header_uncompressed buffer = do
  (size, is_streamed) ← uncompressed_loop 8 0 0 1 buffer
  if (is_streamed == 1 && size == uint64_max) || (is_streamed == 0 && ltb size uint64_max)
      then ok (size, is_streamed)
      else fault assertion

unfoldable pub init_lzma_header : FileHeader → FileHeader
init_lzma_header hdr = zero_header

-- The steps behind an accepted properties byte, and behind an accepted dictionary size.
parse_lzma_size : List ℕ → FileHeader → Outcome (ℕ × FileHeader)
parse_lzma_size buffer hdr = do
  (size, is_streamed) ← lzmadec_header_uncompressed buffer
  ok (0, record hdr { uncompressed_size = size; is_streamed = is_streamed })

parse_lzma_dictionary : List ℕ → FileHeader → Outcome (ℕ × FileHeader)
unfolding parse_lzma_size
parse_lzma_dictionary buffer hdr = do
  (failed, size) ← lzmadec_header_dictionary buffer
  let hdr' : FileHeader = record hdr { dict_size = size }
  if failed then ok (1, hdr') else parse_lzma_size (drop 4 buffer) hdr'

unfoldable pub parse_lzma_header : List ℕ → FileHeader → Outcome (ℕ × FileHeader)
unfolding parse_lzma_dictionary
parse_lzma_header [] hdr = fault out_of_bounds
parse_lzma_header (c ∷ buffer) hdr = do
  p ← lzmadec_header_properties c
  elim p [
    | none ↦ ok (1, hdr)
    | some q ↦ parse_lzma_dictionary buffer (record hdr { pb = q.pb; lp = q.lp; lc = q.lc })
  ]

-- The loop over the 8 bytes of the size; the flag is tested in each round.
unfoldable pub store_size : ℕ → ℕ → FileHeader → List ℕ → Outcome (List ℕ)
store_size zero i hdr buf = ok buf
store_size (suc n) i hdr [] = fault out_of_bounds
store_size (suc n) i hdr (_ ∷ buf) = do
  buf' ← store_size n (i + 1) hdr buf
  ok ((if hdr.is_streamed == 0 then hdr.uncompressed_size / 2 ^ (i * 8) % 256 else 255) ∷ buf')

-- `memset` of the first bytes of a buffer to 0.
unfoldable pub memset_zero : ℕ → List ℕ → Outcome (List ℕ)
memset_zero zero buf = ok buf
memset_zero (suc n) [] = fault out_of_bounds
memset_zero (suc n) (_ ∷ buf) = do buf' ← memset_zero n buf; ok (0 ∷ buf')

-- `hdr->lc + (hdr->pb * 45) + (hdr->lp * 45 * 9)`, stored in an unsigned char.
abbrev pub properties_byte : FileHeader → ℕ
properties_byte hdr = (hdr.lc + hdr.pb * 45 + hdr.lp * 45 * 9) % 256

unfoldable pub serialize_fields : FileHeader → List ℕ → Outcome (List ℕ)
serialize_fields hdr [] = fault out_of_bounds
serialize_fields hdr (_ ∷ buf) = do
  buf' ← store_le 4 0 hdr.dict_size (store_size 8 0 hdr) buf
  ok (properties_byte hdr ∷ buf')

unfoldable pub serialize_lzma_header : List ℕ → FileHeader → Outcome (ℕ × List ℕ)
unfolding serialize_fields store_size memset_zero
serialize_lzma_header hdr_buf hdr = do
  cleared ← memset_zero elzma_lzma_header_size hdr_buf
  written ← serialize_fields hdr cleared
  ok (0, written)

-- `parse_footer` keeps what it held, since the C function does not set it.
unfoldable pub initialize_lzma_format_handler : FormatHandler → FormatHandler
initialize_lzma_format_handler hand = record hand {
  header_size = elzma_lzma_header_size;
  init_header = init_lzma_header;
  parse_header = parse_lzma_header;
  serialize_header = serialize_lzma_header;
  footer_size = 0;
  serialize_footer = none;
}
