-- ===== src/LzmaHeader/RoundTrip.antt =====
-- `parse_lzma_header` and `serialize_lzma_header` of src/lzma_header.c, one after the other.
use easylzma.Common.{
  ℕ, ◌^◌, ◌≤◌, ◌<◌, ◌≡◌, ◌≢◌, List, ◌∷◌, ◌++◌, arith, ltb, ◌==◌, if◌then◌else◌, Outcome, ok, fault,
  assertion, ◌>>=◌, length, length-append, All,
}
use easylzma.Common.Words.{IsByte, IsU32, IsU64}
use easylzma.Common.Words.LittleEndian.{
  le_value, le_bytes, length-le_bytes, le_bytes-IsByte, le_value-le_bytes, le_bytes-le_value,
}
use mathlib.Core.List.{append_assoc}
use easylzma.Format.{FileHeader}
use easylzma.LzmaHeader.{properties_byte, parse_lzma_header, serialize_lzma_header}
use easylzma.LzmaHeader.Parse.{with_properties, with_dictionary, with_size, parse_lzma_header_lem}
use easylzma.LzmaHeader.Serialize.{stored_size, serialize_lzma_header_lem}

-- Write the header over the front of a buffer, and read it back from there.
abbrev pub rewritten : List ℕ → FileHeader → FileHeader → Outcome (ℕ × FileHeader)
rewritten buf hdr init =
    serialize_lzma_header buf hdr >>= λ written. parse_lzma_header written.1 init

-- A header whose fields the format can hold, and the serializer writes as the parser reads them.
pub record IsEncodable (hdr : FileHeader) : Type 0 where
  pub lc_small : hdr.lc < 9
  pub lp_zero : hdr.lp ≡ 0
  pub pb_small : hdr.pb < 5
  pub dict_size_small : hdr.dict_size ≤ 2 ^ 28
  pub size_fits : IsU64 hdr.uncompressed_size

-- The header with the size as the file stores it.
abbrev pub stored_header : FileHeader → FileHeader
stored_header hdr = with_size (stored_size hdr) hdr

-- The header that comes back, for any header whose size field is a 64-bit number.
module _ (hdr init : FileHeader) (old rest : List ℕ) where
  rewritten-cases :
      length old ≡ 13
      → IsU32 hdr.dict_size
      → IsU64 hdr.uncompressed_size
      → let c = properties_byte hdr in
        rewritten (old ++ rest) hdr init ≡ (
          if ltb 225 c
          then ok (1, init)
          else if c == 225
          then fault assertion
          else if ltb (2 ^ 28) hdr.dict_size
          then ok (1, with_dictionary hdr.dict_size (with_properties c init))
          else ok (
            0,
            with_size (stored_size hdr) (with_dictionary hdr.dict_size (with_properties c init)),
          ))
  rewritten-cases sized hd hu =
      let c = properties_byte hdr in
      let ds = le_bytes 4 hdr.dict_size in
      let us = le_bytes 8 (stored_size hdr) in
      let parsed =
        parse_lzma_header_lem c ds us rest init (length-le_bytes 4 hdr.dict_size)
          (length-le_bytes 8 (stored_size hdr)) (le_bytes-IsByte 4 hdr.dict_size)
          (le_bytes-IsByte 8 (stored_size hdr)) in
      let dict_back = le_value-le_bytes 4 hdr.dict_size hd in
      let fits : IsU64 (stored_size hdr) = ground arith in
      let size_back = le_value-le_bytes 8 (stored_size hdr) fits in
      rw (serialize_lzma_header_lem hdr old rest sized, parsed, dict_back, size_back)

  -- For an encodable header and a buffer of at least 13 bytes, writing the header and parsing the
  -- buffer succeeds. It gives the header back, with 2^64 - 1 for the size when the size is unknown.
  pub parse-serialize_lzma_header :
      length old ≡ 13
      → IsEncodable hdr
      → rewritten (old ++ rest) hdr init ≡ ok (0, stored_header hdr)
  parse-serialize_lzma_header sized fine = ground (arith, rewritten-cases)

  -- A header with lc < 9, lp < 5, pb < 5 and lp other than 0, and with a dictionary size and a size
  -- that fit their types, never comes back: if parsing what was written to a buffer of at least 13
  -- bytes succeeds, then pb, lp and lc are not all the same as before.
  pub lp_lost :
      length old ≡ 13
      → hdr.lc < 9
      → hdr.lp < 5
      → hdr.pb < 5
      → hdr.lp ≢ 0
      → IsU32 hdr.dict_size
      → IsU64 hdr.uncompressed_size
      → {back : FileHeader} → rewritten (old ++ rest) hdr init ≡ ok (0, back)
      → ¬ ((back.pb ≡ hdr.pb) × (back.lp ≡ hdr.lp) × (back.lc ≡ hdr.lc))
  lp_lost sized h1 h2 h3 h4 hd hu e same = ground (arith, rewritten-cases)

-- Let a buffer begin with 13 bytes that parse to a header whose lp is 0. Writing that header over
-- the buffer gives the same buffer again.
pub serialize-parse_lzma_header :
    (c : ℕ) (ds us rest : List ℕ) (hdr init : FileHeader)
    → IsByte c
    → length ds ≡ 4
    → length us ≡ 8
    → All IsByte ds
    → All IsByte us
    → parse_lzma_header (c ∷ (ds ++ (us ++ rest))) init ≡ ok (0, hdr)
    → hdr.lp ≡ 0
    → serialize_lzma_header (c ∷ (ds ++ (us ++ rest))) hdr ≡ ok (0, c ∷ (ds ++ (us ++ rest)))
serialize-parse_lzma_header c ds us rest hdr init hc hd hu bd bu e lp =
    let parsed = parse_lzma_header_lem c ds us rest init hd hu bd bu in
    let ds_back = le_bytes-le_value 4 ds hd bd in
    let us_back = le_bytes-le_value 8 us hu bu in
    let written =
      serialize_lzma_header_lem hdr (c ∷ (ds ++ us)) rest (omega (arith, length-append ds us)) in
    let byte : properties_byte hdr ≡ c = ground arith in
    let dict : hdr.dict_size ≡ le_value ds = ground arith in
    let size : stored_size hdr ≡ le_value us = ground arith in
    rw (← append_assoc ds us rest, written, byte, dict, size, ds_back, us_back, append_assoc)
